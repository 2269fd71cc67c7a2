-- ===== src/Store/Notify.antt =====
-- `Store::notify_once` of src/store.rs: one notification attempt for a message, ever.
pub mod Once
use harness_talk.Prelude.{
  ℕ, zero, suc, ◌+◌, ◌-◌, String, ◌||◌, Option, none, some, min, leb, nat_eq, if◌then◌else◌,
}
use harness_talk.Error.{Error, ok, err, db, Result, fixed_code, system}
use harness_talk.Model.{Peer, Message, Outcome, Cleanup, SkipReason, not_submitted}
use harness_talk.Model.Words.{skip_reason_as_str}
use harness_talk.Db.{is_some, wait_deadline}
use harness_talk.Db.Update.{claim, finish}
use harness_talk.Proc.{
  Proc, read, write, now, gets, lift, pure, raise, try, sleep, check_interrupted, record_call,
  ◌>>=◌, ◌>>◌,
}
use harness_talk.Store.{peer, load, skip_reason, fixed, Client, foreign}
use harness_talk.Store.Messages.{dismiss_acknowledged}

-- What the loops of the store answer if they run out of fuel. No run does.
abbrev pub out_of_fuel : Error
out_of_fuel = system "out_of_fuel"

-- The loop of `skip_after_grace`: it reads the reason every 20 ms until there is one, the time is
-- up or an interrupt has come.
unfoldable pub poll_skip : ℕ → ℕ → Message → Proc (Option SkipReason)
poll_skip zero end message = raise out_of_fuel
poll_skip (suc fuel) end message = do
  reason ← skip_reason message.row.id message.row.recipient
  time ← now
  stopped ← gets (λ w. w.stop)
  let again = sleep 20 >> poll_skip fuel end message
  if is_some reason || leb end time || stopped then pure reason else again

abbrev pub wait_grace : ℕ
wait_grace = 1000

abbrev grace : Option ℕ → ℕ → ℕ
grace none time = 0
grace (some until) time = min wait_grace (until - time)

-- A grace of at most a second is read at most 51 times, 20 ms apart.
abbrev pub poll_fuel : ℕ
poll_fuel = 51

unfoldable pub skip_after_grace : Message → Proc (Option SkipReason)
skip_after_grace message = do
  until ← read (λ d. ok (wait_deadline message.row.id message.row.recipient d))
  time ← now
  poll_skip poll_fuel (time + grace until time) message

-- A database error leaves it to the adapter, which repeats the check before it writes.
abbrev pub without_db : Result (Option SkipReason) → Result (Option SkipReason)
without_db (err (db c)) = ok none
without_db r = r

abbrev not_submitted_as : String → Outcome
not_submitted_as detail = record { submission = not_submitted; detail = detail }

unfoldable pub notify_peer :
    String → (Peer → Message → Client Outcome) → Message → Result Peer → Proc Outcome
notify_peer id notify message (ok p) = do record_call id; foreign (notify p message)
notify_peer id notify message (err e) = pure (not_submitted_as (fixed_code (fixed e)))

unfoldable pub deliver :
    String → (Peer → Message → Client Outcome) → Message → Option SkipReason → Proc Outcome
unfolding notify_peer
deliver id notify message (some reason) = pure (not_submitted_as (skip_reason_as_str reason))
deliver id notify message none = do
  to ← try (peer message.row.recipient)
  notify_peer id notify message to

-- What follows a claim that this process has won.
unfoldable pub attempt :
    String → (Peer → Message → Client Outcome) → (Peer → Message → Client Cleanup) → Proc Message
unfolding deliver
attempt id notify dismiss = do
  message ← load id none
  tried ← try (skip_after_grace message)
  reason ← lift (without_db tried)
  check_interrupted
  outcome ← deliver id notify message reason
  check_interrupted
  time ← now
  write (finish id outcome time)
  current ← load id none
  dismiss_acknowledged dismiss current

unfoldable pub notify_once :
    String → (Peer → Message → Client Outcome) → (Peer → Message → Client Cleanup) → Proc Message
notify_once id notify dismiss = do
  time ← now
  claimed ← write (claim id time)
  if nat_eq claimed 0 then load id none else attempt id notify dismiss
