-- ===== src/Store/Wait.antt =====
-- `Store::wait` of src/store.rs: a poll of the database for the answer to the caller's request.
use harness_talk.Prelude.{
  ℕ, zero, suc, ◌+◌, ◌-◌, String, String_eq, not, ◌||◌, ◌&&◌, Option, none, some, ◌==◌, min, leb,
  ltb, find?, if◌then◌else◌,
}
use harness_talk.Error.{ok, err, db, Result, refuse_if, other_code}
use harness_talk.Model.{Row, Message}
use harness_talk.Validate.{Seconds, ms}
use harness_talk.Validate
use harness_talk.Db.{Db, is_some}
use harness_talk.Db.Update.{set_returned, add_wait, drop_wait}
use harness_talk.Proc.{
  Proc, read, write, write_at, now, lift, pure, raise, try, sleep, new_id, check_interrupted, ◌>>=◌,
  ◌>>◌,
}
use harness_talk.Store.{load}
use harness_talk.Store.Notify.{out_of_fuel}

-- SELECT wait_returned_at FROM messages WHERE id=? AND recipient=?
abbrev pub returned_at : String → String → Db → Result (Option ℕ)
returned_at id actor d = elim (find? (λ m. m.id == id && m.recipient == actor) d.messages) [
  | none ↦ err (db other_code)
  | some m ↦ ok m.wait_returned_at
]

unfoldable pub record_return : String → String → Proc (Option ℕ)
record_return id actor = do
  time ← now
  write (set_returned id actor time)
  read (returned_at id actor)

abbrev with_return : Message → Row → Result (Option ℕ) → Message
with_return request answer (ok time) = record request {
  reply = some (record answer { wait_returned_at = time });
}
with_return request answer (err e) = request

unfoldable pub return_answer : Message → String → Option Row → Proc Message
unfolding record_return
return_answer request actor none = pure request
return_answer request actor (some answer) =
    if is_some answer.wait_returned_at then pure request else do
      recorded ← try (record_return answer.id actor)
      pure (with_return request answer recorded)

-- `return_wait_answer`. It is called only where there is an answer.
unfoldable pub return_wait_answer : Message → String → Proc Message
unfolding return_answer
return_wait_answer request actor = do check_interrupted; return_answer request actor request.reply

-- The loop of `wait`: a poll every 100 ms at most, the last at the deadline.
unfoldable pub poll_answer : ℕ → String → String → ℕ → Proc Message
poll_answer zero id actor deadline = raise out_of_fuel
poll_answer (suc fuel) id actor deadline = do
  check_interrupted
  result ← load id (some actor)
  time ← now
  let again = sleep (min (deadline - time) 100) >> poll_answer fuel id actor deadline
  if is_some result.reply
      then return_wait_answer result actor
      else if leb deadline time
      then pure (record result { wait_ended = some "timeout" })
      else again

-- A wait of at most 45 s is polled at most 451 times, 100 ms apart.
abbrev pub wait_fuel : ℕ
wait_fuel = 451

-- The drop of `Registration`: it runs however the wait ends, and its failure is ignored.
unfoldable pub finally : {A : Type 0} → Proc A → Proc (Unit {0}) → Proc A
finally m cleanup w = let (r, w') = m w in let (_, w'') = cleanup w' in (r, w'')

-- A poll that may last is registered while it lasts. (Where its registration fails, the source
-- may still send the DELETE for a row that is not there.)
unfoldable pub registered_poll : String → String → ℕ → ℕ → Proc Message
unfolding finally
registered_poll id actor seconds deadline =
    if ltb 0 seconds
    then (do
      token ← new_id
      write_at (λ time.
          add_wait
            (record { token = token; message_id = id; actor = actor; until = time + seconds }) time)
      finally (poll_answer wait_fuel id actor deadline) (write (drop_wait token)))
    else poll_answer wait_fuel id actor deadline

abbrev pub in_ms : Seconds → ℕ
in_ms (ms t) = t
in_ms _ = 0

unfoldable pub wait : String → String → Seconds → Proc Message
wait id actor seconds = do
  lift (Validate.wait seconds)
  request ← load id (some actor)
  lift (
      refuse_if (not (request.row.sender == actor) || is_some request.row.in_reply_to)
        "wait_requires_own_request")
  if is_some request.reply
      then return_wait_answer request actor
      else do start ← now; registered_poll id actor (in_ms seconds) (start + in_ms seconds)
