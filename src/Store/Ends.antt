-- ===== src/Store/Ends.antt =====
-- The loops of src/store.rs and their fuel: the poll of `wait` and the grace of `notify_once`.
pub mod Notify
use harness_talk.Prelude.{
  ℕ, zero, suc, ◌+◌, ◌*◌, ◌-◌, ◌≤◌, ◌<◌, String, String_eq, Bool, true, false, ◌≡◌, ◌≢◌, refl, ◌==◌,
  not, ◌||◌, Option, none, some, arith, min, leb, ltb, if◌then◌else◌,
}
use harness_talk.Error.{Result, ok, err, code, db, fixed_code, refuse_if, ◌>>=◌, ◌>>◌}
use harness_talk.Model.{Peer, Message, Outcome, Cleanup, SkipReason, Row}
use harness_talk.Validate.{Seconds, ms}
use harness_talk.Validate
use harness_talk.Db.{
  Wait, Db, is_some, load_row, peer_on, skip_by_message, ok_or, find_peer, find_message,
}
use harness_talk.Db.Update.{set_returned, add_wait, drop_wait, claim, finish}
use harness_talk.Proc.{World, Proc, write, sleep, ◌>>=◌ as ◌>>>=◌}
use harness_talk.Proc.Runs.{Follows, Follows-sleep, Follows-bind}
use harness_talk.Proc.Ends.{
  Ends, plain, Ends-write_at, Ends-write, Ends-read, Ends-pure, Ends-code, Ends-lift, Ends-gets,
  Ends-try, Ends-if, Ends-check_interrupted, Ends-new_id, Ends-record_call, Ends-bind, Ends-now,
  Ends-sleep, Ends-lift_then,
}
use harness_talk.Store.{peer, load, skip_unless_found, skip_reason, Client, foreign}
use harness_talk.Store.Steps.{reads, add_wait-Follows, foreign-Follows, IsClient}
use harness_talk.Store.Moves.{
  skip_after_grace-Follows, dismiss_acknowledged-Follows, attempt-Follows, record_return-Follows,
}
use harness_talk.Store.Messages.{cleanup_by, dismiss_since, dismiss_acknowledged}
use harness_talk.Store.Notify.{
  out_of_fuel, poll_skip, skip_after_grace, deliver, notify_peer, attempt, notify_once,
}
use harness_talk.Store.Wait.{
  in_ms, record_return, return_answer, return_wait_answer, poll_answer, wait_fuel, finally,
  registered_poll, wait,
}

load_row-plain : (id : String) (actor : Option String) (d : Db) → plain (load_row id actor d) ≡ true
unfolding load_row
load_row-plain id actor d = ground arith

peer_on-plain : (name : String) (d : Db) → plain (peer_on name d) ≡ true
unfolding peer_on
peer_on-plain name d = ground arith

skip_by_message-plain : (id to : String) (d : Db) → plain (skip_by_message id to d) ≡ true
unfolding skip_by_message
skip_by_message-plain id to d = ground arith

pub peer-Ends : {t : ℕ} (name : String) → Ends t (peer name)
unfolding peer
peer-Ends name = Ends-read _ (peer_on-plain name)

pub load-Ends : {t : ℕ} (id : String) (actor : Option String) → Ends t (load id actor)
unfolding load
load-Ends id actor =
    Ends-bind _ _ (Ends-read _ (load_row-plain id actor)) (search reads)
      λ row. Ends-bind _ _ (Ends-read _ (λ d. refl)) (search reads) λ reply. Ends-pure _

skip_unless_found-Ends :
    {t : ℕ} (to : String) (r : Option SkipReason) → Ends t (skip_unless_found to r)
unfolding skip_unless_found
skip_unless_found-Ends to none = Ends-read _ (λ d. refl)
skip_unless_found-Ends to (some r) = Ends-pure _

skip_reason-Ends : {t : ℕ} (id to : String) → Ends t (skip_reason id to)
unfolding skip_reason
skip_reason-Ends id to =
    Ends-bind _ _ (Ends-read _ (skip_by_message-plain id to)) (search reads)
      λ r. skip_unless_found-Ends to r

late : {a b : ℕ} → b ≤ a → leb b a ≢ false
late h e = ground arith

rest_enough :
    (deadline t s fuel : ℕ)
    → deadline ≤ t + 100 * suc fuel
    → t ≤ s
    → deadline ≤ s + min (deadline - s) 100 + 100 * fuel
rest_enough deadline t s fuel h le = ground arith

-- The last round is one at which the time is up.
last_round : (found stopped : Bool) (end s : ℕ) → end ≤ s → (found || leb end s || stopped) ≢ false
last_round found stopped end s h e = ground arith

-- A round that is not the last is 20 ms before the next.
poll_skip-Ends :
    (fuel t end : ℕ) (m : Message) → end ≤ t + 20 * fuel → Ends t (poll_skip (suc fuel) end m)
unfolding poll_skip
poll_skip-Ends zero t end m h = Ends-bind _ _ (skip_reason-Ends _ _) (search reads) λ reason.
    Ends-now _ λ s le. Ends-bind _ _ (Ends-gets _) (search reads) λ stopped.
      Ends-if (is_some reason || leb end s || stopped) _ _ (λ _. Ends-pure reason)
        λ e. absurd (last_round (is_some reason) stopped end s (omega arith) e)
poll_skip-Ends (suc fuel) t end m h = Ends-bind _ _ (skip_reason-Ends _ _) (search reads) λ reason.
    Ends-now _ λ s le. Ends-bind _ _ (Ends-gets _) (search reads) λ stopped.
      Ends-if (is_some reason || leb end s || stopped) _ _ (λ _. Ends-pure reason)
        λ e. Ends-sleep 20 _ (poll_skip-Ends fuel (s + 20) end m (omega (arith, h, le)))

record_return_answer-Ends :
    {t : ℕ} (m : Message) (r : Row) (actor : String) → Ends t (return_answer m actor (some r))
unfolding return_answer
record_return_answer-Ends m r actor =
    Ends-if (is_some r.wait_returned_at) _ _ (λ _. Ends-pure m)
      λ _. Ends-bind _ _ (Ends-try _) (search (reads, record_return-Follows)) λ x. Ends-pure _

return_answer-Ends :
    {t : ℕ} (m : Message) (actor : String) (r : Option Row) → Ends t (return_answer m actor r)
return_answer-Ends m actor none = unfold return_answer in Ends-pure m
return_answer-Ends m actor (some r) = record_return_answer-Ends m r actor

pub skip_after_grace-Ends : {t : ℕ} (m : Message) → Ends t (skip_after_grace m)
unfolding skip_after_grace
skip_after_grace-Ends m =
    Ends-bind _ _ (Ends-read _ (λ d. refl)) (search reads)
      λ until. Ends-now _ λ s le. poll_skip-Ends 50 s _ m (ground arith)

pub foreign-Ends : {t : ℕ} {A : Type 0} (f : Client A) → Ends t (foreign f)
unfolding foreign
foreign-Ends f = record { at = λ w h. refl }

return_wait_answer-Ends :
    {t : ℕ} (m : Message) (actor : String) → Ends t (return_wait_answer m actor)
unfolding return_wait_answer
return_wait_answer-Ends m actor =
    Ends-bind _ _ Ends-check_interrupted (search reads) λ _. return_answer-Ends m actor m.reply

-- The loop of `wait` rests for 100 ms, or until the deadline.
poll_answer-Ends :
    (fuel t deadline : ℕ) (id actor : String)
    → deadline ≤ t + 100 * fuel
    → Ends t (poll_answer (suc fuel) id actor deadline)
unfolding poll_answer
poll_answer-Ends zero t deadline id actor h =
    Ends-bind _ _ Ends-check_interrupted (search reads) λ _.
      Ends-bind _ _ (load-Ends id (some actor)) (search reads) λ m. Ends-now _ λ s le.
        Ends-if (is_some m.reply) _ _ (λ _. return_wait_answer-Ends m actor)
          λ _.
            Ends-if (leb deadline s) _ _ (λ _. Ends-pure _)
              λ e. absurd (late (omega (arith, h, le)) e)
poll_answer-Ends (suc fuel) t deadline id actor h =
    Ends-bind _ _ Ends-check_interrupted (search reads) λ _.
      Ends-bind _ _ (load-Ends id (some actor)) (search reads) λ m. Ends-now _ λ s le.
        Ends-if (is_some m.reply) _ _ (λ _. return_wait_answer-Ends m actor)
          λ _.
            Ends-if (leb deadline s) _ _ (λ _. Ends-pure _)
              λ e.
                Ends-sleep (min (deadline - s) 100) _
                  (poll_answer-Ends fuel _ deadline id actor (rest_enough deadline t s fuel h le))

add_wait-plain : (w : Wait) (t : ℕ) (d : Db) → plain (add_wait w t d).0 ≡ true
unfolding add_wait
add_wait-plain w t d = ground arith

finally-Ends :
    {t : ℕ} {A : Type 0} (m : Proc A) (n : Proc (Unit {0})) → Ends t m → Ends t (finally m n)
unfolding finally
finally-Ends m n h = record { at = h.at }

registered_poll-Ends :
    {t : ℕ} (id actor : String) (seconds deadline : ℕ)
    → deadline ≤ t + 45000
    → Ends t (registered_poll id actor seconds deadline)
unfolding registered_poll
registered_poll-Ends {t} id actor seconds deadline h =
    Ends-if (ltb 0 seconds) _ _
      (λ _. Ends-bind _ _ Ends-new_id (search reads) λ token.
        Ends-bind _ _ (Ends-write_at _ λ s d. add_wait-plain _ s d) (add_wait-Follows _) λ _.
          finally-Ends (poll_answer wait_fuel id actor deadline) (write (drop_wait token))
            (poll_answer-Ends 450 t deadline id actor (omega (arith, h))))
      (λ _. poll_answer-Ends 450 t deadline id actor (omega (arith, h)))

wait-plain : (seconds : Seconds) → plain (Validate.wait seconds) ≡ true
unfolding Validate.wait
wait-plain seconds = ground arith

refuse_plain : (b : Bool) (c : String) → plain (refuse_if b c) ≡ true
refuse_plain b c = ground arith

pub not_plain : {A : Type 0} {r : Result A} → r ≡ err out_of_fuel → plain r ≢ true
not_plain e h = cc

short : (seconds : Seconds) → Validate.wait seconds ≡ ok tt → in_ms seconds ≤ 45000
unfolding Validate.wait
short seconds h = ground arith

wait-Ends : {t : ℕ} (id actor : String) (seconds : Seconds) → Ends t (wait id actor seconds)
unfolding wait
wait-Ends id actor seconds = Ends-lift_then (Validate.wait seconds) _ (wait-plain seconds) λ e.
    Ends-bind _ _ (load-Ends id (some actor)) (search reads) λ request.
      Ends-bind _ _ (Ends-lift _ (refuse_plain _ _)) (search reads) λ _.
        Ends-if (is_some request.reply) _ _ (λ _. return_wait_answer-Ends request actor)
          λ _. Ends-now _ λ s le. registered_poll-Ends id actor _ _ (omega (arith, short seconds e))

-- Whatever the world does meanwhile, a wait never uses up the fuel of its loop.
pub wait_ends :
    (id actor : String) (seconds : Seconds) (w : World)
    → (wait id actor seconds w).0 ≢ err out_of_fuel
wait_ends id actor seconds w e =
    not_plain e ((wait-Ends {t = 0} id actor seconds).at w (omega arith))
