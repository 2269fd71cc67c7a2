-- ===== src/Store/Moves.antt =====
-- Every operation of the store moves the mailbox by the transactions of Db/Txn.antt alone, whatever
-- other processes do meanwhile, whichever statement fails and whenever an interrupt comes.
use harness_talk.Prelude.{
  ℕ, zero, suc, String, Bool, false, Option, none, some, List, ℤ, ◌+◌, ◌-◌, ◌||◌, leb, min,
}
use harness_talk.Error.{Result, ok, err}
use harness_talk.Model.{Peer, Row, Message, Outcome, Cleanup, SkipReason}
use harness_talk.Validate.{Seconds}
use harness_talk.Db.{Db, is_some}
use harness_talk.Proc.{Proc}
use harness_talk.Proc.Runs.{
  Moves-trans, Follows, Follows-sleep, Follows-now, Follows-gets, Follows-pure,
  Follows-check_interrupted, Follows-bind, Follows-then, Follows-if,
}
use harness_talk.Store.{Client}
use harness_talk.Store.Peers
use harness_talk.Store.Messages
use harness_talk.Store.Messages.{
  draft_id, answer_saved, cleanup_by, dismiss_since, dismiss_acknowledged,
}
use harness_talk.Store.Notify.{
  poll_skip, skip_after_grace, notify_peer, deliver, attempt, notify_once,
}
use harness_talk.Store.Listing
use harness_talk.Store.Wait.{
  record_return, return_answer, return_wait_answer, poll_answer, finally, registered_poll, wait,
}
use harness_talk.Store.Steps.{
  IsClient, add_wait-Follows, drop_wait-Follows, statements, load-Follows, skip_reason-Follows,
  reads, foreign-Follows,
}

-- The operations.
pub register-Follows : {q : Bool} → (p : Peer) → Follows q (Peers.register p)
unfolding Peers.register
register-Follows p = search reads

pub retire-Follows : {q : Bool} → (name : String) → Follows q (Peers.retire name)
unfolding Peers.retire
retire-Follows name = search reads

pub restore-Follows : {q : Bool} → (name : String) → Follows q (Peers.restore name)
unfolding Peers.restore
restore-Follows name = search reads

draft_id-Follows :
    {q : Bool}
    → (parse_str : List ℕ → Option String) (id : Option String) → Follows q (draft_id parse_str id)
unfolding draft_id
draft_id-Follows parse_str none = search statements
draft_id-Follows parse_str (some id) = search statements

answer_saved-Follows :
    {q : Bool} → (id : String) (found : Option Message) → Follows q (answer_saved id found)
unfolding answer_saved
answer_saved-Follows id none = search reads
answer_saved-Follows id (some m) = search reads

pub save-Follows :
    {q : Bool}
    → (parse_str : List ℕ → Option String) (sender recipient body : String)
      (id reply : Option String)
    → Follows q (Messages.save parse_str sender recipient body id reply)
unfolding Messages.save
save-Follows parse_str sender recipient body id reply =
    search (reads, draft_id-Follows, answer_saved-Follows) depth 9

module _ (dismiss : Peer → Message → Client Cleanup) (client : IsClient dismiss) where
  pub cleanup_by-Follows :
      {q : Bool} → (m : Message) (to : Result Peer) → Follows q (cleanup_by dismiss m to)
  unfolding cleanup_by
  cleanup_by-Follows m (ok p) = foreign-Follows dismiss p m client
  cleanup_by-Follows m (err e) = search reads

  dismiss_since-Follows :
      {q : Bool} → (m : Message) (t : Option ℕ) → Follows q (dismiss_since dismiss m t)
  unfolding dismiss_since
  dismiss_since-Follows m none = search reads
  dismiss_since-Follows m (some t) = search (reads, cleanup_by-Follows)

  pub dismiss_acknowledged-Follows :
      {q : Bool} → (m : Message) → Follows q (dismiss_acknowledged dismiss m)
  unfolding dismiss_acknowledged
  dismiss_acknowledged-Follows m = dismiss_since-Follows m m.row.ack_at

  pub ack-Follows : {q : Bool} → (id actor : String) → Follows q (Messages.ack id actor dismiss)
  unfolding Messages.ack
  ack-Follows id actor = search (reads, dismiss_acknowledged-Follows) depth 9

poll_skip-Follows : {q : Bool} → (fuel end : ℕ) (m : Message) → Follows q (poll_skip fuel end m)
unfolding poll_skip
poll_skip-Follows zero end m = search reads
poll_skip-Follows (suc fuel) end m =
    Follows-bind _ _ (skip_reason-Follows m.row.id m.row.recipient) λ reason.
      Follows-bind _ _ Follows-now λ time. Follows-bind _ _ (Follows-gets _) λ stopped.
        Follows-if (is_some reason || leb end time || stopped) _ _ (Follows-pure reason)
          (Follows-then _ _ (Follows-sleep 20) (poll_skip-Follows fuel end m))

pub skip_after_grace-Follows : {q : Bool} → (m : Message) → Follows q (skip_after_grace m)
unfolding skip_after_grace
skip_after_grace-Follows m = search (reads, poll_skip-Follows)

module _ (notify : Peer → Message → Client Outcome) (dismiss : Peer → Message → Client Cleanup)
    (client : IsClient notify) (cleaner : IsClient dismiss) where
  notify_peer-Follows :
      (id : String) (m : Message) (to : Result Peer) → Follows false (notify_peer id notify m to)
  unfolding notify_peer
  notify_peer-Follows id m (ok p) =
      Follows-then _ _ (search reads) (foreign-Follows notify p m client)
  notify_peer-Follows id m (err e) = search reads

  pub deliver-Follows :
      (id : String) (m : Message) (reason : Option SkipReason)
      → Follows false (deliver id notify m reason)
  unfolding deliver
  deliver-Follows id m none = search (reads, notify_peer-Follows)
  deliver-Follows id m (some r) = search reads

  pub attempt-Follows : (id : String) → Follows false (attempt id notify dismiss)
  unfolding attempt
  attempt-Follows id =
      search
        (
          reads,
          skip_after_grace-Follows,
          deliver-Follows,
          dismiss_acknowledged-Follows dismiss cleaner,
        )
        depth 14

  pub notify_once-Follows : (id : String) → Follows false (notify_once id notify dismiss)
  unfolding notify_once
  notify_once-Follows id = search (reads, attempt-Follows) depth 8

pub record_return-Follows : {q : Bool} → (id actor : String) → Follows q (record_return id actor)
unfolding record_return
record_return-Follows id actor = search reads

return_answer-Follows :
    {q : Bool}
    → (m : Message) (actor : String) (answer : Option Row)
    → Follows q (return_answer m actor answer)
unfolding return_answer
return_answer-Follows m actor none = search reads
return_answer-Follows m actor (some answer) = search (reads, record_return-Follows)

return_wait_answer-Follows :
    {q : Bool} → (m : Message) (actor : String) → Follows q (return_wait_answer m actor)
unfolding return_wait_answer
return_wait_answer-Follows m actor = search (reads, return_answer-Follows)

poll_answer-Follows :
    {q : Bool}
    → (fuel : ℕ) (id actor : String) (deadline : ℕ) → Follows q (poll_answer fuel id actor deadline)
unfolding poll_answer
poll_answer-Follows zero id actor deadline = search reads
poll_answer-Follows (suc fuel) id actor deadline = Follows-then _ _ Follows-check_interrupted (
    Follows-bind _ _ (load-Follows id (some actor)) λ result. Follows-bind _ _ Follows-now λ time.
      Follows-if (is_some result.reply) _ _ (return_wait_answer-Follows result actor) (
        Follows-if (leb deadline time) _ _ (Follows-pure _) (
          Follows-then _ _ (Follows-sleep (min (deadline - time) 100))
            (poll_answer-Follows fuel id actor deadline))))

finally-Follows :
    {q : Bool}
    → {A : Type 0} (m : Proc A) (cleanup : Proc (Unit {0})) → Follows q m
    → Follows q cleanup
    → Follows q (finally m cleanup)
unfolding finally
finally-Follows m cleanup hm hc = record {
  at = λ w. let (r, w') = m w in Moves-trans (hm.at w) (hc.at w');
}

registered_poll-Follows :
    {q : Bool}
    → (id actor : String) (seconds deadline : ℕ)
    → Follows q (registered_poll id actor seconds deadline)
unfolding registered_poll
registered_poll-Follows id actor seconds deadline =
    Follows-if _ _ _
      (Follows-bind _ _ (search reads) λ token.
        Follows-bind _ _
          (add_wait-Follows
            λ t. record { token = token; message_id = id; actor = actor; until = t + seconds })
          λ _.
            finally-Follows _ _ (poll_answer-Follows _ id actor deadline) (drop_wait-Follows token))
      (poll_answer-Follows _ id actor deadline)

pub wait-Follows :
    {q : Bool} → (id actor : String) (seconds : Seconds) → Follows q (wait id actor seconds)
unfolding wait
wait-Follows id actor seconds =
    search (reads, return_wait_answer-Follows, registered_poll-Follows) depth 10

page-Follows :
    {q : Bool}
    → (condition : String → Db → Row → Bool) (newest_first : Bool) (actor : String) (limit : ℤ)
      (cursor : Option ℤ)
    → Follows q (Listing.page condition newest_first actor limit cursor)
unfolding Listing.page
page-Follows condition newest_first actor limit cursor = search reads

pub inbox-Follows :
    {q : Bool}
    → (actor : String) (limit : ℤ) (cursor : Option ℤ)
    → Follows q (Listing.inbox actor limit cursor)
unfolding Listing.inbox
inbox-Follows actor limit cursor = search (reads, page-Follows)

pub sent-Follows :
    {q : Bool}
    → (actor : String) (limit : ℤ) (cursor : Option ℤ) → Follows q (Listing.sent actor limit cursor)
unfolding Listing.sent
sent-Follows actor limit cursor = search (reads, page-Follows)
