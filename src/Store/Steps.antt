-- ===== src/Store/Steps.antt =====
-- The statements of the store, and its reads, as steps of a process: each moves the mailbox by
-- transactions of Db/Txn.antt alone.
use harness_talk.Prelude.{ℕ, String, Bool, true, Option, none, some, refl}
use harness_talk.Model.{Peer, Message, Outcome, SkipReason}
use harness_talk.Db.{PeerRow, Wait}
use harness_talk.Db.Txn.{
  apply, register, retire, restore, save, start_notification, end_notification, ack, mark_returned,
  register_wait, remove_wait,
}
use harness_talk.Db.Peers.{register_txn, retire_row, restore_row}
use harness_talk.Db.Save.{Draft, save_txn}
use harness_talk.Db.Update.{claim, finish, set_ack, set_returned, add_wait, drop_wait}
use harness_talk.Proc.{World, write, write_at}
use harness_talk.Proc.Leads.{Leads-step}
use harness_talk.Proc.Runs.{
  Moves, Moves-trans, Moves-weaken, Follows, Follows-write, Follows-write_at, Follows-sleep,
  Follows-now, Follows-gets, Follows-pure, Follows-check_interrupted, Follows-bind, Follows-then,
  Follows-if, follows_rules,
}
use harness_talk.Store
use harness_talk.Store.{load, skip_unless_found, Client, foreign}

-- A call of a client moves the world as a process does: the client may take its time, in which
-- other processes run.
abbrev pub IsClient : {A : Type 0} → (Peer → Message → Client A) → Type 0
IsClient f = (p : Peer) (m : Message) (w : World) → Moves true w (f p m w).1

-- The statements.
pub register_txn-Follows : {q : Bool} → (row : PeerRow) → Follows q (write (register_txn row))
register_txn-Follows row = Follows-write _ λ d. Leads-step (register row) (unfold apply in refl)

pub retire_row-Follows :
    {q : Bool} → (name : String) (t : ℕ) → Follows q (write (retire_row name t))
retire_row-Follows name t = Follows-write _ λ d. Leads-step (retire name t) (unfold apply in refl)

pub restore_row-Follows : {q : Bool} → (name : String) → Follows q (write (restore_row name))
restore_row-Follows name = Follows-write _ λ d. Leads-step (restore name) (unfold apply in refl)

pub save_txn-Follows : {q : Bool} → (draft : Draft) → Follows q (write_at (save_txn draft))
save_txn-Follows draft = Follows-write_at _ λ t d. Leads-step (save draft t) (unfold apply in refl)

pub claim-Follows : {q : Bool} → (id : String) (t : ℕ) → Follows q (write (claim id t))
claim-Follows id t =
    Follows-write _ λ d. Leads-step (start_notification id t) (unfold apply in refl)

pub finish-Follows :
    {q : Bool} → (id : String) (o : Outcome) (t : ℕ) → Follows q (write (finish id o t))
finish-Follows id o t =
    Follows-write _ λ d. Leads-step (end_notification id o t) (unfold apply in refl)

pub set_ack-Follows :
    {q : Bool} → (id actor : String) (t : ℕ) → Follows q (write (set_ack id actor t))
set_ack-Follows id actor t = Follows-write _ λ d. Leads-step (ack id actor t) (unfold apply in refl)

pub set_returned-Follows :
    {q : Bool} → (id actor : String) (t : ℕ) → Follows q (write (set_returned id actor t))
set_returned-Follows id actor t =
    Follows-write _ λ d. Leads-step (mark_returned id actor t) (unfold apply in refl)

pub add_wait-Follows : {q : Bool} → (w : ℕ → Wait) → Follows q (write_at (λ t. add_wait (w t) t))
add_wait-Follows w =
    Follows-write_at _ λ t d. Leads-step (register_wait (w t) t) (unfold apply in refl)

pub drop_wait-Follows : {q : Bool} → (token : String) → Follows q (write (drop_wait token))
drop_wait-Follows token = Follows-write _ λ d. Leads-step (remove_wait token) (unfold apply in refl)

pub ruleset statements = (
  follows_rules, register_txn-Follows, retire_row-Follows, restore_row-Follows, save_txn-Follows,
  claim-Follows, finish-Follows, set_ack-Follows, set_returned-Follows, add_wait-Follows,
  drop_wait-Follows,
)

pub peer-Follows : {q : Bool} → (name : String) → Follows q (Store.peer name)
unfolding Store.peer
peer-Follows name = search statements

pub load-Follows : {q : Bool} → (id : String) (actor : Option String) → Follows q (load id actor)
unfolding load
load-Follows id actor = search statements

skip_unless_found-Follows :
    {q : Bool} → (to : String) (r : Option SkipReason) → Follows q (skip_unless_found to r)
unfolding skip_unless_found
skip_unless_found-Follows to none = search statements
skip_unless_found-Follows to (some r) = search statements

pub skip_reason-Follows : {q : Bool} → (id to : String) → Follows q (Store.skip_reason id to)
unfolding Store.skip_reason
skip_reason-Follows id to = search (statements, skip_unless_found-Follows)

pub ruleset reads = (statements, peer-Follows, load-Follows, skip_reason-Follows)

pub foreign-Follows :
    {q : Bool}
    → {A : Type 0} (f : Peer → Message → Client A) (p : Peer) (m : Message) → IsClient f
    → Follows q (foreign (f p m))
unfolding foreign
foreign-Follows f p m h = record { at = λ w. Moves-weaken (h p m w) }
