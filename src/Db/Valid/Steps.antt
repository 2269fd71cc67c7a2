-- ===== src/Db/Valid/Steps.antt =====
-- Every transaction keeps the tables valid.
use harness_talk.Prelude.{String_eq, ◌≡◌, refl, inl, inr, arith, ◌==◌}
use harness_talk.Db.{PeerRow, Db, find_message}
use harness_talk.Db.Peers.{retire_row, restore_row}
use harness_talk.Db.Peers.Effect.{with_peer, register_txn_cases}
use harness_talk.Db.Update.{
  claim, claimable, claimed, finish, finished, set_ack, set_returned, acked, returned, addressed,
  add_wait, drop_wait,
}
use harness_talk.Db.Txn.{
  Txn, apply, register, retire, restore, save, start_notification, end_notification, ack,
  mark_returned, register_wait, remove_wait,
}
use harness_talk.Db.Save.Effect.{save_txn_cases}
use harness_talk.Db.History.{
  Grows-refl, with_peer-Extends, apply-Extends, claimed-Grows, finished-Grows, acked-Grows,
  returned-Grows, Extends,
}
use harness_talk.Db.Valid.{IsValid}
use harness_talk.Db.Valid.Update.{known_later, RepliesTo-later, updated-IsValid}
use harness_talk.Db.Valid.Insert.{with_new-IsValid}

-- A change of neither `messages` nor `last_seq`, where no peer is lost.
same_messages :
    (d d' : Db)
    → d'.messages ≡ d.messages
    → d'.last_seq ≡ d.last_seq
    → Extends d d'
    → IsValid d
    → IsValid d'
unfolding find_message
same_messages d d' em el x v = record {
  ordered = rw (em, el) v.ordered;
  unique_ids = rw em v.unique_ids;
  one_answer = rw em v.one_answer;
  known = λ id m h.
      let (a, b) = v.known id m (rw (← em) h) in
      (known_later x m.sender a, known_later x m.recipient b);
  replies =
      λ id m q h r ne. RepliesTo-later x m m q (Grows-refl m) (v.replies id m q (rw (← em) h) r ne);
}

with_peer-IsValid : (row : PeerRow) (d : Db) → IsValid d → IsValid (with_peer row d)
with_peer-IsValid row d = same_messages d _ refl refl (with_peer-Extends row d)

-- The order of `seq`, the uniqueness of IDs and answers, and the references hold in every state
-- that the transactions reach.
pub apply-IsValid : (t : Txn) (d : Db) → IsValid d → IsValid (apply t d)
unfolding apply
apply-IsValid (register row) d v = elim (register_txn_cases row d) [
  | inl e ↦ rw e v
  | inr (e, _) ↦ rw e (with_peer-IsValid row d v)
]
apply-IsValid (retire name now) d v =
    same_messages d _ (unfold retire_row in ground arith) (unfold retire_row in ground arith)
      (apply-Extends (retire name now) d) v
apply-IsValid (restore name) d v =
    unfold restore_row in same_messages d _ refl refl (apply-Extends (restore name) d) v
apply-IsValid (save draft now) d v = elim (save_txn_cases draft now d) [
  | inl e ↦ rw e v
  | inr (e, i) ↦ rw e (with_new-IsValid draft now d i v)
]
apply-IsValid (start_notification id now) d v =
    unfold claim in updated-IsValid (claimable id d) (claimed now) (claimed-Grows id now d) d v
apply-IsValid (end_notification id o now) d v =
    unfold finish in
    updated-IsValid (λ m. m.id == id) (finished o now) (λ m _. finished-Grows o now m) d v
apply-IsValid (ack id actor now) d v =
    unfold set_ack in
    updated-IsValid (addressed id actor) (acked now) (λ m _. acked-Grows now m) d v
apply-IsValid (mark_returned id actor now) d v =
    unfold set_returned in
    updated-IsValid (addressed id actor) (returned now) (λ m _. returned-Grows now m) d v
apply-IsValid (register_wait w now) d v =
    same_messages d _ (unfold add_wait in ground arith) (unfold add_wait in ground arith)
      (apply-Extends (register_wait w now) d) v
apply-IsValid (remove_wait token) d v =
    unfold drop_wait in same_messages d _ refl refl (apply-Extends (remove_wait token) d) v
