-- ===== src/Db/Save/Again.antt =====
-- A request that is sent again, as after a crash: `Store::save` of src/store.rs.
use harness_talk.Prelude.{
  ℕ, String_eq, Option_eq, true, ◌≡◌, refl, ◌∙◌, ap, none, some, arith, ◌==◌, beq_refl, ◌+◌,
}
use harness_talk.Prelude.Find.{find?-append}
use harness_talk.Error.{ok}
use harness_talk.Model.{Row}
use harness_talk.Db.{Db, find_message, with_reply}
use harness_talk.Db.History.{Grows, Extends}
use harness_talk.Db.Save.{Draft, new_row, same_content, saved_answer, saved_message, save_txn}
use harness_talk.Db.Save.Effect.{with_new, save_txn-Inserts}

-- The row that an insertion adds is the one that its ID finds.
find_message-with_new :
    (draft : Draft) (now : ℕ) (d : Db)
    → find_message draft.id d ≡ none
    → find_message draft.id (with_new draft now d) ≡ some (new_row draft (d.last_seq + 1) now)
unfolding find_message
find_message-with_new draft now d h =
    find?-append (λ m. m.id == draft.id) d.messages _ ∙ ground (arith, beq_refl draft.id)

same_content-Grows :
    (draft : Draft) (seq now : ℕ) (m : Row)
    → Grows (new_row draft seq now) m
    → same_content draft m ≡ true
same_content-Grows draft seq now m g =
    rw
      (
        g.sender,
        g.recipient,
        g.body,
        g.in_reply_to,
        beq_refl draft.sender,
        beq_refl draft.recipient,
        beq_refl draft.body,
        beq_refl draft.in_reply_to,
      )
      refl

saved_message-found :
    (draft : Draft) (d : Db) (m : Row)
    → find_message draft.id d ≡ some m
    → same_content draft m ≡ true
    → saved_message draft d ≡ ok (some m)
unfolding saved_message
saved_message-found draft d m h e = ground arith

saved_answer-request :
    (draft : Draft) (d : Db) → draft.in_reply_to ≡ none → saved_answer draft d ≡ ok none
unfolding saved_answer
saved_answer-request draft d h = rw h refl

save_txn-found :
    (draft : Draft) (now : ℕ) (d : Db) (m : Row)
    → saved_answer draft d ≡ ok none
    → saved_message draft d ≡ ok (some m)
    → save_txn draft now d ≡ (ok (some (with_reply d m)), d)
unfolding save_txn
save_txn-found draft now d m a b = rw (a, b) refl

-- Once the transaction of save has inserted a request, the same one changes nothing and is answered
-- with the saved message, with its ID, sender, recipient and text, in every later state of the
-- tables.
pub save_again :
    (draft : Draft) (now later : ℕ) (d e : Db)
    → draft.in_reply_to ≡ none
    → (save_txn draft now d).0 ≡ ok none
    → Extends (save_txn draft now d).1 e
    → (m : Row) × (save_txn draft later e ≡ (ok (some (with_reply e m)), e))
      × (find_message draft.id e ≡ some m)
      × (same_content draft m ≡ true)
save_again draft now later d e request saved x =
    let (step, inserts) =
      save_txn-Inserts draft now d (save_txn draft now d).1
        (λ i. (saved i, (save_txn draft now d).1)) in
    let (m, found, g) =
      x.messages draft.id (new_row draft (d.last_seq + 1) now)
        (ap (find_message draft.id) step ∙ find_message-with_new draft now d inserts.fresh) in
    let same = same_content-Grows draft (d.last_seq + 1) now m g in
    (
      m,
      save_txn-found draft later e m (saved_answer-request draft e request)
          (saved_message-found draft e m found same),
      found,
      same,
    )
