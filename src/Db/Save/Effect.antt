-- ===== src/Db/Save/Effect.antt =====
-- What the transaction of `Store::save` does to the tables: nothing, or one row that nothing in
-- them stands against.
use harness_talk.Prelude.{
  ℕ, ◌+◌, String, String_eq, true, ◌≡◌, refl, ap, ◌≢◌, ◌⊎◌, inl, inr, Option, none, some, [], ◌∷◌,
  ◌++◌, arith, eq_iff, Option-cases,
}
use harness_talk.Error.{Result, ok, err}
use harness_talk.Model.{Row, Message}
use harness_talk.Db.{Db, is_some, find_peer, find_message, find_reply}
use harness_talk.Db.Write.{commit}
use harness_talk.Db.Save.{
  Draft, new_row, insert_message, check_request, saved_answer, saved_message, save_new, or_else,
  save_txn,
}

-- The request that a reply answers, as the transaction finds it.
pub record Answers (draft : Draft) (d : Db) (request : String) : Type 0 where
  pub parent : Row
  pub found : find_message request d ≡ some parent
  pub is_request : parent.in_reply_to ≡ none
  pub from_recipient : draft.sender ≡ parent.recipient
  pub to_sender : draft.recipient ≡ parent.sender
  pub first : find_reply request d ≡ none

pub record Inserts (draft : Draft) (d : Db) : Type 0 where
  pub fresh : find_message draft.id d ≡ none
  pub from_peer : is_some (find_peer draft.sender d) ≡ true
  pub to_peer : is_some (find_peer draft.recipient d) ≡ true
  pub first : (q : String) → draft.in_reply_to ≡ some q → find_reply q d ≡ none
  pub answers : (q : String) → draft.in_reply_to ≡ some q → q ≢ "" → Answers draft d q

abbrev pub with_new : Draft → ℕ → Db → Db
with_new draft now d = record d {
  messages = d.messages ++ new_row draft (d.last_seq + 1) now ∷ [];
  last_seq = d.last_seq + 1;
}

check_request-none :
    (draft : Draft) (d : Db) (q : String) → check_request draft d q ≡ ok none → Answers draft d q
unfolding check_request
check_request-none draft d q h = elim (Option-cases (find_message q d)) [
  | inl missing ↦ absurd (ground arith)
  | inr (parent, e) ↦ record {
    parent = parent;
    found = e;
    is_request = ground arith;
    from_recipient = ground (arith, eq_iff draft.sender parent.recipient);
    to_sender = ground (arith, eq_iff draft.recipient parent.sender);
    first = ground arith;
  }
]

saved_answer-none :
    (draft : Draft) (d : Db) (q : String)
    → saved_answer draft d ≡ ok none
    → draft.in_reply_to ≡ some q
    → q ≢ ""
    → Answers draft d q
unfolding saved_answer
saved_answer-none draft d q h e ne = check_request-none draft d q (ground (arith, eq_iff q ""))

insert_message_ok :
    (draft : Draft) (now : ℕ) (d d' : Db)
    → insert_message draft now d ≡ ok d'
    → (d' ≡ with_new draft now d)
      × (find_message draft.id d ≡ none)
      × (is_some (find_peer draft.sender d) ≡ true)
      × (is_some (find_peer draft.recipient d) ≡ true)
      × ((q : String) → draft.in_reply_to ≡ some q → find_reply q d ≡ none)
unfolding insert_message
insert_message_ok draft now d d' h =
    (ground arith, ground arith, ground arith, ground arith, λ q e. ground arith)

pub save_new_ok :
    (draft : Draft) (now : ℕ) (d d' : Db) (m : Option Message)
    → save_new draft now d ≡ ok (m, d')
    → (m ≡ none) × (insert_message draft now d ≡ ok d')
unfolding save_new
save_new_ok draft now d d' m h = (ground arith, ground arith)

saved_message-none :
    (draft : Draft) (d : Db) → saved_message draft d ≡ ok none → find_message draft.id d ≡ none
unfolding saved_message
saved_message-none draft d h = ground arith

-- The chain of the three checks ends in the insertion only where the first two found nothing.
all_none :
    (a m : Result (Option Row)) (n : Result (Option Message × Db)) (d d' : Db)
    → commit d (or_else d a (or_else d m n)) ≡ (ok none, d')
    → (a ≡ ok none) × (m ≡ ok none) × (n ≡ ok (none, d'))
all_none (ok none) (ok none) (ok (x, y)) d d' h = (refl, refl, ground arith)
all_none (ok none) (ok none) (err e) d d' h = absurd (ground arith)
all_none (ok none) (ok (some x)) n d d' h = absurd (ground arith)
all_none (ok none) (err e) n d d' h = absurd (ground arith)
all_none (ok (some x)) m n d d' h = absurd (ground arith)
all_none (err e) m n d d' h = absurd (ground arith)

else_kept :
    (a m : Result (Option Row)) (n : Result (Option Message × Db)) (d : Db)
    → ((x : Option Message) (d' : Db) → n ≡ ok (x, d') → x ≡ none)
    → (commit d (or_else d a (or_else d m n))).0 ≢ ok none
    → (commit d (or_else d a (or_else d m n))).1 ≡ d
else_kept (ok none) (ok none) (ok (x, y)) d k h = absurd (h (ap ok (k x y refl)))
else_kept (ok none) (ok none) (err e) d k h = refl
else_kept (ok none) (ok (some x)) n d k h = refl
else_kept (ok none) (err e) n d k h = refl
else_kept (ok (some x)) m n d k h = refl
else_kept (err e) m n d k h = refl

-- The transaction, when it answers that it found no message, has inserted one.
pub save_txn-Inserts :
    (draft : Draft) (now : ℕ) (d d' : Db)
    → save_txn draft now d ≡ (ok none, d')
    → (d' ≡ with_new draft now d) × Inserts draft d
unfolding save_txn
save_txn-Inserts draft now d d' h =
    let (a, m, n) =
      all_none (saved_answer draft d) (saved_message draft d) (save_new draft now d) d d' h in
    let (e, fresh, from, to, first) =
      insert_message_ok draft now d d' (save_new_ok draft now d d' none n).1 in
    (
      e,
      record {
        fresh = fresh;
        from_peer = from;
        to_peer = to;
        first = first;
        answers = λ q r ne. saved_answer-none draft d q a r ne;
      },
    )

-- In any other case it leaves the tables as they were.
pub save_txn_keeps :
    (draft : Draft) (now : ℕ) (d : Db)
    → (save_txn draft now d).0 ≢ ok none
    → (save_txn draft now d).1 ≡ d
unfolding save_txn
save_txn_keeps draft now d h =
    else_kept (saved_answer draft d) (saved_message draft d) (save_new draft now d) d
      (λ x d' e. (save_new_ok draft now d d' x e).0) h

found_nothing : (r : Result (Option Message)) → (r ≡ ok none) ⊎ (r ≢ ok none)
found_nothing (ok none) = inl refl
found_nothing (ok (some m)) = inr (λ h. cc)
found_nothing (err e) = inr (λ h. cc)

-- The transaction of save leaves the tables as they were, or adds one row at the end, with the next
-- seq and the text that was given. It adds one only where no message has its ID, sender and
-- recipient are peers, and a request that it names has no answer and, if its ID is not empty, is
-- one from the recipient to the sender.
pub save_txn_cases :
    (draft : Draft) (now : ℕ) (d : Db)
    → ((save_txn draft now d).1 ≡ d)
      ⊎ (((save_txn draft now d).1 ≡ with_new draft now d) × Inserts draft d)
save_txn_cases draft now d = elim (found_nothing (save_txn draft now d).0) [
  | inl e ↦
      inr (
        save_txn-Inserts draft now d (save_txn draft now d).1
          (λ i. (e i, (save_txn draft now d).1)))
  | inr ne ↦ inl (save_txn_keeps draft now d ne)
]
