-- ===== src/Db/Save/Inbox.antt =====
-- What a saved reply does to the inboxes (`save`, and `INBOX`, of src/store.rs).
use harness_talk.Prelude.{
  ℕ, ◌+◌, String, String_eq, Option_eq, Bool, true, false, not, ◌&&◌, ◌||◌, ◌≡◌, ◌≢◌, refl, sym, ap,
  ◌∙◌, ◌⊎◌, inl, inr, Option, none, some, List, [], ◌∷◌, ◌==◌, arith, eq_iff, option_eq_iff, any,
  find?,
}
use mathlib.Core.Path.{subst}
use harness_talk.Prelude.Find.{any-append, find?-fits}
use harness_talk.Error.{Result, ok, err}
use harness_talk.Model.{Row, Message}
use harness_talk.Db.{Db, is_some, find_message, find_reply, column_eq}
use harness_talk.Db.Page.{in_inbox}
use harness_talk.Db.Write.{commit}
use harness_talk.Db.Save.{
  Draft, new_row, check_request, saved_answer, saved_message, same_content, save_new, or_else,
  save_txn,
}
use harness_talk.Db.Save.Effect.{with_new, save_txn-Inserts, save_new_ok}

-- The tables hold an answer to the request.
abbrev IsAnswered : String → Db → Type 0
IsAnswered q d = any (λ r. column_eq q r.in_reply_to) d.messages ≡ true

any_of_find? :
    (q p : Row → Bool) (xs : List Row) (x : Row)
    → find? p xs ≡ some x
    → q x ≡ true
    → any q xs ≡ true
any_of_find? q p [] x h e = absurd (ground arith)
any_of_find? q p (y ∷ ys) x h e = ground (arith, any_of_find? q p ys x)

check_request-some :
    (draft : Draft) (d : Db) (q : String) (r : Row)
    → check_request draft d q ≡ ok (some r)
    → find_reply q d ≡ some r
unfolding check_request
check_request-some draft d q r h = ground arith

saved_answer-some :
    (draft : Draft) (d : Db) (q : String) (r : Row)
    → saved_answer draft d ≡ ok (some r)
    → draft.in_reply_to ≡ some q
    → q ≢ ""
    → find_reply q d ≡ some r
unfolding saved_answer
saved_answer-some draft d q r h e ne = check_request-some draft d q r (ground (arith, eq_iff q ""))

saved_message-some :
    (draft : Draft) (d : Db) (r : Row)
    → saved_message draft d ≡ ok (some r)
    → (find_message draft.id d ≡ some r) × (same_content draft r ≡ true)
unfolding saved_message
saved_message-some draft d r h = (ground arith, ground arith)

saved_cases :
    (a m : Result (Option Row)) (n : Result (Option Message × Db)) (d : Db) (x : Option Message)
    → (commit d (or_else d a (or_else d m n))).0 ≡ ok x
    → ((r : Row) × (a ≡ ok (some r)) × ((commit d (or_else d a (or_else d m n))).1 ≡ d))
      ⊎ (((r : Row) × (m ≡ ok (some r)) × ((commit d (or_else d a (or_else d m n))).1 ≡ d))
          ⊎ ((y : Option Message) × (d' : Db) × (n ≡ ok (y, d'))
              × (commit d (or_else d a (or_else d m n)) ≡ (ok y, d'))))
saved_cases (ok (some r)) m n d x h = inl (r, refl, refl)
saved_cases (ok none) (ok (some r)) n d x h = inr (inl (r, refl, refl))
saved_cases (ok none) (ok none) (ok (y, d')) d x h = inr (inr (y, d', refl, refl))
saved_cases (ok none) (ok none) (err e) d x h = absurd (ground arith)
saved_cases (ok none) (err e) n d x h = absurd (ground arith)
saved_cases (err e) m n d x h = absurd (ground arith)

found_answer : (q : String) (d : Db) (r : Row) → find_reply q d ≡ some r → IsAnswered q d
unfolding find_reply
found_answer q d r h =
    any_of_find? (λ m. column_eq q m.in_reply_to) (λ m. column_eq q m.in_reply_to) d.messages r h
      (find?-fits (λ m. column_eq q m.in_reply_to) d.messages r h)

same_reply :
    (draft : Draft) (r : Row) (q : String)
    → same_content draft r ≡ true
    → draft.in_reply_to ≡ some q
    → column_eq q r.in_reply_to ≡ true
same_reply draft r q h e =
    let same : r.in_reply_to ≡ draft.in_reply_to =
      (option_eq_iff String_eq r.in_reply_to draft.in_reply_to).0 (ground arith) in
    rw (same, e) ((eq_iff q q).1 refl)

repeated_answer :
    (draft : Draft) (d : Db) (r : Row) (q : String)
    → find_message draft.id d ≡ some r
    → column_eq q r.in_reply_to ≡ true
    → IsAnswered q d
unfolding find_message
repeated_answer draft d r q h e =
    any_of_find? (λ m. column_eq q m.in_reply_to) (λ m. m.id == draft.id) d.messages r h e

new_answer :
    (draft : Draft) (now : ℕ) (d : Db) (q : String)
    → draft.in_reply_to ≡ some q
    → IsAnswered q (with_new draft now d)
new_answer draft now d q e =
    let same : column_eq q draft.in_reply_to ≡ true = rw e ((eq_iff q q).1 refl) in
    any-append (λ m. column_eq q m.in_reply_to) d.messages (new_row draft (d.last_seq + 1) now ∷ [])
    ∙ ground arith

new_reply_there :
    (draft : Draft) (now : ℕ) (d d' : Db) (q : String)
    → draft.in_reply_to ≡ some q
    → save_txn draft now d ≡ (ok none, d')
    → IsAnswered q (save_txn draft now d).1
new_reply_there draft now d d' q e inserted =
    let (made, _) = save_txn-Inserts draft now d d' inserted in
    subst (IsAnswered q) (sym (ap (λ p. p.1) inserted ∙ made)) (new_answer draft now d q e)

not_in_inbox :
    (b c : Bool) (reply : Option String) (answered : Bool)
    → reply ≡ none
    → answered ≡ true
    → (b && ((not (is_some reply) && not answered) || (is_some reply && not c))) ≡ false
not_in_inbox b c none answered e h = ground arith
not_in_inbox b c (some q) answered e h = absurd (ground arith)

-- A reply that is saved, or was, is there.
save_txn-IsAnswered :
    (draft : Draft) (now : ℕ) (d : Db) (x : Option Message) (q : String)
    → (save_txn draft now d).0 ≡ ok x
    → draft.in_reply_to ≡ some q
    → q ≢ ""
    → IsAnswered q (save_txn draft now d).1
unfolding save_txn
save_txn-IsAnswered draft now d x q h e ne =
    elim (saved_cases (saved_answer draft d) (saved_message draft d) (save_new draft now d) d x h) [
      | inl (r, a, same) ↦
          subst (IsAnswered q) (sym same)
            (found_answer q d r (saved_answer-some draft d q r a e ne))
      | inr (inl (r, m, same)) ↦
          let (found, content) = saved_message-some draft d r m in
          subst (IsAnswered q) (sym same)
            (repeated_answer draft d r q found (same_reply draft r q content e))
      | inr (inr (y, d', n, same)) ↦
          new_reply_there draft now d d' q e
            (same ∙ ap (λ z. (ok z, d')) (save_new_ok draft now d d' y n).0)
    ]

-- Once the transaction of save succeeds for a reply to a request, whether it inserts the reply,
-- finds the request answered in the same words or finds the message itself, the request is in no
-- inbox. The ID of the request is not empty.
pub in_inbox-save_txn :
    (draft : Draft) (now : ℕ) (d : Db) (x : Option Message) (request : Row) (actor : String)
    → (save_txn draft now d).0 ≡ ok x
    → draft.in_reply_to ≡ some request.id
    → request.id ≢ ""
    → request.in_reply_to ≡ none
    → in_inbox actor (save_txn draft now d).1 request ≡ false
unfolding in_inbox
in_inbox-save_txn draft now d x request actor h e ne r =
    let there = save_txn-IsAnswered draft now d x request.id h e ne in
    not_in_inbox (request.recipient == actor) (is_some request.ack_at) request.in_reply_to _ r there
