-- ===== src/Receiver/Agrees.antt =====
-- The receiver's question (src/adapters/codex/receive.rs) and the mailbox's inbox (src/store.rs).
use harness_talk.Prelude.{
  ◌≡◌, ◌≢◌, refl, sym, ap, ◌∙◌, String, String_eq, Bool, true, false, Option, none, some, List, [],
  ◌∷◌, ◌==◌, arith, any, find?, eq_iff, inl, inr, beq_refl, Bool-cases, nat_eq_iff,
}
use harness_talk.Prelude.Find.{find?-fits}
use harness_talk.Error.{ok, refuse_if}
use harness_talk.Error.Steps.{then_ok}
use harness_talk.Model.{Row, from_row}
use harness_talk.Db.{Db, column_eq, is_some, find_message, find_reply, with_reply}
use harness_talk.Db.Page.{in_inbox}
use harness_talk.Db.Valid.{IsValid, Apart, same_id}
use harness_talk.Receiver.Check.{check_message, needs_work, unrelated, differs}

found_any : {A : Type 0} (q : A → Bool) (xs : List A) → is_some (find? q xs) ≡ any q xs
found_any q [] = refl
found_any q (x ∷ xs) = ground (arith, found_any q xs)

same_id_of :
    (x r : Row) (xs : List Row)
    → (x.id == r.id) ≡ true
    → find? (λ m. m.id == r.id) xs ≡ some r
    → find? (same_id x) xs ≡ some r
same_id_of x r xs h k = rw ((eq_iff x.id r.id).0 h) k

here_by_id : (x r : Row) (xs : List Row) → x ≡ r → find? (λ m. m.id == r.id) (x ∷ xs) ≡ some r
here_by_id x r xs h = rw h (ground (arith, beq_refl r.id))

later_by_id :
    (x r : Row) (xs : List Row)
    → find? (same_id x) xs ≡ none
    → find? (λ m. m.id == r.id) xs ≡ some r
    → find? (λ m. m.id == r.id) (x ∷ xs) ≡ some r
later_by_id x r xs none_there h = ground (arith, same_id_of x r xs)

found_by_id :
    (q : Row → Bool) (xs : List Row) (r : Row)
    → Apart same_id xs
    → find? q xs ≡ some r
    → find? (λ m. m.id == r.id) xs ≡ some r
found_by_id q [] r a h = absurd (ground arith)
found_by_id q (x ∷ xs) r a h = elim (Bool-cases (q x)) [
  | inl e ↦ here_by_id x r xs (ground (arith, rw e at h))
  | inr e ↦ later_by_id x r xs a.0 (found_by_id q xs r a.1 (rw e at h))
]

work_of_inbox : (d : Db) (m : Row) → needs_work (with_reply d m) ≡ in_inbox m.recipient d m
unfolding needs_work with_reply from_row in_inbox find_reply
work_of_inbox d m =
    ground (arith, found_any (λ r. column_eq m.id r.in_reply_to) d.messages, beq_refl m.recipient)

named_by : (id : String) (o : Option String) → column_eq id o ≡ true → o ≡ some id
named_by id none h = absurd (ground arith)
named_by id (some t) h = ap some ((eq_iff t id).0 h)

related :
    (id : String) (m r : Row)
    → column_eq id r.in_reply_to ≡ true
    → r.sender ≡ m.recipient
    → r.recipient ≡ m.sender
    → unrelated id m (some r) ≡ false
related id m r h s t =
    ground (arith, (eq_iff r.sender m.recipient).1 s, (eq_iff r.recipient m.sender).1 t)

by_id :
    (d : Db) (x : Row)
    → find? (λ y. y.id == x.id) d.messages ≡ some x
    → find_message x.id d ≡ some x
unfolding find_message
by_id d x k = k

same_row : {a b : Row} → some a ≡ some b → a ≡ b
same_row h = cc

module _ (d : Db) (valid : IsValid d) (m : Row) (there : find_message m.id d ≡ some m)
    (named : m.id ≢ "") where
  reply_is_related : (o : Option Row) → find_reply m.id d ≡ o → unrelated m.id m o ≡ false
  unfolding find_reply
  reply_is_related none h = refl
  reply_is_related (some r) h =
      let fits = find?-fits (λ x. column_eq m.id x.in_reply_to) d.messages r h in
      let at_id = found_by_id _ d.messages r valid.unique_ids h in
      let answers =
        valid.replies r.id r m.id (by_id d r at_id) (named_by m.id r.in_reply_to fits) named in
      let parent = same_row (sym answers.found ∙ there) in
      related m.id m r fits (rw parent at answers.from_recipient) (rw parent at answers.to_sender)

  is_same : differs m.recipient m.id m.seq (with_reply d m) ≡ false
  unfolding with_reply from_row
  is_same = ground (arith, beq_refl m.id, beq_refl m.recipient, (nat_eq_iff m.seq m.seq).1 refl)

  is_related : unrelated m.id (with_reply d m).row (with_reply d m).reply ≡ false
  unfolding with_reply from_row
  is_related = reply_is_related (find_reply m.id d) refl

  -- For a message with an ID that the valid tables hold, and its own recipient and sequence number,
  -- the receiver's check of what the mailbox shows passes, and says that the message needs a
  -- notification exactly where it stands in its recipient's inbox.
  pub check_message_agrees :
      check_message m.recipient m.id m.seq (with_reply d m) ≡ ok (some (in_inbox m.recipient d m))
  unfolding check_message
  check_message_agrees =
      then_ok (refuse_if (differs m.recipient m.id m.seq (with_reply d m)) _) _ (rw is_same refl)
      ∙ then_ok (refuse_if (unrelated m.id (with_reply d m).row (with_reply d m).reply) _) _
          (rw is_related refl)
      ∙ ap (λ b. ok (some b)) (work_of_inbox d m)
