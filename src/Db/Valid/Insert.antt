-- ===== src/Db/Valid/Insert.antt =====
-- A message that `save` inserts keeps the tables valid.
use harness_talk.Prelude.{
  ℕ, ◌+◌, String, String_eq, Bool, false, ◌≡◌, ◌≢◌, refl, ◌∙◌, ap, ◌⊎◌, inl, inr, Option, none,
  some, List, [], ◌∷◌, ◌++◌, arith, ◌==◌, eq_iff, find?, Option-cases,
}
use harness_talk.Prelude.Find.{find?-append}
use mathlib.Core.Path.{subst}
use harness_talk.Model.{Row}
use harness_talk.Db.{Db, column_eq, find_message, find_reply}
use harness_talk.Db.Save.{Draft, new_row}
use harness_talk.Db.Save.Effect.{Inserts, with_new}
use harness_talk.Db.History.{Grows-refl, with_new-Extends}
use harness_talk.Db.Valid.{
  same_id, request_eq, same_request, Ordered-append, Apart-append, RepliesTo, IsValid,
}
use harness_talk.Db.Valid.Update.{known_later, RepliesTo-later}

-- A row that is added: what a search finds was there, or is that row.
found_in_append {ℓ} :
    {A : Type ℓ} (q : A → Bool) (xs : List A) (y x : A)
    → find? q (xs ++ y ∷ []) ≡ some x
    → (find? q xs ≡ some x) ⊎ (y ≡ x)
found_in_append q xs y x h = elim (Option-cases (find? q xs)) [
  | inl e ↦ inr (ground (arith, find?-append q xs (y ∷ [])))
  | inr (a, e) ↦ inl (ground (arith, find?-append q xs (y ∷ [])))
]

eq_flip : (a b : String) → (a == b) ≡ (b == a)
eq_flip a b = ground (arith, eq_iff a b, eq_iff b a)

request_flip : (q : String) (r : Option String) → request_eq r (some q) ≡ column_eq q r
request_flip q none = refl
request_flip q (some s) = eq_flip q s

request_none : (r : Option String) → request_eq r none ≡ false
request_none none = refl
request_none (some s) = refl

find?_congr {ℓ} :
    {A : Type ℓ} (p q : A → Bool) (xs : List A) → ((a : A) → p a ≡ q a) → find? p xs ≡ find? q xs
find?_congr p q [] h = refl
find?_congr p q (x ∷ xs) h = ground (arith, h x, find?_congr p q xs h)

find?-false {ℓ} : {A : Type ℓ} (xs : List A) → find? (λ x. false) xs ≡ none
find?-false [] = refl
find?-false (x ∷ xs) = find?-false xs

module _ (draft : Draft) (now : ℕ) (d : Db) (i : Inserts draft d) where
  abbrev row : Row
  row = new_row draft (d.last_seq + 1) now

  not_answered :
      (r : Option String)
      → draft.in_reply_to ≡ r
      → find? (λ m. request_eq m.in_reply_to r) d.messages ≡ none
  unfolding find_reply
  not_answered none e =
      find?_congr _ _ d.messages (λ m. request_none m.in_reply_to) ∙ find?-false d.messages
  not_answered (some q) e =
      find?_congr _ _ d.messages (λ m. request_flip q m.in_reply_to) ∙ i.first q e

  -- The new row is what a search finds, or what it found before.
  found_new :
      (id : String) (m : Row)
      → find_message id (with_new draft now d) ≡ some m
      → (find_message id d ≡ some m) ⊎ (row ≡ m)
  unfolding find_message
  found_new id m h = found_in_append _ d.messages row m h

  fresh_row : find? (λ m. same_id m row) d.messages ≡ none
  unfolding find_message
  fresh_row = find?_congr _ _ d.messages (λ m. eq_flip row.id m.id) ∙ i.fresh

  new_RepliesTo : (q : String) → draft.in_reply_to ≡ some q → q ≢ "" → RepliesTo d row q
  new_RepliesTo q r ne =
      let a = i.answers q r ne in
      record {
        parent = a.parent;
        found = a.found;
        is_request = a.is_request;
        from_recipient = a.from_recipient;
        to_sender = a.to_sender;
      }

  pub with_new-IsValid : IsValid d → IsValid (with_new draft now d)
  with_new-IsValid v =
      let x = with_new-Extends draft now d in
      record {
        ordered = Ordered-append 0 d.messages row d.last_seq v.ordered (omega arith);
        unique_ids = Apart-append same_id d.messages row v.unique_ids fresh_row;
        one_answer = Apart-append same_request d.messages row v.one_answer (not_answered _ refl);
        known = λ id m h. elim (found_new id m h) [
          | inl old ↦
              let (a, b) = v.known id m old in
              (known_later x m.sender a, known_later x m.recipient b)
          | inr new ↦
              rw (← new)
                (known_later x row.sender i.from_peer, known_later x row.recipient i.to_peer)
        ];
        replies = λ id m q h r ne. elim (found_new id m h) [
          | inl old ↦ RepliesTo-later x m m q (Grows-refl m) (v.replies id m q old r ne)
          | inr new ↦
              subst (λ n. RepliesTo (with_new draft now d) n q) new
                (RepliesTo-later x row row q (Grows-refl row)
                  (new_RepliesTo q (ap (λ n. n.in_reply_to) new ∙ r) ne))
        ];
      }
