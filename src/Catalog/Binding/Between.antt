-- ===== src/Catalog/Binding/Between.antt =====
-- The messages between the sender of a binding and its profiles (src/catalog/binding.rs).
use harness_talk.Prelude.{
  ℤ, ◌≡◌, refl, sym, ◌∙◌, String, String_eq, Bool, true, false, ◌&&◌, Option, List, [], ◌∷◌, ◌==◌,
  arith, any, All, map, select, inl, inr, ◌⊎◌, ◌||◌, eq_iff, Bool-cases, pos_part,
}
use harness_talk.Prelude.Select.{All-take, All-reverse}
use harness_talk.Model.{Row, Message}
use harness_talk.Db.{Db, with_reply}
use harness_talk.Db.Page.{page_of, page_rows, in_order}
use harness_talk.Catalog.Mailbox.{between}
use harness_talk.Catalog.Binding.{Binding, ProfileBinding, other_end, profile_names}

allowed_name :
    (ps : List ProfileBinding) (name : String)
    → any (λ n. n == name) (map (λ p. p.peer_name) ps) ≡ any (λ p. p.peer_name == name) ps
allowed_name [] name = refl
allowed_name (p ∷ ps) name = ground (arith, allowed_name ps name)

-- A profile of the binding has the name.
abbrev pub IsPublished : Binding → String → Type 0
IsPublished b name = any (λ p. p.peer_name == name) b.profiles ≡ true

-- A message between the sender of the binding and a profile that it publishes.
abbrev pub IsBetween : Binding → Row → Type 0
IsBetween b m =
    ((m.sender ≡ b.sender) × IsPublished b m.recipient)
    ⊎ ((m.recipient ≡ b.sender) × IsPublished b m.sender)

abbrev pub WithPublished : Binding → Message → Type 0
WithPublished b m = IsBetween b m.row

pub IsBetween-of :
    (b : Binding) (m : Row)
    → (m.sender == b.sender || m.recipient == b.sender) ≡ true
    → IsPublished b (other_end b.sender m)
    → IsBetween b m
IsBetween-of b m h o = elim (Bool-cases (m.sender == b.sender)) [
  | inl e ↦
      let published : IsPublished b (other_end b.sender m) = o in
      inl ((eq_iff m.sender b.sender).0 e, rw e at published)
  | inr e ↦
      let published : IsPublished b (other_end b.sender m) = o in
      inr ((eq_iff m.recipient b.sender).0 (ground arith), rw e at published)
]

module _ (b : Binding) (q : Row → Bool)
    (own : (m : Row) → q m ≡ true → (m.sender == b.sender || m.recipient == b.sender) ≡ true) where
  abbrev condition : Row → Bool
  condition m = q m && between b.sender (profile_names b) m

  selected_fit :
      (ms : List Row) (beyond_cursor : Row → Bool)
      → All (IsBetween b) (select (λ m. condition m && beyond_cursor m) ms)
  selected_fit [] beyond_cursor = tt
  selected_fit (m ∷ ms) beyond_cursor = elim (Bool-cases (condition m && beyond_cursor m)) [
    | inl e ↦ rw e (
      IsBetween-of b m (own m (ground arith)) (sym (allowed_name b.profiles _) ∙ ground arith),
      selected_fit ms beyond_cursor,
    )
    | inr e ↦ rw e (selected_fit ms beyond_cursor)
  ]

  All-with_reply :
      (db : Db) (ms : List Row)
      → All (IsBetween b) ms
      → All (WithPublished b) (map (with_reply db) ms)
  unfolding with_reply
  All-with_reply db [] h = tt
  All-with_reply db (m ∷ ms) h = (h.0, All-with_reply db ms h.1)

  in_order-fit :
      (newest_first : Bool) (ms : List Row)
      → All (IsBetween b) ms
      → All (IsBetween b) (in_order newest_first ms)
  in_order-fit true ms h = All-reverse _ ms h
  in_order-fit false ms h = h

  pub page_fit :
      (newest_first : Bool) (limit : ℤ) (cursor : Option ℤ) (db : Db)
      → All (WithPublished b) (page_of condition newest_first limit cursor db).messages
  unfolding page_of page_rows
  page_fit newest_first limit cursor db =
      All-with_reply db _
        (All-take _ (pos_part limit) _ (in_order-fit newest_first _ (selected_fit db.messages _)))
