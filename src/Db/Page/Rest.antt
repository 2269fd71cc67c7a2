-- ===== src/Db/Page/Rest.antt =====
-- What a page leaves for the next one (src/store.rs).
use harness_talk.Prelude.{
  ℕ, zero, suc, ◌≤◌, ◌<◌, ◌≡◌, refl, sym, ap, ◌∙◌, Bool, true, false, ◌&&◌, none, some, List, [],
  ◌∷◌, arith, select, length, All, get_last?, map, take, drop, count-eq-length-select, ◌≢◌,
  Bool-cases, inl, inr,
}
use harness_talk.Prelude.Select.{
  select_both, select-reverse, select_stricter, length-reverse, All-last, All-take,
}
use harness_talk.Model.{Row}
use harness_talk.Db.{Db}
use harness_talk.Db.Page.{beyond, in_order, omitted_after}
use harness_talk.Db.Page.Chain.{Chain, Chain-select, rest_of_Chain, beyond_trans, in_order-Chain}
use harness_talk.Db.Valid.{IsValid}

pub in_order-select :
    (q : Row → Bool) (newest_first : Bool) (ms : List Row)
    → in_order newest_first (select q ms) ≡ select q (in_order newest_first ms)
in_order-select q true ms = sym (select-reverse q ms)
in_order-select q false ms = refl

pub length-in_order :
    (newest_first : Bool) (ms : List Row) → length (in_order newest_first ms) ≡ length ms
length-in_order true ms = length-reverse ms
length-in_order false ms = refl

pub fits : (q : Row → Bool) (ms : List Row) → All (λ m. q m ≡ true) (select q ms)
fits q [] = tt
fits q (m ∷ ms) = elim (Bool-cases (q m)) [ inl e ↦ rw e (e, fits q ms) | inr e ↦ rw e (fits q ms) ]

pub nothing_left : {A : Type 0} (xs : List A) → length xs ≤ 0 → xs ≡ []
nothing_left [] h = refl
nothing_left (x ∷ xs) h = absurd (omega (arith, h))

pub last_of_some : {A : Type 0} (x : A) (xs : List A) → get_last? (x ∷ xs) ≢ none
last_of_some x [] e = ground arith
last_of_some x (y ∷ xs) e = last_of_some y xs e

pub one_shown : {A : Type 0} (xs : List A) (p : A) → get_last? xs ≡ some p → 1 ≤ length xs
one_shown [] p e = absurd (ground arith)
one_shown (x ∷ xs) p e = omega arith

pub take_nothing : {A : Type 0} (n : ℕ) → take {A = A} n [] ≡ []
take_nothing zero = refl
take_nothing (suc n) = refl

pub length-map : {A B : Type 0} (f : A → B) (xs : List A) → length (map f xs) ≡ length xs
length-map f [] = refl
length-map f (x ∷ xs) = omega (arith, length-map f xs)

pub none_shown : {A : Type 0} (n : ℕ) (xs : List A) → 0 < n → get_last? (take n xs) ≡ none → xs ≡ []
none_shown n [] h e = refl
none_shown zero (x ∷ xs) h e = absurd (omega (arith, h))
none_shown (suc n) (x ∷ xs) h e = absurd (last_of_some x (take n xs) e)

module _ (condition : Row → Bool) (newest_first : Bool) (db : Db) (valid : IsValid db) where
  -- All rows that the condition selects, and those beyond a cursor, in the order of the pages.
  abbrev pub matches : List Row
  matches = in_order newest_first (select condition db.messages)

  abbrev pub left_at : ℕ → List Row
  left_at c =
      in_order newest_first (select (λ m. condition m && beyond newest_first c m) db.messages)

  pub left-select : (c : ℕ) → left_at c ≡ select (beyond newest_first c) matches
  left-select c =
      ap (in_order newest_first) (select_both condition (beyond newest_first c) db.messages)
      ∙ in_order-select (beyond newest_first c) newest_first (select condition db.messages)

  pub matches-Chain : Chain newest_first matches
  matches-Chain = rw (in_order-select condition newest_first db.messages) (
      Chain-select newest_first condition (in_order newest_first db.messages)
        (in_order-Chain newest_first db.messages 0 db.last_seq valid.ordered))

  pub left-Chain : (c : ℕ) → Chain newest_first (left_at c)
  left-Chain c =
      rw (left-select c) (Chain-select newest_first (beyond newest_first c) matches matches-Chain)

  pub left_fit : (c : ℕ) → All (λ m. beyond newest_first c m ≡ true) (left_at c)
  left_fit c = rw (left-select c) (fits (beyond newest_first c) matches)

  -- What is left after a page is what the page does not show.
  pub left_after :
      (n c : ℕ) (p : Row)
      → get_last? (take n (left_at c)) ≡ some p
      → left_at p.seq ≡ drop n (left_at c)
  left_after n c p e =
      let shown = All-last _ (take n (left_at c)) p (All-take _ n (left_at c) (left_fit c)) e in
      left-select p.seq
      ∙ sym (
          select_stricter (beyond newest_first c) (beyond newest_first p.seq) matches
            (λ m h. beyond_trans newest_first c p m shown h))
      ∙ ap (select (beyond newest_first p.seq)) (sym (left-select c))
      ∙ rest_of_Chain newest_first n (left_at c) p (left-Chain c) e

  pub omitted_rest :
      (n c : ℕ) (p : Row)
      → get_last? (take n (left_at c)) ≡ some p
      → omitted_after condition newest_first db.messages (some p) ≡ length (drop n (left_at c))
  omitted_rest n c p e =
      count-eq-length-select (λ m. condition m && beyond newest_first p.seq m) db.messages
      ∙ sym (length-in_order newest_first _)
      ∙ ap length (left_after n c p e)
