-- ===== src/Prelude/Find.antt =====
-- Searching a table that was appended to or updated.
use harness_talk.Prelude.{
  ◌+◌, ◌≡◌, refl, Bool, true, ◌||◌, Option, none, some, List, [], ◌∷◌, ◌++◌, arith, any, find?,
  count, update_where, if◌then◌else◌,
}

abbrev pub or_found {ℓ} : {A : Type ℓ} → Option A → Option A → Option A
or_found none o = o
or_found (some a) o = some a

abbrev pub map_found {ℓ} : {A : Type ℓ} → (A → A) → Option A → Option A
map_found f none = none
map_found f (some a) = some (f a)

module _ {ℓ} {A : Type ℓ} (q : A → Bool) where
  pub find?-append : (xs ys : List A) → find? q (xs ++ ys) ≡ or_found (find? q xs) (find? q ys)
  find?-append [] ys = refl
  find?-append (x ∷ xs) ys = ground (arith, find?-append xs ys)

  -- A row that is found fits the test.
  pub find?-fits : (xs : List A) (x : A) → find? q xs ≡ some x → q x ≡ true
  find?-fits [] x h = cc
  find?-fits (y ∷ ys) x h = ground (arith, find?-fits ys x)

  pub any-append : (xs ys : List A) → any q (xs ++ ys) ≡ (any q xs || any q ys)
  any-append [] ys = refl
  any-append (x ∷ xs) ys = ground (arith, any-append xs ys)

  pub count-append : (xs ys : List A) → count q (xs ++ ys) ≡ count q xs + count q ys
  count-append [] ys = omega arith
  count-append (x ∷ xs) ys = ground (arith, count-append xs ys)

  -- A row that is counted is found, and one that is found is counted.
  pub count_of_none : (xs : List A) → find? q xs ≡ none → count q xs ≡ 0
  count_of_none [] h = refl
  count_of_none (x ∷ xs) h = ground (arith, count_of_none xs)

  pub find?_of_count : (xs : List A) → count q xs ≡ 0 → find? q xs ≡ none
  find?_of_count [] h = refl
  find?_of_count (x ∷ xs) h = ground (arith, find?_of_count xs)

-- An update that leaves what a search tests leaves what it finds, but for the update itself.
module _ {ℓ} {A : Type ℓ} (q p : A → Bool) (f : A → A)
    (same : (a : A) → p a ≡ true → q (f a) ≡ q a) where
  pub find?-update_where :
      (xs : List A)
      → find? q (update_where p f xs) ≡ map_found (λ x. if p x then f x else x) (find? q xs)
  find?-update_where [] = refl
  find?-update_where (x ∷ xs) = ground (arith, same x, find?-update_where xs)
