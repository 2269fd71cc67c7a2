-- ===== src/Prelude/Select.antt =====
-- Selections of a list: of all, of none, of a selection, and of a list that is turned around.
use harness_talk.Prelude.{
  if◌then◌else◌, ℕ, zero, suc, ◌≡◌, refl, sym, ap, ◌∙◌, Bool, true, false, ◌&&◌, none, some, List,
  [], ◌∷◌, ◌++◌, arith, select, length, All, get_last?, map, reverse, length-append, take, ◌⊎◌, inl,
  inr, Bool-cases,
}
use mathlib.Core.List.{reverse-cons, append-nil}
use mathlib.Core.Path.{subst}

some_same {ℓ} : {A : Type ℓ} {a b : A} → some a ≡ some b → a ≡ b
some_same h = cc

module _ {ℓ} {A : Type ℓ} where
  pub last_cases :
      (x : A) (xs : List A) (p : A)
      → get_last? (x ∷ xs) ≡ some p
      → ((xs ≡ []) × (x ≡ p)) ⊎ (get_last? xs ≡ some p)
  last_cases x [] p e = inl (refl, some_same e)
  last_cases x (y ∷ xs) p e = inr e

  pub select-All : (q : A → Bool) (xs : List A) → All (λ x. q x ≡ true) xs → select q xs ≡ xs
  select-All q [] h = refl
  select-All q (x ∷ xs) h = ground (arith, select-All q xs h.1, h.0)

  pub select-append :
      (q : A → Bool) (xs ys : List A) → select q (xs ++ ys) ≡ select q xs ++ select q ys
  select-append q [] ys = refl
  select-append q (x ∷ xs) ys = ground (arith, select-append q xs ys)

  turned :
      (b : Bool) (x : A) (ys : List A)
      → reverse ys ++ (if b then x ∷ [] else []) ≡ reverse (if b then x ∷ ys else ys)
  turned true x ys = sym (reverse-cons x ys)
  turned false x ys = append-nil (reverse ys)

  pub select-reverse : (q : A → Bool) (xs : List A) → select q (reverse xs) ≡ reverse (select q xs)
  select-reverse q [] = refl
  select-reverse q (x ∷ xs) =
      ap (select q) (reverse-cons x xs)
      ∙ select-append q (reverse xs) (x ∷ [])
      ∙ ap (λ ys. ys ++ select q (x ∷ [])) (select-reverse q xs)
      ∙ turned (q x) x (select q xs)

  pub select_both :
      (p q : A → Bool) (xs : List A) → select (λ x. p x && q x) xs ≡ select q (select p xs)
  select_both p q [] = refl
  select_both p q (x ∷ xs) = ground (arith, select_both p q xs)

  -- A stricter test finds in a selection what it finds in the whole list.
  pub select_stricter :
      (p q : A → Bool) (xs : List A)
      → ((x : A) → q x ≡ true → p x ≡ true)
      → select q (select p xs) ≡ select q xs
  select_stricter p q [] h = refl
  select_stricter p q (x ∷ xs) h = ground (arith, select_stricter p q xs h, h x)

  pub length-reverse : (xs : List A) → length (reverse xs) ≡ length xs
  length-reverse [] = refl
  length-reverse (x ∷ xs) =
      rw (reverse-cons x xs)
        (length-append (reverse xs) (x ∷ []) ∙ omega (arith, length-reverse xs))

module _ {ℓ} {A : Type ℓ} (P : A → Type 0) where
  pub All-append : (xs ys : List A) → All P xs → All P ys → All P (xs ++ ys)
  All-append [] ys h k = k
  All-append (x ∷ xs) ys h k = (h.0, All-append xs ys h.1 k)

  pub All-reverse : (xs : List A) → All P xs → All P (reverse xs)
  All-reverse [] h = h
  All-reverse (x ∷ xs) h =
      rw (reverse-cons x xs) (All-append (reverse xs) (x ∷ []) (All-reverse xs h.1) (h.0, tt))

  pub All-select : (q : A → Bool) (xs : List A) → All P xs → All P (select q xs)
  All-select q [] h = h
  All-select q (x ∷ xs) h = elim (Bool-cases (q x)) [
    | inl e ↦ rw e (h.0, All-select q xs h.1)
    | inr e ↦ rw e (All-select q xs h.1)
  ]

  pub All-take : (k : ℕ) (xs : List A) → All P xs → All P (take k xs)
  All-take zero xs h = tt
  All-take (suc k) [] h = tt
  All-take (suc k) (x ∷ xs) h = (h.0, All-take k xs h.1)

  pub All-last : (xs : List A) (p : A) → All P xs → get_last? xs ≡ some p → P p
  All-last [] p h e = absurd (ground arith)
  All-last (x ∷ []) p h e = subst P (some_same e) h.0
  All-last (x ∷ y ∷ xs) p h e = All-last (y ∷ xs) p h.1 e

module _ {ℓ κ} {A : Type ℓ} {B : Type κ} where
  pub get_last?-map :
      (f : A → B) (xs : List A)
      → get_last? (map f xs) ≡ elim (get_last? xs) [ none ↦ none | some x ↦ some (f x) ]
  get_last?-map f [] = refl
  get_last?-map f (x ∷ []) = refl
  get_last?-map f (x ∷ y ∷ xs) = get_last?-map f (y ∷ xs)
