-- ===== src/Validate/Bodies.antt =====
-- What `text` accepts of a body, and what `preview` shows of it.
use mathlib.Core.List.{reverse_aux, reverse-reverse}
use harness_talk.Prelude.{
  ℕ, zero, suc, ◌≤◌, ◌≡◌, refl, ◌≢◌, ◌↔◌, String, Bool, true, false, not, ◌&&◌, List, [], ◌∷◌,
  arith, all, length, reverse, take, length-take, ap, sym, ◌∙◌, Bool-cases, inl, inr,
}
use harness_talk.Prelude.Text.{codes, byte_len, trim, trim_start}
use harness_talk.Error.{ok}
use harness_talk.Validate.{
  is_space, is_empty, bad_text, text, ends_line, onto_line, split_lines, first_nonblank, preview,
}

module _ (p : ℕ → Bool) where
  all-reverse_aux : (xs ys : List ℕ) → all p (reverse_aux xs ys) ≡ (all p xs && all p ys)
  all-reverse_aux [] ys = refl
  all-reverse_aux (x ∷ xs) ys = rw (all-reverse_aux xs (x ∷ ys)) (ground arith)

  all-reverse : (xs : List ℕ) → all p (reverse xs) ≡ all p xs
  all-reverse xs = all-reverse_aux xs [] ∙ ground arith

  all_of_trim_start : (s : List ℕ) → trim_start p s ≡ [] → all p s ≡ true
  unfolding trim_start
  all_of_trim_start [] h = refl
  all_of_trim_start (c ∷ s) h = ground (arith, all_of_trim_start s)

  trim_start_of_all : (s : List ℕ) → all p s ≡ true → trim_start p s ≡ []
  unfolding trim_start
  trim_start_of_all [] h = refl
  trim_start_of_all (c ∷ s) h = ground (arith, trim_start_of_all s)

  -- What is left begins with a code point that stays.
  trim_start_idem : (s : List ℕ) → all p (trim_start p s) ≡ true → trim_start p s ≡ []
  unfolding trim_start
  trim_start_idem [] h = refl
  trim_start_idem (c ∷ s) h = ground (arith, trim_start_idem s)

  reverse-eq-nil : (s : List ℕ) → reverse s ≡ [] → all p s ≡ true
  reverse-eq-nil s h = sym (all-reverse s) ∙ ap (all p) h

  all_of_trim : (s : List ℕ) → trim p s ≡ [] → all p s ≡ true
  unfolding trim
  all_of_trim s h = all_of_trim_start s (
      trim_start_idem s (
        sym (all-reverse (trim_start p s))
        ∙ all_of_trim_start (reverse (trim_start p s)) (nil_of_reverse _ h)))
    where
      nil_of_reverse : (t : List ℕ) → reverse t ≡ [] → t ≡ []
      nil_of_reverse t e = sym (reverse-reverse t) ∙ ap reverse e

  trim_of_all : (s : List ℕ) → all p s ≡ true → trim p s ≡ []
  unfolding trim
  trim_of_all s h = rw (trim_start_of_all s h) refl

module _ (p q : ℕ → Bool) where
  all-trim_start : (s : List ℕ) → all q s ≡ true → all q (trim_start p s) ≡ true
  unfolding trim_start
  all-trim_start [] h = refl
  all-trim_start (c ∷ s) h = ground (arith, all-trim_start s)

  all-trim : (s : List ℕ) → all q s ≡ true → all q (trim p s) ≡ true
  unfolding trim
  all-trim s h =
      all-reverse q _
      ∙ all-trim_start (reverse (trim_start p s)) (all-reverse q _ ∙ all-trim_start s h)

is_empty_iff : (s : List ℕ) → (is_empty s ≡ true) ↔ (s ≡ [])
is_empty_iff [] = (λ _. refl, λ _. refl)
is_empty_iff (c ∷ s) = (λ h. cc, λ h. cc)

-- Every character that ends a line is trimmed from one.
ends_line-is_space : (c : ℕ) → ends_line c ≡ true → is_space c ≡ true
unfolding ends_line is_space
ends_line-is_space c h = ground arith

blank_lines : List (List ℕ) → Bool
blank_lines = all (all is_space)

blank_lines-onto_line :
    (c : ℕ) (ls : List (List ℕ)) → blank_lines (onto_line c ls) ≡ (is_space c && blank_lines ls)
unfolding blank_lines
blank_lines-onto_line c [] = ground arith
blank_lines-onto_line c (l ∷ ls) = ground arith

blank_lines-split_lines : (s : List ℕ) → blank_lines (split_lines s) ≡ all is_space s
unfolding split_lines blank_lines
blank_lines-split_lines [] = refl
blank_lines-split_lines (c ∷ s) = ground (
  arith,
  ends_line-is_space c,
  blank_lines-onto_line c (split_lines s),
  blank_lines-split_lines s,
)

blank_of_first_nonblank : (ls : List (List ℕ)) → first_nonblank ls ≡ [] → blank_lines ls ≡ true
unfolding first_nonblank blank_lines
blank_of_first_nonblank [] h = refl
blank_of_first_nonblank (l ∷ ls) h = elim (Bool-cases (is_empty (trim is_space l))) [
  | inl e ↦
      ground (arith, all_of_trim is_space l ((is_empty_iff _).0 e), blank_of_first_nonblank ls)
  | inr e ↦ ground arith
]

all-take : (q : ℕ → Bool) (n : ℕ) (s : List ℕ) → all q s ≡ true → all q (take n s) ≡ true
all-take q zero s h = refl
all-take q (suc n) [] h = refl
all-take q (suc n) (c ∷ s) h = ground (arith, all-take q n s)

pub in_line : ℕ → Bool
in_line c = not (ends_line c)

in_line-onto_line :
    (c : ℕ) (ls : List (List ℕ))
    → in_line c ≡ true
    → all (all in_line) ls ≡ true
    → all (all in_line) (onto_line c ls) ≡ true
in_line-onto_line c [] h k = ground arith
in_line-onto_line c (l ∷ ls) h k = ground arith

in_line-split_lines : (s : List ℕ) → all (all in_line) (split_lines s) ≡ true
unfolding split_lines in_line
in_line-split_lines [] = refl
in_line-split_lines (c ∷ s) =
    ground (arith, in_line-onto_line c (split_lines s), in_line-split_lines s)

in_line-first_nonblank :
    (ls : List (List ℕ)) → all (all in_line) ls ≡ true → all in_line (first_nonblank ls) ≡ true
unfolding first_nonblank
in_line-first_nonblank [] h = refl
in_line-first_nonblank (l ∷ ls) h =
    ground (arith, all-trim is_space in_line l, in_line-first_nonblank ls)

bad_text_lem :
    (s : List ℕ) → (bad_text s ≡ false) ↔ ((all is_space s ≡ false) × (byte_len s ≤ 32000))
unfolding bad_text
bad_text_lem s = elim (Bool-cases (all is_space s)) [
  | inl e ↦ rw (trim_of_all is_space s e) (ground arith)
  | inr e ↦ ground (arith, is_empty_iff (trim is_space s), all_of_trim is_space s)
]

-- A body is accepted exactly when it has a character that is no space and takes at most 32000 bytes
-- of UTF-8.
pub text_accepts :
    (body : String)
    → (text body ≡ ok tt) ↔ ((all is_space (codes body) ≡ false) × (byte_len (codes body) ≤ 32000))
unfolding text
text_accepts body = ground (arith, bad_text_lem (codes body))

take-ne-nil : (n : ℕ) (s : List ℕ) → s ≢ [] → take (suc n) s ≢ []
take-ne-nil n [] h = h
take-ne-nil n (c ∷ s) h = cc

preview-ne-nil : (s : List ℕ) → all is_space s ≡ false → preview s ≢ []
unfolding preview
preview-ne-nil s h =
    take-ne-nil 119 (first_nonblank (split_lines s))
      λ e. ground (arith, blank_of_first_nonblank (split_lines s) e, blank_lines-split_lines s)

length-preview : (s : List ℕ) → length (preview s) ≤ 120
unfolding preview
length-preview s = omega (arith, length-take 120 (first_nonblank (split_lines s)))

in_line-preview : (s : List ℕ) → all in_line (preview s) ≡ true
unfolding preview
in_line-preview s =
    all-take in_line 120 _ (in_line-first_nonblank (split_lines s) (in_line-split_lines s))

-- The preview of an accepted body is not empty, has at most 120 characters and holds no character
-- that ends a line.
pub preview_of_text :
    (body : String)
    → text body ≡ ok tt
    → (preview (codes body) ≢ [])
      × (length (preview (codes body)) ≤ 120)
      × (all in_line (preview (codes body)) ≡ true)
preview_of_text body h = (
  preview-ne-nil (codes body) ((text_accepts body).0 h).0,
  length-preview (codes body),
  in_line-preview (codes body),
)
