-- ===== src/Prelude/Tests.antt =====
-- Boolean tests on the native numbers, the conditional, and an interface of decidable equality.
use Prim.Native.Nat.{ℕ, ◌≤◌, ◌<◌, compare, Ordering}
use Prim.Native.String.{String}
use text.Mathlib.Text.{◌==◌ as str_eq}
use text.Mathlib.TextEquality.{eq_iff}
use mathlib.Core.Path.{◌≡◌, refl, ap}
use mathlib.Core.Logic.{◌↔◌, ◌⊎◌, inl, inr}
use mathlib.Core.Bool.{Bool, true, false}
use mathlib.Core.Option.{Option, none, some}
use native.Mathlib.Omega.{arith}

abbrev pub ltb : ℕ → ℕ → Bool
ltb a b = elim (compare a b) [ Ordering.lt ↦ true | _ ↦ false ]

abbrev pub leb : ℕ → ℕ → Bool
leb a b = elim (compare a b) [ Ordering.gt ↦ false | _ ↦ true ]

abbrev pub nat_eq : ℕ → ℕ → Bool
nat_eq a b = elim (compare a b) [ Ordering.eq ↦ true | _ ↦ false ]

infix 1 if◌then◌else◌
abbrev pub if◌then◌else◌ {ℓ} : {A : Type ℓ} → Bool → A → A → A
if true then x else y = x
if false then x else y = y

pub ltb→lt : (a b : ℕ) → ltb a b ≡ true → a < b
ltb→lt a b h = ground arith

pub lt→ltb : (a b : ℕ) → a < b → ltb a b ≡ true
lt→ltb a b h = ground arith

pub leb→le : (a b : ℕ) → leb a b ≡ true → a ≤ b
leb→le a b h = ground arith

pub nat_eq_iff : (a b : ℕ) → (nat_eq a b ≡ true) ↔ (a ≡ b)
nat_eq_iff a b = ground arith

pub Bool-cases : (b : Bool) → (b ≡ true) ⊎ (b ≡ false)
Bool-cases true = inl refl
Bool-cases false = inr refl

pub Option-cases {ℓ} : {A : Type ℓ} (o : Option A) → (o ≡ none) ⊎ ((a : A) × (o ≡ some a))
Option-cases none = inl refl
Option-cases (some a) = inr (a, refl)

abbrev pub option_eq {ℓ} : {A : Type ℓ} → (A → A → Bool) → Option A → Option A → Bool
option_eq eq none none = true
option_eq eq (some a) (some b) = eq a b
option_eq eq _ _ = false

-- What `derive(PartialEq)` gives: a test, which is right about the values that it compares.
pub record PartialEq {ℓ} (A : Type ℓ) : Type ℓ where
  pub equal : A → A → Bool
  pub equal_lem : (a b : A) → (equal a b ≡ true) ↔ (a ≡ b)

pub option_eq_iff {ℓ} :
    {A : Type ℓ} (e : PartialEq A) (a b : Option A) → (option_eq e.equal a b ≡ true) ↔ (a ≡ b)
option_eq_iff e none none = (λ _. refl, λ _. refl)
option_eq_iff e none (some b) = (λ h. cc, λ h. cc)
option_eq_iff e (some a) none = (λ h. cc, λ h. cc)
option_eq_iff e (some a) (some b) =
    (λ h. ap some ((e.equal_lem a b).0 h), λ h. (e.equal_lem a b).1 (cc))

instance abbrev pub Option_eq {ℓ} : {A : Type ℓ} ⦃e : PartialEq A⦄ → PartialEq (Option A)
Option_eq ⦃e⦄ = record { equal = option_eq e.equal; equal_lem = option_eq_iff e }

instance abbrev pub String_eq : PartialEq String
String_eq = record { equal = str_eq; equal_lem = eq_iff }

instance abbrev pub Nat_eq : PartialEq ℕ
Nat_eq = record { equal = nat_eq; equal_lem = nat_eq_iff }

module _ {ℓ} {A : Type ℓ} ⦃e : PartialEq A⦄ where
  infix 50 ◌==◌
  abbrev pub ◌==◌ : A → A → Bool
  a == b = e.equal a b

  pub beq_refl : (a : A) → (a == a) ≡ true
  beq_refl a = (e.equal_lem a a).1 refl
