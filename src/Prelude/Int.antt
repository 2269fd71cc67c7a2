-- ===== src/Prelude/Int.antt =====
-- Signed numbers, for the `i64` arguments that a caller may give below zero.
use Prim.Native.Nat.{ℕ}
use mathlib.Core.Path.{◌≡◌, ap}
use mathlib.Core.Bool.{Bool, true, false}
use native.Mathlib.Omega.{arith}
use harness_talk.Prelude.Tests.{nat_eq, nat_eq_iff}

-- `negsuc n` is -(n + 1).
pub data ℤ : Type 0 where
  pos : ℕ → ℤ
  negsuc : ℕ → ℤ

abbrev pub pos_part : ℤ → ℕ
pos_part (pos n) = n
pos_part (negsuc n) = 0

abbrev pub int_eq : ℤ → ℤ → Bool
int_eq (pos a) (pos b) = nat_eq a b
int_eq (negsuc a) (negsuc b) = nat_eq a b
int_eq _ _ = false

pub int_eq→eq : (a b : ℤ) → int_eq a b ≡ true → a ≡ b
int_eq→eq (pos a) (pos b) h = ap pos ((nat_eq_iff a b).0 h)
int_eq→eq (negsuc a) (negsuc b) h = ap negsuc ((nat_eq_iff a b).0 h)
int_eq→eq (pos a) (negsuc b) h = absurd (ground arith)
int_eq→eq (negsuc a) (pos b) h = absurd (ground arith)
