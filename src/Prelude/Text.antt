-- ===== src/Prelude/Text.antt =====
-- A text as its code points, and Rust's `str` methods over them.
use Prim.Native.Nat.{ℕ, zero, suc, ◌+◌, ◌-◌, ◌≤◌}
use Prim.Native.Char.{code}
use Prim.Native.String.{String}
use mathlib.Core.Bool.{Bool, true, false, ◌&&◌}
use mathlib.Core.List.{List, [], ◌∷◌, reverse}
use native.Mathlib.Omega.{arith}
use harness_talk.Prelude.Tests.{ltb, leb, nat_eq, if◌then◌else◌}
use harness_talk.Prelude.Lists.{length}

-- The code points of a text. `String` has its own `[]` and `∷`.
abbrev pub codes : String → List ℕ
codes String.[] = []
codes (String.◌∷◌ c s) = code c ∷ codes s

-- How many bytes UTF-8 takes for a code point.
unfoldable pub utf8_width : ℕ → ℕ
utf8_width c = if ltb c 0x80 then 1 else if ltb c 0x800 then 2 else if ltb c 0x1_0000 then 3 else 4

-- `str::len`
unfoldable pub byte_len : List ℕ → ℕ
unfolding utf8_width
byte_len [] = 0
byte_len (c ∷ s) = utf8_width c + byte_len s

unfoldable pub starts_with : List ℕ → List ℕ → Bool
starts_with [] s = true
starts_with (p ∷ ps) [] = false
starts_with (p ∷ ps) (c ∷ s) = nat_eq p c && starts_with ps s

-- `str::replace(p, "")`, where `skip` code points are still of the occurrence that was found last.
unfoldable pub remove_from : List ℕ → ℕ → List ℕ → List ℕ
unfolding starts_with
remove_from p skip [] = []
remove_from p (suc skip) (c ∷ s) = remove_from p skip s
remove_from p zero (c ∷ s) =
    let rest = remove_from p (length p - 1) s in
    let kept = c ∷ remove_from p zero s in if starts_with p (c ∷ s) then rest else kept

unfoldable pub remove : List ℕ → List ℕ → List ℕ
unfolding remove_from
remove p s = remove_from p 0 s

unfoldable pub trim_start : (ℕ → Bool) → List ℕ → List ℕ
trim_start p [] = []
trim_start p (c ∷ s) = let rest = trim_start p s in if p c then rest else c ∷ s

-- `str::trim_matches`
unfoldable pub trim : (ℕ → Bool) → List ℕ → List ℕ
unfolding trim_start
trim p s = reverse (trim_start p (reverse (trim_start p s)))

unfoldable pub is_lowercase : ℕ → Bool
is_lowercase c = leb b'a' c && leb c b'z'

unfoldable pub is_digit : ℕ → Bool
is_digit c = leb b'0' c && leb c b'9'

-- UTF-8 takes a byte at least for each code point.
pub length-le-byte_len : (s : List ℕ) → length s ≤ byte_len s
unfolding byte_len
length-le-byte_len [] = omega arith
length-le-byte_len (c ∷ s) = ground (arith, length-le-byte_len s)
