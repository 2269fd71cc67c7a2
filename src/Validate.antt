-- ===== src/Validate.antt =====
-- src/validate.rs: what a command accepts.
--
-- A text that is walked is the list of its code points. A name is checked by bytes in the source;
-- a code point above 127 is refused here as each of its bytes is there.
pub mod Bodies
use harness_talk.Prelude.{
  ℕ, String, ℤ, pos, negsuc, Bool, true, false, ◌&&◌, ◌||◌, not, Option, none, some, List, [], ◌∷◌,
  ltb, leb, nat_eq, any, all, length, take, if◌then◌else◌,
}
use harness_talk.Prelude.Text.{codes, byte_len, remove, trim, is_lowercase, is_digit}
use harness_talk.Error.{Result, Checked, ok, err, code, refuse_if}

-- `validate::uuid`. `parse_str` is the `uuid` crate's reader, with the text that it is printed as.
unfoldable pub uuid : (List ℕ → Option String) → String → Result String
unfolding remove trim
uuid parse_str value =
    let hex = remove (codes "uuid:") (remove (codes "urn:") (codes value)) in
    let bare = remove (codes "-") (trim (λ c. nat_eq c b'{' || nat_eq c b'}') hex) in
    elim (parse_str bare) [ none ↦ err (code "invalid_uuid") | some id ↦ ok id ]

unfoldable pub name_start : ℕ → Bool
unfolding is_lowercase is_digit
name_start c = is_lowercase c || is_digit c

unfoldable pub name_char : ℕ → Bool
unfolding is_lowercase is_digit
name_char c = is_lowercase c || is_digit c || nat_eq c b'_' || nat_eq c b'-'

unfoldable pub bad_name : List ℕ → Bool
unfolding name_start name_char byte_len
bad_name [] = true
bad_name (c ∷ s) = ltb 64 (byte_len (c ∷ s)) || not (name_start c) || not (all name_char (c ∷ s))

-- `validate::peer_name`
unfoldable pub peer_name : String → Checked
unfolding bad_name
peer_name value = refuse_if (bad_name (codes value)) "invalid_peer_name"

-- `char::is_whitespace`: the code points of Unicode's White_Space.
unfoldable pub is_whitespace : ℕ → Bool
is_whitespace c =
    (leb 0x9 c && leb c 0xd)
    || nat_eq c 0x20
    || nat_eq c 0x85
    || nat_eq c 0xa0
    || nat_eq c 0x1680
    || (leb 0x2000 c && leb c 0x200a)
    || nat_eq c 0x2028
    || nat_eq c 0x2029
    || nat_eq c 0x202f
    || nat_eq c 0x205f
    || nat_eq c 0x3000

unfoldable pub is_space : ℕ → Bool
unfolding is_whitespace
is_space c = is_whitespace c || (leb 0x1c c && leb c 0x1f)

abbrev is_empty : List ℕ → Bool
is_empty [] = true
is_empty (c ∷ s) = false

unfoldable pub bad_text : List ℕ → Bool
unfolding trim byte_len is_space
bad_text body = is_empty (trim is_space body) || ltb 32000 (byte_len body)

-- `validate::text`
unfoldable pub text : String → Checked
unfolding bad_text
text body = refuse_if (bad_text (codes body)) "message_must_be_1_to_32000_bytes"

-- An `f64` of seconds as an argument: in milliseconds where it is a number of zero or more.
pub data Seconds : Type 0 where
  not_finite below_zero : Seconds
  ms : ℕ → Seconds

-- `validate::wait`
unfoldable pub wait : Seconds → Checked
wait (ms t) = refuse_if (ltb 45000 t) "wait_seconds_must_be_between_0_and_45"
wait _ = err (code "wait_seconds_must_be_between_0_and_45")

unfoldable pub limit_in_range : ℤ → Bool
limit_in_range (pos n) = leb 1 n && leb n 500
limit_in_range (negsuc n) = false

unfoldable pub cursor_in_range : Option ℤ → Bool
cursor_in_range none = true
cursor_in_range (some (pos n)) = leb 1 n
cursor_in_range (some (negsuc n)) = false

-- `validate::page`
unfoldable pub page : ℤ → Option ℤ → Checked
unfolding limit_in_range cursor_in_range
page limit cursor =
    if not (limit_in_range limit)
    then err (code "limit_must_be_between_1_and_500")
    else refuse_if (not (cursor_in_range cursor)) "seq_cursor_must_be_a_positive_integer"

-- The characters at which `preview` ends a line.
unfoldable pub ends_line : ℕ → Bool
ends_line c =
    nat_eq c 0xa
    || nat_eq c 0xd
    || nat_eq c 0xb
    || nat_eq c 0xc
    || nat_eq c 0x1c
    || nat_eq c 0x1d
    || nat_eq c 0x1e
    || nat_eq c 0x85
    || nat_eq c 0x2028
    || nat_eq c 0x2029

abbrev onto_line : ℕ → List (List ℕ) → List (List ℕ)
onto_line c [] = (c ∷ []) ∷ []
onto_line c (line ∷ lines) = (c ∷ line) ∷ lines

-- `str::split`, with the line that is being read; there is always a last line.
unfoldable pub split_lines : List ℕ → List (List ℕ)
unfolding ends_line
split_lines [] = [] ∷ []
split_lines (c ∷ s) =
    let rest = split_lines s in if ends_line c then [] ∷ rest else onto_line c rest

unfoldable pub first_nonblank : List (List ℕ) → List ℕ
unfolding is_space trim
first_nonblank [] = []
first_nonblank (line ∷ lines) =
    let line' = trim is_space line in if is_empty line' then first_nonblank lines else line'

-- `validate::preview`
unfoldable pub preview : List ℕ → List ℕ
unfolding split_lines first_nonblank
preview body = take 120 (first_nonblank (split_lines body))
