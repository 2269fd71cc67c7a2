-- ===== src/Catalog.antt =====
-- src/catalog/mod.rs: what the files of the catalog are checked for.
pub mod Mailbox
pub mod Profile
pub mod Binding
pub mod Browse
pub mod Choose
pub mod Trust
pub mod Accepted
use harness_talk.Prelude.{
  ℕ, String, String_eq, Bool, true, false, not, ◌&&◌, ◌||◌, Option, List, [], ◌∷◌, ◌==◌, ltb, leb,
  any,
}
use harness_talk.Prelude.Text.{codes, byte_len}
use harness_talk.Error.{Result, Checked, ok, refuse_if, ◌>>=◌}
use harness_talk.Validate

-- `uuid`: the canonical form alone. `parse_str` is of the uuid crate.
unfoldable pub uuid : (List ℕ → Option String) → String → Checked
uuid parse_str s = do
  id ← Validate.uuid parse_str s
  refuse_if (not (id == s)) "catalog_requires_canonical_uuid"

-- `char::is_control`: the code points of Unicode's category Cc.
unfoldable pub is_control : ℕ → Bool
is_control c = leb c 0x1f || (leb 0x7f c && leb c 0x9f)

abbrev is_empty : List ℕ → Bool
is_empty [] = true
is_empty (c ∷ s) = false

unfoldable pub text : String → ℕ → Checked
unfolding is_control byte_len
text s max =
    refuse_if (is_empty (codes s) || ltb max (byte_len (codes s)) || any is_control (codes s))
      "catalog_invalid_text"
