-- ===== src/Codex/Json.antt =====
-- `serde_json::Value`, as far as src/adapters/codex reads it.
use harness_talk.Prelude.{
  String, String_eq, Bool, Option, none, some, ℤ, ◌==◌, nat_eq, if◌then◌else◌,
}
use Prim.Native.Char.{code}

mutual
  pub data Json : Type 0 where
    null : Json
    boolean : Bool → Json
    integer : ℤ → Json
    -- A number that is no integer; whether it is equal to a given integer is all that is asked.
    real : (ℤ → Bool) → Json
    text : String → Json
    array : Items → Json
    object : Fields → Json

  pub data Items : Type 0 where
    no_items : Items
    item : Json → Items → Items

  pub data Fields : Type 0 where
    no_fields : Fields
    field : String → Json → Fields → Fields

abbrev pub get_field : String → Fields → Option Json
get_field name no_fields = none
get_field name (field n v rest) = if n == name then some v else get_field name rest

-- `Value::get` of a name.
abbrev pub get : String → Json → Option Json
get name (object fields) = get_field name fields
get name _ = none

abbrev pub as_str : Option Json → Option String
as_str (some (text s)) = some s
as_str _ = none

-- `format!("{a}{b}")`
abbrev pub concat : String → String → String
concat String.[] t = t
concat (String.◌∷◌ c s) t = String.◌∷◌ c (concat s t)

-- `str::strip_prefix`
abbrev pub strip_prefix : String → String → Option String
strip_prefix String.[] s = some s
strip_prefix (String.◌∷◌ p ps) String.[] = none
strip_prefix (String.◌∷◌ p ps) (String.◌∷◌ c s) =
    let rest = strip_prefix ps s in if nat_eq (code p) (code c) then rest else none
