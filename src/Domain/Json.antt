-- ===== src/Domain/Json.antt =====
-- Texts and JSON values as the code looks at them.
use argus_services.Prelude.{
  ℕ, ℤ, String, Bool, true, not, Option, none, some, str_eq, if◌then◌else◌,
}

-- A text that `UUID(...)` accepts, by the UUID that it denotes, or any other text. Spellings of
-- one UUID (case, braces, dashes) are one value here.
pub data Text : Type 0 where
  uuid_text : ℕ → Text
  plain : String → Text

-- `if text:`
abbrev pub truthy : Text → Bool
truthy (uuid_text u) = true
truthy (plain s) = not (str_eq s "")

-- `UUID(text)`; `none` is its `ValueError`.
abbrev pub parse_uuid : Text → Option ℕ
parse_uuid (uuid_text u) = some u
parse_uuid (plain s) = none

-- The values of `json`. A float is its 64-bit pattern; the operations on floats are parameters.
mutual
  pub data Json : Type 0 where
    null : Json
    bool : Bool → Json
    int : ℤ → Json
    float : ℕ → Json
    str : String → Json
    arr : Items → Json
    obj : Fields → Json

  pub data Items : Type 0 where
    nil : Items
    cons : Json → Items → Items

  pub data Fields : Type 0 where
    end : Fields
    field : String → Json → Fields → Fields

-- `d.get(name)` on a dict; the keys of a dict are distinct, and `none` is a missing key.
unfoldable pub get_field : String → Fields → Option Json
get_field k end = none
get_field k (field j v rest) = if str_eq j k then some v else get_field k rest
