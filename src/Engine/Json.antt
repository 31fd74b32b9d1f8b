-- ===== src/Engine/Json.antt =====
-- Decoded JSON, as `any` and `map[string]any` hold it, and how a field is read.
use cloudeagent.Prelude.{ℕ, Bool, Option, none, some, [], Text, text_eq, if◌then◌else◌}

mutual
  pub data Json : Type 0 where
    null : Json
    flag : Bool → Json
    num : ℕ → Json
    str : Text → Json
    arr : Items → Json
    obj : Fields → Json

  pub data Items : Type 0 where
    nil : Items
    cons : Json → Items → Items

  pub data Fields : Type 0 where
    no_fields : Fields
    field : Text → Json → Fields → Fields

-- `m[key]`, which is nil for a missing key
unfoldable pub get : Text → Fields → Json
get key no_fields = null
get key (field k v fs) = let rest = get key fs in if text_eq k key then v else rest

-- `v, _ := m[key].(string)` and `v, ok := m[key].(map[string]any)`
abbrev pub as_text : Json → Text
as_text (str s) = s
as_text _ = []

abbrev pub as_fields : Json → Option Fields
as_fields (obj fs) = some fs
as_fields _ = none

abbrev pub as_items : Json → Items
as_items (arr xs) = xs
as_items _ = nil

-- `paramString`; a nil map is one with no fields.
unfoldable pub param_string : Fields → Text → Text
unfolding get
param_string m key = as_text (get key m)

-- The fields of an optional map.
abbrev pub fields_or_none : Option Fields → Fields
fields_or_none none = no_fields
fields_or_none (some fs) = fs
