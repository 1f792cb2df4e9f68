-- ===== src/Json.antt =====
-- Decoded JSON, as Python's `isinstance` tells the values apart. A float is its literal; the last
-- `brace` and `bracket` close an object and an array.
use quest_test.Prelude.{
  ◌≡◌, String, Text, Bool, false, Option, none, some, ℤ, if◌then◌else◌, str_eq,
}

mutual
  pub data Value : Type 0 where
    null : Value
    bool : Bool → Value
    int : ℤ → Value
    float : Text → Value
    str : Text → Value
    arr : Items → Value
    obj : Fields → Value

  pub data Fields : Type 0 where
    field : String → Value → Fields → Fields
    brace : Fields

  pub data Items : Type 0 where
    element : Value → Items → Items
    bracket : Items

-- `data.get(name)`, with `none` where the key is missing.
unfoldable pub get : String → Fields → Option Value
get k brace = none
get k (field j v fs) = if str_eq j k then some v else get k fs

-- `data.get(name)`, a missing key being `None`.
unfoldable pub get_or_null : String → Fields → Value
get_or_null k brace = null
get_or_null k (field j v fs) = if str_eq j k then v else get_or_null k fs

-- `value is True`
abbrev pub is_true : Value → Bool
is_true (bool b) = b
is_true v = false

-- `isinstance(value, list)` and `isinstance(value, dict)`, with the members
unfoldable pub as_items : Value → Option Items
as_items (arr items) = some items
as_items v = none

unfoldable pub as_fields : Value → Option Fields
as_fields (obj fields) = some fields
as_fields v = none

pub as_items_inv : (v : Value) (items : Items) → as_items v ≡ some items → v ≡ arr items
unfolding as_items
as_items_inv (arr a) items h = cc
as_items_inv null items h = cc
as_items_inv (bool b) items h = cc
as_items_inv (int n) items h = cc
as_items_inv (float t) items h = cc
as_items_inv (str t) items h = cc
as_items_inv (obj f) items h = cc

pub as_fields_inv : (v : Value) (fields : Fields) → as_fields v ≡ some fields → v ≡ obj fields
unfolding as_fields
as_fields_inv (obj f) fields h = cc
as_fields_inv null fields h = cc
as_fields_inv (bool b) fields h = cc
as_fields_inv (int n) fields h = cc
as_fields_inv (float t) fields h = cc
as_fields_inv (str t) fields h = cc
as_fields_inv (arr a) fields h = cc
