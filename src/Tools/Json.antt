-- ===== src/Tools/Json.antt =====
-- The values that Python's `json` reads and writes, and what the tools ask of them. A number is
-- its text. The keys of an object differ, as a dictionary's do.
use probabilistic_ai_inciden.Base.{
  ℕ, suc, ◌+◌, String, Bool, Option, none, some, List, [], ◌∷◌, ◌==◌, string_eq, if◌then◌else◌,
}

mutual
  pub data Json : Type 0 where
    null : Json
    bool : Bool → Json
    number : String → Json
    text : String → Json
    array : Items → Json
    object : Fields → Json

  pub data Items : Type 0 where
    no_items : Items
    item : Json → Items → Items

  pub data Fields : Type 0 where
    no_fields : Fields
    field : String → Json → Fields → Fields

abbrev pub items_of : Items → List Json
items_of no_items = []
items_of (item v rest) = v ∷ items_of rest

-- `item.values()`
abbrev pub values_of : Fields → List Json
values_of no_fields = []
values_of (field k v rest) = v ∷ values_of rest

-- `item.get(key)`
abbrev pub get : Fields → String → Option Json
get no_fields key = none
get (field k v rest) key = if k == key then some v else get rest key

-- What stands directly in a value.
abbrev pub children : Json → List Json
children (array items) = items_of items
children (object fields) = values_of fields
children _ = []

-- The number of values that stand in a value, with it.
abbrev mutual
  pub size : Json → ℕ
  size (array items) = suc (items_size items)
  size (object fields) = suc (fields_size fields)
  size _ = 1

  pub items_size : Items → ℕ
  items_size no_items = 0
  items_size (item v rest) = size v + items_size rest

  pub fields_size : Fields → ℕ
  fields_size no_fields = 0
  fields_size (field k v rest) = size v + fields_size rest

abbrev pub total : List Json → ℕ
total [] = 0
total (v ∷ rest) = size v + total rest

abbrev pub array_of : List Json → Items
array_of [] = no_items
array_of (v ∷ rest) = item v (array_of rest)

-- An object from its fields in order.
abbrev pub fields_from : List (String × Json) → Fields
fields_from [] = no_fields
fields_from (f ∷ rest) = field f.0 f.1 (fields_from rest)

-- What the tools take from Python's library.
pub record Python : Type 0 where
  -- `json.loads`, where the text is a value's
  pub loads : String → Option Json
  -- `str`
  pub str : Json → String
  -- `str.lower`
  pub lower : String → String
  -- `_PATH_VALUE.sub("[PATH_REDACTED]", value)`
  pub sub_paths : String → String
  -- the hexadecimal SHA-256 of the canonical text, and its length in bytes
  pub digest : Json → String
  pub encoded_length : Json → ℕ
  -- `str(uuid5(NAMESPACE_URL, canonical(value)))`
  pub uuid5 : Json → String
