-- ===== src/Value.antt =====
-- Go's `any` where the program keeps JSON-shaped data in it (`map[string]any`, `[]any`, strings,
-- numbers, booleans, nil), with the accessors that the Go code spells as a map read and a type
-- assertion. A map is an association list: the first entry of a key is the one that is read.
use compshare_agent.Prelude.{ℕ, String, Bool, Option, none, some, if◌then◌else◌, str_eq}

mutual
  pub data Fields : Type 0 where
    field : (key : String) → Value → Fields → Fields
    end : Fields

  pub data Items : Type 0 where
    cons : (item : Value) → Items → Items
    nil : Items

  pub data Value : Type 0 where
    obj : Fields → Value
    arr : Items → Value
    str : String → Value
    num : ℕ → Value
    bool : Bool → Value
    null : Value

-- `v, ok := m[key]`.
unfoldable pub get_field : String → Fields → Option Value
get_field k end = none
get_field k (field j v m) = if str_eq j k then some v else get_field k m

-- `m[key] = v`.
unfoldable pub set_field : String → Value → Fields → Fields
set_field k v end = field k v end
set_field k v (field j w m) =
    let rest = set_field k v m in if str_eq j k then field j v m else field j w rest

-- `s, _ := v.(string)`; the zero value where the assertion fails.
unfoldable pub string_of : Option Value → String
string_of (some (str s)) = s
string_of _ = ""

-- `b, _ := v.(bool)`.
unfoldable pub bool_of : Option Value → Bool
bool_of (some (bool b)) = b
bool_of _ = Bool.false

-- `m, _ := v.(map[string]any)`; nil where the assertion fails.
unfoldable pub fields_of : Option Value → Option Fields
fields_of (some (obj m)) = some m
fields_of _ = none

-- `xs, _ := v.([]any)`; nil, read as the empty list, where the assertion fails.
unfoldable pub items_of : Option Value → Items
items_of (some (arr xs)) = xs
items_of _ = nil
