-- ===== src/ApiServer/Json.antt =====
-- JSON values as encoding/json decodes them into `any`, which internal/apiserver/template.go works on.
use singbox_operator.Base.{
  String, Bool, true, false, Option, none, some, List, [], ◌∷◌, StringMap, ◌==◌, if◌then◌else◌, ◌≡◌,
  refl, ap,
}

mutual
  -- A number is its text, which the program never reads.
  pub data Json : Type 0 where
    null : Json
    boolean : Bool → Json
    number : String → Json
    text : String → Json
    array : Items → Json
    object : Fields → Json

  pub data Items : Type 0 where
    no_items : Items
    item : Json → Items → Items

  pub data Fields : Type 0 where
    no_fields : Fields
    field : String → Json → Fields → Fields

abbrev pub elements : Items → List Json
elements no_items = []
elements (item j js) = j ∷ elements js

abbrev items : List Json → Items
items [] = no_items
items (j ∷ js) = item j (items js)

abbrev pub entries_of : Fields → StringMap Json
entries_of no_fields = []
entries_of (field k j fs) = (k, j) ∷ entries_of fs

abbrev fields : StringMap Json → Fields
fields [] = no_fields
fields ((k, j) ∷ m) = field k j (fields m)

abbrev pub json_array : List Json → Json
json_array js = array (items js)

abbrev pub json_object : StringMap Json → Json
json_object m = object (fields m)

-- A value that is a map[string]any.
abbrev pub as_object : Option Json → Option (StringMap Json)
as_object (some (object fs)) = some (entries_of fs)
as_object _ = none

-- A value that is a []any.
abbrev pub as_array : Option Json → Option (List Json)
as_array (some (array js)) = some (elements js)
as_array _ = none

abbrev pub as_string : Option Json → Option String
as_string (some (text s)) = some s
as_string _ = none

-- `v == "s"`
abbrev pub is_text : String → Option Json → Bool
is_text s (some (text t)) = t == s
is_text s _ = false

-- `v == nil`
abbrev pub is_nil : Option Json → Bool
is_nil none = true
is_nil (some null) = true
is_nil _ = false

abbrev pub is_true : Option Json → Bool
is_true (some (boolean b)) = b
is_true _ = false

pub elements-items : (js : List Json) → elements (items js) ≡ js
elements-items [] = refl
elements-items (j ∷ js) = ap (λ r. j ∷ r) (elements-items js)

pub entries_of-fields : (m : StringMap Json) → entries_of (fields m) ≡ m
entries_of-fields [] = refl
entries_of-fields ((k, j) ∷ m) = ap (λ r. (k, j) ∷ r) (entries_of-fields m)

abbrev pub delete : String → StringMap Json → StringMap Json
delete k [] = []
delete k ((j, v) ∷ m) = if j == k then delete k m else (j, v) ∷ delete k m
