-- ===== src/Json.antt =====
-- JSON values as encoding/json hands them out (`any`, `[]any`, `map[string]any`), and the texts
-- that the services store: a text is what Unmarshal makes of it, its layout is forgotten. Struct
-- fields are found by the exact key; encoding/json would also take a key in other letter case.
pub mod Lookup
use nexcore_x_ui.Prelude.{ℕ, String, Bool, Option, none, some, List, [], ◌∷◌, str_eq, if◌then◌else◌}

mutual
  pub data Json : Type 0 where
    null : Json
    boolean : Bool → Json
    number : ℕ → Json
    text : String → Json
    array : Items → Json
    object : Fields → Json

  pub data Items : Type 0 where
    nil : Items
    cons : Json → Items → Items

  pub data Fields : Type 0 where
    end : Fields
    field : String → Json → Fields → Fields

-- A string that holds JSON: empty, one that Unmarshal reads, or one that it refuses.
pub data JsonText : Type 0 where
  blank : JsonText
  parsed : Json → JsonText
  malformed : String → JsonText

-- m[k]
abbrev pub lookup_field : String → Fields → Option Json
lookup_field k end = none
lookup_field k (field j v fs) = if str_eq j k then some v else lookup_field k fs

-- m[k] = v
abbrev pub set_field : String → Json → Fields → Fields
set_field k v end = field k v end
set_field k v (field j w fs) = if str_eq j k then field k v fs else field j w (set_field k v fs)

-- s, _ := m[k].(string): "" when the key is missing or holds no string.
abbrev pub as_string : Option Json → String
as_string (some (text s)) = s
as_string _ = ""

abbrev pub string_field : String → Fields → String
string_field k fs = as_string (lookup_field k fs)

abbrev pub to_list : Items → List Json
to_list nil = []
to_list (cons v vs) = v ∷ to_list vs

abbrev pub from_list : List Json → Items
from_list [] = nil
from_list (v ∷ vs) = cons v (from_list vs)

-- Unmarshal into []map[string]any: null elements become empty maps, others that are no objects fail.
abbrev decode_objects : Items → Option (List Fields)
decode_objects nil = some []
decode_objects (cons (object fs) vs) = elim (decode_objects vs) [
  | none ↦ none
  | some rest ↦ some (fs ∷ rest)
]
decode_objects (cons null vs) = elim (decode_objects vs) [
  | none ↦ none
  | some rest ↦ some (end ∷ rest)
]
decode_objects (cons _ vs) = none

abbrev decode_clients_value : Option Json → Option (List Fields)
decode_clients_value none = some []
decode_clients_value (some null) = some []
decode_clients_value (some (array vs)) = decode_objects vs
decode_clients_value (some _) = none

-- Unmarshal into struct { Clients []map[string]any `json:"clients"` }; `none` is its error.
abbrev pub decode_clients : JsonText → Option (List Fields)
decode_clients (parsed null) = some []
decode_clients (parsed (object fs)) = decode_clients_value (lookup_field "clients" fs)
decode_clients _ = none

-- Unmarshal into a map[string]any: null leaves a nil map, which reads as an empty one.
abbrev pub decode_map : JsonText → Option Fields
decode_map (parsed null) = some end
decode_map (parsed (object fs)) = some fs
decode_map _ = none

-- Unmarshal into struct { Method string `json:"method"` } with the error dropped.
abbrev decoded_method : JsonText → String
decoded_method (parsed (object fs)) = string_field "method" fs
decoded_method _ = ""

pub method_of : JsonText → String
method_of t = decoded_method t
