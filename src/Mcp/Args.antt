-- ===== src/Mcp/Args.antt =====
-- Argument validation of src/mcp_registry.rs: `find_tool`, `check_type` and `validated_args`. An error
-- holds the keys that its text names, before they are sorted.
use whatsrust.Prelude.{
  String, ◌≡◌, Bool, true, false, not, ◌&&◌, ◌||◌, Option, none, some, List, [], ◌∷◌, ◌++◌, str_eq,
  if◌then◌else◌,
}
use whatsrust.Mcp.Tool.{
  Json, null, boolean, integer, unsigned, float, string, array, object, Fields, no_fields, field_of,
  get_field, is_null, Tool, allowed,
}
use whatsrust.Mcp.Registry.{first_tools, chat_tools, last_tools}
pub mod Types
pub mod Valid
pub mod ReadOnly

unfoldable pub registry : List Tool
registry = first_tools ++ (chat_tools ++ last_tools)

unfoldable pub find_in : List Tool → String → Option Tool
find_in [] name = none
find_in (t ∷ ts) name =
    let rest = find_in ts name in if str_eq (Tool.name t) name then some t else rest

unfoldable pub find_tool : String → Option Tool
unfolding find_in registry
find_tool name = find_in registry name

-- The declared type of a key.
unfoldable pub type_of : String → List (String × String) → Option String
type_of key [] = none
type_of key ((k, t) ∷ ps) = let rest = type_of key ps in if str_eq k key then some t else rest

abbrev is_some_type : Option String → Bool
is_some_type none = false
is_some_type (some t) = true

unfoldable pub unknown_keys : Fields → List (String × String) → List String
unfolding type_of
unknown_keys no_fields declared = []
unknown_keys (field_of k v fs) declared =
    let rest = unknown_keys fs declared in
    if is_some_type (type_of k declared) then rest else k ∷ rest

unfoldable pub is_required : String → List String → Bool
is_required key [] = false
is_required key (r ∷ rs) = let rest = is_required key rs in if str_eq r key then true else rest

-- `given.retain(…)`
unfoldable pub retain : List String → Fields → Fields
unfolding is_required
retain required no_fields = no_fields
retain required (field_of k v fs) =
    let rest = retain required fs in
    if not (is_null v) || is_required k required then field_of k v rest else rest

abbrev is_string : Json → Bool
is_string (string s) = true
is_string v = false

abbrev is_boolean : Json → Bool
is_boolean (boolean b) = true
is_boolean v = false

abbrev is_array : Json → Bool
is_array (array vs) = true
is_array v = false

abbrev is_object : Json → Bool
is_object (object fs) = true
is_object v = false

abbrev is_number : Json → Bool
is_number (integer n) = true
is_number (unsigned n) = true
is_number (float n) = true
is_number v = false

-- The rewritten value, `none` where it is no integer of 64 bits.
unfoldable pub normalise_integer : Json → Option Json
normalise_integer (integer n) = some (integer n)
normalise_integer (float (some n)) = some (integer n)
normalise_integer v = none

abbrev keep_if : Bool → Json → Option Json
keep_if ok v = if ok then some v else none

unfoldable pub check_type : String → Json → Option Json
unfolding normalise_integer
check_type ty v =
    if str_eq ty "string"
    then keep_if (is_string v) v
    else if str_eq ty "boolean"
    then keep_if (is_boolean v) v
    else if str_eq ty "array"
    then keep_if (is_array v) v
    else if str_eq ty "object"
    then keep_if (is_object v) v
    else if str_eq ty "number"
    then keep_if (is_number v) v
    else if str_eq ty "integer"
    then normalise_integer v
    else some v

-- A key with no declared type is not checked.
abbrev pub check_declared : Option String → Json → Option Json
check_declared none v = some v
check_declared (some ty) v = check_type ty v

-- One value: null is left for the required keys to report.
unfoldable pub check_value : Option String → Json → Option Json
unfolding check_type
check_value ty v = if is_null v then some v else check_declared ty v

abbrev pub note : String → Json → Option Json → Fields × List String → Fields × List String
note k v none (rest, problems) = (field_of k v rest, k ∷ problems)
note k v (some w) (rest, problems) = (field_of k w rest, problems)

-- The loop over the values: the rewritten arguments and the keys of the wrong type.
unfoldable pub check_fields : List (String × String) → Fields → Fields × List String
unfolding check_value type_of
check_fields declared no_fields = (no_fields, [])
check_fields declared (field_of k v fs) =
    note k v (check_value (type_of k declared) v) (check_fields declared fs)

abbrev pub is_missing : Option Json → Bool
is_missing none = true
is_missing (some v) = is_null v

unfoldable pub missing : List String → Fields → List String
unfolding get_field
missing [] fs = []
missing (r ∷ rs) fs =
    let rest = missing rs fs in if is_missing (get_field r fs) then r ∷ rest else rest

-- `Result<(&McpToolMeta, Value), ArgsError>`
pub data Validated : Type 0 where
  unknown_tool : String → Validated
  not_an_object : Validated
  unknown_arguments : List String → Validated
  invalid_arguments : List String → Validated
  valid : Tool → Fields → Validated

abbrev pub judge : Tool → Fields → List String → Validated
judge t fs [] = valid t fs
judge t fs (p ∷ ps) = invalid_arguments (p ∷ ps)

unfoldable pub check_known : Tool → Fields → Validated
unfolding retain check_fields missing
check_known t given =
    let (fs, problems) = check_fields (Tool.properties t) (retain (Tool.required t) given) in
    judge t fs (problems ++ missing (Tool.required t) fs)

abbrev pub check_keys : Tool → Fields → List String → Validated
check_keys t given [] = check_known t given
check_keys t given (k ∷ ks) = unknown_arguments (k ∷ ks)

unfoldable pub check_args : Tool → Json → Validated
unfolding unknown_keys check_known
check_args t null = check_keys t no_fields (unknown_keys no_fields (Tool.properties t))
check_args t (object fs) = check_keys t fs (unknown_keys fs (Tool.properties t))
check_args t v = not_an_object

unfoldable pub validated_args : String → Json → Validated
unfolding find_tool check_args
validated_args name args = elim (find_tool name) [
  | none ↦ unknown_tool name
  | some t ↦ check_args t args
]
