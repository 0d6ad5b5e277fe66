-- ===== src/Mcp/Tool.antt =====
-- One tool of src/mcp_registry.rs and JSON values as serde_json has them. A float keeps its integral
-- value where it has one within the range of i64, which is all that the code asks of it.
use whatsrust.Prelude.{
  ℕ, String, Bool, true, false, not, Option, none, some, List, [], ◌∷◌, str_eq, if◌then◌else◌,
}
use whatsrust.Prelude.Int.{ℤ, pos}

mutual
  pub data Json : Type 0 where
    null : Json
    boolean : Bool → Json
    integer : ℤ → Json
    unsigned : ℕ → Json
    float : Option ℤ → Json
    string : String → Json
    array : Items → Json
    object : Fields → Json

  pub data Items : Type 0 where
    no_items : Items
    item : Json → Items → Items

  pub data Fields : Type 0 where
    no_fields : Fields
    field_of : String → Json → Fields → Fields

-- `Value::get` on an object's fields
unfoldable pub get_field : String → Fields → Option Json
get_field key no_fields = none
get_field key (field_of k v fs) =
    let rest = get_field key fs in if str_eq k key then some v else rest

unfoldable pub get : String → Json → Option Json
unfolding get_field
get key (object fs) = get_field key fs
get key v = none

abbrev pub is_null : Json → Bool
is_null null = true
is_null v = false

abbrev pub as_str : Option Json → Option String
as_str (some (string s)) = some s
as_str v = none

abbrev pub as_i64 : Option Json → Option ℤ
as_i64 (some (integer n)) = some n
as_i64 v = none

abbrev pub as_bool : Option Json → Option Bool
as_bool (some (boolean b)) = some b
as_bool v = none

-- `AccessClass`
pub data AccessClass : Type 0 where
  read : AccessClass
  write : AccessClass

-- The functions that a mapping names for its query and its body.
pub data QueryOf : Type 0 where
  no_query : QueryOf
  sync_query : QueryOf
  group_info_query : QueryOf
  history_query : QueryOf
  search_query : QueryOf
  fetch_status_query : QueryOf

pub data BodyOf : Type 0 where
  no_body : BodyOf
  args_as_body : BodyOf
  fetch_history_body : BodyOf

-- `McpToolMeta` with its `RestMapping`
pub record Tool : Type 0 where
  pub name : String
  pub access_class : AccessClass
  pub properties : List (String × String)
  pub required : List String
  pub tool_method : String
  pub tool_path : String
  pub query : QueryOf
  pub body : BodyOf

-- A query value before `to_string`.
pub data QueryValue : Type 0 where
  text : String → QueryValue
  number : ℤ → QueryValue
  flag : Bool → QueryValue

abbrev pub or_empty : Option String → String
or_empty none = ""
or_empty (some s) = s

abbrev pub or_twenty : Option ℤ → ℤ
or_twenty none = pos 20
or_twenty (some n) = n

abbrev pub or_true : Option Bool → Bool
or_true none = true
or_true (some b) = b

abbrev pub pair_if {ℓ} :
    {A : Type ℓ} → (A → QueryValue) → String → Option A → List (String × QueryValue)
pair_if wrap key none = []
pair_if wrap key (some v) = (key, wrap v) ∷ []

abbrev pub status_query : Option ℤ → Option Bool → List (String × QueryValue)
status_query (some id) active = ("job_id", number id) ∷ []
status_query none active = ("active", flag (or_true active)) ∷ []

-- The query pairs of a call.
unfoldable pub query_pairs : QueryOf → Json → List (String × QueryValue)
unfolding get
query_pairs no_query args = []
query_pairs sync_query args = ("sync", text "true") ∷ []
query_pairs group_info_query args = ("jid", text (or_empty (as_str (get "jid" args)))) ∷ []
query_pairs history_query args =
    ("jid", text (or_empty (as_str (get "jid" args))))
    ∷ ("limit", number (or_twenty (as_i64 (get "limit" args))))
    ∷ pair_if number "before" (as_i64 (get "before" args))
query_pairs search_query args =
    ("q", text (or_empty (as_str (get "q" args))))
    ∷ ("limit", number (or_twenty (as_i64 (get "limit" args))))
    ∷ pair_if text "jid" (as_str (get "jid" args))
query_pairs fetch_status_query args =
    status_query (as_i64 (get "job_id" args)) (as_bool (get "active" args))

abbrev pub or_json : Option Json → Json → Json
or_json none v = v
or_json (some v) w = v

abbrev pub fields_if : String → Option Json → Fields
fields_if key none = no_fields
fields_if key (some v) = field_of key v no_fields

-- The JSON body of a call.
unfoldable pub body_of : BodyOf → Json → Option Json
unfolding get
body_of no_body args = none
body_of args_as_body args = some args
body_of fetch_history_body args = some (
    object (
      field_of "chat_jid" (or_json (get "chat_jid" args) (string "")) (
        field_of "mode" (or_json (get "mode" args) (string "all"))
          (fields_if "target_value" (get "target_value" args)))))

-- `McpToolMeta::allowed`
unfoldable pub allowed : Bool → Tool → Bool
allowed read_only t = elim (Tool.access_class t) [ read ↦ true | write ↦ not read_only ]
