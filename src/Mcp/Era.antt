-- ===== src/Mcp/Era.antt =====
-- Which protocol era a request of the MCP listener speaks, and whether its headers agree with its
-- body (src/mcp_http.rs, `single_header` to `validate_request_headers`). Base64 is a parameter.
use whatsrust.Prelude.{
  ℕ, suc, String, ◌≡◌, Bool, true, false, not, ◌&&◌, ◌||◌, Option, none, some, List, [], ◌∷◌, ◌++◌,
  leb, ◌==◌, str_eq, if◌then◌else◌,
}
use whatsrust.Prelude.Int.{ℤ, negsuc}
use whatsrust.Prelude.Texts.{Text, codes, same_text, eq_ignore_case, trim, strip_prefix}
use whatsrust.Http.{Header}
use whatsrust.Http.Head.{from_utf8}
use whatsrust.Mcp.Tool.{Json, null, string, object, get, as_str}
pub mod Once
pub mod Encoded
pub mod Agree

-- `RpcError`, without the optional data
pub record RpcError : Type 0 where
  pub status : ℕ
  pub code : ℤ
  pub message : Text

-- The JSON-RPC codes -32020, -32022, -32600, -32601, -32602, -32700 and -32000.
abbrev pub header_mismatch_code : ℤ
header_mismatch_code = negsuc 32019

abbrev pub unsupported_version_code : ℤ
unsupported_version_code = negsuc 32021

abbrev pub invalid_request : ℤ
invalid_request = negsuc 32599

abbrev pub method_not_found : ℤ
method_not_found = negsuc 32600

abbrev pub invalid_params : ℤ
invalid_params = negsuc 32601

abbrev pub parse_error : ℤ
parse_error = negsuc 32699

abbrev pub at_capacity_code : ℤ
at_capacity_code = negsuc 31999

abbrev pub rpc_error : ℕ → ℤ → Text → RpcError
rpc_error status code message = record { status = status; code = code; message = message }

unfoldable pub header_mismatch : Text → RpcError
header_mismatch detail = rpc_error 400 header_mismatch_code (codes "HeaderMismatch: " ++ detail)

unfoldable pub unsupported_version : RpcError
unsupported_version = rpc_error 400 unsupported_version_code (codes "Unsupported protocol version")

pub data Era : Type 0 where
  legacy : Era
  modern : Era

-- The names are trimmed and compared in any case of their letters.
unfoldable pub header_values : List Header → Text → List Text
unfolding trim eq_ignore_case
header_values [] name = []
header_values (h ∷ hs) name =
    let rest = header_values hs name in
    if eq_ignore_case (trim (Header.name h)) name then Header.value h ∷ rest else rest

-- Visible ASCII, space and tab
unfoldable pub is_printable : Text → Bool
is_printable [] = true
is_printable (c ∷ s) = let rest = is_printable s in (c == 9 || leb 32 c && leb c 126) && rest

-- `Result<Option<&str>, RpcError>`
pub data Single : Type 0 where
  absent : Single
  present : Text → Single
  malformed : RpcError → Single

unfoldable pub one_value : Text → List Text → Single
unfolding is_printable header_mismatch
one_value name [] = absent
one_value name (v ∷ []) =
    if is_printable v
    then present v
    else malformed (header_mismatch (name ++ codes " header contains invalid characters"))
one_value name (v ∷ w ∷ vs) =
    malformed (header_mismatch (codes "duplicate " ++ (name ++ codes " header")))

unfoldable pub single_header : List Header → Text → Single
unfolding header_values one_value
single_header headers name = one_value name (header_values headers name)

abbrev pub version_header : Text
version_header = codes "MCP-Protocol-Version"

abbrev pub method_header : Text
method_header = codes "Mcp-Method"

abbrev pub name_header : Text
name_header = codes "Mcp-Name"

abbrev pub modern_version : Text
modern_version = codes "2026-07-28"

-- `LEGACY_VERSIONS.contains(…)`
abbrev pub is_legacy : Text → Bool
is_legacy v = same_text (codes "2025-11-25") v || same_text (codes "2025-06-18") v

abbrev pub get_in : String → Option Json → Option Json
get_in key none = none
get_in key (some v) = get key v

unfoldable pub meta_version : Json → Option Json
unfolding get
meta_version request =
    get_in "io.modelcontextprotocol/protocolVersion" (get_in "_meta" (get "params" request))

pub data Detected : Type 0 where
  in_era : Era → Detected
  no_era : RpcError → Detected

abbrev pub is_there : Option Json → Bool
is_there none = false
is_there (some v) = true

unfoldable pub era_of_version : String → Text → Detected
unfolding same_text unsupported_version
era_of_version method version =
    if is_legacy version
    then in_era legacy
    else if same_text version modern_version
    then in_era modern
    else if str_eq method "initialize"
    then in_era legacy
    else no_era unsupported_version

unfoldable pub detect_era : List Header → Json → String → Detected
unfolding single_header meta_version era_of_version header_mismatch
detect_era headers body method = elim (single_header headers version_header) [
  | malformed err ↦ no_era err
  | present version ↦ era_of_version method version
  | absent ↦
      if str_eq method "initialize" && not (is_there (meta_version body))
      then in_era legacy
      else no_era (header_mismatch (version_header ++ codes " header is required"))
]

unfoldable pub name_field : String → Option String
name_field method =
    if str_eq method "resources/read"
    then some "uri"
    else if str_eq method "tools/call" || str_eq method "prompts/get"
    then some "name"
    else none

-- `str::strip_suffix`
unfoldable pub strip_suffix : Text → Text → Option Text
unfolding same_text
strip_suffix p [] = if same_text p [] then some [] else none
strip_suffix p (c ∷ s) =
    if same_text p (c ∷ s)
    then some []
    else elim (strip_suffix p s) [ none ↦ none | some r ↦ some (c ∷ r) ]

-- The value between the prefix and the suffix of an encoded name.
unfoldable pub encoded_part : Text → Option Text
unfolding strip_prefix strip_suffix
encoded_part value = elim (strip_prefix (codes "=?base64?") value) [
  | none ↦ none
  | some rest ↦ strip_suffix (codes "?=") rest
]

-- No error, or the one of a check.
pub data Check : Type 0 where
  fine : Check
  wrong : RpcError → Check

unfoldable pub check_meta : Era → Option Json → Option Text → Check
unfolding same_text header_mismatch
check_meta era (some (string meta)) (some header) =
    if same_text (codes meta) header
    then fine
    else wrong (
        header_mismatch (
          version_header
          ++ codes
              " header does not match params._meta[\"io.modelcontextprotocol/protocolVersion\"]"))
check_meta era (some v) (some header) = wrong (
    header_mismatch (
      version_header
      ++ codes " header does not match params._meta[\"io.modelcontextprotocol/protocolVersion\"]"))
check_meta modern none header = wrong (
    header_mismatch (codes "params._meta[\"io.modelcontextprotocol/protocolVersion\"] is required"))
check_meta legacy none header = fine
check_meta era (some v) none = fine

unfoldable pub check_method : Era → Option Text → String → Check
unfolding same_text header_mismatch
check_method era (some header) method =
    if same_text header (codes method)
    then fine
    else wrong
        (header_mismatch (method_header ++ codes " header does not match the request method"))
check_method modern none method =
    wrong (header_mismatch (method_header ++ codes " header is required"))
check_method legacy none method = fine

-- `body == Some(name.as_str())`
unfoldable pub is_named : Text → Option String → Bool
unfolding same_text
is_named name none = false
is_named name (some s) = same_text (codes s) name

unfoldable pub check_name : Era → Option Text → Option String → Json → Check
unfolding is_named get header_mismatch
check_name era (some name) (some field) request =
    if is_named name (as_str (get_in field (get "params" request)))
    then fine
    else wrong
        (header_mismatch (name_header ++ (codes " header does not match params." ++ codes field)))
check_name modern none (some field) request =
    wrong (header_mismatch (name_header ++ codes " header is required"))
check_name legacy none (some field) request = fine
check_name era name none request = fine

unfoldable pub both : Check → Check → Check
both fine next = next
both (wrong err) next = wrong err

-- The `?` on a header: what follows gets the value, where the header is well formed.
unfoldable pub with_header : Single → (Option Text → Check) → Check
with_header absent next = next none
with_header (present v) next = next (some v)
with_header (malformed err) next = wrong err

module _ (base64 : Text → Option Text) where
  unfoldable pub decode_name_header : Text → Single
  unfolding encoded_part from_utf8 header_mismatch
  decode_name_header value = elim (encoded_part value) [
    | none ↦ present value
    | some encoded ↦ elim (base64 encoded) [
      | none ↦ malformed (header_mismatch (name_header ++ codes " header is not valid base64"))
      | some bytes ↦ elim (from_utf8 bytes) [
        | none ↦ malformed (header_mismatch (name_header ++ codes " header is not valid UTF-8"))
        | some name ↦ present name
      ]
    ]
  ]

  -- `name_header.map(decode_name_header).transpose()?`
  unfoldable pub with_name : Option Text → (Option Text → Check) → Check
  unfolding decode_name_header with_header
  with_name none next = next none
  with_name (some v) next = with_header (decode_name_header v) next

  unfoldable pub validate_request_headers : Era → List Header → Json → String → Check
  unfolding single_header with_header with_name both check_meta check_method check_name meta_version
      name_field
  validate_request_headers era headers request method =
      with_header (single_header headers version_header) λ version.
        with_header (single_header headers method_header) λ of_method.
          with_header (single_header headers name_header) λ of_name.
            both (check_meta era (meta_version request) version) (
              both (check_method era of_method method)
                (with_name of_name λ name. check_name era name (name_field method) request))
