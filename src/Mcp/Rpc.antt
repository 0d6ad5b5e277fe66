-- ===== src/Mcp/Rpc.antt =====
-- The methods of a JSON-RPC request: `handle_body` of src/mcp_http.rs, from the parsed body through
-- the checks to the dispatch of both eras.
use whatsrust.Prelude.{
  String, Bool, true, false, Option, none, some, List, ◌++◌, keep, length, str_eq, if◌then◌else◌,
}
use whatsrust.Prelude.Texts.{Text, codes, same_text, starts_with}
use whatsrust.Http.{Header}
use whatsrust.Mcp.Tool.{
  Json, null, integer, unsigned, string, array, object, get, as_str, Tool, allowed,
}
use whatsrust.Mcp.Args.{registry}
use whatsrust.Mcp.Era.{
  rpc_error, invalid_request, method_not_found, invalid_params, parse_error, Era, legacy, modern,
  Detected, in_era, no_era, detect_era, Check, fine, wrong, validate_request_headers,
}
use whatsrust.Mcp.Call.{
  Answer, refuse, fail, rpc_ok, Config, or_null, call_tool, bad_params, no_such_method, initialized,
  pong, discovered, tools_listed, nothing,
}

-- `tool_definitions_for`
unfoldable pub tools_for : Bool → List Tool
unfolding registry allowed
tools_for read_only = keep (allowed read_only) registry

-- `negotiated_version`: the counter-offer is the newest legacy version.
unfoldable pub negotiated_version : Text → Text
unfolding same_text
negotiated_version requested =
    if same_text (codes "2025-11-25") requested
    then requested
    else if same_text (codes "2025-06-18") requested
    then requested
    else codes "2025-11-25"

unfoldable pub initialize : Config → Json → Option String → Answer
unfolding negotiated_version tools_for
initialize cfg id none =
    fail bad_params (rpc_error 200 invalid_params (codes "protocolVersion is required")) id
initialize cfg id (some requested) =
    rpc_ok id (
      initialized (negotiated_version (codes requested))
        (length (tools_for (Config.read_only cfg))))

unfoldable pub dispatch_legacy : Config → Json → String → Json → Answer
unfolding initialize tools_for call_tool get
dispatch_legacy cfg id method params =
    if str_eq method "initialize"
    then initialize cfg id (as_str (get "protocolVersion" params))
    else if str_eq method "ping"
    then rpc_ok id pong
    else if str_eq method "tools/list"
    then rpc_ok id (tools_listed (tools_for (Config.read_only cfg)))
    else if str_eq method "tools/call"
    then call_tool cfg id params
    else fail no_such_method
        (rpc_error 200 method_not_found (codes "Method not found: " ++ codes method)) id

unfoldable pub dispatch_modern : Config → Json → String → Json → Answer
unfolding tools_for call_tool
dispatch_modern cfg id method params =
    if str_eq method "server/discover"
    then rpc_ok id (discovered (length (tools_for (Config.read_only cfg))))
    else if str_eq method "tools/list"
    then rpc_ok id (tools_listed (tools_for (Config.read_only cfg)))
    else if str_eq method "tools/call"
    then call_tool cfg id params
    else fail no_such_method
        (rpc_error 404 method_not_found (
          if str_eq method "initialize"
          then codes
              "Method not found: initialize (protocol 2026-07-28 has no initialize; use server/discover)"
          else codes "Method not found: " ++ codes method))
        id

unfoldable pub dispatch : Config → Era → Json → String → Json → Answer
unfolding dispatch_legacy dispatch_modern
dispatch cfg legacy id method params = dispatch_legacy cfg id method params
dispatch cfg modern id method params = dispatch_modern cfg id method params

-- The id where it is a string or an integer, else null.
unfoldable pub valid_id : Option Json → Json
valid_id (some (string s)) = string s
valid_id (some (integer n)) = integer n
valid_id (some (unsigned n)) = unsigned n
valid_id v = null

unfoldable pub echo_id : Json → Json
unfolding valid_id get
echo_id request = valid_id (get "id" request)

abbrev pub is_null_id : Json → Bool
is_null_id null = true
is_null_id v = false

-- The method of a well-formed envelope.
unfoldable pub envelope : Option String → Option String → Option String
envelope (some version) (some method) = if str_eq version "2.0" then some method else none
envelope version method = none

unfoldable pub after_checks : Config → Json → String → Era → Check → Answer
unfolding dispatch echo_id get
after_checks cfg request method era (wrong err) = refuse err (echo_id request)
after_checks cfg request method era fine =
    dispatch cfg era (echo_id request) method (or_null (get "params" request))

unfoldable pub after_era : Config → List Header → Json → String → Detected → Answer
unfolding after_checks validate_request_headers echo_id
after_era cfg headers request method (no_era err) = refuse err (echo_id request)
after_era cfg headers request method (in_era era) =
    after_checks cfg request method era
      (validate_request_headers (Config.base64 cfg) era headers request method)

-- A notification is accepted with 202 and no body.
abbrev pub accepted : Answer
accepted = record (rpc_ok null nothing) { status = 202 }

unfoldable pub after_envelope : Config → List Header → Json → Option String → Answer
unfolding after_era detect_era echo_id starts_with
after_envelope cfg headers request none =
    refuse
      (rpc_error 400 invalid_request
        (codes "Invalid Request: jsonrpc must be \"2.0\" and method must be a string"))
      (echo_id request)
after_envelope cfg headers request (some method) =
    if starts_with (codes "notifications/") (codes method)
    then accepted
    else if is_null_id (echo_id request)
    then refuse
        (rpc_error 400 invalid_request (codes "Invalid Request: id must be a string or integer"))
        null
    else after_era cfg headers request method (detect_era headers request method)

unfoldable pub handle_request : Config → List Header → Json → Answer
unfolding after_envelope envelope get
handle_request cfg headers (object fs) =
    after_envelope cfg headers (object fs)
      (envelope (as_str (get "jsonrpc" (object fs))) (as_str (get "method" (object fs))))
handle_request cfg headers (array vs) =
    refuse (rpc_error 400 invalid_request (codes "Batching is not supported")) null
handle_request cfg headers v =
    refuse
      (rpc_error 400 invalid_request
        (codes "Invalid Request: the body must be a JSON-RPC request object"))
      null

unfoldable pub after_parse : Config → List Header → Option Json → Answer
unfolding handle_request
after_parse cfg headers none = refuse (rpc_error 400 parse_error (codes "Parse error")) null
after_parse cfg headers (some request) = handle_request cfg headers request

unfoldable pub handle_body : Config → List Header → Text → Answer
unfolding after_parse
handle_body cfg headers body = after_parse cfg headers (Config.parse cfg body)
