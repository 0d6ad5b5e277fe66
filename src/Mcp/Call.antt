-- ===== src/Mcp/Call.antt =====
-- A tool call of the MCP listener: `call_tool` of src/mcp_http.rs with the types of its answer. Parsing,
-- serializing and Base64 are parameters; so are a free lane permit and how the REST call ends.
use whatsrust.Prelude.{
  ℕ, String, Bool, true, false, not, ◌&&◌, ◌||◌, Option, none, some, List, [], ◌∷◌, ◌++◌, keep,
  length, ltb, leb, str_eq, if◌then◌else◌,
}
use whatsrust.Prelude.Texts.{Text, codes, same_text, starts_with}
use whatsrust.Http.{Header}
use whatsrust.Http.Body.{max_body_bytes}
use whatsrust.Mcp.Tool.{
  Json, null, boolean, integer, unsigned, float, string, array, object, no_fields, get, as_str,
  Tool, AccessClass, allowed, BodyOf, QueryValue, query_pairs, body_of,
}
use whatsrust.Mcp.Args.{
  registry, find_tool, Validated, unknown_tool, not_an_object, unknown_arguments, invalid_arguments,
  valid, validated_args,
}
use whatsrust.Mcp.Era.{
  RpcError, rpc_error, invalid_request, method_not_found, invalid_params, parse_error,
  at_capacity_code, Era, legacy, modern, Detected, in_era, no_era, detect_era, Check, fine, wrong,
  validate_request_headers, modern_version,
}
pub mod Ran

-- `Outcome`
pub data Outcome : Type 0 where
  ok : Outcome
  tool_error : Outcome
  timed_out : Outcome
  capacity : Outcome
  bad_params : Outcome
  read_only_denied : Outcome
  no_such_tool : Outcome
  no_such_method : Outcome
  rejected : Outcome

-- What a response carries.
pub data Payload : Type 0 where
  error_payload : RpcError → Payload
  initialized : Text → ℕ → Payload
  pong : Payload
  discovered : ℕ → Payload
  tools_listed : List Tool → Payload
  tool_text : Bool → Payload
  nothing : Payload

-- The REST request that a tool call makes.
pub record RestCall : Type 0 where
  pub call_method : String
  pub call_path : String
  pub call_query : List (String × QueryValue)
  pub call_body : Text
  pub loopback_file_access : Bool

-- The answer of a request: its status, the id it echoes, what it carries, how the request ended,
-- whether it reached dispatch, and the REST call it made.
pub record Answer : Type 0 where
  pub status : ℕ
  pub id : Json
  pub payload : Payload
  pub outcome : Outcome
  pub dispatched : Bool
  pub ran : Option RestCall

-- `refuse`: before dispatch.
abbrev pub refuse : RpcError → Json → Answer
refuse err id = record {
  status = RpcError.status err;
  id = id;
  payload = error_payload err;
  outcome = rejected;
  dispatched = false;
  ran = none;
}

-- `fail`: of a dispatched request.
abbrev pub fail : Outcome → RpcError → Json → Answer
fail outcome err id = record {
  status = RpcError.status err;
  id = id;
  payload = error_payload err;
  outcome = outcome;
  dispatched = true;
  ran = none;
}

abbrev pub rpc_ok : Json → Payload → Answer
rpc_ok id payload = record {
  status = 200;
  id = id;
  payload = payload;
  outcome = ok;
  dispatched = true;
  ran = none;
}

-- `tool_failure`: an `isError` result, with no call made.
abbrev pub tool_failure : Json → Answer
tool_failure id = record (rpc_ok id (tool_text true)) { outcome = tool_error }

-- How a REST call ends within the budget: with a response of some status, without one, or late.
pub data RunEnd : Type 0 where
  responded : ℕ → RunEnd
  died : RunEnd
  outlasted : RunEnd

-- `run_with_budget`: the error flag of the result and the outcome.
unfoldable pub run_with_budget : RunEnd → Bool × Outcome
run_with_budget (responded status) = if leb 400 status then (true, tool_error) else (false, ok)
run_with_budget died = (true, tool_error)
run_with_budget outlasted = (true, timed_out)

-- `McpConfig` and what the environment does for a call.
pub record Config : Type 0 where
  pub read_only : Bool
  pub large_permit : Bool  -- the request holds the large-body permit
  pub lane_permit : Bool  -- a read or write permit comes free in time
  pub run_end : RestCall → RunEnd
  pub parse : Text → Option Json
  pub serialize : Json → Option Text
  pub base64 : Text → Option Text

abbrev pub run_call : Config → Json → RestCall → Answer
run_call cfg id call =
    let (is_error, outcome) = run_with_budget (Config.run_end cfg call) in
    record (rpc_ok id (tool_text is_error)) { outcome = outcome; ran = some call }

-- The body's bytes: `{}` for a POST with no body mapping, nothing for a GET.
unfoldable pub body_bytes : Config → Tool → Option Json → Option Text
body_bytes cfg t (some body) = Config.serialize cfg body
body_bytes cfg t none = some (if str_eq (Tool.tool_method t) "POST" then codes "{}" else [])

abbrev pub at_capacity : Json → Answer
at_capacity id =
    fail capacity (rpc_error 503 at_capacity_code (codes "server is at capacity; retry later")) id

abbrev pub rest_call : Tool → Json → Text → RestCall
rest_call t args body = record {
  call_method = Tool.tool_method t;
  call_path = Tool.tool_path t;
  call_query = query_pairs (Tool.query t) args;
  call_body = body;
  loopback_file_access = false;
}

-- The call with its body: the size limit of its path, then the permit.
unfoldable pub send_call : Config → Json → Tool → Json → Option Text → Answer
unfolding max_body_bytes run_with_budget query_pairs
send_call cfg id t args none = tool_failure id
send_call cfg id t args (some body) =
    if ltb (max_body_bytes (codes (Tool.tool_path t))) (length body)
    then tool_failure id
    else if Config.large_permit cfg || Config.lane_permit cfg
    then run_call cfg id (rest_call t args body)
    else at_capacity id

unfoldable pub call_validated : Config → Json → Validated → Answer
unfolding send_call body_bytes body_of
call_validated cfg id (unknown_tool name) =
    fail bad_params (rpc_error 200 invalid_params (codes "Unknown tool: " ++ codes name)) id
call_validated cfg id not_an_object =
    fail bad_params (rpc_error 200 invalid_params (codes "arguments must be a JSON object")) id
call_validated cfg id (unknown_arguments keys) = tool_failure id
call_validated cfg id (invalid_arguments keys) = tool_failure id
call_validated cfg id (valid t args) =
    send_call cfg id t (object args) (body_bytes cfg t (body_of (Tool.body t) (object args)))

abbrev pub or_null : Option Json → Json
or_null none = null
or_null (some v) = v

abbrev pub find_named : Option String → Option Tool
find_named none = none
find_named (some name) = find_tool name

abbrev pub shown : Option String → String
shown none = "(name is missing or not a string)"
shown (some name) = name

-- The call of a tool that was looked up by its name.
unfoldable pub call_found : Config → Json → Json → Option Tool → Answer
unfolding get allowed validated_args call_validated
call_found cfg id params none =
    fail no_such_tool
      (rpc_error 200 invalid_params
        (codes "Unknown tool: " ++ codes (shown (as_str (get "name" params)))))
      id
call_found cfg id params (some t) =
    if allowed (Config.read_only cfg) t
    then call_validated cfg id (validated_args (Tool.name t) (or_null (get "arguments" params)))
    else fail read_only_denied
        (rpc_error 200 invalid_request (codes "write access denied in read-only mode")) id

unfoldable pub call_tool : Config → Json → Json → Answer
unfolding find_tool get call_found
call_tool cfg id params = call_found cfg id params (find_named (as_str (get "name" params)))
