-- ===== src/Mcp/Tests.antt =====
-- The MCP listener at concrete requests.
use whatsrust.Prelude.{◌≡◌, refl, ap, true, false, none, some, List, [], ◌∷◌, ◌∙◌}
use whatsrust.Prelude.Int.{pos}
use whatsrust.Prelude.Texts.{
  codes, same_text, to_lower, eq_ignore_case, is_whitespace, trim_start, hold_end, trim_end, trim,
  strip_prefix, starts_with, split_once, split_on,
}
use whatsrust.Http.{Header, RequestHead}
use whatsrust.Http.Headers.{find_header, find_all_headers}
use whatsrust.Http.Tokens.{
  utf8_char, utf8, xor_bits, or_bits, difference, ct_eq, token_is, bearer, request_has_api_token,
}
use whatsrust.Http.Gate.{
  passed, and_then, any_text, check_origin, before_semicolon, is_json, check_content_type,
  gate_request,
}
use whatsrust.Http.Head.{
  is_scalar, push_char, utf8_step, from_utf8, split_head, strip_cr, pieces_to_lines, split_by,
  split_whitespace, digits_value, parse_digits, parse_unsigned, parse_headers, content_length_of,
  path_of, head_of_words, head_of_lines, parse_head, read_head, read_request_head,
}
use whatsrust.Http.Body.{
  has_prefix_of, max_body_bytes, fill_body, whole_body, read_body, read_request_body,
}
use whatsrust.Http.Router.{Route, route, is_read}
use whatsrust.Http.Serve.{has_transfer_encoding, has_unsupported_expect, awaiting_continue}
use whatsrust.Mcp.Tool.{
  Json, null, integer, string, object, Fields, no_fields, field_of, get_field, get, Tool,
  query_pairs, body_of, allowed,
}
use whatsrust.Mcp.Args.{
  registry, find_in, find_tool, type_of, unknown_keys, is_required, retain, normalise_integer,
  check_type, check_value, check_fields, missing, valid, check_known, check_args, validated_args,
}
use whatsrust.Mcp.Args.Valid.{IsValidFor, validated_args-valid}
use whatsrust.Mcp.Era.{
  header_mismatch, Era, legacy, header_values, is_printable, one_value, single_header, meta_version,
  era_of_version, detect_era, name_field, encoded_part, fine, check_meta, check_method, check_name,
  is_named, both, with_header, decode_name_header, with_name, validate_request_headers,
}
use whatsrust.Mcp.Era.Agree.{Agrees, validate_request_headers-Agrees}
use whatsrust.Mcp.Call.{
  Answer, RestCall, responded, run_with_budget, Config, body_bytes, send_call, call_validated,
  call_found, call_tool,
}
use whatsrust.Mcp.Rpc.{
  dispatch_legacy, dispatch, valid_id, echo_id, envelope, after_checks, after_era, after_envelope,
  handle_request, after_parse, handle_body,
}
use whatsrust.Mcp.Call.Ran.{handle_body-read_only}
use whatsrust.Mcp.Listener.{
  ListenerConfig, check_route, check_mcp_token, check_framing, reject_from_head, Peer, serve_read,
  serve_body, serve_checked, serve_connection,
}
use whatsrust.Mcp.Listener.Guarded.{
  serve_connection-passed, call_of, IsFrom, serve_connection-IsFrom,
}

abbrev call_params : Fields
call_params =
    field_of "name" (string "whatsrust_fetch_status")
      (field_of "arguments" (object (field_of "job_id" (integer (pos 4)) no_fields)) no_fields)

abbrev call_request : Json
call_request = object (
    field_of "jsonrpc" (string "2.0") (
      field_of "id" (integer (pos 7)) (
        field_of "method" (string "tools/call")
          (field_of "params" (object call_params) no_fields))))

abbrev settings : Config
settings = record {
  read_only = true;
  large_permit = false;
  lane_permit = true;
  run_end = λ c. responded 200;
  parse = λ b. some call_request;
  serialize = λ v. some [];
  base64 = λ s. none;
}

abbrev sent_headers : List Header
sent_headers =
    record { name = codes "Content-Type"; value = codes "application/json" }
    ∷ record { name = codes "X-API-Token"; value = codes "s" }
    ∷ record { name = codes "MCP-Protocol-Version"; value = codes "2025-06-18" }
    ∷ record { name = codes "Mcp-Name"; value = codes "whatsrust_fetch_status" }
    ∷ record { name = codes "Content-Length"; value = codes "1" }
    ∷ []

headers_pass :
    validate_request_headers (Config.base64 settings) legacy sent_headers call_request "tools/call"
    ≡ fine
unfolding validate_request_headers single_header header_values one_value is_printable trim
    trim_start trim_end hold_end is_whitespace eq_ignore_case to_lower same_text with_header both
    check_meta meta_version get get_field check_method name_field with_name decode_name_header
    encoded_part strip_prefix check_name is_named
headers_pass = refl

validate_request_headers-Agrees_example :
    Agrees (Config.base64 settings) legacy sent_headers call_request "tools/call"
validate_request_headers-Agrees_example =
    validate_request_headers-Agrees (Config.base64 settings) legacy sent_headers call_request
      "tools/call" headers_pass

abbrev status_call : RestCall
status_call = record {
  call_method = "GET";
  call_path = "/api/history-fetch";
  call_query = ("job_id", whatsrust.Mcp.Tool.QueryValue.number (pos 4)) ∷ [];
  call_body = [];
  loopback_file_access = false;
}

era_is_legacy :
    detect_era sent_headers call_request "tools/call" ≡ whatsrust.Mcp.Era.Detected.in_era legacy
unfolding detect_era single_header header_values one_value is_printable trim trim_start trim_end
    hold_end is_whitespace eq_ignore_case to_lower same_text era_of_version
era_is_legacy = refl

tool_is_called :
    Answer.ran (call_tool settings (integer (pos 7)) (object call_params)) ≡ some status_call
unfolding call_tool call_found get get_field find_tool find_in registry allowed validated_args
    check_args unknown_keys type_of check_known retain is_required check_fields check_value
    check_type normalise_integer missing call_validated send_call body_bytes body_of max_body_bytes
    has_prefix_of starts_with strip_prefix run_with_budget query_pairs
tool_is_called = refl

checks_pass :
    after_era settings sent_headers call_request "tools/call"
      (detect_era sent_headers call_request "tools/call")
    ≡ call_tool settings (integer (pos 7)) (object call_params)
unfolding after_era after_checks dispatch dispatch_legacy echo_id valid_id get get_field
checks_pass =
    ap (λ d. after_era settings sent_headers call_request "tools/call" d) era_is_legacy
    ∙ ap (λ c. after_checks settings call_request "tools/call" legacy c) headers_pass

body_runs : Answer.ran (handle_body settings sent_headers []) ≡ some status_call
unfolding handle_body after_parse handle_request envelope get get_field after_envelope starts_with
    strip_prefix echo_id valid_id
body_runs = ap (λ a. Answer.ran a) checks_pass ∙ tool_is_called

handle_body-read_only_example :
    (r : Route) × (route (codes "GET") (codes "/api/history-fetch") ≡ some r) × (is_read r ≡ true)
handle_body-read_only_example =
    handle_body-read_only settings sent_headers [] status_call refl body_runs

abbrev fetch_status : Tool
fetch_status = record {
  name = "whatsrust_fetch_status";
  access_class = whatsrust.Mcp.Tool.AccessClass.read;
  properties = ("job_id", "integer") ∷ ("active", "boolean") ∷ [];
  required = [];
  tool_method = "GET";
  tool_path = "/api/history-fetch";
  query = whatsrust.Mcp.Tool.QueryOf.fetch_status_query;
  body = whatsrust.Mcp.Tool.BodyOf.no_body;
}

abbrev job_args : Fields
job_args = field_of "job_id" (integer (pos 4)) no_fields

args_pass : validated_args "whatsrust_fetch_status" (object job_args) ≡ valid fetch_status job_args
unfolding validated_args find_tool find_in registry check_args unknown_keys type_of check_known
    retain is_required check_fields check_value check_type normalise_integer missing
args_pass = refl

validated_args-valid_example :
    (find_tool "whatsrust_fetch_status" ≡ some fetch_status) × IsValidFor fetch_status job_args
validated_args-valid_example =
    validated_args-valid "whatsrust_fetch_status" (object job_args) fetch_status job_args args_pass

abbrev peer : Peer
peer = record {
  head_reads =
      some (
        codes
          "POST /mcp HTTP/1.1\r\nContent-Type: application/json\r\nX-API-Token: s\r\nMCP-Protocol-Version: 2025-06-18\r\nMcp-Name: whatsrust_fetch_status\r\nContent-Length: 1\r\n\r\n{")
      ∷ [];
  body_reads = [];
  large_free = true;
  continue_sent = true;
  body_in_time = true;
}

abbrev listener : ListenerConfig
listener = record {
  is_loopback = false;
  token = codes "s";
  allowed_origins = [];
  allowed_hosts = [];
}

abbrev mcp_head : RequestHead
mcp_head = record {
  method = codes "POST";
  path = codes "/mcp";
  query = [];
  headers = sent_headers;
  content_length = 1;
  leftover = codes "{";
}

head_is_read : read_request_head (Peer.head_reads peer) ≡ some mcp_head
unfolding read_request_head read_head split_head parse_head from_utf8 utf8_step is_scalar push_char
    pieces_to_lines strip_cr split_on head_of_lines split_whitespace split_by is_whitespace
    parse_headers split_once trim trim_start trim_end hold_end content_length_of eq_ignore_case
    to_lower same_text parse_unsigned parse_digits digits_value head_of_words path_of
head_is_read = refl

head_passes : reject_from_head mcp_head listener ≡ passed
unfolding reject_from_head check_route gate_request check_origin check_content_type and_then
    find_header find_all_headers any_text split_once trim trim_start trim_end hold_end is_whitespace
    eq_ignore_case to_lower same_text is_json before_semicolon check_mcp_token request_has_api_token
    token_is bearer ct_eq difference xor_bits or_bits utf8 utf8_char check_framing
    has_transfer_encoding has_unsupported_expect strip_prefix
head_passes = refl

head_serves : call_of (serve_checked peer settings mcp_head passed) ≡ some status_call
unfolding serve_checked serve_body awaiting_continue find_header eq_ignore_case to_lower same_text
    read_request_body read_body fill_body whole_body serve_read handle_body after_parse
    handle_request envelope get get_field after_envelope starts_with strip_prefix echo_id valid_id
head_serves = ap (λ a. Answer.ran a) checks_pass ∙ tool_is_called

peer_serves : call_of (serve_connection peer listener settings) ≡ some status_call
peer_serves =
    serve_connection-passed peer listener settings mcp_head head_is_read head_passes head_serves

serve_connection-IsFrom_example : IsFrom peer listener settings status_call
serve_connection-IsFrom_example =
    serve_connection-IsFrom peer listener settings status_call peer_serves
