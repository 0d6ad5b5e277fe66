-- ===== src/Http/Tests.antt =====
-- The REST listener at concrete requests.
use whatsrust.Prelude.{
  ◌≤◌, ◌≡◌, ◌↔◌, refl, true, not, ◌||◌, some, List, [], ◌∷◌, ◌++◌, ◌∙◌, length, take, arith,
}
use whatsrust.Prelude.Texts.{
  Text, codes, same_text, to_lower, eq_ignore_case, is_whitespace, trim_start, hold_end, trim_end,
  trim, strip_prefix, starts_with, split_once, rsplit_once,
}
use whatsrust.Http.{Header, RequestHead, RestRequest}
use whatsrust.Http.Samples.{connection, sent_head, head_is_read}
use whatsrust.Http.Headers.{find_header, find_all_headers}
use whatsrust.Http.Tokens.{
  utf8_char, utf8, xor_bits, or_bits, difference, ct_eq, token_is, bearer, request_has_api_token,
}
use whatsrust.Http.Gate.{
  passed, and_then, occurrences, all_digits, before_port, host_part, normalize_host_header,
  any_text, check_origin, host_is_allowed, check_host, before_semicolon, is_json,
  check_content_type, is_empty, gate_request,
}
use whatsrust.Http.Url.{parse_query, query_text, parse_query-query_text}
use whatsrust.Http.Head.{read_request_head}
use whatsrust.Http.Body.{
  has_prefix_of, max_body_bytes, fill_body, whole_body, read_body, read_request_body,
  read_request_body_lem, read_request_body-flowing,
}
use whatsrust.Http.Router.{send, find_route, route_table, route}
use whatsrust.Http.Gate.Accepts.{OriginOk, HostOk, gate_request_iff}
use whatsrust.Http.Response.{Response, into_bytes, parse_cli_response}
use whatsrust.Http.Response.Reads.{literal-Lacks, parse_cli_response-into_bytes}
use whatsrust.Http.Serve.Writes.{serve_connection-writes}
use whatsrust.Http.Serve.Checks.{
  HasPassed, IsOf, serve_connection-handed_on, serve_connection-passed,
}
use whatsrust.Http.Serve.{
  has_transfer_encoding, has_unsupported_expect, awaiting_continue, framing_error, ServeConfig,
  check_token, reject_from_head, handed_on, into_rest, Connection, serve_body, serve_checked,
  serve_connection,
}

abbrev config : ServeConfig
config = record {
  is_loopback = true;
  api_token = some (codes "s");
  allowed_origins = [];
  allowed_hosts = [];
}

abbrev handled : RestRequest
handled = record {
  rest_method = codes "POST";
  rest_path = codes "/api/send";
  rest_query = (codes "sync", codes "a b") ∷ [];
  rest_body = codes "{}";
  rest_context = record { loopback_file_access = true };
}

sent_head_passes : reject_from_head sent_head config ≡ passed
unfolding reject_from_head gate_request check_origin check_host check_content_type and_then
    find_header find_all_headers any_text host_is_allowed normalize_host_header host_part
    before_port all_digits occurrences rsplit_once strip_prefix split_once trim trim_start trim_end
    hold_end is_whitespace eq_ignore_case to_lower same_text is_json before_semicolon check_token
    request_has_api_token token_is bearer ct_eq difference xor_bits or_bits utf8 utf8_char
    framing_error has_transfer_encoding has_unsupported_expect max_body_bytes has_prefix_of
    starts_with
sent_head_passes = refl

sent_head_served : serve_checked connection config sent_head ≡ handed_on handled
unfolding serve_checked same_text awaiting_continue find_header eq_ignore_case to_lower serve_body
    read_request_body read_body fill_body whole_body max_body_bytes has_prefix_of starts_with
    strip_prefix into_rest
sent_head_served = refl

is_handled : serve_connection connection config ≡ handed_on handled
is_handled =
    serve_connection-passed connection config sent_head head_is_read sent_head_passes
    ∙ sent_head_served

serve_connection-handed_on_example :
    (head : RequestHead) × (read_request_head (Connection.head_reads connection) ≡ some head)
    × HasPassed config head
    × IsOf config head handled
serve_connection-handed_on_example = serve_connection-handed_on connection config handled is_handled

is_send : route (codes "POST") (codes "/api/send") ≡ some send
unfolding route find_route route_table same_text
is_send = refl

serve_connection-writes_example :
    (head : RequestHead) × (read_request_head (Connection.head_reads connection) ≡ some head)
    × (is_json (find_header (RequestHead.headers head) (codes "content-type")) ≡ true)
    × OriginOk
        (ServeConfig.allowed_origins config)
        (find_all_headers (RequestHead.headers head) (codes "origin"))
serve_connection-writes_example =
    serve_connection-writes connection config handled send is_handled is_send refl

gate_request_example :
    (gate_request (codes "POST") (RequestHead.headers sent_head) true [] [] ≡ passed) ↔ (
      OriginOk [] (find_all_headers (RequestHead.headers sent_head) (codes "origin"))
      × ((true || not (is_empty {A = Text} [])) ≡ true
          → HostOk true [] (find_all_headers (RequestHead.headers sent_head) (codes "host")))
      × (eq_ignore_case (codes "POST") (codes "POST") ≡ true
          → is_json (find_header (RequestHead.headers sent_head) (codes "content-type")) ≡ true))
gate_request_example = gate_request_iff (codes "POST") (RequestHead.headers sent_head) true [] []

abbrev one_header : List Header
one_header = record { name = codes "Authorization"; value = codes "Bearer s" } ∷ []

abbrev odd_value : Text × Text
odd_value = (codes "q", codes "a&b=c +%")

parse_query-query_text_example :
    parse_query (query_text odd_value (odd_value ∷ [])) ≡ odd_value ∷ odd_value ∷ []
parse_query-query_text_example =
    parse_query-query_text odd_value (odd_value ∷ []) (ground arith) (ground arith)

body_is_read :
    read_request_body (Connection.body_reads connection) sent_head 100 ≡ some (codes "{}")
unfolding read_request_body read_body fill_body whole_body
body_is_read = refl

read_request_body_example :
    (2 ≤ 100) × (length (codes "{}") ≡ 2) × (codes "{}" ≡ take 2 (codes "{" ++ codes "} "))
read_request_body_example =
    read_request_body_lem (Connection.body_reads connection) sent_head 100 (codes "{}") body_is_read

read_request_body-flowing_example :
    read_request_body (Connection.body_reads connection) sent_head 100
    ≡ some (take 2 (codes "{" ++ codes "} "))
read_request_body-flowing_example =
    read_request_body-flowing (Connection.body_reads connection) sent_head 100 (tt, tt)
      (omega arith) (omega arith)

abbrev not_allowed : Response
not_allowed = record {
  status = 405;
  content_type = codes "application/json";
  headers = record { name = codes "Allow"; value = codes "POST" } ∷ [];
  body = codes "{}\r\n\r\n";
}

parse_cli_response-into_bytes_example :
    parse_cli_response (into_bytes not_allowed) ≡ some (405, codes "{}\r\n\r\n")
parse_cli_response-into_bytes_example =
    parse_cli_response-into_bytes not_allowed (omega arith)
      (literal-Lacks (codes "application/json") refl)
      ((literal-Lacks (codes "Allow") refl, literal-Lacks (codes "POST") refl), tt)
