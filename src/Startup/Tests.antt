-- ===== src/Startup/Tests.antt =====
-- The startup rules at concrete settings.
use whatsrust.Prelude.{ℕ, ◌<◌, ◌≡◌, ◌↔◌, refl, true, false, none, some, [], ◌∷◌, ◌∙◌, arith}
use whatsrust.Prelude.Int.{pos, ◌<ℤ◌}
use whatsrust.Prelude.Texts.{
  Text, codes, same_text, to_lower, eq_ignore_case, is_whitespace, trim_start, hold_end, trim_end,
  trim, strip_prefix, starts_with, split_once,
}
use whatsrust.Http.{RequestHead, RestRequest}
use whatsrust.Http.Samples.{connection, sent_head, head_is_read}
use whatsrust.Http.Headers.{find_header, find_all_headers}
use whatsrust.Http.Tokens.{
  utf8_char, utf8, xor_bits, or_bits, difference, ct_eq, token_is, bearer, request_has_api_token,
}
use whatsrust.Http.Gate.{
  passed, and_then, any_text, check_origin, before_semicolon, is_json, check_content_type,
  gate_request,
}
use whatsrust.Http.Head.{read_request_head}
use whatsrust.Http.Body.{
  has_prefix_of, max_body_bytes, fill_body, whole_body, read_body, read_request_body,
}
use whatsrust.Http.Serve.{
  has_transfer_encoding, has_unsupported_expect, awaiting_continue, framing_error, check_token,
  reject_from_head, handed_on, into_rest, Connection, serve_body, serve_checked,
}
use whatsrust.Http.Serve.Checks.{serve_connection-passed}
use whatsrust.Startup.Exposed.{config_of, serve_connection-exposed}
use whatsrust.Startup.{
  start, usable_token, then_check, parse_mcp_port, validate_api_listener, validate_api_startup,
  validate_mcp_startup, BackfillSafety, SafetyOverrides, allowed, fast_backfill,
  validate_backfill_safety,
}
use whatsrust.Startup.Accepts.{
  NamesPort, MayListen, violations, validate_mcp_startup_iff, validate_backfill_safety_iff,
}

abbrev long_token : Text
long_token = codes "0123456789012345678901"

validate_mcp_startup_example :
    (validate_mcp_startup
        (parse_mcp_port (some (codes " 7271")))
        true
        false
        (some long_token)
        7270
        none
      ≡ start)
    ↔ ((port : ℕ) × NamesPort (some (codes " 7271")) port
        × MayListen port true false (some long_token) 7270 none)
validate_mcp_startup_example =
    validate_mcp_startup_iff (some (codes " 7271")) true false (some long_token) 7270 none

abbrev fast : BackfillSafety
fast = record { interval_secs = 1; max_concurrent = 2; max_messages = pos 500 }

abbrev leave : SafetyOverrides
leave = record { allow_fast = true; allow_high_concurrency = false; allow_huge_fetch = false }

validate_backfill_safety_example :
    (validate_backfill_safety fast leave ≡ allowed (fast_backfill ∷ [])) ↔ (
      (1 < 3 → true ≡ true)
      × (3 < 2 → false ≡ true)
      × (pos 50000 <ℤ pos 500 → false ≡ true)
      × (fast_backfill ∷ [] ≡ violations fast))
validate_backfill_safety_example = validate_backfill_safety_iff fast leave (fast_backfill ∷ [])

abbrev handled : RestRequest
handled = record {
  rest_method = codes "POST";
  rest_path = codes "/api/send";
  rest_query = (codes "sync", codes "a b") ∷ [];
  rest_body = codes "{}";
  rest_context = record { loopback_file_access = false };
}

may_start : validate_api_startup 7270 false true (some (codes "s")) [] [] ≡ start
unfolding validate_api_startup validate_api_listener then_check usable_token trim trim_start
    trim_end hold_end is_whitespace
may_start = refl

sent_head_passes : reject_from_head sent_head (config_of false (some (codes "s")) [] []) ≡ passed
unfolding config_of reject_from_head gate_request check_origin check_content_type and_then
    find_header find_all_headers any_text split_once trim trim_start trim_end hold_end is_whitespace
    eq_ignore_case to_lower same_text is_json before_semicolon check_token request_has_api_token
    token_is bearer ct_eq difference xor_bits or_bits utf8 utf8_char framing_error
    has_transfer_encoding has_unsupported_expect max_body_bytes has_prefix_of starts_with
    strip_prefix
sent_head_passes = refl

sent_head_served :
    serve_checked connection (config_of false (some (codes "s")) [] []) sent_head
    ≡ handed_on handled
unfolding config_of serve_checked same_text awaiting_continue find_header eq_ignore_case to_lower
    serve_body read_request_body read_body fill_body whole_body max_body_bytes has_prefix_of
    starts_with strip_prefix into_rest
sent_head_served = refl

serve_connection-exposed_example :
    (t : Text) × (head : RequestHead) × (some (codes "s") ≡ some t)
    × (read_request_head (Connection.head_reads connection) ≡ some head)
    × (request_has_api_token (RequestHead.headers head) t ≡ true)
serve_connection-exposed_example =
    serve_connection-exposed 7270 true (some (codes "s")) [] [] connection handled (omega arith)
      may_start
      (serve_connection-passed connection (config_of false (some (codes "s")) [] []) sent_head
          head_is_read sent_head_passes
        ∙ sent_head_served)
