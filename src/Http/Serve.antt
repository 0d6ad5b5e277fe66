-- ===== src/Http/Serve.antt =====
-- One connection of the REST listener: the checks of `RequestHead` on its framing, `reject_from_head`
-- and `serve_connection` of src/api.rs.
use whatsrust.Prelude.{
  ℕ, ◌≡◌, Bool, true, false, not, ◌&&◌, Option, none, some, List, [], ◌∷◌, ltb, if◌then◌else◌,
  length,
}
use whatsrust.Prelude.Texts.{Text, codes, same_text, eq_ignore_case, trim}
use whatsrust.Http.{Header, RequestHead, RestRequest, CallContext}
use whatsrust.Http.Headers.{find_header, find_all_headers}
use whatsrust.Http.Tokens.{request_has_api_token}
use whatsrust.Http.Gate.{Checked, passed, refused, and_then, any_text, gate_request}
use whatsrust.Http.Head.{read_request_head}
use whatsrust.Http.Body.{max_body_bytes, read_request_body}
pub mod Checks
pub mod Writes

unfoldable pub has_transfer_encoding : List Header → Bool
unfolding trim eq_ignore_case
has_transfer_encoding [] = false
has_transfer_encoding (h ∷ hs) =
    let rest = has_transfer_encoding hs in
    if eq_ignore_case (trim (Header.name h)) (codes "transfer-encoding") then true else rest

unfoldable pub has_unsupported_expect : List Header → Bool
unfolding find_all_headers any_text eq_ignore_case
has_unsupported_expect headers =
    any_text (λ v. not (eq_ignore_case v (codes "100-continue")))
      (find_all_headers headers (codes "expect"))

abbrev expects_continue : Option Text → Bool
expects_continue none = false
expects_continue (some v) = eq_ignore_case v (codes "100-continue")

unfoldable pub awaiting_continue : RequestHead → Bool
unfolding find_header eq_ignore_case
awaiting_continue head =
    expects_continue (find_header (RequestHead.headers head) (codes "expect"))
    && ltb (length (RequestHead.leftover head)) (RequestHead.content_length head)

-- The first of the three that refuses decides.
unfoldable pub framing_error : RequestHead → ℕ → Checked
unfolding has_transfer_encoding has_unsupported_expect
framing_error head limit =
    if has_transfer_encoding (RequestHead.headers head)
    then refused 411 (codes "Transfer-Encoding is not supported; send Content-Length")
    else if ltb limit (RequestHead.content_length head)
    then refused 400 (codes "bad request")
    else if has_unsupported_expect (RequestHead.headers head)
    then refused 417 (codes "unsupported Expect")
    else passed

-- `ServeConfig`, without the permits
pub record ServeConfig : Type 0 where
  pub is_loopback : Bool
  pub api_token : Option Text
  pub allowed_origins : List Text
  pub allowed_hosts : List Text

unfoldable pub check_token : Option Text → List Header → Checked
unfolding request_has_api_token
check_token none headers = passed
check_token (some expected) headers =
    if request_has_api_token headers expected then passed else refused 401 (codes "unauthorized")

-- `passed` is the code's `None`.
unfoldable pub reject_from_head : RequestHead → ServeConfig → Checked
unfolding gate_request check_token framing_error max_body_bytes and_then
reject_from_head head cfg =
    and_then
      (gate_request (RequestHead.method head) (RequestHead.headers head)
        (ServeConfig.is_loopback cfg) (ServeConfig.allowed_origins cfg)
        (ServeConfig.allowed_hosts cfg))
      (and_then (check_token (ServeConfig.api_token cfg) (RequestHead.headers head))
        (framing_error head (max_body_bytes (RequestHead.path head))))

-- What becomes of a connection: an error response, the event stream, the request handed to
-- `handle_request`, or nothing because the client is gone.
pub data Answer : Type 0 where
  error_answer : ℕ → Text → Answer
  event_stream : Answer
  handed_on : RestRequest → Answer
  client_gone : Answer

unfoldable pub into_rest : RequestHead → Text → CallContext → RestRequest
into_rest head body context = record {
  rest_method = RequestHead.method head;
  rest_path = RequestHead.path head;
  rest_query = RequestHead.query head;
  rest_body = body;
  rest_context = context;
}

-- What the environment does for a connection: the reads of the head and those behind it, a free
-- permit of the event streams, and whether `100 Continue` can be written.
pub record Connection : Type 0 where
  pub head_reads : List (Option Text)
  pub body_reads : List (Option Text)
  pub sse_permit : Bool
  pub continue_sent : Bool

unfoldable pub serve_body : Connection → ServeConfig → RequestHead → Answer
unfolding read_request_body max_body_bytes into_rest
serve_body conn cfg head =
    elim (read_request_body (Connection.body_reads conn) head
      (max_body_bytes (RequestHead.path head))) [
        | none ↦ error_answer 400 (codes "bad request")
        | some body ↦
            handed_on
              (into_rest head body record { loopback_file_access = ServeConfig.is_loopback cfg })
      ]

unfoldable pub serve_checked : Connection → ServeConfig → RequestHead → Answer
unfolding awaiting_continue serve_body
serve_checked conn cfg head =
    if same_text (RequestHead.method head) (codes "GET")
      && same_text (RequestHead.path head) (codes "/api/events")
    then (if Connection.sse_permit conn
        then event_stream
        else error_answer 503 (codes "too many SSE connections"))
    else if awaiting_continue head && not (Connection.continue_sent conn)
    then client_gone
    else serve_body conn cfg head

unfoldable pub serve_head : Connection → ServeConfig → RequestHead → Checked → Answer
unfolding serve_checked
serve_head conn cfg head passed = serve_checked conn cfg head
serve_head conn cfg head (refused status reason) = error_answer status reason

unfoldable pub serve_connection : Connection → ServeConfig → Answer
unfolding serve_head reject_from_head read_request_head
serve_connection conn cfg = elim (read_request_head (Connection.head_reads conn)) [
  | none ↦ error_answer 400 (codes "bad request")
  | some head ↦ serve_head conn cfg head (reject_from_head head cfg)
]
