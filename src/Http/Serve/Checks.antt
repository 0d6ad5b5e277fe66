-- ===== src/Http/Serve/Checks.antt =====
-- What a request has passed before its handler sees it.
use mathlib.Core.Path.{subst}
use whatsrust.Prelude.{
  ℕ, ◌≤◌, ◌≡◌, ◌↔◌, refl, true, false, Option, none, some, List, length, arith, inl, inr,
  Option-cases, some_cancel,
}
use whatsrust.Prelude.Texts.{Text, codes}
use whatsrust.Http.{Header, RequestHead, RestRequest, CallContext}
use whatsrust.Http.Tokens.{request_has_api_token}
use whatsrust.Http.Gate.{Checked, passed, refused, and_then, gate_request}
use whatsrust.Http.Gate.Accepts.{and_then_iff}
use whatsrust.Http.Head.{read_request_head}
use whatsrust.Http.Body.{max_body_bytes, read_request_body, read_request_body_lem}
use whatsrust.Http.Serve.{
  ServeConfig, Connection, error_answer, handed_on, check_token, framing_error, reject_from_head,
  has_transfer_encoding, has_unsupported_expect, into_rest, serve_body, serve_checked, serve_head,
  serve_connection,
}

-- The head has passed the gate, carries the token where one is set, and its framing is one that
-- the server can honour.
abbrev pub HasPassed : ServeConfig → RequestHead → Type 0
HasPassed cfg head =
    (gate_request (RequestHead.method head) (RequestHead.headers head) (ServeConfig.is_loopback cfg)
        (ServeConfig.allowed_origins cfg) (ServeConfig.allowed_hosts cfg)
      ≡ passed)
    × ((t : Text)
        → ServeConfig.api_token cfg ≡ some t
        → request_has_api_token (RequestHead.headers head) t ≡ true)
    × (has_transfer_encoding (RequestHead.headers head) ≡ false)
    × (RequestHead.content_length head ≤ max_body_bytes (RequestHead.path head))
    × (has_unsupported_expect (RequestHead.headers head) ≡ false)

check_token_iff :
    (token : Option Text) (headers : List Header)
    → (check_token token headers ≡ passed)
      ↔ ((t : Text) → token ≡ some t → request_has_api_token headers t ≡ true)
unfolding check_token
check_token_iff none headers = (λ h t e. absurd (cc), λ h. refl)
check_token_iff (some u) headers = (
  λ h t e. subst (λ k. request_has_api_token headers k ≡ true) (some_cancel e) (ground arith),
  λ h. let has = h u refl in ground arith,
)

framing_error_iff :
    (head : RequestHead) (limit : ℕ)
    → (framing_error head limit ≡ passed) ↔ (
        (has_transfer_encoding (RequestHead.headers head) ≡ false)
        × (RequestHead.content_length head ≤ limit)
        × (has_unsupported_expect (RequestHead.headers head) ≡ false))
unfolding framing_error
framing_error_iff head limit = ground arith

-- The checks on the head let it pass exactly if it passes the gate, carries the token where one is
-- set, declares no Transfer-Encoding and no more bytes than its path allows, and expects nothing
-- but 100-continue.
pub reject_from_head_iff :
    (head : RequestHead) (cfg : ServeConfig)
    → (reject_from_head head cfg ≡ passed) ↔ HasPassed cfg head
unfolding reject_from_head
reject_from_head_iff head cfg =
    let gate =
      gate_request (RequestHead.method head) (RequestHead.headers head)
        (ServeConfig.is_loopback cfg) (ServeConfig.allowed_origins cfg)
        (ServeConfig.allowed_hosts cfg) in
    let token = check_token (ServeConfig.api_token cfg) (RequestHead.headers head) in
    let limit = max_body_bytes (RequestHead.path head) in
    let framing = framing_error head limit in
    let gates = and_then_iff gate (and_then token framing) in
    let tokens = and_then_iff token framing in
    let token_ok = check_token_iff (ServeConfig.api_token cfg) (RequestHead.headers head) in
    let framing_ok = framing_error_iff head limit in
    (
      λ h.
          let (g, rest) = gates.0 h in
          let (t, f) = tokens.0 rest in
          let (te, size, expect) = framing_ok.0 f in (g, token_ok.0 t, te, size, expect),
      λ (g, t, te, size, expect).
          gates.1 (g, tokens.1 (token_ok.1 t, framing_ok.1 (te, size, expect))),
    )

-- A request as its handler gets it: the method, path and query of the head, and the body in full.
abbrev pub IsOf : ServeConfig → RequestHead → RestRequest → Type 0
IsOf cfg head req =
    (RestRequest.rest_method req ≡ RequestHead.method head)
    × (RestRequest.rest_path req ≡ RequestHead.path head)
    × (RestRequest.rest_query req ≡ RequestHead.query head)
    × (length (RestRequest.rest_body req) ≡ RequestHead.content_length head)
    × (CallContext.loopback_file_access (RestRequest.rest_context req)
        ≡ ServeConfig.is_loopback cfg)

-- One `let` per answer keeps the equations apart.
handed_on_cancel : {a b : RestRequest} → handed_on a ≡ handed_on b → a ≡ b
handed_on_cancel h = cc

serve_body-handed_on :
    (conn : Connection) (cfg : ServeConfig) (head : RequestHead) (req : RestRequest)
    → serve_body conn cfg head ≡ handed_on req
    → IsOf cfg head req
unfolding serve_body into_rest
serve_body-handed_on conn cfg head req h =
    let limit = max_body_bytes (RequestHead.path head) in
    elim (Option-cases (read_request_body (Connection.body_reads conn) head limit)) [
      | inl short ↦ absurd (
          let g : error_answer 400 (codes "bad request") ≡ handed_on req =
            rw (short, serve_body) at h in
          cc)
      | inr (body, full) ↦
          let same = handed_on_cancel (rw (full, serve_body) at h) in
          let (fits, l, bytes) =
            read_request_body_lem (Connection.body_reads conn) head limit body full in
          subst (λ k. IsOf cfg head k) same (refl, refl, refl, l, refl)
    ]

serve_checked-handed_on :
    (conn : Connection) (cfg : ServeConfig) (head : RequestHead) (req : RestRequest)
    → serve_checked conn cfg head ≡ handed_on req
    → serve_body conn cfg head ≡ handed_on req
unfolding serve_checked
serve_checked-handed_on conn cfg head req h = ground arith

serve_head-handed_on :
    (conn : Connection) (cfg : ServeConfig) (head : RequestHead) (req : RestRequest) (c : Checked)
    → serve_head conn cfg head c ≡ handed_on req
    → (c ≡ passed) × IsOf cfg head req
unfolding serve_head
serve_head-handed_on conn cfg head req passed h =
    (refl, serve_body-handed_on conn cfg head req (serve_checked-handed_on conn cfg head req h))
serve_head-handed_on conn cfg head req (refused status reason) h = absurd (cc)

-- A handler only ever sees the request of a head that was read from the connection and
-- has passed every check: the gate, the token where one is set, the framing and the size its path
-- allows. The handler gets that head's method, path and query, a body of exactly the declared
-- length, and leave to read local files only on a loopback bind.
pub serve_connection-handed_on :
    (conn : Connection) (cfg : ServeConfig) (req : RestRequest)
    → serve_connection conn cfg ≡ handed_on req
    → (head : RequestHead) × (read_request_head (Connection.head_reads conn) ≡ some head)
      × HasPassed cfg head
      × IsOf cfg head req
unfolding serve_connection
serve_connection-handed_on conn cfg req h =
    elim (Option-cases (read_request_head (Connection.head_reads conn))) [
      | inl unread ↦ absurd (
          let g : error_answer 400 (codes "bad request") ≡ handed_on req =
            rw (unread, serve_connection) at h in
          cc)
      | inr (head, found) ↦
          let (ok, of) =
            serve_head-handed_on conn cfg head req (reject_from_head head cfg)
              (rw (found, serve_connection) at h) in
          (head, found, (reject_from_head_iff head cfg).0 ok, of)
    ]

-- A head that is read and passes the checks is served.
pub serve_connection-passed :
    (conn : Connection) (cfg : ServeConfig) (head : RequestHead)
    → read_request_head (Connection.head_reads conn) ≡ some head
    → reject_from_head head cfg ≡ passed
    → serve_connection conn cfg ≡ serve_checked conn cfg head
unfolding serve_connection serve_head
serve_connection-passed conn cfg head found ok = rw (found, serve_connection, ok) refl
