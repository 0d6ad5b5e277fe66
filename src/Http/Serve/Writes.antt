-- ===== src/Http/Serve/Writes.antt =====
-- What a request that changes something has declared: the router of src/api.rs behind its gate.
use mathlib.Core.Path.{subst}
use whatsrust.Prelude.{◌≡◌, refl, sym, ◌∙◌, true, false, some}
use whatsrust.Prelude.Texts.{codes, eq_ignore_case, same_text, to_lower}
use whatsrust.Http.{RequestHead, RestRequest}
use whatsrust.Http.Headers.{find_header, find_all_headers}
use whatsrust.Http.Gate.{is_json}
use whatsrust.Http.Gate.Accepts.{OriginOk, gate_request_iff}
use whatsrust.Http.Head.{read_request_head}
use whatsrust.Http.Router.{Route, route, is_read}
use whatsrust.Http.Router.Writes.{route-post}
use whatsrust.Http.Serve.{ServeConfig, Connection, handed_on, serve_connection}
use whatsrust.Http.Serve.Checks.{serve_connection-handed_on}

post_is_post : eq_ignore_case (codes "POST") (codes "POST") ≡ true
unfolding eq_ignore_case to_lower same_text
post_is_post = refl

-- A request that reaches a route which changes something came with the content type
-- application/json, and with no Origin header or the one of an allowed origin: no form and
-- no script of another site gets there.
pub serve_connection-writes :
    (conn : Connection) (cfg : ServeConfig) (req : RestRequest) (r : Route)
    → serve_connection conn cfg ≡ handed_on req
    → route (RestRequest.rest_method req) (RestRequest.rest_path req) ≡ some r
    → is_read r ≡ false
    → (head : RequestHead) × (read_request_head (Connection.head_reads conn) ≡ some head)
      × (is_json (find_header (RequestHead.headers head) (codes "content-type")) ≡ true)
      × OriginOk
          (ServeConfig.allowed_origins cfg)
          (find_all_headers (RequestHead.headers head) (codes "origin"))
serve_connection-writes conn cfg req r h found writes =
    let (head, read, passed_all, of) = serve_connection-handed_on conn cfg req h in
    let post =
      sym of.0
      ∙ route-post (RestRequest.rest_method req) (RestRequest.rest_path req) r found writes in
    let (origin, host, json) =
      (gate_request_iff (RequestHead.method head) (RequestHead.headers head)
          (ServeConfig.is_loopback cfg) (ServeConfig.allowed_origins cfg)
          (ServeConfig.allowed_hosts cfg)).0
        passed_all.0 in
    (
      head,
      read,
      json (subst (λ m. eq_ignore_case m (codes "POST") ≡ true) (sym post) post_is_post),
      origin,
    )
