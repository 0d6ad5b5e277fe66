-- ===== src/Startup/Exposed.antt =====
-- What the startup rules mean for the requests that are served.
use whatsrust.Prelude.{ℕ, arith, ◌≢◌, ◌≡◌, refl, Bool, true, false, Option, none, some, List}
use whatsrust.Prelude.Texts.{Text}
use whatsrust.Http.{RequestHead, RestRequest}
use whatsrust.Http.Head.{read_request_head}
use whatsrust.Http.Tokens.{request_has_api_token}
use whatsrust.Http.Serve.{ServeConfig, Connection, handed_on, serve_connection}
use whatsrust.Http.Serve.Checks.{serve_connection-handed_on}
use whatsrust.Startup.{start, usable_token, is_set, validate_api_listener, validate_api_startup}
use whatsrust.Startup.Accepts.{validate_api_listener_iff}

-- The settings that `serve_with_listener` makes of those that were checked.
unfoldable pub config_of : Bool → Option Text → List Text → List Text → ServeConfig
config_of loopback token hosts origins = record {
  is_loopback = loopback;
  api_token = token;
  allowed_origins = origins;
  allowed_hosts = hosts;
}

usable_token-some :
    (token : Option Text) → is_set (usable_token token) ≡ true → (t : Text) × (token ≡ some t)
unfolding usable_token
usable_token-some none h = absurd (cc)
usable_token-some (some t) h = (t, refl)

validate_api_startup-listener :
    (port : ℕ) (loopback allow_remote : Bool) (token : Option Text) (hosts origins : List Text)
    → port ≢ 0
    → validate_api_startup port loopback allow_remote token hosts origins ≡ start
    → validate_api_listener loopback allow_remote token hosts origins ≡ start
unfolding validate_api_startup
validate_api_startup-listener port loopback allow_remote token hosts origins on ok = ground arith

-- If the daemon's startup check lets the REST listener start, with a port other than 0, on an address
-- that is no loopback address, there is a token, and every request that reaches a handler of that
-- listener carries it.
pub serve_connection-exposed :
    (port : ℕ) (allow_remote : Bool) (token : Option Text) (hosts origins : List Text)
    (conn : Connection) (req : RestRequest)
    → port ≢ 0
    → validate_api_startup port false allow_remote token hosts origins ≡ start
    → serve_connection conn (config_of false token hosts origins) ≡ handed_on req
    → (t : Text) × (head : RequestHead) × (token ≡ some t)
      × (read_request_head (Connection.head_reads conn) ≡ some head)
      × (request_has_api_token (RequestHead.headers head) t ≡ true)
unfolding config_of
serve_connection-exposed port allow_remote token hosts origins conn req on ok h =
    let listens = validate_api_startup-listener port false allow_remote token hosts origins on ok in
    let rules = (validate_api_listener_iff false allow_remote token hosts origins).0 listens in
    let (t, e) = usable_token-some token (rules.0 refl).1 in
    let (head, read, passed_all, of) =
      serve_connection-handed_on conn (config_of false token hosts origins) req h in
    (t, head, e, read, passed_all.1 t e)
