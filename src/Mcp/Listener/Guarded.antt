-- ===== src/Mcp/Listener/Guarded.antt =====
-- What a request of the MCP listener has passed before a tool runs.
use mathlib.Core.Path.{subst}
use whatsrust.Prelude.{
  ◌≤◌, ◌≡◌, refl, sym, Bool, true, false, if◌then◌else◌, not, ◌&&◌, Option, none, some, if_either,
  arith,
}
use whatsrust.Prelude.Texts.{Text, codes, same_text_iff}
use whatsrust.Http.{RequestHead}
use whatsrust.Http.Tokens.{request_has_api_token}
use whatsrust.Http.Gate.{Checked, passed, refused, and_then, gate_request}
use whatsrust.Http.Gate.Accepts.{and_then_iff}
use whatsrust.Http.Head.{read_request_head}
use whatsrust.Http.Serve.{awaiting_continue}
use whatsrust.Mcp.Call.{Config, RestCall, Answer}
use whatsrust.Mcp.Rpc.{handle_body}
use whatsrust.Http.Body.{read_request_body}
use whatsrust.Mcp.Call.Ran.{IsCallOf, handle_body-RanWell}
use whatsrust.Mcp.Listener.{
  ListenerConfig, Peer, Served, head_refused, answered, client_gone, check_route, check_mcp_token,
  check_framing, reject_from_head, is_large, call_config, serve_read, serve_body, serve_checked,
  serve_head, serve_connection, max_body,
}

-- The head is a POST of /mcp, passes the gate, carries the token and declares a body within the limit.
abbrev pub IsGuarded : ListenerConfig → RequestHead → Type 0
IsGuarded cfg head =
    (RequestHead.path head ≡ codes "/mcp")
    × (RequestHead.method head ≡ codes "POST")
    × (gate_request (RequestHead.method head) (RequestHead.headers head)
          (ListenerConfig.is_loopback cfg) (ListenerConfig.allowed_origins cfg)
          (ListenerConfig.allowed_hosts cfg)
        ≡ passed)
    × (request_has_api_token (RequestHead.headers head) (ListenerConfig.token cfg) ≡ true)
    × (RequestHead.content_length head ≤ max_body)

check_route-passed :
    (head : RequestHead)
    → check_route head ≡ passed
    → (RequestHead.path head ≡ codes "/mcp") × (RequestHead.method head ≡ codes "POST")
unfolding check_route
check_route-passed head h = ground (
  arith,
  same_text_iff (RequestHead.path head) (codes "/mcp"),
  same_text_iff (RequestHead.method head) (codes "POST"),
)

check_framing-passed :
    (head : RequestHead) → check_framing head ≡ passed → RequestHead.content_length head ≤ max_body
unfolding check_framing
check_framing-passed head h = ground arith

check_token-passed :
    (cfg : ListenerConfig) (head : RequestHead)
    → check_mcp_token cfg head ≡ passed
    → request_has_api_token (RequestHead.headers head) (ListenerConfig.token cfg) ≡ true
unfolding check_mcp_token
check_token-passed cfg head h = ground arith

reject_from_head-passed :
    (head : RequestHead) (cfg : ListenerConfig)
    → reject_from_head head cfg ≡ passed
    → IsGuarded cfg head
unfolding reject_from_head
reject_from_head-passed head cfg h =
    let gate =
      gate_request (RequestHead.method head) (RequestHead.headers head)
        (ListenerConfig.is_loopback cfg) (ListenerConfig.allowed_origins cfg)
        (ListenerConfig.allowed_hosts cfg) in
    let token = check_mcp_token cfg head in
    let framing = check_framing head in
    let (r, h1) = (and_then_iff (check_route head) (and_then gate (and_then token framing))).0 h in
    let (g, h2) = (and_then_iff gate (and_then token framing)).0 h1 in
    let (t, f) = (and_then_iff token framing).0 h2 in
    let (path, post) = check_route-passed head r in
    (path, post, g, check_token-passed cfg head t, check_framing-passed head f)

-- The REST call that was made for a connection, if any.
abbrev pub call_of : Served → Option RestCall
call_of (answered a) = Answer.ran a
call_of (head_refused status reason) = none
call_of client_gone = none

-- The call is a tool call of a body that was read whole behind the head.
abbrev pub IsCallBehind : Peer → Config → RequestHead → RestCall → Type 0
IsCallBehind peer cfg head c =
    (body : Text) × (read_request_body (Peer.body_reads peer) head max_body ≡ some body)
    × IsCallOf (call_config cfg head) body c

abbrev Stands : Peer → Config → RequestHead → Option RestCall → Type 0
Stands peer cfg head none = Unit
Stands peer cfg head (some c) = IsCallBehind peer cfg head c

only_in_time :
    (t : Bool) {o : Option Text} {body : Text} → (if t then o else none) ≡ some body → o ≡ some body
only_in_time true e = e
only_in_time false e = absurd (cc)

serve_read-Stands :
    (peer : Peer) (cfg : Config) (head : RequestHead) (o : Option Text)
    → (if Peer.body_in_time peer
        then read_request_body (Peer.body_reads peer) head max_body
        else none)
      ≡ o
    → Stands peer cfg head (call_of (serve_read cfg head o))
unfolding serve_read
serve_read-Stands peer cfg head none e = tt
serve_read-Stands peer cfg head (some body) e = made (Answer.ran a) refl
  where
    a : Answer
    a = handle_body (call_config cfg head) (RequestHead.headers head) body

    made : (o : Option RestCall) → Answer.ran a ≡ o → Stands peer cfg head o
    made none h = tt
    made (some c) h = (
      body,
      only_in_time (Peer.body_in_time peer) e,
      handle_body-RanWell (call_config cfg head) (RequestHead.headers head) body c h,
    )

serve_body-Stands :
    (peer : Peer) (cfg : Config) (head : RequestHead)
    → Stands peer cfg head (call_of (serve_body peer cfg head))
unfolding serve_body
serve_body-Stands peer cfg head =
    let P : Served → Type 0 = λ s. Stands peer cfg head (call_of s) in
    if_either P (is_large head && not (Peer.large_free peer)) tt (
      if_either P (awaiting_continue head && not (Peer.continue_sent peer)) tt
        (serve_read-Stands peer cfg head _ refl))

-- A call that is made belongs to a head that was read and passed every check.
pub record IsFrom (peer : Peer) (listener : ListenerConfig) (cfg : Config) (c : RestCall)
    : Type 0 where
  pub head : RequestHead
  pub head_read : read_request_head (Peer.head_reads peer) ≡ some head
  pub guarded : IsGuarded listener head
  pub tool_call : IsCallBehind peer cfg head c

serve_checked-IsFrom :
    (peer : Peer) (listener : ListenerConfig) (cfg : Config) (head : RequestHead) (k : Checked)
    (c : RestCall)
    → read_request_head (Peer.head_reads peer) ≡ some head
    → reject_from_head head listener ≡ k
    → call_of (serve_checked peer cfg head k) ≡ some c
    → IsFrom peer listener cfg c
unfolding serve_checked
serve_checked-IsFrom peer listener cfg head (refused status reason) c r k h = absurd (cc)
serve_checked-IsFrom peer listener cfg head passed c r k h = record {
  head = head;
  head_read = r;
  guarded = reject_from_head-passed head listener k;
  tool_call = subst (λ o. Stands peer cfg head o) h (serve_body-Stands peer cfg head);
}

serve_head-IsFrom :
    (peer : Peer) (listener : ListenerConfig) (cfg : Config) (o : Option RequestHead) (c : RestCall)
    → read_request_head (Peer.head_reads peer) ≡ o
    → call_of (serve_head peer listener cfg o) ≡ some c
    → IsFrom peer listener cfg c
unfolding serve_head
serve_head-IsFrom peer listener cfg none c r h = absurd (cc)
serve_head-IsFrom peer listener cfg (some head) c r h =
    serve_checked-IsFrom peer listener cfg head (reject_from_head head listener) c r refl h

-- A REST call is only ever made for a connection whose head was read, is a POST of /mcp, passes
-- the gate, carries the listener's token and declares at most 10 MiB, and whose body was read whole
-- and parses; and the call is that of the registered tool which that body names and the listener
-- allows, with the method, path and query of the tool, and with what the tool makes of the validated
-- arguments of that body as the body of the call.
pub serve_connection-IsFrom :
    (peer : Peer) (listener : ListenerConfig) (cfg : Config) (c : RestCall)
    → call_of (serve_connection peer listener cfg) ≡ some c
    → IsFrom peer listener cfg c
unfolding serve_connection
serve_connection-IsFrom peer listener cfg c h =
    serve_head-IsFrom peer listener cfg (read_request_head (Peer.head_reads peer)) c refl h

-- A head that is read and passes the checks is served.
pub serve_connection-passed :
    (peer : Peer) (listener : ListenerConfig) (cfg : Config) (head : RequestHead)
    {o : Option RestCall}
    → read_request_head (Peer.head_reads peer) ≡ some head
    → reject_from_head head listener ≡ passed
    → call_of (serve_checked peer cfg head passed) ≡ o
    → call_of (serve_connection peer listener cfg) ≡ o
unfolding serve_connection serve_head
serve_connection-passed peer listener cfg head {o} found ok h =
    subst (λ k. call_of (serve_head peer listener cfg k) ≡ o) (sym found)
      (subst (λ k. call_of (serve_checked peer cfg head k) ≡ o) (sym ok) h)
