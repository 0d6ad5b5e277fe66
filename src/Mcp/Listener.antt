-- ===== src/Mcp/Listener.antt =====
-- One connection of the MCP listener: `body_budget`, `reject_from_head` and `serve_connection` of
-- src/mcp_http.rs. Times are in milliseconds.
use whatsrust.Prelude.{
  ℕ, ◌+◌, ◌*◌, ◌/◌, Bool, true, false, not, ◌&&◌, Option, none, some, List, [], ◌∷◌, ltb, min,
  if◌then◌else◌,
}
use whatsrust.Prelude.Texts.{Text, codes, same_text}
use whatsrust.Http.{Header, RequestHead}
use whatsrust.Http.Tokens.{request_has_api_token}
use whatsrust.Http.Gate.{Checked, passed, refused, and_then, gate_request}
use whatsrust.Http.Head.{read_request_head}
use whatsrust.Http.Body.{read_request_body}
use whatsrust.Http.Serve.{has_transfer_encoding, has_unsupported_expect, awaiting_continue}
use whatsrust.Mcp.Tool.{null}
use whatsrust.Mcp.Call.{Config, Answer, at_capacity}
use whatsrust.Mcp.Rpc.{handle_body}
pub mod Guarded

abbrev pub max_body : ℕ
max_body = 10485760

abbrev pub large_body : ℕ
large_body = 1048576

unfoldable pub body_budget : ℕ → ℕ
body_budget content_length = min (20000 + content_length * 4000 / 1048576) 60000

-- The listener's side of `McpConfig`.
pub record ListenerConfig : Type 0 where
  pub is_loopback : Bool
  pub token : Text
  pub allowed_origins : List Text
  pub allowed_hosts : List Text

unfoldable pub check_route : RequestHead → Checked
unfolding same_text
check_route head =
    if same_text (RequestHead.path head) (codes "/mcp")
    then (if same_text (RequestHead.method head) (codes "POST")
        then passed
        else refused 405 (codes "Only POST is supported on /mcp"))
    else refused 404 (codes "not found")

unfoldable pub check_mcp_token : ListenerConfig → RequestHead → Checked
unfolding request_has_api_token
check_mcp_token cfg head =
    if request_has_api_token (RequestHead.headers head) (ListenerConfig.token cfg)
    then passed
    else refused 401 (codes "unauthorized")

unfoldable pub check_framing : RequestHead → Checked
unfolding has_transfer_encoding has_unsupported_expect
check_framing head =
    if has_transfer_encoding (RequestHead.headers head)
    then refused 411 (codes "Transfer-Encoding is not supported; send Content-Length")
    else if ltb max_body (RequestHead.content_length head)
    then refused 413 (codes "request body exceeds 10 MiB")
    else if has_unsupported_expect (RequestHead.headers head)
    then refused 417 (codes "unsupported Expect")
    else passed

-- Routing, the gate, the token and the framing, in this order.
unfoldable pub reject_from_head : RequestHead → ListenerConfig → Checked
unfolding check_route gate_request check_mcp_token check_framing and_then
reject_from_head head cfg = and_then (check_route head) (
    and_then
      (gate_request (RequestHead.method head) (RequestHead.headers head)
        (ListenerConfig.is_loopback cfg) (ListenerConfig.allowed_origins cfg)
        (ListenerConfig.allowed_hosts cfg))
      (and_then (check_mcp_token cfg head) (check_framing head)))

-- What becomes of a connection: an error before the body, the answer to a body, or nothing because
-- the client is gone.
pub data Served : Type 0 where
  head_refused : ℕ → Text → Served
  answered : Answer → Served
  client_gone : Served

-- What the environment does for a connection.
pub record Peer : Type 0 where
  pub head_reads : List (Option Text)
  pub body_reads : List (Option Text)
  pub large_free : Bool  -- the large-body permit comes free in time
  pub continue_sent : Bool
  pub body_in_time : Bool  -- the body is in within its budget

abbrev pub is_large : RequestHead → Bool
is_large head = ltb large_body (RequestHead.content_length head)

-- A request over the size takes the large-body permit along.
abbrev pub call_config : Config → RequestHead → Config
call_config cfg head = record cfg { large_permit = is_large head }

unfoldable pub serve_read : Config → RequestHead → Option Text → Served
unfolding handle_body
serve_read cfg head none = head_refused 400 (codes "bad request")
serve_read cfg head (some body) =
    answered (handle_body (call_config cfg head) (RequestHead.headers head) body)

unfoldable pub serve_body : Peer → Config → RequestHead → Served
unfolding awaiting_continue serve_read read_request_body
serve_body peer cfg head =
    if is_large head && not (Peer.large_free peer)
    then answered (at_capacity null)
    else if awaiting_continue head && not (Peer.continue_sent peer)
    then client_gone
    else serve_read cfg head (
        if Peer.body_in_time peer
        then read_request_body (Peer.body_reads peer) head max_body
        else none)

unfoldable pub serve_checked : Peer → Config → RequestHead → Checked → Served
unfolding serve_body
serve_checked peer cfg head passed = serve_body peer cfg head
serve_checked peer cfg head (refused status reason) = head_refused status reason

unfoldable pub serve_head : Peer → ListenerConfig → Config → Option RequestHead → Served
unfolding serve_checked reject_from_head
serve_head peer listener cfg none = head_refused 400 (codes "bad request")
serve_head peer listener cfg (some head) =
    serve_checked peer cfg head (reject_from_head head listener)

unfoldable pub serve_connection : Peer → ListenerConfig → Config → Served
unfolding read_request_head serve_head
serve_connection peer listener cfg =
    serve_head peer listener cfg (read_request_head (Peer.head_reads peer))
