-- ===== src/Mcp/Call/Ran.antt =====
-- What a REST call that was made goes back to.
use mathlib.Core.Path.{subst}
use whatsrust.Prelude.{
  ◌≤◌, String, ◌≡◌, refl, sym, ap, ◌∙◌, true, ◌||◌, Option, none, some, List, [], ◌∷◌, length, ltb,
  str_eq, if_either, if_cases, arith, inl, inr, Bool-cases, some_cancel, eq_iff,
}
use whatsrust.Prelude.Texts.{Text, codes, starts_with}
use whatsrust.Http.{Header}
use whatsrust.Http.Body.{max_body_bytes}
use whatsrust.Http.Router.{Route, route, is_read}
use whatsrust.Mcp.Tool.{
  Json, null, boolean, integer, unsigned, float, string, array, object, Fields, get, as_str, Tool,
  allowed, body_of,
}
use whatsrust.Mcp.Args.{
  find_in, find_tool, registry, Validated, unknown_tool, not_an_object, unknown_arguments,
  invalid_arguments, valid, validated_args,
}
use whatsrust.Mcp.Args.Valid.{IsValidFor, validated_args-valid}
use whatsrust.Mcp.Args.ReadOnly.{find_tool-route}
use whatsrust.Mcp.Era.{
  Era, legacy, modern, Detected, in_era, no_era, Check, fine, wrong, detect_era,
  validate_request_headers,
}
use whatsrust.Mcp.Call.{
  Answer, RestCall, Config, rest_call, send_call, body_bytes, call_validated, find_named, call_tool,
  call_found, or_null,
}
use whatsrust.Mcp.Rpc.{
  after_parse, initialize, dispatch_legacy, dispatch_modern, dispatch, after_checks, after_era,
  after_envelope, envelope, echo_id, is_null_id, handle_request, handle_body,
}

find_in-name :
    (ts : List Tool) (name : String) (t : Tool) → find_in ts name ≡ some t → Tool.name t ≡ name
unfolding find_in
find_in-name [] name t h = absurd (cc)
find_in-name (u ∷ ts) name t h = elim (Bool-cases (str_eq (Tool.name u) name)) [
  | inl hit ↦
      let same : u ≡ t = some_cancel (rw (hit, find_in) at h) in
      sym (ap (λ k. Tool.name k) same) ∙ (eq_iff (Tool.name u) name).0 hit
  | inr miss ↦ find_in-name ts name t (rw (miss, find_in) at h)
]

find_tool-name : (name : String) (t : Tool) → find_tool name ≡ some t → Tool.name t ≡ name
unfolding find_tool
find_tool-name name t h = find_in-name registry name t h

-- The call is that of the registered tool which the parameters of the request name and the listener
-- allows: the tool's method, path and query, no leave to read local files, and as its body what the
-- tool makes of the validated arguments, within the limit of the path.
pub record IsToolCall (cfg : Config) (params : Json) (c : RestCall) : Type 0 where
  pub tool : Tool
  pub args : Fields
  pub registered : find_tool (Tool.name tool) ≡ some tool
  pub asked : as_str (get "name" params) ≡ some (Tool.name tool)
  pub permitted : allowed (Config.read_only cfg) tool ≡ true
  pub accepted :
      validated_args (Tool.name tool) (or_null (get "arguments" params)) ≡ valid tool args
  pub checked : IsValidFor tool args
  pub sent :
      body_bytes cfg tool (body_of (Tool.body tool) (object args)) ≡ some (RestCall.call_body c)
  pub made : c ≡ rest_call tool (object args) (RestCall.call_body c)
  pub fits : length (RestCall.call_body c) ≤ max_body_bytes (codes (RestCall.call_path c))

abbrev pub RanWell : Config → Json → Option RestCall → Type 0
RanWell cfg params none = Unit
RanWell cfg params (some c) = IsToolCall cfg params c

abbrev AnswersWell : Config → Json → Answer → Type 0
AnswersWell cfg params a = RanWell cfg params (Answer.ran a)

-- What the arguments and the tool of a call have passed before it is sent.
abbrev IsChosen : Config → Json → Tool → Fields → Type 0
IsChosen cfg params t args =
    (find_tool (Tool.name t) ≡ some t)
    × (as_str (get "name" params) ≡ some (Tool.name t))
    × (allowed (Config.read_only cfg) t ≡ true)
    × (validated_args (Tool.name t) (or_null (get "arguments" params)) ≡ valid t args)
    × IsValidFor t args

send_call-RanWell :
    (cfg : Config) (id params : Json) (t : Tool) (args : Fields) (body : Option Text)
    → body_bytes cfg t (body_of (Tool.body t) (object args)) ≡ body
    → IsChosen cfg params t args
    → AnswersWell cfg params (send_call cfg id t (object args) body)
unfolding send_call
send_call-RanWell cfg id params t args none e chosen = tt
send_call-RanWell cfg id params t args (some body) e (found, asked, may, accepted, ok) =
    if_cases (AnswersWell cfg params)
      (ltb (max_body_bytes (codes (Tool.tool_path t))) (length body)) (λ over. tt)
      λ within.
        if_either (AnswersWell cfg params) (Config.large_permit cfg || Config.lane_permit cfg)
          record {
            tool = t;
            args = args;
            registered = found;
            asked = asked;
            permitted = may;
            accepted = accepted;
            checked = ok;
            sent = e;
            made = refl;
            fits = ground arith;
          }
          tt

call_validated-RanWell :
    (cfg : Config) (id params : Json) (t : Tool) (v : Validated)
    → validated_args (Tool.name t) (or_null (get "arguments" params)) ≡ v
    → find_tool (Tool.name t) ≡ some t
    → as_str (get "name" params) ≡ some (Tool.name t)
    → allowed (Config.read_only cfg) t ≡ true
    → AnswersWell cfg params (call_validated cfg id v)
unfolding call_validated
call_validated-RanWell cfg id params t (unknown_tool n) e found asked may = tt
call_validated-RanWell cfg id params t not_an_object e found asked may = tt
call_validated-RanWell cfg id params t (unknown_arguments keys) e found asked may = tt
call_validated-RanWell cfg id params t (invalid_arguments keys) e found asked may = tt
call_validated-RanWell cfg id params t (valid u fs) e found asked may =
    let given = or_null (get "arguments" params) in
    let (again, ok) = validated_args-valid (Tool.name t) given u fs e in
    let same : t ≡ u = some_cancel (sym found ∙ again) in
    send_call-RanWell cfg id params u fs _ refl (
      subst (λ k. find_tool (Tool.name k) ≡ some k) same found,
      subst (λ k. as_str (get "name" params) ≡ some (Tool.name k)) same asked,
      subst (λ k. allowed (Config.read_only cfg) k ≡ true) same may,
      subst (λ k. validated_args (Tool.name k) given ≡ valid u fs) same e,
      ok,
    )

find_named-some :
    (o : Option String) (t : Tool)
    → find_named o ≡ some t
    → (o ≡ some (Tool.name t)) × (find_tool (Tool.name t) ≡ some t)
find_named-some none t h = absurd (cc)
find_named-some (some name) t h =
    let same = find_tool-name name t h in
    (ap (λ k. some k) (sym same), subst (λ k. find_tool k ≡ some t) (sym same) h)

call_found-RanWell :
    (cfg : Config) (id params : Json) (found : Option Tool)
    → find_named (as_str (get "name" params)) ≡ found
    → AnswersWell cfg params (call_found cfg id params found)
unfolding call_found
call_found-RanWell cfg id params none e = tt
call_found-RanWell cfg id params (some t) e =
    let (asked, found) = find_named-some (as_str (get "name" params)) t e in
    if_cases (AnswersWell cfg params) (allowed (Config.read_only cfg) t)
      (λ may. call_validated-RanWell cfg id params t _ refl found asked may) λ denied. tt

call_tool-RanWell :
    (cfg : Config) (id params : Json) → AnswersWell cfg params (call_tool cfg id params)
unfolding call_tool
call_tool-RanWell cfg id params = call_found-RanWell cfg id params _ refl

initialize-RanWell :
    (cfg : Config) (id params : Json) (o : Option String)
    → AnswersWell cfg params (initialize cfg id o)
unfolding initialize
initialize-RanWell cfg id params none = tt
initialize-RanWell cfg id params (some requested) = tt

dispatch-RanWell :
    (cfg : Config) (era : Era) (id : Json) (method : String) (params : Json)
    → AnswersWell cfg params (dispatch cfg era id method params)
unfolding dispatch dispatch_legacy dispatch_modern
dispatch-RanWell cfg legacy id method params =
    let P = AnswersWell cfg params in
    if_either P (str_eq method "initialize")
      (initialize-RanWell cfg id params (as_str (get "protocolVersion" params)))
      (if_either P (str_eq method "ping") tt (
        if_either P (str_eq method "tools/list") tt
          (if_either P (str_eq method "tools/call") (call_tool-RanWell cfg id params) tt)))
dispatch-RanWell cfg modern id method params =
    let P = AnswersWell cfg params in
    if_either P (str_eq method "server/discover") tt (
      if_either P (str_eq method "tools/list") tt
        (if_either P (str_eq method "tools/call") (call_tool-RanWell cfg id params) tt))

-- The parameters of a request.
abbrev pub params_of : Json → Json
params_of request = or_null (get "params" request)

after_checks-RanWell :
    (cfg : Config) (request : Json) (method : String) (era : Era) (c : Check)
    → AnswersWell cfg (params_of request) (after_checks cfg request method era c)
unfolding after_checks
after_checks-RanWell cfg request method era (wrong err) = tt
after_checks-RanWell cfg request method era fine =
    dispatch-RanWell cfg era (echo_id request) method (params_of request)

after_era-RanWell :
    (cfg : Config) (headers : List Header) (request : Json) (method : String) (d : Detected)
    → AnswersWell cfg (params_of request) (after_era cfg headers request method d)
unfolding after_era
after_era-RanWell cfg headers request method (no_era err) = tt
after_era-RanWell cfg headers request method (in_era era) =
    after_checks-RanWell cfg request method era
      (validate_request_headers (Config.base64 cfg) era headers request method)

after_envelope-RanWell :
    (cfg : Config) (headers : List Header) (request : Json) (method : Option String)
    → AnswersWell cfg (params_of request) (after_envelope cfg headers request method)
unfolding after_envelope
after_envelope-RanWell cfg headers request none = tt
after_envelope-RanWell cfg headers request (some method) =
    let P = AnswersWell cfg (params_of request) in
    if_either P (starts_with (codes "notifications/") (codes method)) tt (
      if_either P (is_null_id (echo_id request)) tt
        (after_era-RanWell cfg headers request method (detect_era headers request method)))

handle_request-RanWell :
    (cfg : Config) (headers : List Header) (request : Json)
    → AnswersWell cfg (params_of request) (handle_request cfg headers request)
unfolding handle_request
handle_request-RanWell cfg headers (object fs) =
    after_envelope-RanWell cfg headers (object fs)
      (envelope (as_str (get "jsonrpc" (object fs))) (as_str (get "method" (object fs))))
handle_request-RanWell cfg headers null = tt
handle_request-RanWell cfg headers (boolean b) = tt
handle_request-RanWell cfg headers (integer n) = tt
handle_request-RanWell cfg headers (unsigned n) = tt
handle_request-RanWell cfg headers (float n) = tt
handle_request-RanWell cfg headers (string s) = tt
handle_request-RanWell cfg headers (array vs) = tt

-- The call goes back to the body of the request.
abbrev pub IsCallOf : Config → Text → RestCall → Type 0
IsCallOf cfg body c =
    (request : Json) × (Config.parse cfg body ≡ some request) × IsToolCall cfg (params_of request) c

after_parse-RanWell :
    (cfg : Config) (headers : List Header) (o : Option Json) (c : RestCall)
    → Answer.ran (after_parse cfg headers o) ≡ some c
    → (request : Json) × (o ≡ some request) × IsToolCall cfg (params_of request) c
unfolding after_parse
after_parse-RanWell cfg headers none c h = absurd (cc)
after_parse-RanWell cfg headers (some request) c h = (
  request,
  refl,
  subst (λ o. RanWell cfg (params_of request) o) h (handle_request-RanWell cfg headers request),
)

-- A REST call that is made for a body is that of the registered tool which the parsed body names and
-- the listener allows, and its body is made of the validated arguments.
pub handle_body-RanWell :
    (cfg : Config) (headers : List Header) (body : Text) (c : RestCall)
    → Answer.ran (handle_body cfg headers body) ≡ some c
    → IsCallOf cfg body c
unfolding handle_body
handle_body-RanWell cfg headers body c h =
    after_parse-RanWell cfg headers (Config.parse cfg body) c h

-- In read-only mode no request makes a REST call that changes anything: the call it makes, if any,
-- goes to a route that only reads.
pub handle_body-read_only :
    (cfg : Config) (headers : List Header) (body : Text) (c : RestCall)
    → Config.read_only cfg ≡ true
    → Answer.ran (handle_body cfg headers body) ≡ some c
    → (r : Route) × (route (codes (RestCall.call_method c)) (codes (RestCall.call_path c)) ≡ some r)
      × (is_read r ≡ true)
handle_body-read_only cfg headers body c ro h =
    let (request, parsed, call) = handle_body-RanWell cfg headers body c h in
    let t = IsToolCall.tool call in
    let (r, found, reads) = find_tool-route (Tool.name t) t (IsToolCall.registered call) in
    let may = subst (λ k. allowed k t ≡ true) ro (IsToolCall.permitted call) in
    let here =
      subst (λ k. route (codes (RestCall.call_method k)) (codes (RestCall.call_path k)) ≡ some r)
        (sym (IsToolCall.made call)) found in
    (r, here, reads may)
