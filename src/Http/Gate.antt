-- ===== src/Http/Gate.antt =====
-- The request gate of src/api.rs: `normalize_host_header` and `gate_request`, which stand before
-- every route of both listeners.
use mathlib.Core.Path.{subst}
use whatsrust.Prelude.{
  ℕ, zero, suc, ◌≡◌, ◌≢◌, ◌↔◌, ◌⊎◌, refl, sym, ap, Bool, true, false, not, ◌&&◌, ◌||◌, Option, none,
  some, List, [], ◌∷◌, ◌++◌, arith, ltb, leb, ◌==◌, inl, inr, Bool-cases, Option-cases,
  if◌then◌else◌,
}
use whatsrust.Prelude.Texts.{
  Text, codes, same_text, same_text_iff, to_lower, eq_ignore_case, trim, trim_end, strip_prefix,
  split_once, rsplit_once,
}
use mathlib.Core.List.{map}
use whatsrust.Http.{Header}
use whatsrust.Http.Headers.{find_header, find_all_headers}
pub mod Accepts

-- `v.matches(':').count()`
unfoldable pub occurrences : ℕ → Text → ℕ
occurrences d [] = 0
occurrences d (c ∷ s) = let rest = occurrences d s in if c == d then suc rest else rest

-- `port.bytes().all(|b| b.is_ascii_digit())`
unfoldable pub all_digits : Text → Bool
all_digits [] = true
all_digits (c ∷ s) = let rest = all_digits s in leb b'0' c && (leb c b'9' && rest)

-- The host in front of a port, where the port has digits and nothing else.
unfoldable pub before_port : Text → Option (Text × Text) → Text
unfolding all_digits
before_port v none = v
before_port v (some (host, [])) = v
before_port v (some (host, d ∷ port)) = if all_digits (d ∷ port) then host else v

-- `host_part` of a trimmed value
unfoldable pub host_part : Text → Text
unfolding strip_prefix split_once rsplit_once occurrences before_port
host_part v = elim (strip_prefix (codes "[") v) [
  | some rest ↦ elim (split_once b']' rest) [ none ↦ v | some (host, behind) ↦ host ]
  | none ↦ if occurrences b':' v == 1 then before_port v (rsplit_once b':' v) else v
]

unfoldable pub normalize_host_header : Text → Text
unfolding trim host_part trim_end to_lower
normalize_host_header value = map to_lower (trim_end (λ c. c == b'.') (host_part (trim value)))

unfoldable pub any_text : (Text → Bool) → List Text → Bool
any_text p [] = false
any_text p (s ∷ ss) = let rest = any_text p ss in p s || rest

-- `LOOPBACK_HOST_NAMES`
abbrev pub loopback_host_names : List Text
loopback_host_names = codes "127.0.0.1" ∷ codes "localhost" ∷ codes "::1" ∷ []

-- What the gate and the checks after it answer: on, or a status with its message.
pub data Checked : Type 0 where
  passed : Checked
  refused : ℕ → Text → Checked

-- The first check that refuses decides.
unfoldable pub and_then : Checked → Checked → Checked
and_then passed next = next
and_then (refused status reason) next = refused status reason

unfoldable pub check_origin : List Text → List Text → Checked
unfolding any_text
check_origin allowed_origins [] = passed
check_origin allowed_origins (origin ∷ []) =
    if any_text (λ o. same_text o origin) allowed_origins
    then passed
    else refused 403 (codes "Origin '" ++ origin ++ codes "' is not allowed")
check_origin allowed_origins (a ∷ b ∷ rest) = refused 403 (codes "duplicate Origin header")

unfoldable pub host_is_allowed : Bool → List Text → Text → Bool
unfolding any_text normalize_host_header
host_is_allowed is_loopback allowed_hosts value =
    let normalized = normalize_host_header value in
    is_loopback && any_text (λ h. same_text h normalized) loopback_host_names
    || any_text (λ h. same_text (normalize_host_header h) normalized) allowed_hosts

unfoldable pub check_host : Bool → List Text → List Text → Checked
unfolding host_is_allowed
check_host is_loopback allowed_hosts [] = refused 403 (codes "missing Host header")
check_host is_loopback allowed_hosts (value ∷ []) =
    if host_is_allowed is_loopback allowed_hosts value
    then passed
    else refused 403 (codes "Host '" ++ value ++ codes "' is not allowed")
check_host is_loopback allowed_hosts (a ∷ b ∷ rest) = refused 403 (codes "duplicate Host header")

-- `ct.split(';').next().unwrap_or("")`
unfoldable pub before_semicolon : Text → Text
unfolding split_once
before_semicolon s = elim (split_once b';' s) [ none ↦ s | some (a, b) ↦ a ]

unfoldable pub is_json : Option Text → Bool
unfolding before_semicolon trim eq_ignore_case
is_json none = false
is_json (some ct) = eq_ignore_case (trim (before_semicolon ct)) (codes "application/json")

unfoldable pub check_content_type : Text → Option Text → Checked
unfolding is_json eq_ignore_case
check_content_type method content_type =
    if eq_ignore_case method (codes "POST") && not (is_json content_type)
    then refused 415 (codes "POST requires Content-Type: application/json")
    else passed

abbrev pub is_empty {ℓ} : {A : Type ℓ} → List A → Bool
is_empty [] = true
is_empty (x ∷ xs) = false

unfoldable pub gate_request : Text → List Header → Bool → List Text → List Text → Checked
unfolding check_origin check_host check_content_type and_then find_header find_all_headers
gate_request method headers is_loopback_bind allowed_origins allowed_hosts =
    and_then (check_origin allowed_origins (find_all_headers headers (codes "origin"))) (
      and_then
        (if is_loopback_bind || not (is_empty allowed_hosts)
          then check_host is_loopback_bind allowed_hosts (find_all_headers headers (codes "host"))
          else passed)
        (check_content_type method (find_header headers (codes "content-type"))))
