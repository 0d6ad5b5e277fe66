-- ===== src/Http/Gate/Accepts.antt =====
-- When the request gate of src/api.rs lets a request through, check by check.
use whatsrust.Prelude.{
  ◌≡◌, ◌↔◌, ◌⊎◌, Bool, true, false, not, ◌||◌, Option, List, [], ◌∷◌, arith, if◌then◌else◌,
}
use whatsrust.Prelude.Texts.{Text, codes, same_text, same_text_iff, eq_ignore_case}
use whatsrust.Http.{Header}
use whatsrust.Http.Headers.{find_header, find_all_headers}
use whatsrust.Http.Gate.{
  Checked, passed, refused, and_then, any_text, check_origin, check_host, check_content_type,
  host_is_allowed, normalize_host_header, loopback_host_names, is_json, is_empty, gate_request,
}

-- Some member of a list has a property.
abbrev pub AnyOf : (Text → Type 0) → List Text → Type 0
AnyOf P [] = false ≡ true
AnyOf P (x ∷ xs) = P x ⊎ AnyOf P xs

any_text_iff :
    (p : Text → Bool) (P : Text → Type 0)
    → ((x : Text) → (p x ≡ true) ↔ P x)
    → (xs : List Text) → (any_text p xs ≡ true) ↔ AnyOf P xs
unfolding any_text
any_text_iff p P same [] = ground arith
any_text_iff p P same (x ∷ xs) = ground (arith, same x, any_text_iff p P same xs)

-- No Origin, or a single one that is on the list to the letter.
abbrev pub OriginOk : List Text → List Text → Type 0
OriginOk allowed [] = Unit
OriginOk allowed (origin ∷ []) = AnyOf (λ o. o ≡ origin) allowed
OriginOk allowed (a ∷ b ∷ rest) = false ≡ true

-- A loopback name on a loopback bind, or a host of the list.
abbrev pub NamesUs : Bool → List Text → Text → Type 0
NamesUs is_loopback allowed value =
    (is_loopback ≡ true) × AnyOf (λ h. h ≡ normalize_host_header value) loopback_host_names
    ⊎ AnyOf (λ h. normalize_host_header h ≡ normalize_host_header value) allowed

-- Exactly one Host, which names this server.
abbrev pub HostOk : Bool → List Text → List Text → Type 0
HostOk is_loopback allowed [] = false ≡ true
HostOk is_loopback allowed (value ∷ []) = NamesUs is_loopback allowed value
HostOk is_loopback allowed (a ∷ b ∷ rest) = false ≡ true

check_origin_iff :
    (allowed values : List Text) → (check_origin allowed values ≡ passed) ↔ OriginOk allowed values
unfolding check_origin
check_origin_iff allowed [] = ground arith
check_origin_iff allowed (origin ∷ []) = ground (
  arith,
  any_text_iff (λ o. same_text o origin) (λ o. o ≡ origin) (λ o. same_text_iff o origin) allowed,
)
check_origin_iff allowed (a ∷ b ∷ rest) = ground arith

host_is_allowed_iff :
    (is_loopback : Bool) (allowed : List Text) (value : Text)
    → (host_is_allowed is_loopback allowed value ≡ true) ↔ NamesUs is_loopback allowed value
unfolding host_is_allowed
host_is_allowed_iff is_loopback allowed value =
    let wanted = normalize_host_header value in
    ground (
      arith,
      any_text_iff (λ h. same_text h wanted) (λ h. h ≡ wanted) (λ h. same_text_iff h wanted)
          loopback_host_names,
      any_text_iff (λ h. same_text (normalize_host_header h) wanted)
          (λ h. normalize_host_header h ≡ wanted)
          (λ h. same_text_iff (normalize_host_header h) wanted) allowed,
    )

check_host_iff :
    (is_loopback : Bool) (allowed values : List Text)
    → (check_host is_loopback allowed values ≡ passed) ↔ HostOk is_loopback allowed values
unfolding check_host
check_host_iff is_loopback allowed [] = ground arith
check_host_iff is_loopback allowed (value ∷ []) =
    ground (arith, host_is_allowed_iff is_loopback allowed value)
check_host_iff is_loopback allowed (a ∷ b ∷ rest) = ground arith

check_content_type_iff :
    (method : Text) (ct : Option Text)
    → (check_content_type method ct ≡ passed)
      ↔ (eq_ignore_case method (codes "POST") ≡ true → is_json ct ≡ true)
unfolding check_content_type
check_content_type_iff method ct = ground arith

pub and_then_iff : (a b : Checked) → (and_then a b ≡ passed) ↔ ((a ≡ passed) × (b ≡ passed))
unfolding and_then
and_then_iff passed b = ground arith
and_then_iff (refused status reason) b = ground arith

check_if_iff :
    (t : Bool) (c : Checked) → ((if t then c else passed) ≡ passed) ↔ (t ≡ true → c ≡ passed)
check_if_iff true c = ground arith
check_if_iff false c = ground arith

-- The gate lets a request through exactly if these three hold: it has no Origin header, or a
-- single one that equals an allowed origin; on a loopback bind, and wherever hosts are listed, it has exactly
-- one Host header, whose normalized value is a loopback name (on a loopback bind) or that of a listed host; and a
-- POST, in any case of its letters, declares the content type application/json.
pub gate_request_iff :
    (method : Text) (headers : List Header) (is_loopback : Bool) (origins hosts : List Text)
    → (gate_request method headers is_loopback origins hosts ≡ passed) ↔ (
        OriginOk origins (find_all_headers headers (codes "origin"))
        × ((is_loopback || not (is_empty hosts)) ≡ true
            → HostOk is_loopback hosts (find_all_headers headers (codes "host")))
        × (eq_ignore_case method (codes "POST") ≡ true
            → is_json (find_header headers (codes "content-type")) ≡ true))
unfolding gate_request
gate_request_iff method headers is_loopback origins hosts =
    let origin = check_origin origins (find_all_headers headers (codes "origin")) in
    let listed = is_loopback || not (is_empty hosts) in
    let host = check_host is_loopback hosts (find_all_headers headers (codes "host")) in
    let ct = find_header headers (codes "content-type") in
    let json = check_content_type method ct in
    let host_if = if listed then host else passed in
    ground (
      arith,
      and_then_iff origin (and_then host_if json),
      and_then_iff host_if json,
      check_if_iff listed host,
      check_origin_iff origins (find_all_headers headers (codes "origin")),
      check_host_iff is_loopback hosts (find_all_headers headers (codes "host")),
      check_content_type_iff method ct,
    )
