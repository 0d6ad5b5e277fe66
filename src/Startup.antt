-- ===== src/Startup.antt =====
-- The checks before the daemon starts: `validate_api_listener` and `validate_api_startup` of
-- src/api.rs, `validate_mcp_startup` of src/mcp_http.rs and `validate_backfill_safety` of src/main.rs.
-- Whether a bind host is a loopback address is an argument. Errors are named, not spelled.
use whatsrust.Prelude.{
  ℕ, String, Bool, true, false, not, ◌&&◌, ◌||◌, Option, none, some, List, [], ◌∷◌, ◌++◌, ltb, ◌==◌,
  length, if◌then◌else◌,
}
use whatsrust.Prelude.Int.{ℤ, pos, ltb_ℤ}
use whatsrust.Prelude.Texts.{Text, same_text, trim}
use whatsrust.Http.Gate.{is_empty}
use whatsrust.Http.Head.{parse_unsigned}
pub mod Accepts
pub mod Exposed
mod Tests

pub data StartError : Type 0 where
  not_loopback : StartError
  no_token : StartError
  allowlist_without_token : StartError
  bad_port : Text → StartError
  short_token : ℕ → StartError
  same_tokens : StartError
  same_ports : StartError

-- `Result<(), String>`
pub data Start : Type 0 where
  start : Start
  refuse : StartError → Start

unfoldable pub then_check : Start → Start → Start
then_check start next = next
then_check (refuse err) next = refuse err

-- The token trimmed, where that leaves something.
unfoldable pub usable_token : Option Text → Option Text
unfolding trim
usable_token none = none
usable_token (some t) = elim (trim t) [ [] ↦ none | c ∷ s ↦ some (c ∷ s) ]

abbrev pub is_set : Option Text → Bool
is_set none = false
is_set (some t) = true

unfoldable pub validate_api_listener : Bool → Bool → Option Text → List Text → List Text → Start
unfolding then_check usable_token
validate_api_listener loopback allow_remote token allowed_hosts allowed_origins =
    let has_token = is_set (usable_token token) in
    then_check
      (if loopback
        then start
        else if not allow_remote
        then refuse not_loopback
        else if not has_token
        then refuse no_token
        else start)
      (if not has_token && (not (is_empty allowed_hosts) || not (is_empty allowed_origins))
        then refuse allowlist_without_token
        else start)

unfoldable pub validate_api_startup : ℕ → Bool → Bool → Option Text → List Text → List Text → Start
unfolding validate_api_listener
validate_api_startup port loopback allow_remote token allowed_hosts allowed_origins =
    if port == 0
    then start
    else validate_api_listener loopback allow_remote token allowed_hosts allowed_origins

-- `Result<u16, String>`
pub data Port : Type 0 where
  port_number : ℕ → Port
  bad_text : Text → Port

unfoldable pub port_of_text : Text → Port
unfolding parse_unsigned
port_of_text [] = port_number 0
port_of_text (c ∷ s) = elim (parse_unsigned 16 (c ∷ s)) [
  | some n ↦ port_number n
  | none ↦ bad_text (c ∷ s)
]

unfoldable pub parse_mcp_port : Option Text → Port
unfolding trim port_of_text
parse_mcp_port none = port_number 0
parse_mcp_port (some raw) = port_of_text (trim raw)

abbrev pub min_token_chars : ℕ
min_token_chars = 22

-- `rest_token.map(str::trim) == Some(token)`
unfoldable pub is_rest_token : Option Text → Text → Bool
unfolding trim same_text
is_rest_token none token = false
is_rest_token (some t) token = same_text (trim t) token

unfoldable pub check_token : ℕ → Option Text → ℕ → Option Text → Start
unfolding is_rest_token
check_token port none rest_port rest_token = refuse no_token
check_token port (some token) rest_port rest_token =
    if ltb (length token) min_token_chars
    then refuse (short_token (length token))
    else if ltb 0 rest_port && is_rest_token rest_token token
    then refuse same_tokens
    else if ltb 0 rest_port && port == rest_port
    then refuse same_ports
    else start

unfoldable pub validate_mcp_startup : Port → Bool → Bool → Option Text → ℕ → Option Text → Start
unfolding check_token usable_token
validate_mcp_startup (bad_text raw) loopback allow_remote token rest_port rest_token =
    refuse (bad_port raw)
validate_mcp_startup (port_number port) loopback allow_remote token rest_port rest_token =
    if port == 0
    then start
    else if not loopback && not allow_remote
    then refuse not_loopback
    else check_token port (usable_token token) rest_port rest_token

-- `BackfillSafety` and `SafetyOverrides`
pub record BackfillSafety : Type 0 where
  pub interval_secs : ℕ
  pub max_concurrent : ℕ
  pub max_messages : ℤ

pub record SafetyOverrides : Type 0 where
  pub allow_fast : Bool
  pub allow_high_concurrency : Bool
  pub allow_huge_fetch : Bool

-- The three knobs, in the order of their checks.
pub data Knob : Type 0 where
  fast_backfill : Knob
  high_concurrency : Knob
  huge_fetch : Knob

-- `Result<Vec<String>, String>`: a warning for each override that was needed, or the first knob
-- that has none.
pub data Safety : Type 0 where
  allowed : List Knob → Safety
  forbidden : Knob → Safety

-- One check in front of the others.
unfoldable pub guard : Bool → Bool → Knob → Safety → Safety
guard violated override knob (allowed warnings) =
    if violated
    then (if override then allowed (knob ∷ warnings) else forbidden knob)
    else allowed warnings
guard violated override knob (forbidden other) =
    if violated && not override then forbidden knob else forbidden other

unfoldable pub validate_backfill_safety : BackfillSafety → SafetyOverrides → Safety
unfolding guard
validate_backfill_safety s ov =
    guard (ltb (BackfillSafety.interval_secs s) 3) (SafetyOverrides.allow_fast ov) fast_backfill (
      guard (ltb 3 (BackfillSafety.max_concurrent s)) (SafetyOverrides.allow_high_concurrency ov)
        high_concurrency
        (guard (ltb_ℤ (pos 50000) (BackfillSafety.max_messages s))
          (SafetyOverrides.allow_huge_fetch ov) huge_fetch (allowed [])))
