-- ===== src/Startup/Accepts.antt =====
-- When the daemon starts.
use mathlib.Core.Path.{subst}
use whatsrust.Prelude.{
  ℕ, ◌≤◌, ◌<◌, ◌≡◌, ◌≢◌, ◌↔◌, ◌⊎◌, refl, Bool, true, false, ◌||◌, Option, none, some, List, [], ◌∷◌,
  ltb, length, if◌then◌else◌, ◌++◌, arith, some_cancel, sym, ap, ◌∙◌, inl, inr, Option-cases,
}
use whatsrust.Prelude.Int.{pos, ◌<ℤ◌, ltb_ℤ}
use whatsrust.Prelude.Texts.{Text, trim}
use whatsrust.Http.Head.{parse_unsigned}
use whatsrust.Http.Gate.{is_empty}
use whatsrust.Startup.{
  start, then_check, usable_token, is_set, validate_api_listener, Port, bad_text, port_number,
  port_of_text, parse_mcp_port, is_rest_token, check_token, validate_mcp_startup, min_token_chars,
  BackfillSafety, Knob, fast_backfill, high_concurrency, huge_fetch, SafetyOverrides, allowed,
  guard, validate_backfill_safety,
}

-- The REST listener may start exactly if a bind that is no loopback address is both allowed and
-- protected by a token, and allowlists come with a token.
pub validate_api_listener_iff :
    (loopback allow_remote : Bool) (token : Option Text) (hosts origins : List Text)
    → (validate_api_listener loopback allow_remote token hosts origins ≡ start) ↔ (
        (loopback ≡ false → (allow_remote ≡ true) × (is_set (usable_token token) ≡ true))
        × (is_set (usable_token token) ≡ false
            → (is_empty hosts ≡ true) × (is_empty origins ≡ true)))
unfolding validate_api_listener then_check
validate_api_listener_iff loopback allow_remote token hosts origins = ground arith

-- A token that is good for the MCP listener beside a REST listener on `rest_port`.
abbrev pub IsGoodToken : ℕ → ℕ → Option Text → Text → Type 0
IsGoodToken port rest_port rest_token token =
    (min_token_chars ≤ length token)
    × (0 < rest_port → (is_rest_token rest_token token ≡ false) × (port ≢ rest_port))

IsGoodToken-iff :
    (port : ℕ) (t : Text) (rest_port : ℕ) (rest_token : Option Text)
    → (check_token port (some t) rest_port rest_token ≡ start)
      ↔ IsGoodToken port rest_port rest_token t
unfolding check_token
IsGoodToken-iff port t rest_port rest_token = ground arith

check_token_iff :
    (port : ℕ) (token : Option Text) (rest_port : ℕ) (rest_token : Option Text)
    → (check_token port token rest_port rest_token ≡ start)
      ↔ ((t : Text) × (token ≡ some t) × IsGoodToken port rest_port rest_token t)
unfolding check_token
check_token_iff port none rest_port rest_token = (λ h. absurd (cc), λ (t, e, g). absurd (cc))
check_token_iff port (some t) rest_port rest_token = (
  λ h. (t, refl, (IsGoodToken-iff port t rest_port rest_token).0 h),
  λ (u, e, g).
      (IsGoodToken-iff port t rest_port rest_token).1
        (subst (λ k. IsGoodToken port rest_port rest_token k) (sym (some_cancel e)) g),
)

-- A port of 0 is off; any other one needs a loopback bind or leave for another one, and a good token.
abbrev pub MayListen : ℕ → Bool → Bool → Option Text → ℕ → Option Text → Type 0
MayListen port loopback allow_remote token rest_port rest_token =
    (port ≡ 0)
    ⊎ ((loopback || allow_remote) ≡ true)
      × ((t : Text) × (usable_token token ≡ some t) × IsGoodToken port rest_port rest_token t)

MayListen-iff :
    (port : ℕ) (loopback allow_remote : Bool) (token : Option Text) (rest_port : ℕ)
    (rest_token : Option Text)
    → (validate_mcp_startup (port_number port) loopback allow_remote token rest_port rest_token
        ≡ start)
      ↔ MayListen port loopback allow_remote token rest_port rest_token
unfolding validate_mcp_startup
MayListen-iff port loopback allow_remote token rest_port rest_token =
    ground (arith, check_token_iff port (usable_token token) rest_port rest_token)

-- The port that the text of the setting names: 0 where there is none or only white space, else the
-- number that the trimmed text is, of 16 bits.
abbrev pub NamesPort : Option Text → ℕ → Type 0
NamesPort none port = port ≡ 0
NamesPort (some raw) port =
    ((trim raw ≡ []) × (port ≡ 0)) ⊎ ((trim raw ≢ []) × (parse_unsigned 16 (trim raw) ≡ some port))

port_of_text_iff :
    (text : Text) (port : ℕ)
    → (port_of_text text ≡ port_number port)
      ↔ (((text ≡ []) × (port ≡ 0)) ⊎ ((text ≢ []) × (parse_unsigned 16 text ≡ some port)))
unfolding port_of_text
port_of_text_iff [] port = (
  λ h. inl (refl, sym (port_cancel h)),
  λ h. elim h [ inl (e, z) ↦ ap (λ k. port_number k) (sym z) | inr (n, e) ↦ absurd (n refl) ],
)
  where
    port_cancel : {m n : ℕ} → port_number m ≡ port_number n → m ≡ n
    port_cancel h = cc
port_of_text_iff (c ∷ s) port = elim (Option-cases (parse_unsigned 16 (c ∷ s))) [
  | inl e ↦
      rw (e, port_of_text)
        ((λ h. absurd (cc)), (λ h. elim h [ inl (x, z) ↦ absurd (cc) | inr (n, x) ↦ absurd (cc) ]))
  | inr (m, e) ↦
      rw (e, port_of_text)
        (
          (λ h. inr ((λ x. absurd (cc)), ap (λ k. some k) (port_cancel h))),
          (λ h. elim h [
            | inl (x, z) ↦ absurd (cc)
            | inr (n, x) ↦ ap (λ k. port_number k) (some_cancel x)
          ]),
        )
]
  where
    port_cancel : {m n : ℕ} → port_number m ≡ port_number n → m ≡ n
    port_cancel h = cc

parse_mcp_port_iff :
    (raw : Option Text) (port : ℕ) → (parse_mcp_port raw ≡ port_number port) ↔ NamesPort raw port
unfolding parse_mcp_port
parse_mcp_port_iff none port = (λ h. cc, λ h. ap (λ k. port_number k) (sym h))
parse_mcp_port_iff (some raw) port = port_of_text_iff (trim raw) port

-- The MCP listener may start exactly if the text of its port names one, and it is off, or it stays on
-- a loopback address or may leave it, and its trimmed token has at least 22 characters and, where the REST
-- listener is on, differs from the REST token, as the two ports differ.
pub validate_mcp_startup_iff :
    (raw : Option Text) (loopback allow_remote : Bool) (token : Option Text) (rest_port : ℕ)
    (rest_token : Option Text)
    → (validate_mcp_startup (parse_mcp_port raw) loopback allow_remote token rest_port rest_token
        ≡ start)
      ↔ ((port : ℕ) × NamesPort raw port
          × MayListen port loopback allow_remote token rest_port rest_token)
unfolding validate_mcp_startup
validate_mcp_startup_iff raw loopback allow_remote token rest_port rest_token = (
  λ h. started (parse_mcp_port raw) refl h,
  λ (port, names, may).
      ap (λ p. validate_mcp_startup p loopback allow_remote token rest_port rest_token)
        ((parse_mcp_port_iff raw port).1 names)
      ∙ (MayListen-iff port loopback allow_remote token rest_port rest_token).1 may,
)
  where
    started :
        (p : Port)
        → parse_mcp_port raw ≡ p
        → validate_mcp_startup p loopback allow_remote token rest_port rest_token ≡ start
        → (port : ℕ) × NamesPort raw port
          × MayListen port loopback allow_remote token rest_port rest_token
    started (bad_text text) e h = absurd (cc)
    started (port_number port) e h = (
      port,
      (parse_mcp_port_iff raw port).0 e,
      (MayListen-iff port loopback allow_remote token rest_port rest_token).0 h,
    )

-- The knobs that are past their bounds, in the order of the checks.
abbrev pub violations : BackfillSafety → List Knob
violations s =
    (if ltb (BackfillSafety.interval_secs s) 3 then fast_backfill ∷ [] else [])
    ++ ((if ltb 3 (BackfillSafety.max_concurrent s) then high_concurrency ∷ [] else [])
        ++ (if ltb_ℤ (pos 50000) (BackfillSafety.max_messages s) then huge_fetch ∷ [] else []))

-- The backfill settings are accepted exactly if each knob that is past its bound has its own override,
-- and the warnings are then these knobs: one of less than 3 seconds, more than 3 workers, more
-- than 50000 messages.
pub validate_backfill_safety_iff :
    (s : BackfillSafety) (ov : SafetyOverrides) (warnings : List Knob)
    → (validate_backfill_safety s ov ≡ allowed warnings) ↔ (
        (BackfillSafety.interval_secs s < 3 → SafetyOverrides.allow_fast ov ≡ true)
        × (3 < BackfillSafety.max_concurrent s → SafetyOverrides.allow_high_concurrency ov ≡ true)
        × (pos 50000 <ℤ BackfillSafety.max_messages s → SafetyOverrides.allow_huge_fetch ov ≡ true)
        × (warnings ≡ violations s))
unfolding validate_backfill_safety guard
validate_backfill_safety_iff s ov warnings = ground arith
