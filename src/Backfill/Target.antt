-- ===== src/Backfill/Target.antt =====
-- What a job asks for, and when it has it (src/backfill.rs). A u32 is a number below 2^32, an i64
-- an integer; the errors of `parse` are a data type in place of their texts.
use whatsrust.Prelude.{
  ℕ, ◌^◌, ◌≤◌, ◌<◌, ◌≡◌, ◌≢◌, ◌↔◌, ◌⊎◌, refl, String, Bool, false, not, ◌&&◌, ◌||◌, Option, none,
  some, arith, ltb, leb, str_eq, eq_iff, if◌then◌else◌,
}
use whatsrust.Prelude.Int.{ℤ, pos, negsuc, ◌≤ℤ◌, leb_ℤ}

pub data FetchTarget : Type 0 where
  since : ℤ → FetchTarget
  all : FetchTarget
  count : ℕ → FetchTarget

pub data ParseError : Type 0 where
  missing_value : ParseError
  out_of_range : ℤ → ParseError
  unknown_kind : String → ParseError

pub data Parsed : Type 0 where
  ok : FetchTarget → Parsed
  err : ParseError → Parsed

-- `u32::try_from`
abbrev u32_try_from : ℤ → Option ℕ
u32_try_from (pos n) = if ltb n (2 ^ 32) then some n else none
u32_try_from (negsuc n) = none

parse_since : Option ℤ → Parsed
parse_since none = err missing_value
parse_since (some ts) = ok (since ts)

parse_count : Option ℤ → Parsed
parse_count none = err missing_value
parse_count (some n) = elim (u32_try_from n) [ none ↦ err (out_of_range n) | some c ↦ ok (count c) ]

unfoldable pub parse : String → Option ℤ → Parsed
unfolding parse_since parse_count
parse kind value =
    if str_eq kind "since"
    then parse_since value
    else if str_eq kind "all"
    then ok all
    else if str_eq kind "count"
    then parse_count value
    else err (unknown_kind kind)

unfoldable pub to_row : FetchTarget → String × Option ℤ
to_row (since ts) = ("since", some ts)
to_row all = ("all", none)
to_row (count n) = ("count", some (pos n))

pub data BackfillStep : Type 0 where
  continue done parked : BackfillStep

-- `batch_oldest_ts_ms.map_or(false, |t| t <= ts)`
abbrev reached : Option ℤ → ℤ → Bool
reached none ts = false
reached (some t) ts = leb_ℤ t ts

unfoldable pub evaluate_target : FetchTarget → ℕ → Option ℤ → Bool → ℕ → BackfillStep
evaluate_target (since ts) fetched batch_oldest_ts_ms more_remain backstop =
    if not more_remain || reached batch_oldest_ts_ms ts
    then done
    else if ltb 0 backstop && leb backstop fetched
    then parked
    else continue
evaluate_target all fetched batch_oldest_ts_ms more_remain backstop =
    if not more_remain
    then done
    else if ltb 0 backstop && leb backstop fetched
    then parked
    else continue
evaluate_target (count n) fetched batch_oldest_ts_ms more_remain backstop =
    if leb n fetched then done else continue

-- When the target is met.
abbrev pub IsMet : FetchTarget → ℕ → Option ℤ → Bool → Type 0
IsMet (since ts) fetched none more = more ≡ false
IsMet (since ts) fetched (some t) more = (more ≡ false) ⊎ (t ≤ℤ ts)
IsMet all fetched oldest more = more ≡ false
IsMet (count n) fetched oldest more = n ≤ fetched

-- Whether the autonomy backstop applies to the target.
abbrev pub IsOpenEnded : FetchTarget → Type 0
IsOpenEnded (count n) = ⊥
IsOpenEnded _ = Unit

pub parse-to_row_count : (n : ℕ) → n < 2 ^ 32 → parse "count" (some (pos n)) ≡ ok (count n)
unfolding parse
parse-to_row_count n h = ground arith

-- A target that fits its columns is read back from them.
pub parse-to_row :
    (t : FetchTarget)
    → ((n : ℕ) → t ≡ count n → n < 2 ^ 32)
    → parse (to_row t).0 (to_row t).1 ≡ ok t
unfolding parse to_row
parse-to_row (since ts) h = refl
parse-to_row all h = refl
parse-to_row (count n) h = parse-to_row_count n (h n refl)

-- What is parsed as a target other than `all` is written back as the same columns.
pub to_row-parse :
    (kind : String) (value : Option ℤ) (t : FetchTarget)
    → t ≢ all
    → parse kind value ≡ ok t
    → (kind ≡ (to_row t).0) × (value ≡ (to_row t).1)
unfolding parse to_row
to_row-parse kind value t bounded h = (
  ground (arith, eq_iff kind "since", eq_iff kind "all", eq_iff kind "count", bounded),
  ground (arith, bounded),
)

-- A job is done exactly when its target is met; met or not is asked before the backstop.
pub evaluate_target-done_iff :
    (t : FetchTarget) (fetched : ℕ) (oldest : Option ℤ) (more : Bool) (backstop : ℕ)
    → (evaluate_target t fetched oldest more backstop ≡ done) ↔ IsMet t fetched oldest more
unfolding evaluate_target
evaluate_target-done_iff (since ts) fetched none more backstop =
    (λ h. ground arith, λ h. ground arith)
evaluate_target-done_iff (since ts) fetched (some t) more backstop =
    (λ h. ground arith, λ h. ground arith)
evaluate_target-done_iff all fetched oldest more backstop = (λ h. ground arith, λ h. ground arith)
evaluate_target-done_iff (count n) fetched oldest more backstop =
    (λ h. ground arith, λ h. ground arith)

-- A job is parked exactly when its target is open-ended and not met, and the positive backstop is
-- reached; so a count job never parks, and a backstop of 0 parks nothing.
pub evaluate_target-parked_iff :
    (t : FetchTarget) (fetched : ℕ) (oldest : Option ℤ) (more : Bool) (backstop : ℕ)
    → (evaluate_target t fetched oldest more backstop ≡ parked)
      ↔ (IsOpenEnded t × (¬ IsMet t fetched oldest more) × (0 < backstop) × (backstop ≤ fetched))
unfolding evaluate_target
evaluate_target-parked_iff (since ts) fetched none more backstop =
    (λ h. (tt, λ m. ground arith, ground arith, ground arith), λ h. ground arith)
evaluate_target-parked_iff (since ts) fetched (some t) more backstop =
    (λ h. (tt, λ m. ground arith, ground arith, ground arith), λ h. ground arith)
evaluate_target-parked_iff all fetched oldest more backstop =
    (λ h. (tt, λ m. ground arith, ground arith, ground arith), λ h. ground arith)
evaluate_target-parked_iff (count n) fetched oldest more backstop =
    (λ h. absurd (ground arith), λ h. absurd h.0)
