-- ===== src/Store/Watchdog.antt =====
-- The storage growth watchdog (src/storage.rs, `watchdog_should_alert`): sizes are u64, the
-- percentage is computed in u128 and cut to u32.
use whatsrust.Prelude.{
  ℕ, ◌+◌, ◌-◌, ◌*◌, ◌/◌, ◌%◌, ◌^◌, ◌≤◌, ◌<◌, ◌≡◌, ◌↔◌, ◌⊎◌, Option, none, some, arith, ltb, leb,
  ◌==◌, min, if◌then◌else◌,
}

abbrev u64_max : ℕ
u64_max = 2 ^ 64 - 1

-- `u64::saturating_add`
abbrev saturating_add_u64 : ℕ → ℕ → ℕ
saturating_add_u64 a b = min (a + b) u64_max

abbrev as_u32 : ℕ → ℕ
as_u32 n = n % 2 ^ 32

unfoldable pub watchdog_should_alert : ℕ → ℕ → Option ℕ
watchdog_should_alert current baseline =
    if baseline == 0
    then none
    else if leb current baseline
    then none
    else if ltb current (saturating_add_u64 baseline (baseline / 2))
    then none
    else some (as_u32 ((current - baseline) * 100 / baseline))

-- For a baseline whose half again fits u64, no alert is given exactly when there is no baseline,
-- the size has not grown, or the growth is below half of the baseline, rounded down.
pub watchdog_silent_iff :
    (current baseline : ℕ)
    → baseline + baseline / 2 ≤ u64_max
    → (watchdog_should_alert current baseline ≡ none)
      ↔ ((baseline ≡ 0) ⊎ (current ≤ baseline) ⊎ (current < baseline + baseline / 2))
unfolding watchdog_should_alert
watchdog_silent_iff current baseline fits = (λ h. ground arith, λ h. ground arith)
