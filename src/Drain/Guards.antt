-- ===== src/Drain/Guards.antt =====
-- The guards of the embedding drain (src/embed_drain.rs): the timer of a loading sidecar, the halving
-- of a batch that keeps failing, and the cool-down of the search. A moment is a number of
-- milliseconds; `duration_since` of an earlier moment is 0.
use whatsrust.Prelude.{
  ℕ, zero, suc, ◌+◌, ◌*◌, ◌/◌, ◌-◌, ◌≤◌, ◌≡◌, ◌≢◌, refl, String, Bool, true, false, ◌&&◌, Option,
  none, some, List, [], ◌∷◌, arith, ltb, leb, min, max, str_eq, eq_iff, if◌then◌else◌,
}

pub data HealthStatus : Type 0 where
  ok loading : HealthStatus
  error : String → HealthStatus

pub record LoadingTimer : Type 0 where
  pub loading_since : Option ℕ
  pub timeout : ℕ

-- `get_or_insert(now)`
abbrev pub since_or : Option ℕ → ℕ → ℕ
since_or none now = now
since_or (some t) now = t

-- The timer after a look at the health, and whether the sidecar has loaded for too long.
unfoldable pub observe : HealthStatus → ℕ → LoadingTimer → LoadingTimer × Bool
observe loading now timer =
    let since = since_or timer.loading_since now in
    (record timer { loading_since = some since }, ltb timer.timeout (now - since))
observe ok now timer = (record timer { loading_since = none }, false)
observe (error e) now timer = (record timer { loading_since = none }, false)

unfoldable pub bisect_batch_size : ℕ → ℕ
bisect_batch_size current = max (current / 2) 1

pub record BisectionTracker : Type 0 where
  pub last_batch_ids : List String
  pub consecutive_failures : ℕ
  pub bisection_threshold : ℕ

abbrev pub new_tracker : ℕ → BisectionTracker
new_tracker threshold = record {
  last_batch_ids = [];
  consecutive_failures = 0;
  bisection_threshold = threshold;
}

-- Equality of two lists of ids, in order.
unfoldable pub same_ids : List String → List String → Bool
same_ids [] [] = true
same_ids [] (y ∷ ys) = false
same_ids (x ∷ xs) [] = false
same_ids (x ∷ xs) (y ∷ ys) = str_eq x y && same_ids xs ys

unfoldable pub observe_failure : List String → BisectionTracker → BisectionTracker × Bool
observe_failure ids t =
    if same_ids t.last_batch_ids ids
    then (
      record t { consecutive_failures = t.consecutive_failures + 1 },
      leb t.bisection_threshold (t.consecutive_failures + 1),
    )
    else (record t { last_batch_ids = ids; consecutive_failures = 1 }, false)

-- `observe_success` and `observe_batch_changed` have the same body.
unfoldable pub observe_success : BisectionTracker → BisectionTracker
observe_success t = record t { last_batch_ids = []; consecutive_failures = 0 }

-- Windows in milliseconds.
abbrev pub cooldown_initial : ℕ
cooldown_initial = 30_000

abbrev pub cooldown_max : ℕ
cooldown_max = 600_000

pub record CooldownState : Type 0 where
  pub until : Option ℕ
  pub next_window : ℕ

abbrev pub new_cooldown : CooldownState
new_cooldown = record { until = none; next_window = cooldown_initial }

unfoldable pub is_active : ℕ → CooldownState → Bool
is_active now s = elim s.until [ none ↦ false | some until ↦ ltb now until ]

unfoldable pub on_cap_hit : ℕ → CooldownState → CooldownState
on_cap_hit now s = record {
  until = some (now + s.next_window);
  next_window = min (s.next_window * 2) cooldown_max;
}

unfoldable pub reset : CooldownState → CooldownState
reset s = new_cooldown

-- The failures of the same batch, one after the other.
abbrev pub fail_times : ℕ → List String → BisectionTracker → BisectionTracker
fail_times zero ids t = t
fail_times (suc n) ids t = (observe_failure ids (fail_times n ids t)).0

same_ids_refl : (xs : List String) → same_ids xs xs ≡ true
unfolding same_ids
same_ids_refl [] = refl
same_ids_refl (x ∷ xs) = ground (arith, eq_iff x x, same_ids_refl xs)

fail_times_lem :
    (n : ℕ) (ids : List String) (t : BisectionTracker)
    → t.last_batch_ids ≡ []
    → t.consecutive_failures ≡ 0
    → ids ≢ []
    → ((fail_times (suc n) ids t).last_batch_ids ≡ ids)
      × ((fail_times (suc n) ids t).consecutive_failures ≡ suc n)
      × ((fail_times (suc n) ids t).bisection_threshold ≡ t.bisection_threshold)
unfolding observe_failure same_ids
fail_times_lem zero [] t l c full = absurd (full refl)
fail_times_lem zero (x ∷ ids) t l c full = ground (arith, l, c)
fail_times_lem (suc n) ids t l c full =
    let (last, count, threshold) = fail_times_lem n ids t l c full in
    ground (arith, last, count, threshold, same_ids_refl ids)

-- The consecutive searches that hit the limit, at the given moments.
abbrev pub hits : List ℕ → CooldownState → CooldownState
hits [] s = s
hits (now ∷ rest) s = hits rest (on_cap_hit now s)

-- From a fresh tracker, a batch of ids that fails again after n + 1 failures is to be halved exactly
-- if the failures have now reached the threshold; the tracker knows the batch and has counted each.
pub observe_failure-halves :
    (threshold n : ℕ) (ids : List String)
    → ids ≢ []
    → ((observe_failure ids (fail_times (suc n) ids (new_tracker threshold))).1
        ≡ leb threshold (n + 2))
      × ((fail_times (suc n) ids (new_tracker threshold)).consecutive_failures ≡ suc n)
unfolding observe_failure
observe_failure-halves threshold n ids full =
    let (last, count, same) = fail_times_lem n ids (new_tracker threshold) refl refl full in
    (ground (arith, last, count, same, same_ids_refl ids), count)

-- The window stays between the initial one and the maximum.
abbrev InBounds : CooldownState → Type 0
InBounds s = (cooldown_initial ≤ s.next_window) × (s.next_window ≤ cooldown_max)

hits-InBounds : (moments : List ℕ) (s : CooldownState) → InBounds s → InBounds (hits moments s)
unfolding on_cap_hit
hits-InBounds [] s h = h
hits-InBounds (now ∷ rest) s h =
    hits-InBounds rest (on_cap_hit now s) (omega (arith, h.0), omega (arith, h.1))

-- After any number of hits of the limit, a further hit makes the search lexical for a window of at
-- least 30 and at most 600 seconds from then, and for no longer; after a reset it is not.
pub on_cap_hit_lem :
    (moments : List ℕ) (now later : ℕ)
    → (window : ℕ) × (cooldown_initial ≤ window)
      × (window ≤ cooldown_max)
      × (is_active later (on_cap_hit now (hits moments new_cooldown)) ≡ ltb later (now + window))
      × (is_active later (reset (on_cap_hit now (hits moments new_cooldown))) ≡ false)
unfolding is_active on_cap_hit reset
on_cap_hit_lem moments now later =
    let (low, high) = hits-InBounds moments new_cooldown (omega arith, omega arith) in
    ((hits moments new_cooldown).next_window, low, high, refl, refl)

-- The looks at a sidecar that is loading, at the given moments.
abbrev pub looks : List ℕ → LoadingTimer → LoadingTimer
looks [] timer = timer
looks (now ∷ rest) timer = looks rest (observe loading now timer).0

looks-since :
    (moments : List ℕ) (first : ℕ) (timer : LoadingTimer)
    → timer.loading_since ≡ some first
    → ((looks moments timer).loading_since ≡ some first)
      × ((looks moments timer).timeout ≡ timer.timeout)
unfolding observe
looks-since [] first timer h = (h, refl)
looks-since (now ∷ rest) first timer h = looks-since rest first _ (ground (arith, h))

-- While the sidecar goes on loading the time runs from the first look at it, after whichever health
-- was seen last before it: a later look is too late exactly if it is more than the timeout later.
pub observe-loading :
    (before : HealthStatus) (seen first now : ℕ) (moments : List ℕ) (timer : LoadingTimer)
    → before ≢ loading
    → (observe loading now (looks (first ∷ moments) (observe before seen timer).0)).1
      ≡ ltb timer.timeout (now - first)
unfolding observe
observe-loading ok seen first now moments timer other =
    let (since, limit) =
      looks-since moments first (record timer { loading_since = some first }) refl in
    ground (arith, since, limit)
observe-loading (error e) seen first now moments timer other =
    let (since, limit) =
      looks-since moments first (record timer { loading_since = some first }) refl in
    ground (arith, since, limit)
observe-loading loading seen first now moments timer other = absurd (other refl)
