-- ===== src/Drain/Worker/Sane.antt =====
-- The batch size, the backoff and the polling of the embedding drain (src/embed_drain.rs).
use whatsrust.Prelude.{
  ℕ, ◌+◌, ◌≤◌, ◌≡◌, refl, sym, ◌∙◌, String, false, not, List, [], ◌∷◌, arith, leb, inl, inr,
  Bool-cases, Option-cases,
}
use whatsrust.Store.Db.{Db}
use whatsrust.Drain.Guards.{
  BisectionTracker, HealthStatus, ok, loading, observe, bisect_batch_size, observe_failure,
  observe_success, CooldownState,
}
use whatsrust.Drain.Worker.{
  Config, Drain, Cycle, clamp, start, failed_cycle, calm, wake, grow, embed_failed, embedded, embed,
  drain_ready, by_health, run_cycle, turn, run_turns,
}

-- The limits of a configuration are not 0.
abbrev pub IsUsable : Config → Type 0
IsUsable cfg =
    (1 ≤ clamp cfg.max_batch cfg.configured_batch_size)
    × (1 ≤ cfg.backoff_cap)
    × (1 ≤ cfg.failure_threshold)

-- The batch is not empty and within the configured size and the model's; the backoff is at least a
-- second and at most the cap; and the worker stops polling exactly at the threshold of failures.
abbrev pub IsSane : Config → Drain → Type 0
IsSane cfg d =
    (1 ≤ d.batch_size)
    × (d.batch_size ≤ clamp cfg.max_batch cfg.configured_batch_size)
    × (1 ≤ d.backoff)
    × (d.backoff ≤ cfg.backoff_cap)
    × (d.notify_only ≡ leb cfg.failure_threshold d.failures)

-- While a turn runs the worker is not in notify-only mode.
abbrev Awake : Config → Drain → Type 0
Awake cfg d = IsSane cfg d × (d.notify_only ≡ false)

-- The state after the look at the health.
abbrev seen_by : Cycle → Drain → Drain
seen_by cycle d = record d { timer = (observe cycle.health cycle.now d.timer).0 }

module _ (cfg : Config) (usable : IsUsable cfg) where
  failed_cycle-IsSane : (d : Drain) → Awake cfg d → IsSane cfg (failed_cycle cfg d)
  unfolding failed_cycle
  failed_cycle-IsSane d h = elim (Bool-cases (leb cfg.failure_threshold (d.failures + 1))) [
    | inl stops ↦ rw (stops, failed_cycle) (h.0.0, h.0.1, h.0.2, h.0.3, sym stops)
    | inr goes ↦
        rw (goes, failed_cycle)
          (h.0.0, h.0.1, omega (arith, h.0.2, usable.1), omega arith, h.1 ∙ sym goes)
  ]

  polls : leb cfg.failure_threshold 0 ≡ false
  polls = ground (arith, usable.2)

  calm-Awake : (d : Drain) → Awake cfg d → Awake cfg (calm d)
  calm-Awake d h = ((h.0.0, h.0.1, omega arith, usable.1, h.1 ∙ sym polls), h.1)

  grow-bounds :
      (n : ℕ)
      → 1 ≤ n
      → n ≤ clamp cfg.max_batch cfg.configured_batch_size
      → (1 ≤ grow cfg n) × (grow cfg n ≤ clamp cfg.max_batch cfg.configured_batch_size)
  unfolding grow
  grow-bounds n low high = (ground (arith, low, high), ground (arith, low, high))

  bisect-bounds : (n m : ℕ) → 1 ≤ n → n ≤ m → (1 ≤ bisect_batch_size n) × (bisect_batch_size n ≤ m)
  unfolding bisect_batch_size
  bisect-bounds n m low high = (omega arith, omega (arith, low, high))

  halve-IsSane :
      (d : Drain) (t : BisectionTracker)
      → Awake cfg d
      → IsSane cfg (calm (record d { bisection = t; batch_size = bisect_batch_size d.batch_size }))
  halve-IsSane d t h =
      let (low, high) = bisect-bounds d.batch_size _ h.0.0 h.0.1 in
      (low, high, omega arith, usable.1, h.1 ∙ sym polls)

  embed_failed-IsSane :
      (ids : List String) (d : Drain) → Awake cfg d → IsSane cfg (embed_failed cfg ids d)
  unfolding embed_failed
  embed_failed-IsSane (id ∷ []) d h = failed_cycle-IsSane _ h
  embed_failed-IsSane [] d h = elim (Bool-cases (observe_failure [] d.bisection).1) [
    | inl e ↦
        rw (e, embed_failed) (halve-IsSane d (observe_success (observe_failure [] d.bisection).0) h)
    | inr e ↦ rw (e, embed_failed) (failed_cycle-IsSane _ h)
  ]
  embed_failed-IsSane (id ∷ id' ∷ ids) d h =
      elim (Bool-cases (observe_failure (id ∷ id' ∷ ids) d.bisection).1) [
        | inl e ↦
            rw (e, embed_failed)
              (halve-IsSane d (observe_success (observe_failure (id ∷ id' ∷ ids) d.bisection).0) h)
        | inr e ↦ rw (e, embed_failed) (failed_cycle-IsSane _ h)
      ]

  embedded-IsSane :
      (cycle : Cycle) (ids : List String) (n : ℕ) (d : Drain) (db : Db)
      → Awake cfg d
      → IsSane cfg (embedded cfg cycle ids n d db).0
  unfolding embedded
  embedded-IsSane cycle ids n d db h = elim (Bool-cases cycle.write_works) [
    | inl e ↦
        let (low, high) = grow-bounds d.batch_size h.0.0 h.0.1 in
        rw (e, embedded) (low, high, omega arith, usable.1, h.1 ∙ sym polls)
    | inr e ↦ rw (e, embedded) (failed_cycle-IsSane _ (calm-Awake d h))
  ]

  embed-IsSane :
      (cycle : Cycle) (ids : List String) (d : Drain) (db : Db)
      → Awake cfg d
      → IsSane cfg (embed cfg cycle ids d db).0
  unfolding embed
  embed-IsSane cycle [] d db h = h.0
  embed-IsSane cycle (id ∷ ids) d db h = elim (Option-cases cycle.vectors) [
    | inl e ↦ rw (e, embed) (embed_failed-IsSane (id ∷ ids) d h)
    | inr (n, e) ↦ rw (e, embed) (embedded-IsSane cycle (id ∷ ids) n d db h)
  ]

  drain_ready-IsSane :
      (cycle : Cycle) (d : Drain) (db : Db)
      → Awake cfg d
      → IsSane cfg (drain_ready cfg cycle d db).0
  unfolding drain_ready
  drain_ready-IsSane cycle d db h = elim (Bool-cases (not cycle.fetch_works)) [
    | inl e ↦ rw (e, drain_ready) (failed_cycle-IsSane d h)
    | inr e ↦ rw (e, drain_ready) (embed-IsSane cycle _ d _ h)
  ]

  wake-Awake : (d : Drain) → IsSane cfg d → Awake cfg (wake d)
  unfolding wake
  wake-Awake d h = elim (Bool-cases d.notify_only) [
    | inl e ↦ rw (e, wake) ((h.0, h.1, omega arith, usable.1, sym polls), refl)
    | inr e ↦ rw (e, wake) ((h.0, h.1, h.2, h.3, sym e ∙ h.4), refl)
  ]

  by_health-IsSane :
      (cycle : Cycle) (health : HealthStatus) (d : Drain) (db : Db)
      → Awake cfg d
      → IsSane cfg (by_health cfg cycle health d db).0
  unfolding by_health
  by_health-IsSane cycle ok d db h = drain_ready-IsSane cycle d db h
  by_health-IsSane cycle loading d db h = h.0
  by_health-IsSane cycle (HealthStatus.error e) d db h = failed_cycle-IsSane d h

  run_cycle-IsSane :
      (cycle : Cycle) (d : Drain) (db : Db) → Awake cfg d → IsSane cfg (run_cycle cfg cycle d db).0
  unfolding run_cycle
  run_cycle-IsSane cycle d db h = elim (Bool-cases (observe cycle.health cycle.now d.timer).1) [
    | inl late ↦ rw (late, run_cycle) (failed_cycle-IsSane (seen_by cycle d) h)
    | inr fine ↦ rw (fine, run_cycle) (by_health-IsSane cycle cycle.health (seen_by cycle d) db h)
  ]

  start-IsSane : (cooldown : CooldownState) → IsSane cfg (start cfg cooldown)
  unfolding start
  start-IsSane cooldown = (usable.0, omega arith, omega arith, usable.1, sym polls)

  run_turns-Sane :
      (cycles : List Cycle) (d : Drain) (db : Db)
      → IsSane cfg d
      → IsSane cfg (run_turns cfg cycles d db).0
  unfolding run_turns turn
  run_turns-Sane [] d db h = h
  run_turns-Sane (cycle ∷ cycles) d db h =
      run_turns-Sane cycles (turn cfg cycle d db).0 (turn cfg cycle d db).1
        (run_cycle-IsSane cycle (wake d) db (wake-Awake d h))

  -- For limits that are not 0, and whatever the sidecar and the database answer in any number of
  -- turns from the start: the batch is at least 1 and within the configured size and the model's, the
  -- backoff is at least a second and at most the cap, and the worker has stopped polling exactly if
  -- its failures in a row have reached the threshold.
  pub run_turns-IsSane :
      (cycles : List Cycle) (cooldown : CooldownState) (db : Db)
      → IsSane cfg (run_turns cfg cycles (start cfg cooldown) db).0
  run_turns-IsSane cycles cooldown db =
      run_turns-Sane cycles (start cfg cooldown) db (start-IsSane cooldown)
