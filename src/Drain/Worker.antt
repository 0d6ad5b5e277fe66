-- ===== src/Drain/Worker.antt =====
-- `run_embedding_drain_worker` of src/embed_drain.rs: one turn of its loop as a step on the state of
-- the worker and the tables. What the world answers in the turn is a `Cycle`; the sidecar is known
-- by the number of vectors that it returns. The sleeps are left out.
pub mod Sane
use whatsrust.Prelude.{
  ℕ, suc, ◌+◌, ◌*◌, String, Bool, true, false, not, ◌&&◌, Option, none, some, List, [], ◌∷◌, leb,
  ltb, min, length, map, if◌then◌else◌,
}
use whatsrust.Prelude.Int.{pos}
use whatsrust.Store.Db.{Db, MessageRow}
use whatsrust.Store.Messages.{
  fetch_pending_embeddings, write_embedding_batch, mark_embedding_failed,
}
use whatsrust.Drain.Text.{prepare_text_for_embedding}
use whatsrust.Drain.Guards.{
  HealthStatus, ok, loading, LoadingTimer, observe, bisect_batch_size, BisectionTracker,
  new_tracker, observe_failure, observe_success, CooldownState, reset,
}

pub record Config : Type 0 where
  pub model_id : String
  pub max_batch : Option ℕ
  pub max_input_tokens : Option ℕ
  pub configured_batch_size : ℕ
  pub backoff_cap : ℕ
  pub loading_timeout : ℕ
  pub failure_threshold : ℕ

-- The variables of the loop, and the cool-down that it shares with the search.
pub record Drain : Type 0 where
  pub timer : LoadingTimer
  pub bisection : BisectionTracker
  pub batch_size : ℕ
  pub backoff : ℕ
  pub failures : ℕ
  pub notify_only : Bool
  pub cooldown : CooldownState

pub record Cycle : Type 0 where
  pub health : HealthStatus
  pub now : ℕ
  pub fetch_works : Bool
  pub mark_works : String → Bool  -- whether the row of a message id can be marked failed
  pub vectors : Option ℕ  -- how many vectors `embed` returns, or none if it fails
  pub write_works : Bool

abbrev pub clamp : Option ℕ → ℕ → ℕ
clamp none n = n
clamp (some max_batch) n = if ltb max_batch n then max_batch else n

-- The backoff in seconds.
unfoldable pub start : Config → CooldownState → Drain
start cfg cooldown = record {
  timer = record { loading_since = none; timeout = cfg.loading_timeout };
  bisection = new_tracker 3;
  batch_size = clamp cfg.max_batch cfg.configured_batch_size;
  backoff = 1;
  failures = 0;
  notify_only = false;
  cooldown = cooldown;
}

-- What every arm of an error does: count, then stop polling or back off.
unfoldable pub failed_cycle : Config → Drain → Drain
failed_cycle cfg d =
    if leb cfg.failure_threshold (d.failures + 1)
    then record d { failures = d.failures + 1; notify_only = true }
    else record d { failures = d.failures + 1; backoff = min (d.backoff * 2) cfg.backoff_cap }

abbrev pub calm : Drain → Drain
calm d = record d { backoff = 1; failures = 0 }

-- A notification that arrives while the worker does not poll.
unfoldable pub wake : Drain → Drain
wake d = if d.notify_only then record d { backoff = 1; failures = 0; notify_only = false } else d

abbrev pub mark_if : Bool → String → Db → Db
mark_if works id db = if works then mark_embedding_failed id db else db

-- The ids of the rows with a text, and the tables with the others marked.
unfoldable pub prepare_rows : Option ℕ → (String → Bool) → List MessageRow → Db → List String × Db
prepare_rows tokens works [] db = ([], db)
prepare_rows tokens works (m ∷ ms) db =
    elim (prepare_text_for_embedding m.content_kind m.body_text tokens) [
      | none ↦ prepare_rows tokens works ms (mark_if (works m.message_id) m.message_id db)
      | some t ↦ let (ids, db') = prepare_rows tokens works ms db in (m.message_id ∷ ids, db')
    ]

-- Growing back towards the configured size.
unfoldable pub grow : Config → ℕ → ℕ
grow cfg n =
    let new_size = min (n * 2) cfg.configured_batch_size in
    if ltb n cfg.configured_batch_size
    then (elim cfg.max_batch [
      | none ↦ new_size
      | some max_batch ↦ if leb new_size max_batch then new_size else n
    ])
    else n

-- `embed` failed for the ids of a batch.
unfoldable pub embed_failed : Config → List String → Drain → Drain
unfolding failed_cycle
embed_failed cfg (id ∷ []) d =
    failed_cycle cfg (record d { bisection = observe_success d.bisection })
embed_failed cfg ids d =
    let (tracker, halve) = observe_failure ids d.bisection in
    if halve
    then calm (record d {
      bisection = observe_success tracker;
      batch_size = bisect_batch_size d.batch_size;
    })
    else failed_cycle cfg (record d { bisection = tracker })

unfoldable pub embedded : Config → Cycle → List String → ℕ → Drain → Db → Drain × Db
unfolding failed_cycle grow
embedded cfg cycle ids vectors d db =
    let d' =
      calm (record d { bisection = observe_success d.bisection; cooldown = reset d.cooldown }) in
    if cycle.write_works
    then (
      record d' { batch_size = grow cfg d.batch_size },
      write_embedding_batch ids cfg.model_id vectors db,
    )
    else (failed_cycle cfg d', db)

unfoldable pub embed : Config → Cycle → List String → Drain → Db → Drain × Db
unfolding embed_failed embedded
embed cfg cycle [] d db = (d, db)
embed cfg cycle (id ∷ ids) d db = elim cycle.vectors [
  | none ↦ (embed_failed cfg (id ∷ ids) d, db)
  | some n ↦ embedded cfg cycle (id ∷ ids) n d db
]

unfoldable pub drain_ready : Config → Cycle → Drain → Db → Drain × Db
unfolding embed prepare_rows failed_cycle
drain_ready cfg cycle d db =
    if not cycle.fetch_works
    then (failed_cycle cfg d, db)
    else (let rows = fetch_pending_embeddings cfg.model_id (pos d.batch_size) db in
        let (ids, db') = prepare_rows cfg.max_input_tokens cycle.mark_works rows db in
        embed cfg cycle ids d db')

-- Ready, still loading, or an error.
unfoldable pub by_health : Config → Cycle → HealthStatus → Drain → Db → Drain × Db
unfolding drain_ready failed_cycle
by_health cfg cycle ok d db = drain_ready cfg cycle d db
by_health cfg cycle loading d db = (d, db)
by_health cfg cycle (HealthStatus.error e) d db = (failed_cycle cfg d, db)

-- A sidecar that has loaded for too long counts as a failure.
unfoldable pub run_cycle : Config → Cycle → Drain → Db → Drain × Db
unfolding by_health failed_cycle
run_cycle cfg cycle d db =
    let (timer, late) = observe cycle.health cycle.now d.timer in
    let d' = record d { timer = timer } in
    if late then (failed_cycle cfg d', db) else by_health cfg cycle cycle.health d' db

-- A wake-up that the select lets through, and the turn after it: in notify-only mode only a
-- notification wakes the worker.
unfoldable pub turn : Config → Cycle → Drain → Db → Drain × Db
unfolding run_cycle wake
turn cfg cycle d db = run_cycle cfg cycle (wake d) db

unfoldable pub run_turns : Config → List Cycle → Drain → Db → Drain × Db
unfolding turn
run_turns cfg [] d db = (d, db)
run_turns cfg (cycle ∷ cycles) d db =
    let (d', db') = turn cfg cycle d db in run_turns cfg cycles d' db'
