-- ===== src/Backfill/Process.antt =====
-- `process_job` of src/backfill.rs: the pagination loop. What the world answers in one round of the
-- loop is a `Round`; a job runs over a list of them, and an outcome with no end means that the list
-- was used up. The sink that stores a batch (a trait object) is a parameter. The tables of the
-- database are explicit state; a write that fails is ignored by the code and changes nothing.
pub mod Steps
pub mod Ends
pub mod Stamp
pub mod Cooldown
pub mod Keeps
use whatsrust.Prelude.{
  ℕ, suc, ◌+◌, ◌%◌, ◌^◌, ◌-◌, String, Bool, true, false, not, ◌&&◌, ◌||◌, Option, none, some, List,
  [], ◌∷◌, ◌++◌, leb, ltb, ◌==◌, length, min, str_eq, if◌then◌else◌,
}
use whatsrust.Prelude.Int.{ℤ, pos, leb_ℤ}
use whatsrust.Store.Db.{Db, BackfillJobRow, BackfillCursorRow}
use whatsrust.Store.Cursors.{get_backfill_cursor, upsert_backfill_cursor, record_backfill_progress}
use whatsrust.Backfill.Target
use whatsrust.Backfill.Target.{FetchTarget, ParseError, Parsed, BackfillStep, evaluate_target}
use whatsrust.Backfill.History.{HistoryBatch}
use whatsrust.Backfill.Anchor.{Anchor, AnchorResolution, oldest_anchor, resolve_anchor}

-- The reasons of `JobEnd::Failed`.
pub data Reason : Type 0 where
  invalid_batch_size : ℤ → Reason
  bad_target : ParseError → Reason
  no_anchor : Reason
  fetch_failed : String → Reason
  persist_failed : String → Reason
  anchor_not_advancing : Reason

-- `storage_error` is the `Err` of `process_job`.
pub data JobEnd : Type 0 where
  done parked cancelled deferred storage_error : JobEnd
  failed : Reason → JobEnd

pub data Fetch : Type 0 where
  batch : HistoryBatch → Fetch
  error : String → Fetch

pub record Round : Type 0 where
  pub cancelled : Bool  -- `cancel.is_cancelled()` at the top of the loop
  pub ready : Bool  -- `source.is_ready()` before the fetch
  pub fetch : Fetch  -- what `fetch_older` returns
  pub ready_after : Bool  -- `source.is_ready()` after a failed fetch
  pub progress_written : Bool  -- whether `record_backfill_progress` succeeds
  pub cursor_written : Bool  -- whether `upsert_backfill_cursor` succeeds
  pub now : ℤ  -- `now_unix_secs()` at the end of the job
  pub ts : ℤ  -- `now_secs()` inside `record_backfill_progress`
  pub cancelled_after : Bool  -- `cancel.is_cancelled()` after the pause

-- A `BackfillProgress` event with the status "running".
pub record Progress : Type 0 where
  pub fetched : ℕ
  pub more_remain : Bool

-- The variables of the loop.
pub record Pager : Type 0 where
  pub anchor : Anchor
  pub fetched : ℕ
  pub consecutive_same_anchor : ℕ
  pub last_anchor_id : String

pub data Step : Type 0 where
  stop : JobEnd → Db → List Progress → Step
  next : Pager → Db → List Progress → Step

pub record Outcome : Type 0 where
  pub db : Db
  pub end : Option JobEnd
  pub events : List Progress

abbrev pub u32_max : ℕ
u32_max = 2 ^ 32 - 1

-- `fetched.saturating_add(batch_msg_count as u32)`
abbrev pub add_fetched : ℕ → ℕ → ℕ
add_fetched fetched n = min (fetched + n % 2 ^ 32) u32_max

abbrev pub stuck_k : ℕ
stuck_k = 2

abbrev pub written : Bool → Db → Db → Db
written ok new old = if ok then new else old

-- `upsert_backfill_cursor` at an anchor
abbrev pub put_cursor : String → Anchor → Bool → Bool → Option ℤ → Db → Db
put_cursor chat a more_remain exhausted last db =
    upsert_backfill_cursor chat (some a.oldest_msg_id) (some a.oldest_msg_from_me)
      (some a.oldest_msg_timestamp_ms) more_remain exhausted last db

module _ (sink : String → HistoryBatch → Db → Db × Option String) (job : BackfillJobRow)
    (target : FetchTarget) (backstop : ℕ) where
  -- 3i, 3j: what the target says, and the pause.
  unfoldable pub finish_round : Round → Pager → Bool → Db → List Progress → Step
  finish_round r p more_remain db events =
      elim (evaluate_target target p.fetched (some p.anchor.oldest_msg_timestamp_ms) more_remain
        backstop) [
          | BackfillStep.done ↦
              stop done
                (written r.cursor_written
                  (put_cursor job.chat_jid p.anchor more_remain (not more_remain) (some r.now) db)
                  db)
                events
          | BackfillStep.parked ↦ stop parked db events
          | BackfillStep.continue ↦
              if r.cancelled_after then stop cancelled db events else next p db events
        ]

  -- 3g, 3h: the new anchor is taken, the progress written and announced.
  unfoldable pub advance : Round → Pager → HistoryBatch → ℕ → Anchor → ℕ → Db → Step
  unfolding finish_round
  advance r p b fetched new same db =
      let p' : Pager = record {
        anchor = new;
        fetched = fetched;
        consecutive_same_anchor = same;
        last_anchor_id = new.oldest_msg_id;
      } in
      let exhausted = (length b.messages == 0) || not b.more_remain in
      let db' =
        record_backfill_progress job.id job.chat_jid (some new.oldest_msg_id)
          (some new.oldest_msg_from_me) (some new.oldest_msg_timestamp_ms) b.more_remain exhausted
          none fetched r.ts db in
      finish_round r p' b.more_remain (written r.progress_written db' db)
        (record { fetched = fetched; more_remain = b.more_remain } ∷ [])

  -- 3f: the guard on an anchor that does not move.
  unfoldable pub check_anchor : Round → Pager → HistoryBatch → ℕ → Anchor → Db → Step
  unfolding advance
  check_anchor r p b fetched new db =
      if str_eq new.oldest_msg_id p.last_anchor_id
      then (if leb stuck_k (p.consecutive_same_anchor + 1)
          then stop (failed anchor_not_advancing) db []
          else advance r p b fetched new (p.consecutive_same_anchor + 1) db)
      else advance r p b fetched new 0 db

  -- 3d, 3e: the count, and a batch from which no anchor can be derived.
  unfoldable pub count_batch : Round → Pager → HistoryBatch → Db → Step
  unfolding check_anchor
  count_batch r p b db = elim (oldest_anchor b) [
    | none ↦
        stop done
          (written r.cursor_written (put_cursor job.chat_jid p.anchor false true (some r.now) db)
            db)
          []
    | some new ↦ check_anchor r p b (add_fetched p.fetched (length b.messages)) new db
  ]

  -- 3c: the answer of the sink.
  unfoldable pub persisted : Round → Pager → HistoryBatch → Db × Option String → Step
  unfolding count_batch
  persisted r p b (db, none) = count_batch r p b db
  persisted r p b (db, some e) = stop (failed (persist_failed e)) db []

  -- 3b: the answer of the source.
  unfoldable pub answered : Round → Pager → Fetch → Db → Step
  unfolding persisted
  answered r p (batch b) db = persisted r p b (sink job.chat_jid b db)
  answered r p (error e) db =
      if not r.ready_after then stop deferred db [] else stop (failed (fetch_failed e)) db []

  -- 3a: a cancel, then the connection gate.
  unfoldable pub round : Round → Pager → Db → Step
  unfolding answered
  round r p db =
      if r.cancelled
      then stop cancelled
          (written r.cursor_written (put_cursor job.chat_jid p.anchor true false none db) db) []
      else if not r.ready
      then stop deferred db []
      else answered r p r.fetch db

  unfoldable pub run_rounds : List Round → Pager → Db → Outcome
  run_rounds [] p db = record { db = db; end = none; events = [] }
  run_rounds (r ∷ rs) p db = elim (round r p db) [
    | stop e db' events ↦ record { db = db'; end = some e; events = events }
    | next p' db' events ↦
        let rest = run_rounds rs p' db' in record rest { events = events ++ rest.events }
  ]

-- Whether the two reads at the start succeed.
pub record Reads : Type 0 where
  pub cursor_read : Bool
  pub oldest_read : Bool

abbrev pub ends_at : JobEnd → Db → Outcome
ends_at e db = record { db = db; end = some e; events = [] }

abbrev pub is_exhausted : Option BackfillCursorRow → Bool
is_exhausted none = false
is_exhausted (some c) = c.exhausted

-- The read of the oldest message is made only if the cursor has no usable anchor.
abbrev pub resolved : Reads → AnchorResolution → Bool
resolved reads (AnchorResolution.cursor a) = true
resolved reads _ = reads.oldest_read

abbrev pub first_pager : BackfillJobRow → Anchor → Pager
first_pager job a = record {
  anchor = a;
  fetched = job.fetched % 2 ^ 32;
  consecutive_same_anchor = 0;
  last_anchor_id = a.oldest_msg_id;
}

module _ (sink : String → HistoryBatch → Db → Db × Option String) (job : BackfillJobRow) where
  unfoldable pub start_at : FetchTarget → ℕ → List Round → AnchorResolution → Db → Outcome
  start_at target backstop rounds (AnchorResolution.cursor a) db =
      run_rounds sink job target backstop rounds (first_pager job a) db
  start_at target backstop rounds (AnchorResolution.oldest_stored a) db =
      run_rounds sink job target backstop rounds (first_pager job a) db
  start_at target backstop rounds AnchorResolution.no_anchor db = ends_at (failed no_anchor) db

  unfoldable pub with_target : FetchTarget → ℕ → Reads → List Round → Db → Outcome
  unfolding start_at
  with_target target backstop reads rounds db =
      let c = get_backfill_cursor job.chat_jid db in
      let found = resolve_anchor job.chat_jid c db in
      if not reads.cursor_read
      then ends_at storage_error db
      else if is_exhausted c
      then ends_at done db
      else if not (resolved reads found)
      then ends_at storage_error db
      else start_at target backstop rounds found db

  unfoldable pub process_job : ℤ → ℕ → Reads → List Round → Db → Outcome
  unfolding with_target
  process_job batch_size backstop reads rounds db =
      if leb_ℤ batch_size (pos 0)
      then ends_at (failed (invalid_batch_size batch_size)) db
      else elim (Target.parse job.target_kind job.target_value) [
        | Parsed.err e ↦ ends_at (failed (bad_target e)) db
        | Parsed.ok target ↦ with_target target backstop reads rounds db
      ]
