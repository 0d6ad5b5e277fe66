-- ===== src/Backfill/Worker.antt =====
-- One turn of `run_worker_loop` of src/backfill.rs: the gate on the connection, the claim, the job
-- and the status that its end gives it. While the job runs, the API may cancel it, which is a write
-- of the status between two writes of the job; none of the job's own writes and reads before the
-- last looks at the status. What the world answers in the turn is a `Turn`.
pub mod Marks
use whatsrust.Prelude.{
  ℕ, String, Bool, true, false, not, Option, none, some, List, [], ◌∷◌, if◌then◌else◌,
}
use whatsrust.Prelude.Int.{ℤ}
use whatsrust.Store.Db.{Db, JobStatus, queued, paused, BackfillJobRow}
use whatsrust.Store.Jobs.{claim_next_backfill_job, mark_backfill_job, get_backfill_job}
use whatsrust.Backfill.History.{HistoryBatch}
use whatsrust.Backfill.Process.{
  Round, Reads, Outcome, JobEnd, done, parked, cancelled, deferred, storage_error, failed,
  process_job,
}

pub record Turn : Type 0 where
  pub ready : Bool  -- `source.is_ready()` before the claim
  pub claim_works : Bool  -- whether the claim's transaction succeeds
  pub claimed_at : ℤ
  pub reads : Reads
  pub rounds : List Round
  pub reread : Bool  -- whether the row is read again for the event
  pub cancelled_at : Option ℤ  -- when the API cancelled the job while it ran
  pub marked : Bool  -- whether the status write succeeds
  pub marked_at : ℤ

-- The status that the end of a job is written as.
unfoldable pub status_of : JobEnd → JobStatus
status_of done = JobStatus.done
status_of parked = paused
status_of cancelled = queued
status_of deferred = queued
status_of (failed reason) = JobStatus.failed
status_of storage_error = JobStatus.failed

abbrev pub terminal_more_remain : JobEnd → Bool
terminal_more_remain deferred = true
terminal_more_remain parked = true
terminal_more_remain cancelled = true
terminal_more_remain _ = false

-- The event of the end of a job; its `status` is the name of the end.
pub record Terminal : Type 0 where
  pub job_id : ℕ
  pub fetched : ℕ
  pub end : JobEnd
  pub more_remain : Bool

abbrev pub fresh_fetched : Bool → BackfillJobRow → Db → ℕ
fresh_fetched reread job db =
    if reread
    then (elim (get_backfill_job job.id db) [ none ↦ job.fetched | some r ↦ r.fetched ])
    else job.fetched

abbrev pub marked_if : Bool → ℕ → JobStatus → ℤ → Db → Db
marked_if works id status ts db = if works then (mark_backfill_job id status ts db).0 else db

-- `mark_backfill_job(id, "cancelled")` of the API.
abbrev pub cancelled_if : Option ℤ → ℕ → Db → Db
cancelled_if none id db = db
cancelled_if (some ts) id db = (mark_backfill_job id JobStatus.cancelled ts db).0

-- A job that has used up the answers of its turn is still running.
unfoldable pub settle : Turn → BackfillJobRow → Outcome → Db × Option Terminal
unfolding status_of
settle turn job o = elim o.end [
  | none ↦ (cancelled_if turn.cancelled_at job.id o.db, none)
  | some e ↦ (
    marked_if turn.marked job.id (status_of e) turn.marked_at
        (cancelled_if turn.cancelled_at job.id o.db),
    some (record {
      job_id = job.id;
      fetched = fresh_fetched turn.reread job o.db;
      end = e;
      more_remain = terminal_more_remain e;
    }),
  )
]

module _ (sink : String → HistoryBatch → Db → Db × Option String) (batch_size : ℤ)
    (backstop : ℕ) where
  unfoldable pub work : Turn → Db × Option BackfillJobRow → Db × Option Terminal
  unfolding settle
  work turn (db, none) = (db, none)
  work turn (db, some job) =
      settle turn job (process_job sink job batch_size backstop turn.reads turn.rounds db)

  unfoldable pub worker_turn : Turn → Db → Db × Option Terminal
  unfolding work
  worker_turn turn db =
      if not turn.ready
      then (db, none)
      else if not turn.claim_works
      then (db, none)
      else work turn (claim_next_backfill_job turn.claimed_at db)
