-- ===== src/Backfill/Worker/Marks.antt =====
-- The job queue over one turn of the worker (src/backfill.rs over src/storage.rs).
use mathlib.Core.Path.{subst}
use whatsrust.Prelude.{
  ℕ, ◌≡◌, ◌∙◌, sym, refl, String, true, not, Option, none, some, inl, inr, if_cases, if◌then◌else◌,
  arith, Bool-cases, Option-cases, some_cancel,
}
use whatsrust.Prelude.Int.{ℤ}
use whatsrust.Prelude.Table.{
  first_where, row-first_where, row-key, row-update_self, row-update_where,
}
use whatsrust.Store.Db.{Db, JobStatus, running, queued, paused, BackfillJobRow}
use whatsrust.Store.Cursors.{update_backfill_fetched}
use whatsrust.Store.Jobs.{
  IsValid, job_id, find_job, is_queued, is_cancelled, may_mark, claim_next_backfill_job,
  mark_backfill_job,
}
use whatsrust.Store.Jobs.OneActive.{
  OneActive, apply, mark, progress, claim, apply-IsValid, apply-OneActive,
}
use whatsrust.Backfill.History.{HistoryBatch}
use whatsrust.Backfill.Process.{JobEnd, Outcome, process_job}
use whatsrust.Backfill.Process.Keeps.{process_job-keeps}
use whatsrust.Backfill.Worker.{Turn, status_of, cancelled_if, settle, work, worker_turn}

-- The job `id` has the status `s`.
abbrev pub HasStatus : ℕ → JobStatus → Db → Type 0
HasStatus id s db = (j : BackfillJobRow) × (find_job id db ≡ some j) × (j.status ≡ s)

-- The sink stores messages and leaves the job table alone.
abbrev pub LeavesJobs : (String → HistoryBatch → Db → Db × Option String) → Type 0
LeavesJobs sink =
    (chat : String) (b : HistoryBatch) (db : Db)
    → ((sink chat b db).0.jobs ≡ db.jobs) × ((sink chat b db).0.job_seq ≡ db.job_seq)

-- While a worker has the job `id`.
abbrev pub Busy : ℕ → Db → Type 0
Busy id db = IsValid db × OneActive db × HasStatus id running db

claim-HasStatus :
    (ts : ℤ) (db : Db) {j : BackfillJobRow}
    → IsValid db
    → (claim_next_backfill_job ts db).1 ≡ some j
    → HasStatus j.id running (claim_next_backfill_job ts db).0
unfolding claim_next_backfill_job
claim-HasStatus ts db {j} v h =
    elim (Option-cases (first_where (λ x. is_queued x.status) db.jobs)) [
      | inl e ↦ absurd (let g : none ≡ some j = rw (e, claim_next_backfill_job) at h in cc)
      | inr (x, e) ↦
          let same : x ≡ j =
            some_cancel (let g : some x ≡ some j = rw (e, claim_next_backfill_job) at h in g) in
          subst (λ k. HasStatus k.id running (claim_next_backfill_job ts db).0) same (marked x e)
    ]
  where
    marked :
        (x : BackfillJobRow)
        → first_where (λ y. is_queued y.status) db.jobs ≡ some x
        → HasStatus x.id running (claim_next_backfill_job ts db).0
    marked x e =
        let found = (row-first_where job_id 0 db.jobs db.job_seq _ v e).1 in
        rw (e, claim_next_backfill_job)
          (
            record x { status = running; updated_at = ts },
            row-update_self job_id _ (λ y. refl) x.id db.jobs found,
            refl,
          )

claim-Busy :
    (ts : ℤ) (db : Db) {j : BackfillJobRow}
    → IsValid db
    → OneActive db
    → (claim_next_backfill_job ts db).1 ≡ some j
    → Busy j.id (claim_next_backfill_job ts db).0
unfolding apply
claim-Busy ts db {j} v one h = (
  apply-IsValid (claim ts) db v,
  apply-OneActive (claim ts) db v tt one,
  claim-HasStatus ts db v h,
)

fetched-Busy :
    (id fetched : ℕ) (ts : ℤ) (db : Db)
    → Busy id db
    → Busy id (update_backfill_fetched id fetched ts db)
unfolding apply update_backfill_fetched
fetched-Busy id fetched ts db (v, one, (j, found, runs)) = (
  apply-IsValid (progress id fetched ts) db v,
  apply-OneActive (progress id fetched ts) db v tt one,
  (
    record j { fetched = fetched; updated_at = ts },
    row-update_self job_id _ (λ x. refl) id db.jobs found,
    runs,
  ),
)

mark-Busy :
    (id : ℕ) (s : JobStatus) (ts : ℤ) (db : Db)
    → Busy id db
    → IsValid (mark_backfill_job id s ts db).0
      × OneActive (mark_backfill_job id s ts db).0
      × HasStatus id s (mark_backfill_job id s ts db).0
unfolding apply mark_backfill_job
mark-Busy id s ts db (v, one, (j, found, runs)) = (
  apply-IsValid (mark id s ts) db v,
  apply-OneActive (mark id s ts) db v
      (λ opens x at_id. inl (ground (arith, some_cancel (sym found ∙ at_id), runs))) one,
  (
    record j { status = s; updated_at = ts },
    row-update_where job_id (may_mark id s) _ (λ x. refl) id db.jobs
        ∙ rw found (ground (arith, runs, row-key job_id id db.jobs found)),
    refl,
  ),
)

-- Once the API has cancelled the job.
abbrev pub Dropped : ℕ → Db → Type 0
Dropped id db = IsValid db × OneActive db × HasStatus id JobStatus.cancelled db

mark-Dropped :
    (id : ℕ) (s : JobStatus) (ts : ℤ) (db : Db)
    → Dropped id db
    → Dropped id (mark_backfill_job id s ts db).0
unfolding apply mark_backfill_job
mark-Dropped id s ts db (v, one, (j, found, stopped)) = (
  apply-IsValid (mark id s ts) db v,
  apply-OneActive (mark id s ts) db v
      (λ opens x at_id. inr (ground (arith, some_cancel (sym found ∙ at_id), stopped))) one,
  (
    if may_mark id s j then record j { status = s; updated_at = ts } else j,
    row-update_where job_id (may_mark id s) _ (λ x. refl) id db.jobs ∙ rw found refl,
    if_cases (λ (x : BackfillJobRow). x.status ≡ JobStatus.cancelled) (may_mark id s j)
        (λ may. cancels s (ground (arith, stopped, may))) (λ may_not. stopped),
  ),
)
  where
    cancels : (s : JobStatus) → is_cancelled s ≡ true → s ≡ JobStatus.cancelled
    cancels JobStatus.cancelled h = refl
    cancels queued h = absurd (cc)
    cancels running h = absurd (cc)
    cancels paused h = absurd (cc)
    cancels JobStatus.done h = absurd (cc)
    cancels JobStatus.failed h = absurd (cc)

-- The job at the end of its run: still running, or cancelled by the API.
abbrev pub Ran : Option ℤ → ℕ → Db → Type 0
Ran none id db = Busy id db
Ran (some ts) id db = Dropped id db

cancelled_if-Ran : (o : Option ℤ) (id : ℕ) (db : Db) → Busy id db → Ran o id (cancelled_if o id db)
cancelled_if-Ran none id db busy = busy
cancelled_if-Ran (some ts) id db busy = mark-Busy id JobStatus.cancelled ts db busy

Ran-IsValid : (o : Option ℤ) (id : ℕ) (db : Db) → Ran o id db → IsValid db × OneActive db
Ran-IsValid none id db ran = (ran.0, ran.1)
Ran-IsValid (some ts) id db ran = (ran.0, ran.1)

mark-Ran :
    (o : Option ℤ) (id : ℕ) (s : JobStatus) (ts : ℤ) (db : Db)
    → Ran o id db
    → IsValid (mark_backfill_job id s ts db).0 × OneActive (mark_backfill_job id s ts db).0
mark-Ran none id s ts db ran = let (v, one, h) = mark-Busy id s ts db ran in (v, one)
mark-Ran (some t) id s ts db ran = let (v, one, h) = mark-Dropped id s ts db ran in (v, one)

-- What the claim hands to the rest of the turn.
abbrev pub Held : Db × Option BackfillJobRow → Type 0
Held (db, none) = IsValid db × OneActive db
Held (db, some job) = Busy job.id db

claim-Held : (ts : ℤ) (db : Db) → IsValid db → OneActive db → Held (claim_next_backfill_job ts db)
unfolding apply
claim-Held ts db v one = elim (Option-cases (claim_next_backfill_job ts db).1) [
  | inl e ↦ rw e (apply-IsValid (claim ts) db v, apply-OneActive (claim ts) db v tt one)
  | inr (j, e) ↦ rw e (claim-Busy ts db v one e)
]

settle-OneActive :
    (turn : Turn) (job : BackfillJobRow) (o : Outcome)
    → Busy job.id o.db
    → IsValid (settle turn job o).0 × OneActive (settle turn job o).0
unfolding settle
settle-OneActive turn job o busy = elim (Option-cases o.end) [
  | inl e ↦ rw (e, settle) (Ran-IsValid turn.cancelled_at job.id _ ran)
  | inr (end, e) ↦ elim (Bool-cases turn.marked) [
    | inl m ↦
        rw (e, m, settle) (mark-Ran turn.cancelled_at job.id (status_of end) turn.marked_at _ ran)
    | inr m ↦ rw (e, m, settle) (Ran-IsValid turn.cancelled_at job.id _ ran)
  ]
]
  where
    ran : Ran turn.cancelled_at job.id (cancelled_if turn.cancelled_at job.id o.db)
    ran = cancelled_if-Ran turn.cancelled_at job.id o.db busy

-- The status that an end leaves its job with.
abbrev pub EndsAs : JobEnd → ℕ → Db → Type 0
EndsAs JobEnd.done id db = HasStatus id JobStatus.done db
EndsAs JobEnd.parked id db = HasStatus id paused db
EndsAs JobEnd.cancelled id db = HasStatus id queued db
EndsAs JobEnd.deferred id db = HasStatus id queued db
EndsAs (JobEnd.failed reason) id db = HasStatus id JobStatus.failed db
EndsAs JobEnd.storage_error id db = HasStatus id JobStatus.failed db

-- The end decides unless the API cancelled the job while it ran.
abbrev pub Left : Option ℤ → JobEnd → ℕ → Db → Type 0
Left none e id db = EndsAs e id db
Left (some ts) e id db = HasStatus id JobStatus.cancelled db

EndsAs-status_of : (e : JobEnd) (id : ℕ) (db : Db) → HasStatus id (status_of e) db → EndsAs e id db
unfolding status_of
EndsAs-status_of JobEnd.done id db h = h
EndsAs-status_of JobEnd.parked id db h = h
EndsAs-status_of JobEnd.cancelled id db h = h
EndsAs-status_of JobEnd.deferred id db h = h
EndsAs-status_of (JobEnd.failed reason) id db h = h
EndsAs-status_of JobEnd.storage_error id db h = h

mark-Left :
    (o : Option ℤ) (e : JobEnd) (id : ℕ) (ts : ℤ) (db : Db)
    → Ran o id db
    → Left o e id (mark_backfill_job id (status_of e) ts db).0
mark-Left none e id ts db ran =
    let (v, one, h) = mark-Busy id (status_of e) ts db ran in EndsAs-status_of e id _ h
mark-Left (some t) e id ts db ran = let (v, one, h) = mark-Dropped id (status_of e) ts db ran in h

settle-Left :
    (turn : Turn) (job : BackfillJobRow) (o : Outcome) {e : JobEnd}
    → Busy job.id o.db
    → turn.marked ≡ true
    → o.end ≡ some e
    → Left turn.cancelled_at e job.id (settle turn job o).0
unfolding settle
settle-Left turn job o {e} busy m h =
    rw (h, m, settle)
      (mark-Left turn.cancelled_at e job.id turn.marked_at _
        (cancelled_if-Ran turn.cancelled_at job.id o.db busy))

module _ (sink : String → HistoryBatch → Db → Db × Option String) (batch_size : ℤ) (backstop : ℕ)
    (leaves : LeavesJobs sink) where
  process_job-Busy :
      (turn : Turn) (job : BackfillJobRow) (db : Db)
      → Busy job.id db
      → Busy job.id (process_job sink job batch_size backstop turn.reads turn.rounds db).db
  process_job-Busy turn job db busy =
      process_job-keeps (Busy job.id) sink job
        (λ chat b d h. rw ((leaves chat b d).0, (leaves chat b d).1) h) (λ d cs h. h)
        (fetched-Busy job.id) batch_size backstop turn.reads turn.rounds db busy

  work-OneActive :
      (turn : Turn) (claimed : Db × Option BackfillJobRow)
      → Held claimed
      → IsValid (work sink batch_size backstop turn claimed).0
        × OneActive (work sink batch_size backstop turn claimed).0
  unfolding work
  work-OneActive turn (db, none) held = held
  work-OneActive turn (db, some job) held =
      settle-OneActive turn job (process_job sink job batch_size backstop turn.reads turn.rounds db)
        (process_job-Busy turn job db held)

  -- A turn of the worker keeps the ids of the job table ascending and the open jobs of a chat at
  -- most one, if the sink leaves the job table alone, however the job of the turn ends.
  pub worker_turn-OneActive :
      (turn : Turn) (db : Db)
      → IsValid db
      → OneActive db
      → IsValid (worker_turn sink batch_size backstop turn db).0
        × OneActive (worker_turn sink batch_size backstop turn db).0
  unfolding worker_turn
  worker_turn-OneActive turn db v one = elim (Bool-cases (not turn.ready)) [
    | inl w ↦ rw (w, worker_turn) (v, one)
    | inr w ↦ elim (Bool-cases (not turn.claim_works)) [
      | inl c ↦ rw (w, c, worker_turn) (v, one)
      | inr c ↦
          rw (w, c, worker_turn)
            (work-OneActive turn (claim_next_backfill_job turn.claimed_at db)
              (claim-Held turn.claimed_at db v one))
    ]
  ]

  -- When a turn claims a job, and its job ends, the job is left cancelled if the API cancelled it
  -- while it ran, and else with the status of its end: done, paused for a parked one, queued for a
  -- cancelled or deferred one, failed for any other; given that the claim and the status write
  -- succeed and that the sink leaves the job table alone.
  pub worker_turn-HasStatus :
      (turn : Turn) (db : Db) (job : BackfillJobRow) (e : JobEnd)
      → IsValid db
      → OneActive db
      → turn.ready ≡ true
      → turn.claim_works ≡ true
      → turn.marked ≡ true
      → (claim_next_backfill_job turn.claimed_at db).1 ≡ some job
      → (process_job sink job batch_size backstop turn.reads turn.rounds
          (claim_next_backfill_job turn.claimed_at db).0).end
        ≡ some e
      → Left turn.cancelled_at e job.id (worker_turn sink batch_size backstop turn db).0
  unfolding worker_turn work
  worker_turn-HasStatus turn db job e v one ready works marked h ended =
      rw (ready, works, h, worker_turn, work)
        (settle-Left turn job
          (process_job sink job batch_size backstop turn.reads turn.rounds
            (claim_next_backfill_job turn.claimed_at db).0)
          (process_job-Busy turn job _ (claim-Busy turn.claimed_at db v one h)) marked ended)
