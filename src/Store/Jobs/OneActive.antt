-- ===== src/Store/Jobs/OneActive.antt =====
-- Histories of the backfill job queue, and the open jobs of a chat (src/storage.rs).
use whatsrust.Prelude.{
  ℕ, suc, ◌≤◌, ◌≡◌, refl, String, true, Option, none, some, List, [], ◌∷◌, ◌⊎◌, inl, inr, arith,
  eq_iff, ◌==◌, Option-cases,
}
use whatsrust.Prelude.Int.{ℤ}
use whatsrust.Prelude.Table.{
  first_where, first_where-holds, row-first_where, count_where, count_where-append,
  count_where-eq_zero, count-update_id, count-update-le, count-update_where, All-map, All-row,
  update_where-IsAscending, append-IsAscending,
}
use whatsrust.Store.Db.{Db, JobStatus, running, BackfillJobRow}
use whatsrust.Store.Cursors.{update_backfill_fetched}
use whatsrust.Store.Jobs.{
  EnqueueOutcome, IsValid, job_id, find_job, active_in, is_active, is_cancelled, is_queued,
  active_job, may_mark, new_job, insert_job, effective_target, enqueue_backfill_job,
  claim_next_backfill_job, mark_backfill_job,
}

abbrev pub OneActive : Db → Type 0
OneActive db = (chat : String) → count_where (active_in chat) db.jobs ≤ 1

module _ (chat kind : String) (value : Option ℤ) (cooldown_secs limit max_messages : ℤ)
    (model_id : Option String) (ts : ℤ) (db : Db) where
  abbrev pub enqueued : Db × Option EnqueueOutcome
  enqueued = enqueue_backfill_job chat kind value cooldown_secs limit max_messages model_id ts db

  -- A trigger either leaves the tables alone or inserts a job for a chat that has no open one.
  pub enqueue_cases :
      (enqueued.0 ≡ db)
      ⊎ ((active_job chat db ≡ none)
          × (enqueued.0 ≡ insert_job chat kind (effective_target kind value max_messages) ts db))
  unfolding enqueue_backfill_job
  enqueue_cases = ground arith

insert_job-OneActive :
    (chat kind : String) (value : Option ℤ) (ts : ℤ) (db : Db)
    → active_job chat db ≡ none
    → OneActive db
    → OneActive (insert_job chat kind value ts db)
unfolding insert_job active_job count_where
insert_job-OneActive chat kind value ts db free one other = ground (
  arith,
  one other,
  eq_iff chat other,
  count_where-append (active_in other) db.jobs (new_job chat kind value ts (suc db.job_seq) ∷ []),
  count_where-eq_zero (active_in chat) db.jobs free,
)

claim-OneActive :
    (ts : ℤ) (db : Db) → IsValid db → OneActive db → OneActive (claim_next_backfill_job ts db).0
unfolding claim_next_backfill_job
claim-OneActive ts db v one chat =
    elim (Option-cases (first_where (λ j. is_queued j.status) db.jobs)) [
      | inl e ↦ rw (e, claim_next_backfill_job) (one chat)
      | inr (j, e) ↦
          let found = (row-first_where job_id 0 db.jobs db.job_seq _ v e).1 in
          rw (e, claim_next_backfill_job)
            (ground (
              arith,
              one chat,
              first_where-holds (λ x. is_queued x.status) db.jobs e,
              count-update_id job_id (active_in chat)
                  (λ x. record x { status = running; updated_at = ts }) 0 db.jobs db.job_seq j.id v
                  found,
            ))
    ]

-- A status write may open a job only if that job was open, or is cancelled and so out of reach.
abbrev pub MayOpen : ℕ → JobStatus → Db → Type 0
MayOpen id status db =
    is_active status ≡ true
    → (j : BackfillJobRow) → find_job id db ≡ some j
    → (is_active j.status ≡ true) ⊎ (is_cancelled j.status ≡ true)

mark-OneActive :
    (id : ℕ) (status : JobStatus) (ts : ℤ) (db : Db)
    → IsValid db
    → MayOpen id status db
    → OneActive db
    → OneActive (mark_backfill_job id status ts db).0
unfolding mark_backfill_job
mark-OneActive id status ts db v may one chat =
    let f : BackfillJobRow → BackfillJobRow = λ j. record j { status = status; updated_at = ts } in
    let owned =
      All-row job_id
        (λ j.
          is_active status ≡ true → (is_active j.status ≡ true) ⊎ (is_cancelled j.status ≡ true))
        0 db.jobs db.job_seq id v (λ j found a. may a j found) in
    omega (
      arith,
      one chat,
      count-update-le (active_in chat) (may_mark id status) f db.jobs
          (All-map db.jobs (λ j h. step j h) owned),
    )
  where
    step :
        (j : BackfillJobRow)
        → (job_id j ≡ id
            → is_active status ≡ true
            → (is_active j.status ≡ true) ⊎ (is_cancelled j.status ≡ true))
        → may_mark id status j ≡ true
        → active_in chat (record j { status = status; updated_at = ts }) ≡ true
        → active_in chat j ≡ true
    step j h m a = ground (arith, h)

-- What the daemon does to the table: a trigger, a claim, a status write and a progress write.
pub data JobOp : Type 0 where
  trigger : String → String → Option ℤ → ℤ → ℤ → ℤ → Option String → ℤ → JobOp
  claim : ℤ → JobOp
  mark : ℕ → JobStatus → ℤ → JobOp
  progress : ℕ → ℕ → ℤ → JobOp

unfoldable pub apply : JobOp → Db → Db
apply (trigger chat kind value c l m model ts) db =
    (enqueue_backfill_job chat kind value c l m model ts db).0
apply (claim ts) db = (claim_next_backfill_job ts db).0
apply (mark id status ts) db = (mark_backfill_job id status ts db).0
apply (progress id fetched ts) db = update_backfill_fetched id fetched ts db

unfoldable pub run : List JobOp → Db → Db
run [] db = db
run (o ∷ os) db = run os (apply o db)

-- Each status write of the history that opens a job is on a job that is open or cancelled.
abbrev pub Orderly : JobOp → Db → Type 0
Orderly (mark id status ts) db = MayOpen id status db
Orderly _ db = Unit

abbrev pub AllOrderly : List JobOp → Db → Type 0
AllOrderly [] db = Unit
AllOrderly (o ∷ os) db = Orderly o db × AllOrderly os (apply o db)

trigger-IsValid :
    (chat kind : String) (value : Option ℤ) (c l m : ℤ) (model : Option String) (ts : ℤ) (db : Db)
    → IsValid db
    → IsValid (enqueue_backfill_job chat kind value c l m model ts db).0
unfolding insert_job
trigger-IsValid chat kind value c l m model ts db v =
    elim (enqueue_cases chat kind value c l m model ts db) [
      | inl same ↦ rw same v
      | inr (_, new) ↦ rw new (append-IsAscending job_id 0 db.jobs db.job_seq _ refl v)
    ]

pub claim-IsValid : (ts : ℤ) (db : Db) → IsValid db → IsValid (claim_next_backfill_job ts db).0
unfolding claim_next_backfill_job
claim-IsValid ts db v = elim (Option-cases (first_where (λ j. is_queued j.status) db.jobs)) [
  | inl e ↦ rw (e, claim_next_backfill_job) v
  | inr (j, e) ↦
      rw (e, claim_next_backfill_job)
        (update_where-IsAscending job_id _ _ (λ x. refl) 0 db.jobs db.job_seq v)
]

pub apply-IsValid : (o : JobOp) (db : Db) → IsValid db → IsValid (apply o db)
unfolding apply mark_backfill_job update_backfill_fetched
apply-IsValid (trigger chat kind value c l m model ts) db v =
    trigger-IsValid chat kind value c l m model ts db v
apply-IsValid (claim ts) db v = claim-IsValid ts db v
apply-IsValid (mark id status ts) db v =
    update_where-IsAscending job_id _ _ (λ x. refl) 0 db.jobs db.job_seq v
apply-IsValid (progress id fetched ts) db v =
    update_where-IsAscending job_id _ _ (λ x. refl) 0 db.jobs db.job_seq v

pub apply-OneActive :
    (o : JobOp) (db : Db) → IsValid db → Orderly o db → OneActive db → OneActive (apply o db)
unfolding apply update_backfill_fetched
apply-OneActive (trigger chat kind value c l m model ts) db v h one =
    elim (enqueue_cases chat kind value c l m model ts db) [
      | inl same ↦ rw same one
      | inr (free, new) ↦ rw new (insert_job-OneActive chat kind _ ts db free one)
    ]
apply-OneActive (claim ts) db v h one = claim-OneActive ts db v one
apply-OneActive (mark id status ts) db v h one = mark-OneActive id status ts db v h one
apply-OneActive (progress id fetched ts) db v h one = λ chat. omega (
  arith,
  one chat,
  count-update_where (active_in chat) (λ j. j.id == id)
      (λ j. record j { fetched = fetched; updated_at = ts }) (λ j p. refl) db.jobs,
)

-- At every point of a history of triggers, claims, status writes and progress writes, a chat has
-- at most one job that is queued, running or paused, if it had at most one at the start and every
-- status write that opens a job is on a job that is open or cancelled at that point.
pub run-OneActive :
    (os : List JobOp) (db : Db)
    → IsValid db
    → AllOrderly os db
    → OneActive db
    → OneActive (run os db)
unfolding run
run-OneActive [] db v h one = one
run-OneActive (o ∷ os) db v h one =
    run-OneActive os (apply o db) (apply-IsValid o db v) h.1 (apply-OneActive o db v h.0 one)
