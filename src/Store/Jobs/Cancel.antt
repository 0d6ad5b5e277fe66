-- ===== src/Store/Jobs/Cancel.antt =====
-- Cancelled jobs over a history of the queue (src/storage.rs, `mark_backfill_job`).
use whatsrust.Prelude.{
  ℕ, ◌≡◌, ◌≢◌, ◌∙◌, refl, sym, some, List, [], ◌∷◌, inl, inr, arith, Option-cases, some_cancel,
  ◌==◌, if◌then◌else◌,
}
use whatsrust.Prelude.Int.{ℤ}
use whatsrust.Prelude.Table.{
  first_where, first_where-holds, row-first_where, row-append, row-update_where, row-update_ne,
}
use whatsrust.Store.Db.{Db, cancelled, BackfillJobRow}
use whatsrust.Store.Cursors.{update_backfill_fetched}
use whatsrust.Store.Jobs.{
  IsValid, job_id, find_job, is_queued, may_mark, insert_job, claim_next_backfill_job,
  mark_backfill_job,
}
use whatsrust.Store.Jobs.OneActive.{
  JobOp, trigger, claim, mark, progress, apply, run, enqueue_cases, apply-IsValid,
}

abbrev pub Cancelled : ℕ → Db → Type 0
Cancelled i db = (j : BackfillJobRow) × (find_job i db ≡ some j) × (j.status ≡ cancelled)

claim-Cancelled :
    (i : ℕ) (ts : ℤ) (db : Db)
    → IsValid db
    → Cancelled i db
    → Cancelled i (claim_next_backfill_job ts db).0
unfolding claim_next_backfill_job
claim-Cancelled i ts db v (j, f, s) =
    elim (Option-cases (first_where (λ x. is_queued x.status) db.jobs)) [
      | inl e ↦ rw (e, claim_next_backfill_job) (j, f, s)
      | inr (x, e) ↦
          let found = (row-first_where job_id 0 db.jobs db.job_seq _ v e).1 in
          let waits = first_where-holds (λ y. is_queued y.status) db.jobs e in
          let other : i ≢ x.id = λ same.
            let both : some j ≡ some x = sym f ∙ (rw same found) in
            ground (arith, some_cancel both, waits, s) in
          rw (e, claim_next_backfill_job)
            (j, row-update_ne job_id _ (λ y. refl) i x.id db.jobs other ∙ f, s)
    ]

apply-Cancelled :
    (i : ℕ) (o : JobOp) (db : Db) → IsValid db → Cancelled i db → Cancelled i (apply o db)
unfolding apply insert_job mark_backfill_job update_backfill_fetched
apply-Cancelled i (trigger chat kind value c l m model ts) db v (j, f, s) =
    elim (enqueue_cases chat kind value c l m model ts db) [
      | inl same ↦ rw same (j, f, s)
      | inr (_, new) ↦ rw new (j, row-append job_id i db.jobs _ f, s)
    ]
apply-Cancelled i (claim ts) db v h = claim-Cancelled i ts db v h
apply-Cancelled i (mark id status ts) db v (j, f, s) = (
  if may_mark id status j then record j { status = status; updated_at = ts } else j,
  row-update_where job_id (may_mark id status) _ (λ x. refl) i db.jobs ∙ rw f,
  ground (arith, s),
)
apply-Cancelled i (progress id fetched ts) db v (j, f, s) = (
  if j.id == id then record j { fetched = fetched; updated_at = ts } else j,
  row-update_where job_id (λ x. x.id == id) _ (λ x. refl) i db.jobs ∙ rw f,
  ground (arith, s),
)

-- Once a job is cancelled it is cancelled after any further triggers, claims, status writes and
-- progress writes: no write of the worker brings it back.
pub run-Cancelled :
    (i : ℕ) (os : List JobOp) (db : Db) → IsValid db → Cancelled i db → Cancelled i (run os db)
unfolding run
run-Cancelled i [] db v h = h
run-Cancelled i (o ∷ os) db v h =
    run-Cancelled i os (apply o db) (apply-IsValid o db v) (apply-Cancelled i o db v h)
