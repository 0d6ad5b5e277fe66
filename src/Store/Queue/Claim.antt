-- ===== src/Store/Queue/Claim.antt =====
-- The claims of the outbound queue (src/storage.rs, `claim_next_job`).
use mathlib.Core.Path.{subst}
use whatsrust.Prelude.{
  ℕ, ◌≤◌, ◌≡◌, ◌≢◌, refl, sym, ◌∙◌, Bool, true, false, none, some, List, [], ◌∷◌, ◌==◌, arith, inl,
  inr, Option-cases, if◌then◌else◌, some_cancel,
}
use whatsrust.Prelude.Int.{ℤ}
use whatsrust.Prelude.Table.{
  first_where, update_where, row-update_self, row-update_ne, row-append, row-update_where,
  row-first_where, first_where-holds, first_where-least, first_where-none, All,
}
use whatsrust.Prelude.Deletes.{row-keep}
use whatsrust.Store.Queue.{
  Queue, Row, OutboundJobRow, Op, enqueue, enqueue_at, claim, mark_sent, mark_failed, requeue_stale,
  requeue, deliver, prune, prune_old_data, inflight, IsValid, rows_of, has_id, has_wa_id, is_due,
  to_job_row, job, apply, run, enqueue_job, enqueue_job_at, claim_next_job,
  mark_outbound_sent_with_id, mark_outbound_failed, requeue_outbound, update_delivery_status,
}
use whatsrust.Store.Queue.Rows.{claim-IsValid, apply-IsValid, run-IsValid}

-- What holds when a claim at the time `ts` hands out `j`.
pub record Claimed (ts : ℤ) (q : Queue) (j : OutboundJobRow) (r : Row) : Type 0 where
  pub found : job j.id q ≡ some r
  pub same : j ≡ to_job_row r
  pub due : is_due ts r ≡ true
  pub marked :
      job j.id (claim_next_job ts q).0 ≡ some (record r { status = inflight; updated_at = ts })
  pub others : (i : ℕ) → i ≢ j.id → job i (claim_next_job ts q).0 ≡ job i q
  pub least : (i : ℕ) (x : Row) → job i q ≡ some x → is_due ts x ≡ true → j.id ≤ i

claim_eq :
    (ts : ℤ) (q : Queue) {r : Row}
    → first_where (is_due ts) q.rows ≡ some r
    → claim_next_job ts q ≡ (
      record q {
        rows =
            update_where
              (has_id r.id)
              (λ x. record x { status = inflight; updated_at = ts })
              q.rows;
      },
      some (to_job_row r),
    )
unfolding claim_next_job
claim_eq ts q e = rw (e, claim_next_job)

module _ (ts : ℤ) (q : Queue) (valid : IsValid q) where
  claim-Claimed :
      (r : Row) → first_where (is_due ts) q.rows ≡ some r → Claimed ts q (to_job_row r) r
  claim-Claimed r e = record {
    found = found;
    same = refl;
    due = first_where-holds (is_due ts) q.rows e;
    marked = rw (claim_eq ts q e) (row-update_self rows_of _ (λ x. refl) r.id q.rows found);
    others = λ i h. rw (claim_eq ts q e) (row-update_ne rows_of _ (λ x. refl) i r.id q.rows h);
    least = λ i x f d. first_where-least rows_of 0 q.rows q.seq (is_due ts) i valid e f d;
  }
    where
      found : job r.id q ≡ some r
      found = (row-first_where rows_of 0 q.rows q.seq (is_due ts) valid e).1

  -- Over ascending ids, a claim that hands out a job hands out the queued, due row with the least id, as it stood, and
  -- marks that row inflight at the time of the claim; every other row stays as it was.
  pub claim_next_job_lem :
      (j : OutboundJobRow) → (claim_next_job ts q).1 ≡ some j → (r : Row) × Claimed ts q j r
  unfolding claim_next_job
  claim_next_job_lem j h = elim (Option-cases (first_where (is_due ts) q.rows)) [
    | inl e ↦ absurd (ground arith)
    | inr (r, e) ↦
        let same : some (to_job_row r) ≡ some j = rw (claim_eq ts q e) at h in
        (r, subst (λ x. Claimed ts q x r) (some_cancel same) (claim-Claimed r e))
  ]

  -- Where no job is handed out, no row is queued and due, and the queue is as it was.
  pub claim_next_job-none :
      (claim_next_job ts q).1 ≡ none
      → ((claim_next_job ts q).0 ≡ q) × All (λ r. is_due ts r ≡ false) q.rows
  unfolding claim_next_job
  claim_next_job-none h = elim (Option-cases (first_where (is_due ts) q.rows)) [
    | inl e ↦ (rw (e, claim_next_job), first_where-none (is_due ts) q.rows e)
    | inr (r, e) ↦ absurd (let g : some (to_job_row r) ≡ none = rw (claim_eq ts q e) at h in cc)
  ]

-- Whether an operation may take the row `i` out of the status inflight.
abbrev pub releases : ℕ → Op → Bool
releases i (mark_sent k _ _) = i == k
releases i (mark_failed k _ _) = i == k
releases i (requeue k _) = i == k
releases i (requeue_stale _ _ _) = true
releases i _ = false

abbrev pub NoRelease : ℕ → List Op → Type 0
NoRelease i [] = Unit
NoRelease i (o ∷ os) = (releases i o ≡ false) × NoRelease i os

-- The row is there, and inflight.
abbrev pub Held : ℕ → Queue → Type 0
Held i q = (r : Row) × (job i q ≡ some r) × (r.status ≡ inflight)

claim-Held : (i : ℕ) (ts : ℤ) (q : Queue) → IsValid q → Held i q → Held i (claim_next_job ts q).0
unfolding claim_next_job
claim-Held i ts q v (r, f, s) = elim (Option-cases (first_where (is_due ts) q.rows)) [
  | inl e ↦ rw (e, claim_next_job) (r, f, s)
  | inr (x, e) ↦
      let claimed = claim-Claimed ts q v x e in
      let other : i ≢ x.id = λ same.
        let both : some r ≡ some x = sym f ∙ (rw same claimed.found) in
        ground (arith, some_cancel both, claimed.due, s) in
      (r, claimed.others i other ∙ f, s)
]

apply-Held :
    (i : ℕ) (o : Op) (q : Queue) → IsValid q → releases i o ≡ false → Held i q → Held i (apply o q)
unfolding apply enqueue_job enqueue_job_at mark_outbound_sent_with_id mark_outbound_failed
    requeue_outbound update_delivery_status prune_old_data
apply-Held i (enqueue j k p b ts) q v n (r, f, s) = (r, row-append rows_of i q.rows _ f, s)
apply-Held i (enqueue_at j k p b at ts) q v n (r, f, s) = (r, row-append rows_of i q.rows _ f, s)
apply-Held i (claim ts) q v n h = claim-Held i ts q v h
apply-Held i (mark_sent k wa ts) q v n (r, f, s) =
    (r, row-update_ne rows_of _ (λ x. refl) i k q.rows (ground arith) ∙ f, s)
apply-Held i (mark_failed k m ts) q v n (r, f, s) =
    (r, row-update_ne rows_of _ (λ x. refl) i k q.rows (ground arith) ∙ f, s)
apply-Held i (requeue_stale older now ts) q v n h = cc
apply-Held i (requeue k ts) q v n (r, f, s) =
    (r, row-update_ne rows_of _ (λ x. refl) i k q.rows (ground arith) ∙ f, s)
apply-Held i (deliver wa status ts) q v n (r, f, s) =
    let t : Row = record r { delivery_status = some status; updated_at = ts } in
    (
      if has_wa_id wa r then t else r,
      row-update_where rows_of (has_wa_id wa) _ (λ x. refl) i q.rows ∙ rw f,
      ground (arith, s),
    )
apply-Held i (prune retention now) q v n (r, f, s) =
    (r, row-keep rows_of _ i q.rows f (ground (arith, s)), s)

run-Held :
    (i : ℕ) (os : List Op) (q : Queue) → IsValid q → NoRelease i os → Held i q → Held i (run os q)
unfolding run
run-Held i [] q v n h = h
run-Held i (o ∷ os) q v n h =
    run-Held i os (apply o q) (apply-IsValid o q v) n.1 (apply-Held i o q v n.0 h)

-- Over ascending ids a claimed job is handed out to nobody else: after any operations none of which marks it sent or
-- failed, requeues it, or requeues stale rows, another claim, at any time, gives another job.
pub claims_exclusive :
    (ts ts' : ℤ) (q : Queue) (os : List Op) (a b : OutboundJobRow)
    → IsValid q
    → (claim_next_job ts q).1 ≡ some a
    → NoRelease a.id os
    → (claim_next_job ts' (run os (claim_next_job ts q).0)).1 ≡ some b
    → b.id ≢ a.id
claims_exclusive ts ts' q os a b v ca n cb same =
    let (r, first) = claim_next_job_lem ts q v a ca in
    let v1 : IsValid (claim_next_job ts q).0 = claim-IsValid ts q v in
    let held : Held a.id (run os (claim_next_job ts q).0) =
      run-Held a.id os _ v1 n (_, first.marked, refl) in
    let (x, second) =
      claim_next_job_lem ts' (run os (claim_next_job ts q).0) (run-IsValid os _ v1) b cb in
    let both : some held.0 ≡ some x = sym held.1 ∙ (rw (← same) second.found) in
    ground (arith, some_cancel both, second.due, held.2)
