-- ===== src/Store/Queue/Retry.antt =====
-- Failed sends: the exponential backoff and the end of the retries (src/storage.rs).
use mathlib.Core.Path.{subst}
use whatsrust.Prelude.{
  ℕ, suc, ◌+◌, ◌≤◌, ◌≡◌, ◌≢◌, ◌⊎◌, inl, inr, refl, sym, ◌∙◌, ◌*◌, min, zero, some, List, [], ◌∷◌,
  arith, leb, length, some_cancel, if◌then◌else◌,
}
use whatsrust.Prelude.Int.{ℤ, pos, ◌+ℤ◌, ◌<ℤ◌}
use whatsrust.Prelude.Table.{row-update_self}
use whatsrust.Store.Queue.{
  Queue, Row, OutboundJobRow, failed, queued, IsValid, rows_of, job, backoff_secs, bump_retries,
  retries_of, mark_outbound_failed, claim_next_job, mark_failed, apply,
}
use whatsrust.Store.Queue.Rows.{apply-IsValid}
use whatsrust.Store.Queue.Claim.{claim_next_job_lem}

-- The wait is at least a second and at most 64, and doubles until it gets there.
pub backoff_secs_bounds :
    (n : ℕ)
    → (1 ≤ backoff_secs n)
      × (backoff_secs n ≤ 64)
      × (backoff_secs (suc n) ≡ min (2 * backoff_secs n) 64)
backoff_secs_bounds zero = (omega arith, omega arith, refl)
backoff_secs_bounds (suc zero) = (omega arith, omega arith, refl)
backoff_secs_bounds (suc (suc zero)) = (omega arith, omega arith, refl)
backoff_secs_bounds (suc (suc (suc zero))) = (omega arith, omega arith, refl)
backoff_secs_bounds (suc (suc (suc (suc zero)))) = (omega arith, omega arith, refl)
backoff_secs_bounds (suc (suc (suc (suc (suc zero))))) = (omega arith, omega arith, refl)
backoff_secs_bounds (suc (suc (suc (suc (suc (suc n)))))) =
    let top : min (suc (suc (suc (suc (suc (suc n)))))) 6 ≡ 6 = omega arith in
    let next : min (suc (suc (suc (suc (suc (suc (suc n))))))) 6 ≡ 6 = omega arith in
    rw (top, next) (omega arith, omega arith, refl)

module _ (i max_retries : ℕ) (ts : ℤ) (q : Queue) {r : Row} (found : job i q ≡ some r) where
  job-mark_outbound_failed :
      job i (mark_outbound_failed i max_retries ts q)
      ≡ some (bump_retries max_retries ts (ts +ℤ pos (backoff_secs r.retries)) r)
  unfolding mark_outbound_failed
  job-mark_outbound_failed =
      row-update_self rows_of _ (λ x. refl) i q.rows found ∙ rw (found, retries_of)

  -- Over ascending ids, after a failed send of a job of the queue, a claim gives another job, at any
  -- time before the backoff is over, and, if the failure was the last retry, at any time at all.
  pub claim-mark_outbound_failed :
      (now : ℤ) (j : OutboundJobRow)
      → IsValid q
      → (now <ℤ ts +ℤ pos (backoff_secs r.retries)) ⊎ (max_retries ≤ r.retries + 1)
      → (claim_next_job now (mark_outbound_failed i max_retries ts q)).1 ≡ some j
      → j.id ≢ i
  claim-mark_outbound_failed now j v early c same =
      let v' : IsValid (mark_outbound_failed i max_retries ts q) =
        unfold apply in apply-IsValid (mark_failed i max_retries ts) q v in
      let (x, claimed) = claim_next_job_lem now (mark_outbound_failed i max_retries ts q) v' j c in
      let both : some _ ≡ some x =
        sym job-mark_outbound_failed
        ∙ subst (λ k. job k (mark_outbound_failed i max_retries ts q) ≡ some x) same
            claimed.found in
      elim early [
        | inl soon ↦ ground (arith, some_cancel both, claimed.due, soon)
        | inr last ↦ ground (arith, some_cancel both, claimed.due, last)
      ]

-- The failures of one job, at the given times.
pub fail_each : ℕ → ℕ → List ℤ → Queue → Queue
fail_each i max_retries [] q = q
fail_each i max_retries (ts ∷ rest) q =
    fail_each i max_retries rest (mark_outbound_failed i max_retries ts q)

-- After one or more failures of a job of the queue, whatever their times, the job has counted each of them, and it is
-- given up exactly when the count has reached the maximum; else it is queued again.
pub fail_each_lem :
    (i max_retries : ℕ) (t : ℤ) (rest : List ℤ) (q : Queue) (r : Row)
    → job i q ≡ some r
    → (x : Row) × (job i (fail_each i max_retries (t ∷ rest) q) ≡ some x)
      × (x.retries ≡ r.retries + length (t ∷ rest))
      × (x.status ≡ (if leb max_retries x.retries then failed else queued))
unfolding fail_each
fail_each_lem i m t [] q r found = (_, job-mark_outbound_failed i m t q found, omega arith, refl)
fail_each_lem i m t (u ∷ rest) q r found =
    let (x, f, n, s) =
      fail_each_lem i m u rest (mark_outbound_failed i m t q) _
        (job-mark_outbound_failed i m t q found) in
    (x, f, omega (arith, n), s)
