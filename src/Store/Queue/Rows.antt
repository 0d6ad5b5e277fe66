-- ===== src/Store/Queue/Rows.antt =====
-- How the queue's operations keep its ids (src/storage.rs).
use whatsrust.Prelude.{List, [], ◌∷◌, refl, inl, inr, Option-cases}
use whatsrust.Prelude.Int.{ℤ}
use whatsrust.Prelude.Table.{first_where, update_where-IsAscending, append-IsAscending}
use whatsrust.Prelude.Deletes.{keep-IsAscending}
use whatsrust.Store.Queue.{
  Queue, Op, enqueue, enqueue_at, claim, mark_sent, mark_failed, requeue_stale, requeue, deliver,
  prune, prune_old_data, IsValid, rows_of, is_due, apply, run, enqueue_job, enqueue_job_at,
  claim_next_job, mark_outbound_sent_with_id, mark_outbound_failed, requeue_stale_inflight,
  requeue_outbound, update_delivery_status,
}

pub claim-IsValid : (ts : ℤ) (q : Queue) → IsValid q → IsValid (claim_next_job ts q).0
unfolding claim_next_job
claim-IsValid ts q h = elim (Option-cases (first_where (is_due ts) q.rows)) [
  | inl e ↦ rw (e, claim_next_job) h
  | inr (r, e) ↦
      rw (e, claim_next_job) (update_where-IsAscending rows_of _ _ (λ x. refl) 0 q.rows q.seq h)
]

-- Every operation keeps the ids ascending and at most the sequence counter.
pub apply-IsValid : (o : Op) (q : Queue) → IsValid q → IsValid (apply o q)
unfolding apply enqueue_job enqueue_job_at mark_outbound_sent_with_id mark_outbound_failed
    requeue_stale_inflight requeue_outbound update_delivery_status prune_old_data
apply-IsValid (enqueue j k p b ts) q h = append-IsAscending rows_of 0 q.rows q.seq _ refl h
apply-IsValid (enqueue_at j k p b at ts) q h = append-IsAscending rows_of 0 q.rows q.seq _ refl h
apply-IsValid (claim ts) q h = claim-IsValid ts q h
apply-IsValid (mark_sent i wa ts) q h =
    update_where-IsAscending rows_of _ _ (λ x. refl) 0 q.rows q.seq h
apply-IsValid (mark_failed i n ts) q h =
    update_where-IsAscending rows_of _ _ (λ x. refl) 0 q.rows q.seq h
apply-IsValid (requeue_stale older now ts) q h =
    update_where-IsAscending rows_of _ _ (λ x. refl) 0 q.rows q.seq h
apply-IsValid (requeue i ts) q h = update_where-IsAscending rows_of _ _ (λ x. refl) 0 q.rows q.seq h
apply-IsValid (deliver wa status ts) q h =
    update_where-IsAscending rows_of _ _ (λ x. refl) 0 q.rows q.seq h
apply-IsValid (prune retention now) q h = keep-IsAscending rows_of _ 0 q.rows q.seq h

-- After any history of operations the ids are still ascending, and at most the sequence counter.
pub run-IsValid : (os : List Op) (q : Queue) → IsValid q → IsValid (run os q)
unfolding run
run-IsValid [] q h = h
run-IsValid (o ∷ os) q h = run-IsValid os (apply o q) (apply-IsValid o q h)
