-- ===== src/Store/Queue/Depth.antt =====
-- The number of open jobs (src/storage.rs, `outbound_queue_depth`).
use whatsrust.Prelude.{
  ℕ, suc, ◌≡◌, ◌∙◌, refl, true, some, Option, String, List, arith, inl, inr, Option-cases,
}
use whatsrust.Prelude.Int.{ℤ}
use whatsrust.Prelude.Table.{
  first_where, first_where-holds, row-first_where, count_where, count_where-append,
  count-update_where, count-update_id,
}
use whatsrust.Store.Queue.{
  Queue, Row, inflight, sent, coalesce, IsValid, rows_of, job, is_open, is_due, enqueue_job_at,
  claim_next_job, requeue_stale_inflight, update_delivery_status, mark_outbound_sent_with_id,
  outbound_queue_depth,
}

depth-claim :
    (ts : ℤ) (q : Queue)
    → IsValid q
    → outbound_queue_depth (claim_next_job ts q).0 ≡ outbound_queue_depth q
unfolding claim_next_job outbound_queue_depth
depth-claim ts q v = elim (Option-cases (first_where (is_due ts) q.rows)) [
  | inl e ↦ rw (e, claim_next_job)
  | inr (r, e) ↦
      let found = (row-first_where rows_of 0 q.rows q.seq (is_due ts) v e).1 in
      rw (e, claim_next_job)
        (ground (
          arith,
          first_where-holds (is_due ts) q.rows e,
          count-update_id rows_of (λ r. is_open r.status)
              (λ x. record x { status = inflight; updated_at = ts }) 0 q.rows q.seq r.id v found,
        ))
]

depth-sent :
    (i : ℕ) (wa : Option String) (ts : ℤ) (q : Queue) (r : Row)
    → IsValid q
    → job i q ≡ some r
    → is_open r.status ≡ true
    → suc (outbound_queue_depth (mark_outbound_sent_with_id i wa ts q)) ≡ outbound_queue_depth q
unfolding mark_outbound_sent_with_id outbound_queue_depth
depth-sent i wa ts q r v found open_row =
    let f : Row → Row = λ x. record x {
      status = sent;
      wa_message_id = coalesce wa x.wa_message_id;
      updated_at = ts;
    } in
    let moved = count-update_id rows_of (λ x. is_open x.status) f 0 q.rows q.seq i v found in
    omega (arith, (rw open_row at moved))

-- Over a queue with ascending ids, enqueueing adds one open job; a claim, the requeue of stale rows
-- and a delivery report change the number of open jobs not at all; and marking an open job sent
-- takes one away.
pub outbound_queue_depth_lem :
    (q : Queue) (j k p : String) (b : Option (List ℕ)) (at ts older now : ℤ) (wa status : String)
    (i : ℕ) (sent_id : Option String) (r : Row)
    → IsValid q
    → job i q ≡ some r
    → is_open r.status ≡ true
    → (outbound_queue_depth (enqueue_job_at j k p b at ts q).0 ≡ suc (outbound_queue_depth q))
      × (outbound_queue_depth (claim_next_job ts q).0 ≡ outbound_queue_depth q)
      × (outbound_queue_depth (requeue_stale_inflight older now ts q).0 ≡ outbound_queue_depth q)
      × (outbound_queue_depth (update_delivery_status wa status ts q) ≡ outbound_queue_depth q)
      × (suc (outbound_queue_depth (mark_outbound_sent_with_id i sent_id ts q))
          ≡ outbound_queue_depth q)
unfolding enqueue_job_at requeue_stale_inflight update_delivery_status outbound_queue_depth
outbound_queue_depth_lem q j k p b at ts older now wa status i sent_id r v found open_row = (
  count_where-append (λ r. is_open r.status) q.rows _ ∙ (unfold count_where in omega arith),
  depth-claim ts q v,
  count-update_where _ _ _ (λ r h. ground arith) q.rows,
  count-update_where _ _ _ (λ r h. refl) q.rows,
  depth-sent i sent_id ts q r v found open_row,
)
