-- ===== src/Store/Queue/Tests.antt =====
-- The outbound queue at concrete inputs.
use whatsrust.Prelude.{inl, ℕ, ◌≡◌, ◌≢◌, refl, String, none, some, List, [], ◌∷◌, arith}
use whatsrust.Prelude.Int.{pos, ◌<ℤ◌, ◌+ℤ◌}
use whatsrust.Prelude.Table.{first_where, update_where}
use whatsrust.Store.Queue.{
  Queue, Row, OutboundJobRow, Op, queued, IsValid, to_job_row, job, backoff_secs, enqueue, deliver,
  apply, run, enqueue_job, enqueue_job_at, claim_next_job, update_delivery_status,
  mark_outbound_failed,
}
use whatsrust.Store.Queue.Claim.{Claimed, claim_next_job_lem, claims_exclusive}
use whatsrust.Store.Queue.Retry.{claim-mark_outbound_failed}

abbrev row_of : ℕ → String → Row
row_of id jid = record {
  id = id;
  jid = jid;
  op_kind = "text";
  payload_json = "{}";
  payload_blob = none;
  wa_message_id = none;
  delivery_status = none;
  status = queued;
  retries = 0;
  retry_after = pos 0;
  created_at = pos 100;
  updated_at = pos 100;
}

abbrev two_jobs : Queue
two_jobs = record { rows = row_of 1 "a" ∷ row_of 2 "b" ∷ []; seq = 2 }

abbrev first_job : OutboundJobRow
first_job = to_job_row (row_of 1 "a")

abbrev second_job : OutboundJobRow
second_job = to_job_row (row_of 2 "b")

two_jobs-IsValid : IsValid two_jobs
two_jobs-IsValid = (omega arith, (omega arith, omega arith))

claim_first : (claim_next_job (pos 100) two_jobs).1 ≡ some first_job
unfolding claim_next_job first_where
claim_first = refl

abbrev some_ops : List Op
some_ops = enqueue "c" "text" "{}" none (pos 101) ∷ deliver "w" "read" (pos 102) ∷ []

claim_second :
    (claim_next_job (pos 103) (run some_ops (claim_next_job (pos 100) two_jobs).0)).1
    ≡ some second_job
unfolding claim_next_job first_where update_where run apply enqueue_job enqueue_job_at
    update_delivery_status
claim_second = refl

claim_next_job_lem_example : (r : Row) × Claimed (pos 100) two_jobs first_job r
claim_next_job_lem_example =
    claim_next_job_lem (pos 100) two_jobs two_jobs-IsValid first_job claim_first

claims_exclusive_example : second_job.id ≢ first_job.id
claims_exclusive_example =
    claims_exclusive (pos 100) (pos 103) two_jobs some_ops first_job second_job two_jobs-IsValid
      claim_first (refl, (refl, tt)) claim_second

found_first : job 1 two_jobs ≡ some (row_of 1 "a")
unfolding first_where
found_first = refl

claim_after_failure :
    (claim_next_job (pos 100) (mark_outbound_failed 1 5 (pos 100) two_jobs)).1 ≡ some second_job
unfolding claim_next_job first_where update_where mark_outbound_failed ◌+ℤ◌
claim_after_failure = refl

early : pos 100 <ℤ pos 100 +ℤ pos (backoff_secs 0)
unfolding ◌+ℤ◌
early = omega arith

claim-mark_outbound_failed_example : second_job.id ≢ 1
claim-mark_outbound_failed_example =
    claim-mark_outbound_failed 1 5 (pos 100) two_jobs found_first (pos 100) second_job
      two_jobs-IsValid (inl early) claim_after_failure
