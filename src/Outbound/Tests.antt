-- ===== src/Outbound/Tests.antt =====
-- The kinds of outbound operations and the outbound worker at concrete inputs.
use whatsrust.Prelude.{ℕ, ◌≡◌, ◌≢◌, refl, String, true, false, Option, none, some, [], ◌∷◌, arith}
use whatsrust.Prelude.Int.{pos}
use whatsrust.Prelude.Table.{first_where}
use whatsrust.Store.Queue.{Row, IsValid, queued, to_job_row, job, claim_next_job}
use whatsrust.Outbound.Worker.{Outbox, Turn, Executed, handle_outbound}
use whatsrust.Outbound.Worker.Marks.{Settled, fate_of, handle_outbound-Settled}
use whatsrust.Outbound.Worker.Others.{handle_outbound-others}

abbrev row_of : ℕ → String → Row
row_of id jid = record {
  id = id;
  jid = jid;
  op_kind = "text";
  payload_json = "{}";
  payload_blob = none;
  wa_message_id = none;
  delivery_status = none;
  status = queued;
  retries = 0;
  retry_after = pos 0;
  created_at = pos 100;
  updated_at = pos 100;
}

abbrev two_jobs : Outbox
two_jobs = record {
  queue = record { rows = row_of 1 "a@s" ∷ row_of 2 "b@s" ∷ []; seq = 2 };
  poll_keys = [];
}

two_jobs-IsValid : IsValid two_jobs.queue
two_jobs-IsValid = (omega arith, (omega arith, omega arith))

-- The send of the claimed job fails, and the first try of the write works.
abbrev a_turn : Turn
a_turn = record {
  cancelled = false;
  connected = true;
  claim_works = true;
  claimed_at = pos 100;
  connected_after = true;
  executed = Executed.err "timeout";
  writes = some (pos 101) ∷ [];
  poll_key_works = true;
}

abbrev accept_all : String → Option String
accept_all jid = some jid

claim_first : (claim_next_job (pos 100) two_jobs.queue).1 ≡ some (to_job_row (row_of 1 "a@s"))
unfolding claim_next_job first_where
claim_first = refl

handle_outbound-Settled_example :
    Settled
      (fate_of accept_all 3 a_turn (to_job_row (row_of 1 "a@s")))
      3
      0
      1
      (handle_outbound accept_all 3 a_turn two_jobs)
handle_outbound-Settled_example =
    handle_outbound-Settled accept_all 3 a_turn two_jobs (to_job_row (row_of 1 "a@s")) (pos 101) []
      two_jobs-IsValid refl refl refl claim_first refl

abbrev second_id : ℕ
second_id = 2

other_row : second_id ≢ 1
other_row same = ground arith

handle_outbound-others_example :
    job 2 (handle_outbound accept_all 3 a_turn two_jobs).0.queue ≡ job 2 two_jobs.queue
handle_outbound-others_example =
    handle_outbound-others 2 (to_job_row (row_of 1 "a@s")) other_row accept_all 3 a_turn two_jobs
      two_jobs-IsValid refl refl refl claim_first
