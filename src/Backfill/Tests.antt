-- ===== src/Backfill/Tests.antt =====
-- The backfill worker at concrete inputs: a sink that stores nothing, and pages of one message.
use whatsrust.Prelude.{◌≡◌, ◌≢◌, ◌↔◌, refl, String, true, false, Option, none, some, [], ◌∷◌, arith}
use whatsrust.Prelude.Int.{pos, ◌<ℤ◌, ◌-ℤ◌}
use whatsrust.Prelude.Table.{first_where, count_where}
use whatsrust.Store.Db.{Db, BackfillJobRow, empty, JobStatus}
use whatsrust.Store.Cursors.{get_backfill_cursor}
use whatsrust.Store.Messages.{get_oldest_message, to_row, NewMessage, oldest_row}
use whatsrust.Store.Jobs.{IsValid, new_job, claim_next_backfill_job, enqueue_backfill_job, accepted}
use whatsrust.Store.Jobs.OneActive.{OneActive}
use whatsrust.Backfill.Target
use whatsrust.Backfill.Target.{
  FetchTarget, since, all, count, Parsed, BackfillStep, evaluate_target, IsMet, IsOpenEnded,
  parse-to_row, to_row-parse, evaluate_target-done_iff, evaluate_target-parked_iff,
}
use whatsrust.Backfill.History.{WebMessageInfo, Conversation, HistorySync, HistoryBatch}
use whatsrust.Backfill.Anchor.{
  anchor_of, earlier, oldest_of, oldest_anchor, usable_cursor, resolve_anchor, cursor_anchor,
  oldest_stored_anchor,
}
use whatsrust.Backfill.Process.{
  Round, Reads, JobEnd, Fetch, is_exhausted, finish_round, advance, check_anchor, count_batch,
  persisted, answered, round, run_rounds, start_at, with_target, process_job,
}
use whatsrust.Backfill.Process.Ends.{FitsU32, process_job_ends}
use whatsrust.Backfill.Process.Cooldown.{process_job_cools}
use whatsrust.Backfill.Worker.{Turn, worker_turn}
use whatsrust.Backfill.Worker.Marks.{LeavesJobs, Left, worker_turn-OneActive, worker_turn-HasStatus}

abbrev silent_sink : String → HistoryBatch → Db → Db × Option String
silent_sink chat b db = (db, none)

abbrev a_job : BackfillJobRow
a_job = new_job "a" "count" (some (pos 1)) (pos 100) 1

abbrev hello : NewMessage
hello = record {
  chat_jid = "a";
  sender_jid = "a";
  message_id = "m9";
  content_kind = "text";
  body_text = some "hello";
  timestamp_secs = pos 50;
  from_me = false;
  source = "live";
  embed_status = whatsrust.Store.Db.EmbedStatus.pending;
}

abbrev a_db : Db
a_db = record empty {
  messages = to_row hello 1 (pos 51) ∷ [];
  message_seq = 1;
  jobs = a_job ∷ [];
  job_seq = 1;
}

abbrev a_message : WebMessageInfo
a_message = record {
  has_message = true;
  key_id = some "m8";
  key_from_me = none;
  message_timestamp = some 40;
}

abbrev a_page : HistoryBatch
a_page = record { messages = a_message ∷ []; more_remain = true; progress = none }

abbrev a_round : Round
a_round = record {
  cancelled = false;
  ready = true;
  fetch = Fetch.batch a_page;
  ready_after = true;
  progress_written = true;
  cursor_written = true;
  now = pos 200;
  ts = pos 199;
  cancelled_after = false;
}

abbrev reads_work : Reads
reads_work = record { cursor_read = true; oldest_read = true }

known : Target.parse "count" (some (pos 1)) ≡ Parsed.ok (count 1)
unfolding Target.parse
known = refl

page_fits : FitsU32 a_round
page_fits b same = ground (arith, same)

process_job_ends_example :
    (process_job silent_sink a_job (pos 50) 0 reads_work (a_round ∷ []) a_db).end ≢ none
process_job_ends_example =
    process_job_ends silent_sink a_job (count 1) (pos 50) 0 1 reads_work (a_round ∷ []) a_db known
      refl (omega arith) (page_fits, tt) (omega arith) (omega arith)

abbrev no_db : Db
no_db = record a_db { messages = [] }

no_cursor : is_exhausted (get_backfill_cursor "a" no_db) ≡ false
unfolding get_backfill_cursor first_where
no_cursor = refl

no_usable : usable_cursor (get_backfill_cursor "a" no_db) ≡ none
unfolding get_backfill_cursor first_where
no_usable = refl

no_oldest : get_oldest_message "a" no_db ≡ none
unfolding get_oldest_message oldest_row
no_oldest = refl

job_done :
    (process_job silent_sink a_job (pos 50) 0 reads_work (a_round ∷ []) a_db).end ≡ some JobEnd.done
unfolding process_job with_target start_at run_rounds round answered persisted count_batch
    check_anchor advance finish_round evaluate_target Target.parse get_backfill_cursor first_where
    resolve_anchor get_oldest_message oldest_row cursor_anchor oldest_stored_anchor oldest_anchor
    oldest_of earlier anchor_of
job_done = refl

more : is_exhausted (get_backfill_cursor "a" a_db) ≡ false
unfolding get_backfill_cursor first_where
more = refl

soon : pos 230 -ℤ pos 200 <ℤ pos 60
unfolding ◌-ℤ◌
soon = omega arith

process_job_cools_example :
    (enqueue_backfill_job "a" "all" none
      (pos 60)
      (pos 10)
      (pos 500)
      none
      (pos 230)
      (process_job silent_sink a_job (pos 50) 0 reads_work (a_round ∷ []) a_db).db).1
    ≢ some (accepted 2 none)
process_job_cools_example =
    process_job_cools silent_sink a_job (pos 50) 0 reads_work (a_round ∷ []) a_db (pos 200)
      (pos 230) (pos 60) (pos 10) (pos 500) "all" none none job_done more ((refl, omega arith), tt)
      (omega arith) soon 2 none

abbrev a_turn : Turn
a_turn = record {
  ready = true;
  claim_works = true;
  claimed_at = pos 150;
  reads = reads_work;
  rounds = a_round ∷ [];
  reread = true;
  cancelled_at = none;
  marked = true;
  marked_at = pos 201;
}

leaves : LeavesJobs silent_sink
leaves chat b db = (refl, refl)

a_db-IsValid : IsValid a_db
a_db-IsValid = (omega arith, omega arith)

a_db-OneActive : OneActive a_db
unfolding count_where
a_db-OneActive chat = ground arith

claim_a : (claim_next_backfill_job (pos 150) a_db).1 ≡ some a_job
unfolding claim_next_backfill_job first_where
claim_a = refl

claimed_done :
    (process_job silent_sink a_job
      (pos 50)
      0
      reads_work
      (a_round ∷ [])
      (claim_next_backfill_job (pos 150) a_db).0).end
    ≡ some JobEnd.done
unfolding process_job with_target start_at run_rounds round answered persisted count_batch
    check_anchor advance finish_round evaluate_target Target.parse get_backfill_cursor first_where
    resolve_anchor get_oldest_message oldest_row cursor_anchor oldest_stored_anchor oldest_anchor
    oldest_of earlier anchor_of claim_next_backfill_job
claimed_done = refl

worker_turn-OneActive_example :
    IsValid (worker_turn silent_sink (pos 50) 0 a_turn a_db).0
    × OneActive (worker_turn silent_sink (pos 50) 0 a_turn a_db).0
worker_turn-OneActive_example =
    worker_turn-OneActive silent_sink (pos 50) 0 leaves a_turn a_db a_db-IsValid a_db-OneActive

worker_turn-HasStatus_example :
    Left none JobEnd.done 1 (worker_turn silent_sink (pos 50) 0 a_turn a_db).0
worker_turn-HasStatus_example =
    worker_turn-HasStatus silent_sink (pos 50) 0 leaves a_turn a_db a_job JobEnd.done a_db-IsValid
      a_db-OneActive refl refl refl claim_a claimed_done

parse-to_row_example : Target.parse "count" (some (pos 7)) ≡ Parsed.ok (count 7)
unfolding Target.to_row
parse-to_row_example = parse-to_row (count 7) (λ n same. ground arith)

bounded : count 1 ≢ all
bounded same = cc

evaluate_target-done_example :
    (evaluate_target (since (pos 9)) 12 (some (pos 8)) true 10 ≡ BackfillStep.done)
    ↔ IsMet (since (pos 9)) 12 (some (pos 8)) true
evaluate_target-done_example = evaluate_target-done_iff (since (pos 9)) 12 (some (pos 8)) true 10

abbrev a_conversation : Conversation
a_conversation = record {
  id = "a@lid";
  messages = some a_message ∷ none ∷ [];
  end_of_history_transfer_type = none;
  pn_jid = some "";
}

abbrev a_chunk : HistorySync
a_chunk = record { conversations = a_conversation ∷ []; progress = some 100 }
