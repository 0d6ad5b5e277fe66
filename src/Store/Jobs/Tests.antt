-- ===== src/Store/Jobs/Tests.antt =====
-- The backfill job queue at concrete inputs.
use whatsrust.Prelude.{ℕ, ◌≡◌, ◌≢◌, refl, true, false, Option, none, some, List, [], ◌∷◌, arith}
use whatsrust.Prelude.Int.{ℤ, pos}
use whatsrust.Prelude.Table.{first_where, count_where}
use whatsrust.Store.Db.{Db, BackfillJobRow, BackfillCursorRow, JobStatus, cancelled, empty}
use whatsrust.Store.Cursors.Refines.{
  CursorOp, seed, claim as claim_job, progress as record_progress, run as run_ops, run_view,
  view_of, run-view,
}
use whatsrust.Store.Jobs.{
  insert_job, accepted, IsValid, new_job, active_job, effective_target, accepted_target,
  enqueue_backfill_job,
}
use whatsrust.Store.Jobs.OneActive.{
  OneActive, JobOp, trigger, claim, mark, progress, run, run-OneActive,
}
use whatsrust.Store.Jobs.Cancel.{Cancelled, run-Cancelled}
use whatsrust.Store.Jobs.Admits.{Admits, enqueue_backfill_job_iff}

abbrev open_job : BackfillJobRow
open_job = new_job "a" "all" none (pos 100) 1

abbrev one_job : Db
one_job = record empty { jobs = open_job ∷ []; job_seq = 1 }

one_job-IsValid : IsValid one_job
one_job-IsValid = (omega arith, omega arith)

one_job-OneActive : OneActive one_job
unfolding count_where
one_job-OneActive chat = ground arith

abbrev some_ops : List JobOp
some_ops =
    claim (pos 101)
    ∷ trigger "b" "count" (some (pos 50)) (pos 0) (pos 10) (pos 500) none (pos 102)
    ∷ progress 1 20 (pos 103)
    ∷ mark 1 JobStatus.done (pos 104)
    ∷ []

run-OneActive_example : OneActive (run some_ops one_job)
run-OneActive_example =
    run-OneActive some_ops one_job one_job-IsValid (tt, (tt, (tt, ((λ e. absurd (cc)), tt))))
      one_job-OneActive

abbrev cancelled_job : Db
cancelled_job = record one_job { jobs = record open_job { status = cancelled } ∷ [] }

cancelled_job-Cancelled : Cancelled 1 cancelled_job
unfolding first_where
cancelled_job-Cancelled = (record open_job { status = cancelled }, refl, refl)

run-Cancelled_example : Cancelled 1 (run some_ops cancelled_job)
run-Cancelled_example =
    run-Cancelled 1 some_ops cancelled_job (omega arith, omega arith) cancelled_job-Cancelled

abbrev AdmitsB : Type 0
AdmitsB =
    Admits "b" "count" (some (pos 900)) (pos 60) (pos 10) (pos 500) (some "m") (pos 200) one_job

enqueue_backfill_job_iff_example :
    (AdmitsB
      → enqueue_backfill_job "b" "count"
          (some (pos 900))
          (pos 60)
          (pos 10)
          (pos 500)
          (some "m")
          (pos 200)
          one_job
        ≡ (
          insert_job "b" "count"
              (effective_target "count" (some (pos 900)) (pos 500))
              (pos 200)
              one_job,
          some (accepted 2 (accepted_target "count" (some (pos 900)) (pos 500))),
        ))
    × ((id : ℕ) (target : Option ℤ)
        → (enqueue_backfill_job "b" "count"
            (some (pos 900))
            (pos 60)
            (pos 10)
            (pos 500)
            (some "m")
            (pos 200)
            one_job).1
          ≡ some (accepted id target)
        → AdmitsB)
enqueue_backfill_job_iff_example =
    enqueue_backfill_job_iff "b" "count" (some (pos 900)) (pos 60) (pos 10) (pos 500) (some "m")
      (pos 200) one_job

refused_run :
    (id : ℕ) (target : Option ℤ)
    → (enqueue_backfill_job "a" "all" none (pos 60) (pos 10) (pos 500) none (pos 200) one_job).1
      ≢ some (accepted id target)
unfolding enqueue_backfill_job active_job first_where
refused_run id target h = ground arith

abbrev frontier : BackfillCursorRow
frontier = record {
  chat_jid = "a";
  oldest_msg_id = some "m1";
  oldest_msg_from_me = some false;
  oldest_msg_timestamp_ms = some (pos 5000);
  more_remain = true;
  exhausted = false;
  last_backfill_at = some (pos 90);
}

abbrev moved : BackfillCursorRow
moved = record frontier { oldest_msg_id = some "m0"; last_backfill_at = none }

abbrev some_cursor : BackfillCursorRow
some_cursor = record {
  chat_jid = "a";
  oldest_msg_id = some "m1";
  oldest_msg_from_me = some true;
  oldest_msg_timestamp_ms = some (pos 5);
  more_remain = true;
  exhausted = false;
  last_backfill_at = none;
}

abbrev cursor_ops : List CursorOp
cursor_ops =
    seed some_cursor ∷ claim_job (pos 101) ∷ record_progress some_cursor 1 20 (pos 103) ∷ []

run-view_example :
    view_of (run_ops cursor_ops one_job) "a" ≡ run_view cursor_ops (view_of one_job) "a"
run-view_example = run-view cursor_ops one_job "a"
