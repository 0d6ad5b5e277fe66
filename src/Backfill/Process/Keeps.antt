-- ===== src/Backfill/Process/Keeps.antt =====
-- Predicates of the tables over the whole of `process_job` (src/backfill.rs).
use whatsrust.Prelude.{
  ℕ, ◌+◌, String, Bool, true, false, not, Option, none, some, List, [], ◌∷◌, leb, str_eq, inl, inr,
  Bool-cases, Option-cases,
}
use whatsrust.Prelude.Int.{ℤ, pos, leb_ℤ}
use whatsrust.Store.Db.{Db, BackfillJobRow, BackfillCursorRow}
use whatsrust.Store.Cursors.{
  get_backfill_cursor, update_backfill_fetched, upsert_backfill_cursor, record_backfill_progress,
}
use whatsrust.Backfill.Target
use whatsrust.Backfill.Target.{FetchTarget, evaluate_target}
use whatsrust.Backfill.History.{HistoryBatch}
use whatsrust.Backfill.Anchor.{Anchor, AnchorResolution, oldest_anchor, resolve_anchor}
use whatsrust.Backfill.Process.{
  Round, Pager, Progress, Step, stop, next, Fetch, batch, error, Reads, stuck_k, is_exhausted,
  resolved, first_pager, written, put_cursor, finish_round, advance, check_anchor, count_batch,
  persisted, answered, round, run_rounds, start_at, with_target, process_job,
}
use whatsrust.Backfill.Process.Steps.{Step-cases}
use whatsrust.Backfill.Process.Stamp.{BackfillStep-cases}
use whatsrust.Backfill.Process.Cooldown.{Parsed-cases}

module _ {ℓ} (P : Db → Type ℓ) (sink : String → HistoryBatch → Db → Db × Option String)
    (job : BackfillJobRow)
    (sink_keeps : (chat : String) (b : HistoryBatch) (db : Db) → P db → P (sink chat b db).0)
    (cursors_keep : (db : Db) (cs : List BackfillCursorRow) → P db → P (record db { cursors = cs }))
    (fetched_keeps : (fetched : ℕ) (ts : ℤ) (db : Db)
      → P db
      → P (update_backfill_fetched job.id fetched ts db)) where
  abbrev StepKeeps : Step → Type ℓ
  StepKeeps (stop e db evs) = P db
  StepKeeps (next p db evs) = P db

  written-keeps : (ok : Bool) (new old : Db) → P new → P old → P (written ok new old)
  written-keeps true new old n o = n
  written-keeps false new old n o = o

  put_cursor-keeps :
      (chat : String) (a : Anchor) (more exhausted : Bool) (last : Option ℤ) (db : Db)
      → P db
      → P (put_cursor chat a more exhausted last db)
  unfolding upsert_backfill_cursor
  put_cursor-keeps chat a more exhausted last db h = cursors_keep db _ h

  progress-keeps :
      (chat : String) (a : Anchor) (more exhausted : Bool) (fetched : ℕ) (ts : ℤ) (db : Db)
      → P db
      → P (
          record_backfill_progress job.id chat
            (some a.oldest_msg_id)
            (some a.oldest_msg_from_me)
            (some a.oldest_msg_timestamp_ms)
            more
            exhausted
            none
            fetched
            ts
            db)
  unfolding record_backfill_progress
  progress-keeps chat a more exhausted fetched ts db h =
      fetched_keeps fetched ts _ (put_cursor-keeps chat a more exhausted none db h)

  module _ (target : FetchTarget) (backstop : ℕ) where
    finish-keeps :
        (r : Round) (p : Pager) (more : Bool) (db : Db) (evs : List Progress)
        → P db
        → StepKeeps (finish_round sink job target backstop r p more db evs)
    unfolding finish_round
    finish-keeps r p more db evs h =
        let oldest = some p.anchor.oldest_msg_timestamp_ms in
        elim (BackfillStep-cases (evaluate_target target p.fetched oldest more backstop)) [
          | inl e ↦
              rw (e, finish_round)
                (written-keeps r.cursor_written _ db
                  (put_cursor-keeps job.chat_jid p.anchor more (not more) (some r.now) db h) h)
          | inr (inl e) ↦ rw (e, finish_round) h
          | inr (inr e) ↦ elim (Bool-cases r.cancelled_after) [
            | inl c ↦ rw (e, c, finish_round) h
            | inr c ↦ rw (e, c, finish_round) h
          ]
        ]

    advance-keeps :
        (r : Round) (p : Pager) (b : HistoryBatch) (fetched : ℕ) (new : Anchor) (same : ℕ) (db : Db)
        → P db
        → StepKeeps (advance sink job target backstop r p b fetched new same db)
    unfolding advance
    advance-keeps r p b fetched new same db h = finish-keeps r _ b.more_remain _ _ (
        written-keeps r.progress_written _ db
          (progress-keeps job.chat_jid new b.more_remain _ fetched r.ts db h) h)

    check-keeps :
        (r : Round) (p : Pager) (b : HistoryBatch) (fetched : ℕ) (new : Anchor) (db : Db)
        → P db
        → StepKeeps (check_anchor sink job target backstop r p b fetched new db)
    unfolding check_anchor
    check-keeps r p b fetched new db h =
        elim (Bool-cases (str_eq new.oldest_msg_id p.last_anchor_id)) [
          | inr moved ↦ rw (moved, check_anchor) (advance-keeps r p b fetched new 0 db h)
          | inl still ↦ elim (Bool-cases (leb stuck_k (p.consecutive_same_anchor + 1))) [
            | inl stuck ↦ rw (still, stuck, check_anchor) h
            | inr free ↦ rw (still, free, check_anchor) (advance-keeps r p b fetched new _ db h)
          ]
        ]

    count-keeps :
        (r : Round) (p : Pager) (b : HistoryBatch) (db : Db)
        → P db
        → StepKeeps (count_batch sink job target backstop r p b db)
    unfolding count_batch
    count-keeps r p b db h = elim (Option-cases (oldest_anchor b)) [
      | inl e ↦
          rw (e, count_batch)
            (written-keeps r.cursor_written _ db
              (put_cursor-keeps job.chat_jid p.anchor false true (some r.now) db h) h)
      | inr (new, e) ↦ rw (e, count_batch) (check-keeps r p b _ new db h)
    ]

    persisted-keeps :
        (r : Round) (p : Pager) (b : HistoryBatch) (result : Db × Option String)
        → P result.0
        → StepKeeps (persisted sink job target backstop r p b result)
    unfolding persisted
    persisted-keeps r p b (db, none) h = count-keeps r p b db h
    persisted-keeps r p b (db, some e) h = h

    answered-keeps :
        (r : Round) (p : Pager) (f : Fetch) (db : Db)
        → P db
        → StepKeeps (answered sink job target backstop r p f db)
    unfolding answered
    answered-keeps r p (batch b) db h =
        persisted-keeps r p b (sink job.chat_jid b db) (sink_keeps job.chat_jid b db h)
    answered-keeps r p (error e) db h = elim (Bool-cases (not r.ready_after)) [
      | inl c ↦ rw (c, answered) h
      | inr c ↦ rw (c, answered) h
    ]

    round-keeps :
        (r : Round) (p : Pager) (db : Db) → P db → StepKeeps (round sink job target backstop r p db)
    unfolding round
    round-keeps r p db h = elim (Bool-cases r.cancelled) [
      | inl c ↦
          rw (c, round)
            (written-keeps r.cursor_written _ db
              (put_cursor-keeps job.chat_jid p.anchor true false none db h) h)
      | inr c ↦ elim (Bool-cases (not r.ready)) [
        | inl w ↦ rw (c, w, round) h
        | inr w ↦ rw (c, w, round) (answered-keeps r p r.fetch db h)
      ]
    ]

    run_rounds-keeps :
        (rs : List Round) (p : Pager) (db : Db)
        → P db
        → P (run_rounds sink job target backstop rs p db).db
    unfolding run_rounds
    run_rounds-keeps [] p db h = h
    run_rounds-keeps (r ∷ rs) p db h = elim (Step-cases (round sink job target backstop r p db)) [
      | inl (e, db', evs, came) ↦
          let after : P db' = rw came at (round-keeps r p db h) in rw (came, run_rounds) after
      | inr (p', db', evs, came) ↦
          let after : P db' = rw came at (round-keeps r p db h) in
          rw (came, run_rounds) (run_rounds-keeps rs p' db' after)
    ]

    start_at-keeps :
        (rs : List Round) (found : AnchorResolution) (db : Db)
        → P db
        → P (start_at sink job target backstop rs found db).db
    unfolding start_at
    start_at-keeps rs (AnchorResolution.cursor a) db h =
        run_rounds-keeps rs (first_pager job a) db h
    start_at-keeps rs (AnchorResolution.oldest_stored a) db h =
        run_rounds-keeps rs (first_pager job a) db h
    start_at-keeps rs AnchorResolution.no_anchor db h = h

    with_target-keeps :
        (reads : Reads) (rs : List Round) (db : Db)
        → P db
        → P (with_target sink job target backstop reads rs db).db
    unfolding with_target
    with_target-keeps reads rs db h =
        let c = get_backfill_cursor job.chat_jid db in
        let found = resolve_anchor job.chat_jid c db in
        elim (Bool-cases (not reads.cursor_read)) [
          | inl e ↦ rw (e, with_target) h
          | inr e ↦ elim (Bool-cases (is_exhausted c)) [
            | inl x ↦ rw (e, x, with_target) h
            | inr x ↦ elim (Bool-cases (not (resolved reads found))) [
              | inl u ↦ rw (e, x, u, with_target) h
              | inr u ↦ rw (e, x, u, with_target) (start_at-keeps rs found db h)
            ]
          ]
        ]

  pub process_job-keeps :
      (batch_size : ℤ) (backstop : ℕ) (reads : Reads) (rounds : List Round) (db : Db)
      → P db
      → P (process_job sink job batch_size backstop reads rounds db).db
  unfolding process_job
  process_job-keeps batch_size backstop reads rounds db h =
      elim (Bool-cases (leb_ℤ batch_size (pos 0))) [
        | inl bad ↦ rw (bad, process_job) h
        | inr good ↦ elim (Parsed-cases (Target.parse job.target_kind job.target_value)) [
          | inl (e, known) ↦ rw (good, known, process_job) h
          | inr (target, known) ↦
              rw (good, known, process_job) (with_target-keeps target backstop reads rounds db h)
        ]
      ]
