-- ===== src/Backfill/Process/Cooldown.antt =====
-- The stamp that a finished job leaves, and what the next trigger of the chat makes of it
-- (src/backfill.rs, and `enqueue_backfill_job` of src/storage.rs).
use whatsrust.Prelude.{
  ℕ, ◌≡◌, ◌≢◌, ◌⊎◌, refl, String, Bool, true, false, not, Option, some, List, [], ◌∷◌, arith,
  eq_iff, inl, inr, Bool-cases,
}
use whatsrust.Prelude.Int.{ℤ, pos, leb_ℤ, ◌≤ℤ◌, ◌<ℤ◌, ◌-ℤ◌, int_laws}
use whatsrust.Prelude.Table.{All}
use whatsrust.Store.Db.{Db, BackfillJobRow, BackfillCursorRow}
use whatsrust.Store.Cursors.{get_backfill_cursor, upsert_backfill_cursor, first_where-upsert}
use whatsrust.Store.Jobs.{last_backfill_at, enqueue_backfill_job, accepted}
use whatsrust.Store.Jobs.Enqueue.{enqueue_accepted}
use whatsrust.Backfill.Target
use whatsrust.Backfill.Target.{FetchTarget, Parsed, ParseError}
use whatsrust.Backfill.History.{HistoryBatch}
use whatsrust.Backfill.Anchor.{Anchor, AnchorResolution, resolve_anchor}
use whatsrust.Backfill.Process.{
  Reason, Round, Pager, Reads, JobEnd, done, failed, is_exhausted, resolved, first_pager,
  put_cursor, run_rounds, start_at, with_target, process_job,
}
use whatsrust.Backfill.Process.Stamp.{LeftBy, run_rounds-Left}

-- The chat's last backfill was at `t0` or later.
abbrev pub IsStamped : ℤ → String → Db → Type 0
IsStamped t0 chat db = (t : ℤ) × (last_backfill_at chat db ≡ some t) × (t0 ≤ℤ t)

-- A round whose cursor write succeeds, at `t0` or later.
abbrev pub Stamps : ℤ → Round → Type 0
Stamps t0 r = (r.cursor_written ≡ true) × (t0 ≤ℤ r.now)

abbrev frontier : String → Anchor → Bool → Bool → ℤ → BackfillCursorRow
frontier chat a more exhausted t = record {
  chat_jid = chat;
  oldest_msg_id = some a.oldest_msg_id;
  oldest_msg_from_me = some a.oldest_msg_from_me;
  oldest_msg_timestamp_ms = some a.oldest_msg_timestamp_ms;
  more_remain = more;
  exhausted = exhausted;
  last_backfill_at = some t;
}

last_backfill_at-put_cursor :
    (chat : String) (a : Anchor) (more exhausted : Bool) (t : ℤ) (db : Db)
    → last_backfill_at chat (put_cursor chat a more exhausted (some t) db) ≡ some t
unfolding last_backfill_at get_backfill_cursor upsert_backfill_cursor
last_backfill_at-put_cursor chat a more exhausted t db =
    ground (
      arith,
      first_where-upsert (frontier chat a more exhausted t) chat db.cursors,
      eq_iff chat chat,
    )

module _ (sink : String → HistoryBatch → Db → Db × Option String) (job : BackfillJobRow)
    (target : FetchTarget) (backstop : ℕ) (t0 : ℤ) where
  LeftBy-IsStamped :
      (rs : List Round) (db : Db)
      → All (Stamps t0) rs
      → LeftBy sink job target backstop rs (some done) db
      → IsStamped t0 job.chat_jid db
  LeftBy-IsStamped [] db fine h = absurd h
  LeftBy-IsStamped (r ∷ rs) db fine (inr h) = LeftBy-IsStamped rs db fine.1 h
  LeftBy-IsStamped (r ∷ rs) db fine (inl (a, more, exhausted, before, h)) =
      let same : db ≡ put_cursor job.chat_jid a more exhausted (some r.now) before =
        rw fine.0.0 at h in
      (
        r.now,
        rw same (last_backfill_at-put_cursor job.chat_jid a more exhausted r.now before),
        fine.0.1,
      )

  run_rounds-IsStamped :
      (rs : List Round) (p : Pager) (db : Db)
      → All (Stamps t0) rs
      → (run_rounds sink job target backstop rs p db).end ≡ some done
      → IsStamped t0 job.chat_jid (run_rounds sink job target backstop rs p db).db
  run_rounds-IsStamped rs p db fine h =
      LeftBy-IsStamped rs _ fine (rw h at (run_rounds-Left sink job target backstop rs p db))

  start_at-IsStamped :
      (rs : List Round) (found : AnchorResolution) (db : Db)
      → All (Stamps t0) rs
      → (start_at sink job target backstop rs found db).end ≡ some done
      → IsStamped t0 job.chat_jid (start_at sink job target backstop rs found db).db
  unfolding start_at
  start_at-IsStamped rs (AnchorResolution.cursor a) db fine h =
      run_rounds-IsStamped rs (first_pager job a) db fine h
  start_at-IsStamped rs (AnchorResolution.oldest_stored a) db fine h =
      run_rounds-IsStamped rs (first_pager job a) db fine h
  start_at-IsStamped rs AnchorResolution.no_anchor db fine h = absurd (cc)

  with_target-IsStamped :
      (reads : Reads) (rs : List Round) (db : Db)
      → All (Stamps t0) rs
      → is_exhausted (get_backfill_cursor job.chat_jid db) ≡ false
      → (with_target sink job target backstop reads rs db).end ≡ some done
      → IsStamped t0 job.chat_jid (with_target sink job target backstop reads rs db).db
  unfolding with_target
  with_target-IsStamped reads rs db fine more h =
      let found = resolve_anchor job.chat_jid (get_backfill_cursor job.chat_jid db) db in
      elim (Bool-cases (not reads.cursor_read)) [
        | inl e ↦
            absurd (let g : some JobEnd.storage_error ≡ some done = rw (e, with_target) at h in cc)
        | inr e ↦ elim (Bool-cases (not (resolved reads found))) [
          | inl u ↦ absurd (
              let g : some JobEnd.storage_error ≡ some done = rw (e, more, u, with_target) at h in
              cc)
          | inr u ↦
              rw (e, more, u, with_target)
                (start_at-IsStamped rs found db fine (rw (e, more, u, with_target) at h))
        ]
      ]

pub Parsed-cases :
    (r : Parsed) → ((e : ParseError) × (r ≡ Parsed.err e)) ⊎ ((t : FetchTarget) × (r ≡ Parsed.ok t))
Parsed-cases (Parsed.err e) = inl (e, refl)
Parsed-cases (Parsed.ok t) = inr (t, refl)

-- A job that is done in its loop stamps its chat, when the write of the cursor succeeds: at every
-- time less than a positive cooldown after `t0`, where no round ended before `t0`, a new trigger
-- of the chat is not accepted, whatever else it asks for.
pub process_job_cools :
    (sink : String → HistoryBatch → Db → Db × Option String) (job : BackfillJobRow) (batch_size : ℤ)
    (backstop : ℕ) (reads : Reads) (rounds : List Round) (db : Db)
    (t0 ts cooldown_secs limit max_messages : ℤ) (kind : String) (value : Option ℤ)
    (model_id : Option String)
    → (process_job sink job batch_size backstop reads rounds db).end ≡ some done
    → is_exhausted (get_backfill_cursor job.chat_jid db) ≡ false
    → All (Stamps t0) rounds
    → pos 0 <ℤ cooldown_secs
    → ts -ℤ t0 <ℤ cooldown_secs
    → (id : ℕ) (clamped : Option ℤ)
    → (enqueue_backfill_job job.chat_jid kind value cooldown_secs limit max_messages model_id ts
        (process_job sink job batch_size backstop reads rounds db).db).1
      ≢ some (accepted id clamped)
unfolding process_job
process_job_cools sink job batch_size backstop reads rounds db t0 ts cooldown_secs limit
      max_messages kind value model_id ended more fine positive soon id clamped taken =
    let (t, stamp, late) = stamped in
    let cooled : cooldown_secs ≤ℤ ts -ℤ t =
      (enqueue_accepted job.chat_jid kind value cooldown_secs limit max_messages model_id ts _ id
          clamped taken).cooled
        t stamp positive in
    absurd (omega (arith, cooled, late, soon, int_laws))
  where
    stamped :
        IsStamped t0 job.chat_jid (process_job sink job batch_size backstop reads rounds db).db
    stamped = elim (Bool-cases (leb_ℤ batch_size (pos 0))) [
      | inl bad ↦ absurd (
          let g : some (failed (Reason.invalid_batch_size batch_size)) ≡ some done =
            rw (bad, process_job) at ended in
          cc)
      | inr good ↦ elim (Parsed-cases (Target.parse job.target_kind job.target_value)) [
        | inl (e, h) ↦ absurd (
            let g : some (failed (Reason.bad_target e)) ≡ some done =
              rw (good, h, process_job) at ended in
            cc)
        | inr (target, h) ↦
            rw (good, h, process_job)
              (with_target-IsStamped sink job target backstop t0 reads rounds db fine more
                (rw (good, h, process_job) at ended))
      ]
    ]
