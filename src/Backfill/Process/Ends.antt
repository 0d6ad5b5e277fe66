-- ===== src/Backfill/Process/Ends.antt =====
-- The ends of `process_job` of src/backfill.rs.
use whatsrust.Prelude.{
  ℕ, ◌+◌, ◌^◌, ◌≤◌, ◌<◌, ◌≡◌, ◌≢◌, refl, String, Bool, true, false, not, Option, none, List, [],
  ◌∷◌, arith, length, inl, inr, Bool-cases,
}
use whatsrust.Prelude.Int.{ℤ, pos, leb_ℤ, ◌<ℤ◌}
use whatsrust.Prelude.Table.{All}
use whatsrust.Store.Db.{Db, BackfillJobRow}
use whatsrust.Store.Cursors.{get_backfill_cursor}
use whatsrust.Backfill.Target
use whatsrust.Backfill.Target.{
  FetchTarget, since, all, count, Parsed, BackfillStep, evaluate_target, IsOpenEnded,
}
use whatsrust.Backfill.History.{HistoryBatch}
use whatsrust.Store.Messages.{get_oldest_message}
use whatsrust.Backfill.Anchor.{AnchorResolution, usable_cursor, resolve_anchor}
use whatsrust.Backfill.Process.{
  Round, Pager, Reads, batch, failed, no_anchor, is_exhausted, resolved, first_pager, ends_at,
  round, run_rounds, start_at, with_target, process_job,
}
use whatsrust.Backfill.Process.Steps.{Continues, round-next, Step-cases, oldest_anchor-length}

-- How many messages bound the job: the target of a count job, the backstop of any other.
abbrev pub IsLimit : FetchTarget → ℕ → ℕ → Type 0
IsLimit (count m) backstop n = n ≡ m
IsLimit _ backstop n = (0 < backstop) × (n ≡ backstop)

-- No page has so many messages that its length does not fit u32.
abbrev pub FitsU32 : Round → Type 0
FitsU32 r = (b : HistoryBatch) → r.fetch ≡ batch b → length b.messages < 2 ^ 32

continue-lt :
    (t : FetchTarget) (fetched : ℕ) (oldest : Option ℤ) (more : Bool) (backstop n : ℕ)
    → IsLimit t backstop n
    → evaluate_target t fetched oldest more backstop ≡ BackfillStep.continue
    → fetched < n
unfolding evaluate_target
continue-lt (since ts) fetched oldest more backstop n l h = ground arith
continue-lt all fetched oldest more backstop n l h = ground arith
continue-lt (count m) fetched oldest more backstop n l h = ground arith

module _ (sink : String → HistoryBatch → Db → Db × Option String) (job : BackfillJobRow)
    (target : FetchTarget) (backstop n : ℕ) (limit : IsLimit target backstop n)
    (small : n < 2 ^ 32) where
  grows :
      (r : Round) (p : Pager) {p' : Pager}
      → FitsU32 r
      → Continues sink job target backstop r p p'
      → (p.fetched < p'.fetched) × (p'.fetched < n)
  grows r p {p'} fits c =
      let below = continue-lt target p'.fetched _ _ backstop n limit c.unmet in
      let page = oldest_anchor-length c.page c.anchored in
      let size = fits c.page c.came in (omega (arith, c.counted), below)

  run_rounds_ends :
      (rs : List Round) (p : Pager) (db : Db)
      → All FitsU32 rs
      → 1 ≤ length rs
      → n ≤ p.fetched + length rs
      → (run_rounds sink job target backstop rs p db).end ≢ none
  unfolding run_rounds
  run_rounds_ends [] p db fits some_round enough = absurd (omega arith)
  run_rounds_ends (r ∷ rs) p db fits some_round enough =
      elim (Step-cases (round sink job target backstop r p db)) [
        | inl (e, db', evs, h) ↦ rw (h, run_rounds) (λ q. cc)
        | inr (p', db', evs, h) ↦
            let (up, below) = grows r p fits.0 (round-next sink job target backstop r p db h) in
            rw (h, run_rounds) (run_rounds_ends rs p' db' fits.1 (omega arith) (omega arith))
      ]

-- A job that is bounded, by its count or by a positive backstop, ends: given as many rounds as the
-- bound, and at least one, and pages whose length fits u32, it reaches an end, whatever the source,
-- the sink, the connection and the cancel token answer.
pub process_job_ends :
    (sink : String → HistoryBatch → Db → Db × Option String) (job : BackfillJobRow)
    (target : FetchTarget) (batch_size : ℤ) (backstop n : ℕ) (reads : Reads) (rounds : List Round)
    (db : Db)
    → Target.parse job.target_kind job.target_value ≡ Parsed.ok target
    → IsLimit target backstop n
    → n < 2 ^ 32
    → All FitsU32 rounds
    → 1 ≤ length rounds
    → n ≤ length rounds
    → (process_job sink job batch_size backstop reads rounds db).end ≢ none
unfolding process_job
process_job_ends sink job target batch_size backstop n reads rounds db known limit small fits one
      enough =
    elim (Bool-cases (leb_ℤ batch_size (pos 0))) [
      | inl bad ↦ rw (bad, process_job) (λ q. cc)
      | inr good ↦ rw (good, known, process_job) with_target_ends
    ]
  where
    start_at_ends :
        (found : AnchorResolution) → (start_at sink job target backstop rounds found db).end ≢ none
    start_at_ends (AnchorResolution.cursor a) =
        run_rounds_ends sink job target backstop n limit small rounds (first_pager job a) db fits
          one (omega arith)
    start_at_ends (AnchorResolution.oldest_stored a) =
        run_rounds_ends sink job target backstop n limit small rounds (first_pager job a) db fits
          one (omega arith)
    start_at_ends AnchorResolution.no_anchor = λ q. cc

    with_target_ends : (with_target sink job target backstop reads rounds db).end ≢ none
    with_target_ends =
        let c = get_backfill_cursor job.chat_jid db in
        let found = resolve_anchor job.chat_jid c db in
        elim (Bool-cases (not reads.cursor_read)) [
          | inl e ↦ rw (e, with_target) (λ q. cc)
          | inr e ↦ elim (Bool-cases (is_exhausted c)) [
            | inl e' ↦ rw (e, e', with_target) (λ q. cc)
            | inr e' ↦ elim (Bool-cases (not (resolved reads found))) [
              | inl u ↦ rw (e, e', u, with_target) (λ q. cc)
              | inr u ↦ rw (e, e', u, with_target) (start_at_ends found)
            ]
          ]
        ]

-- A chat with no usable cursor anchor and no stored message: a valid job that reads both fails at
-- once, with no page asked for, no event and no table changed.
pub process_job-no_anchor :
    (sink : String → HistoryBatch → Db → Db × Option String) (job : BackfillJobRow)
    (target : FetchTarget) (batch_size : ℤ) (backstop : ℕ) (reads : Reads) (rounds : List Round)
    (db : Db)
    → pos 0 <ℤ batch_size
    → Target.parse job.target_kind job.target_value ≡ Parsed.ok target
    → reads.cursor_read ≡ true
    → reads.oldest_read ≡ true
    → is_exhausted (get_backfill_cursor job.chat_jid db) ≡ false
    → usable_cursor (get_backfill_cursor job.chat_jid db) ≡ none
    → get_oldest_message job.chat_jid db ≡ none
    → process_job sink job batch_size backstop reads rounds db ≡ ends_at (failed no_anchor) db
unfolding process_job resolve_anchor
process_job-no_anchor sink job target batch_size backstop reads rounds db positive known cr or more
      unusable empty =
    let good : leb_ℤ batch_size (pos 0) ≡ false = ground arith in
    rw
      (
        good, known, process_job, with_target, start_at, resolve_anchor, cr, more, unusable, empty,
        or,
      )
      refl
