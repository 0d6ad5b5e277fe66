-- ===== src/Backfill/Process/Stamp.antt =====
-- What the two ends `done` and `parked` leave behind (src/backfill.rs).
use whatsrust.Prelude.{
  ℕ, ◌+◌, ◌<◌, ◌≡◌, ◌⊎◌, refl, String, Bool, true, false, not, Option, none, some, List, [], ◌∷◌,
  arith, leb, str_eq, inl, inr, Bool-cases, Option-cases,
}
use whatsrust.Store.Db.{Db, BackfillJobRow}
use whatsrust.Backfill.Target.{
  FetchTarget, BackfillStep, evaluate_target, IsOpenEnded, evaluate_target-parked_iff,
}
use whatsrust.Backfill.History.{HistoryBatch}
use whatsrust.Backfill.Anchor.{Anchor, oldest_anchor}
use whatsrust.Backfill.Process.{
  Round, Pager, Progress, Step, stop, next, Fetch, batch, error, JobEnd, done, parked, stuck_k,
  written, put_cursor, finish_round, check_anchor, count_batch, persisted, answered, round,
  run_rounds,
}
use whatsrust.Backfill.Process.Steps.{Step-cases}

pub BackfillStep-cases :
    (s : BackfillStep)
    → (s ≡ BackfillStep.done) ⊎ (s ≡ BackfillStep.parked) ⊎ (s ≡ BackfillStep.continue)
BackfillStep-cases s = ground arith

module _ (sink : String → HistoryBatch → Db → Db × Option String) (job : BackfillJobRow)
    (target : FetchTarget) (backstop : ℕ) where
  -- A job that is done has tried to write its cursor with the time of the end; a parked one has an
  -- open-ended target and a positive backstop.
  abbrev pub Left : Round → JobEnd → Db → Type 0
  Left r done db' =
      (a : Anchor) × (more exhausted : Bool) × (db : Db) × (db'
        ≡ written r.cursor_written (put_cursor job.chat_jid a more exhausted (some r.now) db) db)
  Left r parked db' = IsOpenEnded target × (0 < backstop)
  Left r _ db' = Unit

  abbrev StepLeft : Round → Step → Type 0
  StepLeft r (stop e db evs) = Left r e db
  StepLeft r (next p db evs) = Unit

  finish-Left :
      (r : Round) (p : Pager) (more : Bool) (db : Db) (evs : List Progress)
      → StepLeft r (finish_round sink job target backstop r p more db evs)
  unfolding finish_round
  finish-Left r p more db evs =
      let oldest = some p.anchor.oldest_msg_timestamp_ms in
      elim (BackfillStep-cases (evaluate_target target p.fetched oldest more backstop)) [
        | inl e ↦ rw (e, finish_round) (p.anchor, more, not more, db, refl)
        | inr (inl e) ↦
            let why = (evaluate_target-parked_iff target p.fetched oldest more backstop).0 e in
            rw (e, finish_round) (why.0, why.2)
        | inr (inr e) ↦ elim (Bool-cases r.cancelled_after) [
          | inl c ↦ rw (e, c, finish_round) tt
          | inr c ↦ rw (e, c, finish_round) tt
        ]
      ]

  check-Left :
      (r : Round) (p : Pager) (b : HistoryBatch) (fetched : ℕ) (new : Anchor) (db : Db)
      → StepLeft r (check_anchor sink job target backstop r p b fetched new db)
  unfolding check_anchor
  check-Left r p b fetched new db = elim (Bool-cases (str_eq new.oldest_msg_id p.last_anchor_id)) [
    | inr moved ↦ rw (moved, check_anchor) (finish-Left r _ b.more_remain _ _)
    | inl still ↦ elim (Bool-cases (leb stuck_k (p.consecutive_same_anchor + 1))) [
      | inl stuck ↦ rw (still, stuck, check_anchor) tt
      | inr free ↦ rw (still, free, check_anchor) (finish-Left r _ b.more_remain _ _)
    ]
  ]

  count-Left :
      (r : Round) (p : Pager) (b : HistoryBatch) (db : Db)
      → StepLeft r (count_batch sink job target backstop r p b db)
  unfolding count_batch
  count-Left r p b db = elim (Option-cases (oldest_anchor b)) [
    | inl e ↦ rw (e, count_batch) (p.anchor, false, true, db, refl)
    | inr (new, e) ↦ rw (e, count_batch) (check-Left r p b _ new db)
  ]

  persisted-Left :
      (r : Round) (p : Pager) (b : HistoryBatch) (result : Db × Option String)
      → StepLeft r (persisted sink job target backstop r p b result)
  unfolding persisted
  persisted-Left r p b (db, none) = count-Left r p b db
  persisted-Left r p b (db, some e) = tt

  answered-Left :
      (r : Round) (p : Pager) (f : Fetch) (db : Db)
      → StepLeft r (answered sink job target backstop r p f db)
  unfolding answered
  answered-Left r p (batch b) db = persisted-Left r p b (sink job.chat_jid b db)
  answered-Left r p (error e) db = elim (Bool-cases (not r.ready_after)) [
    | inl c ↦ rw (c, answered) tt
    | inr c ↦ rw (c, answered) tt
  ]

  round-Left :
      (r : Round) (p : Pager) (db : Db) → StepLeft r (round sink job target backstop r p db)
  unfolding round
  round-Left r p db = elim (Bool-cases r.cancelled) [
    | inl c ↦ rw (c, round) tt
    | inr c ↦ elim (Bool-cases (not r.ready)) [
      | inl w ↦ rw (c, w, round) tt
      | inr w ↦ rw (c, w, round) (answered-Left r p r.fetch db)
    ]
  ]

  -- The round in which the job ended.
  abbrev pub LeftBy : List Round → Option JobEnd → Db → Type 0
  LeftBy rs none db = Unit
  LeftBy [] (some e) db = ⊥
  LeftBy (r ∷ rs) (some e) db = Left r e db ⊎ LeftBy rs (some e) db

  ended-Left :
      (r : Round) (p : Pager) (db : Db) {e : JobEnd} {db' : Db} {evs : List Progress}
      → round sink job target backstop r p db ≡ stop e db' evs
      → Left r e db'
  ended-Left r p db h = rw h at (round-Left r p db)

  LeftBy-later :
      (r : Round) (rs : List Round) (o : Option JobEnd) (db : Db)
      → LeftBy rs o db
      → LeftBy (r ∷ rs) o db
  LeftBy-later r rs none db h = tt
  LeftBy-later r rs (some e) db h = inr h

  pub run_rounds-Left :
      (rs : List Round) (p : Pager) (db : Db)
      → LeftBy rs
          (run_rounds sink job target backstop rs p db).end
          (run_rounds sink job target backstop rs p db).db
  unfolding run_rounds
  run_rounds-Left [] p db = tt
  run_rounds-Left (r ∷ rs) p db = elim (Step-cases (round sink job target backstop r p db)) [
    | inl (e, db', evs, h) ↦ rw (h, run_rounds) (inl (ended-Left r p db h))
    | inr (p', db', evs, h) ↦ rw (h, run_rounds) (LeftBy-later r rs _ _ (run_rounds-Left rs p' db'))
  ]
