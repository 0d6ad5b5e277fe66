-- ===== src/Backfill/Process/Steps.antt =====
-- One round of the loop, taken apart: what it means that the loop goes on (src/backfill.rs).
use whatsrust.Prelude.{
  ℕ, ◌+◌, ◌≤◌, ◌≡◌, ◌⊎◌, refl, String, Bool, Option, none, some, List, [], ◌∷◌, arith, length, leb,
  str_eq, inl, inr, Bool-cases, Option-cases,
}
use whatsrust.Store.Db.{Db, BackfillJobRow}
use whatsrust.Backfill.Target.{FetchTarget, BackfillStep, evaluate_target}
use whatsrust.Backfill.History.{HistoryBatch, WebMessageInfo}
use whatsrust.Backfill.Anchor.{Anchor, oldest_anchor, oldest_of}
use whatsrust.Backfill.Process.{
  Round, Pager, Progress, Step, stop, next, Fetch, batch, error, JobEnd, add_fetched, stuck_k,
  finish_round, advance, check_anchor, count_batch, persisted, answered, round,
}

-- A batch from which an anchor comes has a message.
pub oldest_anchor-length :
    (b : HistoryBatch) {a : Anchor} → oldest_anchor b ≡ some a → 1 ≤ length b.messages
unfolding oldest_anchor
oldest_anchor-length b {a} h = go b.messages h
  where
    go : (ms : List WebMessageInfo) → oldest_of none ms ≡ some a → 1 ≤ length ms
    go [] e = absurd (cc)
    go (m ∷ ms) e = omega arith

module _ (sink : String → HistoryBatch → Db → Db × Option String) (job : BackfillJobRow)
    (target : FetchTarget) (backstop : ℕ) where
  -- The loop goes on with `p'`: a batch came, from which the new anchor is taken; its messages are
  -- counted; and neither the target nor the backstop is reached.
  pub record Continues (r : Round) (p p' : Pager) : Type 0 where
    pub page : HistoryBatch
    pub came : r.fetch ≡ batch page
    pub anchored : oldest_anchor page ≡ some p'.anchor
    pub counted : p'.fetched ≡ add_fetched p.fetched (length page.messages)
    pub unmet :
        evaluate_target target p'.fetched
          (some p'.anchor.oldest_msg_timestamp_ms)
          page.more_remain
          backstop
        ≡ BackfillStep.continue

  finish-next :
      (r : Round) (p : Pager) (more : Bool) (db : Db) (evs : List Progress) {p' : Pager} {db' : Db}
      {evs' : List Progress}
      → finish_round sink job target backstop r p more db evs ≡ next p' db' evs'
      → (p ≡ p')
        × (evaluate_target target p.fetched (some p.anchor.oldest_msg_timestamp_ms) more backstop
            ≡ BackfillStep.continue)
  unfolding finish_round
  finish-next r p more db evs h = (ground arith, ground arith)

  advance-next :
      (r : Round) (p : Pager) (b : HistoryBatch) (fetched : ℕ) (new : Anchor) (same : ℕ) (db : Db)
      {p' : Pager} {db' : Db} {evs' : List Progress}
      → r.fetch ≡ batch b
      → oldest_anchor b ≡ some new
      → fetched ≡ add_fetched p.fetched (length b.messages)
      → advance sink job target backstop r p b fetched new same db ≡ next p' db' evs'
      → Continues r p p'
  unfolding advance
  advance-next r p b fetched new same db {p'} came anchored counted h =
      let (e, u) = finish-next r _ b.more_remain _ _ h in
      rw (← e) (record { page = b; came = came; anchored = anchored; counted = counted; unmet = u })

  check-next :
      (r : Round) (p : Pager) (b : HistoryBatch) (new : Anchor) (db : Db) {p' : Pager} {db' : Db}
      {evs' : List Progress}
      → r.fetch ≡ batch b
      → oldest_anchor b ≡ some new
      → check_anchor sink job target backstop r p b
          (add_fetched p.fetched (length b.messages))
          new
          db
        ≡ next p' db' evs'
      → Continues r p p'
  unfolding check_anchor
  check-next r p b new db came anchored h =
      elim (Bool-cases (str_eq new.oldest_msg_id p.last_anchor_id)) [
        | inr moved ↦
            advance-next r p b _ new 0 db came anchored refl (rw (moved, check_anchor) at h)
        | inl still ↦ elim (Bool-cases (leb stuck_k (p.consecutive_same_anchor + 1))) [
          | inl stuck ↦ absurd (ground (arith, still, stuck))
          | inr free ↦
              advance-next r p b _ new (p.consecutive_same_anchor + 1) db came anchored refl
                (rw (still, free, check_anchor) at h)
        ]
      ]

  count-next :
      (r : Round) (p : Pager) (b : HistoryBatch) (db : Db) {p' : Pager} {db' : Db}
      {evs' : List Progress}
      → r.fetch ≡ batch b
      → count_batch sink job target backstop r p b db ≡ next p' db' evs'
      → Continues r p p'
  unfolding count_batch
  count-next r p b db came h = elim (Option-cases (oldest_anchor b)) [
    | inl e ↦ absurd (ground (arith, e))
    | inr (new, e) ↦ check-next r p b new db came e (rw (e, count_batch) at h)
  ]

  persisted-next :
      (r : Round) (p : Pager) (b : HistoryBatch) (result : Db × Option String) {p' : Pager}
      {db' : Db} {evs' : List Progress}
      → r.fetch ≡ batch b
      → persisted sink job target backstop r p b result ≡ next p' db' evs'
      → Continues r p p'
  unfolding persisted
  persisted-next r p b (db, none) came h = count-next r p b db came h
  persisted-next r p b (db, some e) came h = absurd (cc)

  answered-next :
      (r : Round) (p : Pager) (f : Fetch) (db : Db) {p' : Pager} {db' : Db} {evs' : List Progress}
      → r.fetch ≡ f
      → answered sink job target backstop r p f db ≡ next p' db' evs'
      → Continues r p p'
  unfolding answered
  answered-next r p (error e) db came h = absurd (ground arith)
  answered-next r p (batch b) db came h = persisted-next r p b (sink job.chat_jid b db) came h

  pub round-next :
      (r : Round) (p : Pager) (db : Db) {p' : Pager} {db' : Db} {evs' : List Progress}
      → round sink job target backstop r p db ≡ next p' db' evs'
      → Continues r p p'
  unfolding round
  round-next r p db h = elim (Bool-cases r.cancelled) [
    | inl e ↦ absurd (ground (arith, e))
    | inr e ↦ elim (Bool-cases r.ready) [
      | inr e' ↦ absurd (ground (arith, e, e'))
      | inl e' ↦ answered-next r p r.fetch db refl (rw (e, e', round) at h)
    ]
  ]

pub Step-cases :
    (s : Step)
    → ((e : JobEnd) × (db : Db) × (evs : List Progress) × (s ≡ stop e db evs))
      ⊎ ((p : Pager) × (db : Db) × (evs : List Progress) × (s ≡ next p db evs))
Step-cases (stop e db evs) = inl (e, db, evs, refl)
Step-cases (next p db evs) = inr (p, db, evs, refl)
