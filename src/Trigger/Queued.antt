-- ===== src/Trigger/Queued.antt =====
-- How a call of the history-fetch endpoint ends.
use mathlib.Core.Path.{subst}
use whatsrust.Prelude.{
  ℕ, suc, String, ◌≡◌, ◌≢◌, ◌⊎◌, refl, sym, ap, ◌∙◌, Bool, true, false, Option, none, some, [], ◌∷◌,
  ◌++◌, arith, inl, inr, Option-cases, if_either,
}
use whatsrust.Prelude.Int.{ℤ}
use whatsrust.Store.Db.{Db, BackfillCursorRow}
use whatsrust.Store.Cursors.{get_backfill_cursor, upsert_backfill_cursor}
use whatsrust.Store.Messages.{OldestMessageRow, get_oldest_message}
use whatsrust.Store.Jobs.{
  EnqueueOutcome, accepted, already_active, cooldown, queue_full, embedder_backlog_full,
  enqueue_backfill_job, new_job, insert_job, effective_target, active_job,
}
use whatsrust.Store.Jobs.Enqueue.{Accepted, enqueue_accepted, enqueue_refused}
use whatsrust.Backfill.Anchor.{
  Anchor, AnchorResolution, cursor, oldest_stored, no_anchor, resolve_anchor,
}
use whatsrust.Trigger.{
  HistoryFetchReq, queued_reply, Env, Result, finish, enqueue_fetch, seed, with_anchor, fetch_chat,
  fetch_valid, fetch_given, is_exhausted, more_remain, enqueue_outcome_to_response, given, or_else,
  handle_history_fetch_trigger, validate_fetch_mode,
}

-- There is a message of the chat to page back from.
abbrev pub HasAnchor : String → Db → Type 0
HasAnchor chat db = resolve_anchor chat (get_backfill_cursor chat db) db ≢ no_anchor

-- Nobody is told, and the jobs are as they were.
abbrev pub IsIdle : Db → Result → Type 0
IsIdle db r = (Result.notified r ≡ false) × (Db.jobs (Result.db r) ≡ Db.jobs db)

-- One job of the chat is new, the response names it, the worker is told, and the fetch has a place
-- to start.
pub record IsQueued (env : Env) (chat mode : String) (value : Option ℤ) (db : Db) (r : Result)
    : Type 0 where
  pub told : Result.notified r ≡ true
  pub stored :
      Db.jobs (Result.db r)
      ≡ Db.jobs db
        ++ new_job chat mode
            (effective_target mode value (Env.max_messages env))
            (Env.now_secs env)
            (suc (Db.job_seq db))
          ∷ []
  pub named :
      (anchor : ℤ) × (more : Bool) × (target : Option ℤ) × (Result.reply r
        ≡ queued_reply (suc (Db.job_seq db)) chat mode value anchor more target)
  pub alone : active_job chat db ≡ none
  pub anchored : HasAnchor chat (Result.db r)

HasAnchor-insert_job :
    (chat other mode : String) (value : Option ℤ) (ts : ℤ) (db : Db)
    → HasAnchor chat db
    → HasAnchor chat (insert_job other mode value ts db)
unfolding insert_job get_backfill_cursor resolve_anchor get_oldest_message
HasAnchor-insert_job chat other mode value ts db h = h

module _ (env : Env) (chat mode : String) (value : Option ℤ) (anchor : ℤ) (more : Bool)
    (db : Db) where
  abbrev enq : Db × Option EnqueueOutcome
  enq =
      enqueue_backfill_job chat mode value (Env.cooldown_secs env) (Env.queue_depth env)
        (Env.max_messages env) (Env.active_model_id env) (Env.now_secs env) db

  abbrev Ends : Result → Type 0
  Ends r = IsIdle db r ⊎ IsQueued env chat mode value db r

  idle :
      (o : Option EnqueueOutcome)
      → ((id : ℕ) (target : Option ℤ) → o ≢ some (accepted id target))
      → enq.1 ≡ o
      → Db.jobs enq.0 ≡ Db.jobs db
  idle o other e =
      ap (λ d. Db.jobs d)
        (enqueue_refused chat mode value (Env.cooldown_secs env) (Env.queue_depth env)
          (Env.max_messages env) (Env.active_model_id env) (Env.now_secs env) db
          λ id target h. other id target (sym e ∙ h))

  jobs_stored :
      (ts : ℤ)
      → enq.0 ≡ insert_job chat mode (effective_target mode value (Env.max_messages env)) ts db
      → Db.jobs enq.0
        ≡ Db.jobs db
          ++ new_job chat mode
              (effective_target mode value (Env.max_messages env))
              ts
              (suc (Db.job_seq db))
            ∷ []
  unfolding insert_job
  jobs_stored ts e = ap (λ d. Db.jobs d) e

  finish_lem :
      (o : Option EnqueueOutcome)
      → enq.1 ≡ o
      → HasAnchor chat db
      → Ends (finish enq.0 o chat mode value anchor more)
  unfolding finish enqueue_outcome_to_response
  finish_lem none e h = inl (refl, idle none (λ i t g. absurd (cc)) e)
  finish_lem (some (accepted id target)) e h =
      let a =
        enqueue_accepted chat mode value (Env.cooldown_secs env) (Env.queue_depth env)
          (Env.max_messages env) (Env.active_model_id env) (Env.now_secs env) db id target e in
      inr record {
        told = refl;
        stored = jobs_stored (Env.now_secs env) (Accepted.stored a);
        named = (
          anchor,
          more,
          target,
          ap (λ i. queued_reply i chat mode value anchor more target) (Accepted.fresh a),
        );
        alone = Accepted.no_active a;
        anchored =
            subst (λ d. HasAnchor chat d) (sym (Accepted.stored a))
              (HasAnchor-insert_job chat chat mode _ (Env.now_secs env) db h);
      }
  finish_lem (some (already_active id)) e h = inl (refl, idle _ (λ i t g. absurd (cc)) e)
  finish_lem (some (cooldown left)) e h = inl (refl, idle _ (λ i t g. absurd (cc)) e)
  finish_lem (some (queue_full limit)) e h = inl (refl, idle _ (λ i t g. absurd (cc)) e)
  finish_lem (some (embedder_backlog_full count)) e h = inl (refl, idle _ (λ i t g. absurd (cc)) e)

  enqueue_fetch_lem : HasAnchor chat db → Ends (enqueue_fetch env chat mode value anchor more db)
  unfolding enqueue_fetch
  enqueue_fetch_lem h =
      if_either Ends (Env.enqueue_fails env) (inl (refl, refl)) (finish_lem enq.1 refl h)

HasAnchor-usable :
    (chat : String) (db : Db) (a : Anchor)
    → resolve_anchor chat (get_backfill_cursor chat db) db ≡ cursor a
    → HasAnchor chat db
HasAnchor-usable chat db a h g = absurd (let x : cursor a ≡ no_anchor = sym h ∙ g in cc)

-- A stored message is an anchor, whatever the cursor is.
resolve_anchor-stored :
    (chat : String) (c : Option BackfillCursorRow) (db : Db) (row : OldestMessageRow)
    → get_oldest_message chat db ≡ some row
    → resolve_anchor chat c db ≢ no_anchor
unfolding resolve_anchor
resolve_anchor-stored chat c db row h g = absurd (ground arith)

resolve_anchor-oldest :
    (chat : String) (c : Option BackfillCursorRow) (db : Db) (a : Anchor)
    → resolve_anchor chat c db ≡ oldest_stored a
    → (row : OldestMessageRow) × (get_oldest_message chat db ≡ some row)
unfolding resolve_anchor
resolve_anchor-oldest chat c db a h = elim (Option-cases (get_oldest_message chat db)) [
  | inl empty ↦ absurd (ground arith)
  | inr found ↦ found
]

seed-messages :
    (chat : String) (a : Anchor) (more : Bool) (db : Db)
    → get_oldest_message chat (seed chat a more db) ≡ get_oldest_message chat db
unfolding seed upsert_backfill_cursor get_oldest_message
seed-messages chat a more db = refl

IsQueued-seed :
    (env : Env) (chat mode : String) (value : Option ℤ) (a : Anchor) (more : Bool) (db : Db)
    (r : Result)
    → IsIdle (seed chat a more db) r ⊎ IsQueued env chat mode value (seed chat a more db) r
    → IsIdle db r ⊎ IsQueued env chat mode value db r
unfolding seed upsert_backfill_cursor active_job
IsQueued-seed env chat mode value a more db r (inl h) = inl h
IsQueued-seed env chat mode value a more db r (inr q) = inr record {
  told = IsQueued.told q;
  stored = IsQueued.stored q;
  named = IsQueued.named q;
  alone = IsQueued.alone q;
  anchored = IsQueued.anchored q;
}

module _ (env : Env) (chat mode : String) (value : Option ℤ) (db : Db) where
  abbrev pub EndsFor : Result → Type 0
  EndsFor r = IsIdle db r ⊎ IsQueued env chat mode value db r

  with_anchor_lem :
      (more : Bool) (found : AnchorResolution)
      → resolve_anchor chat (get_backfill_cursor chat db) db ≡ found
      → EndsFor (with_anchor env chat mode value more found db)
  unfolding with_anchor
  with_anchor_lem more no_anchor e = inl (refl, refl)
  with_anchor_lem more (cursor a) e =
      enqueue_fetch_lem env chat mode value (Anchor.oldest_msg_timestamp_ms a) more db
        (HasAnchor-usable chat db a e)
  with_anchor_lem more (oldest_stored a) e =
      let (row, found) = resolve_anchor-oldest chat (get_backfill_cursor chat db) db a e in
      let seeded = seed chat a more db in
      if_either EndsFor (Env.upsert_fails env) (inl (refl, refl)) (
        IsQueued-seed env chat mode value a more db _ (
          enqueue_fetch_lem env chat mode value (Anchor.oldest_msg_timestamp_ms a) more seeded (
            resolve_anchor-stored chat (get_backfill_cursor chat seeded) seeded row
              (seed-messages chat a more db ∙ found))))

  fetch_chat_lem : EndsFor (fetch_chat env chat mode value db)
  unfolding fetch_chat
  fetch_chat_lem =
      let c = get_backfill_cursor chat db in
      if_either EndsFor (Env.cursor_fails env) (inl (refl, refl)) (
        if_either EndsFor (is_exhausted c) (inl (refl, refl)) (
          if_either EndsFor (Env.resolve_fails env) (inl (refl, refl))
            (with_anchor_lem (more_remain c) (resolve_anchor chat c db) refl)))

-- The request names a chat and a mode that is valid with its target, and its job is queued.
abbrev pub IsQueuedFor : Env → HistoryFetchReq → Db → Result → Type 0
IsQueuedFor env req db r =
    (chat : String) × (mode : String) × (given (HistoryFetchReq.req_chat_jid req) ≡ some chat)
    × (or_else (HistoryFetchReq.req_mode req) (HistoryFetchReq.req_target_kind req) ≡ some mode)
    × (validate_fetch_mode mode (HistoryFetchReq.req_target_value req) ≡ none)
    × IsQueued env chat mode (HistoryFetchReq.req_target_value req) db r

module _ (env : Env) (req : HistoryFetchReq) (db : Db) where
  abbrev value_of : Option ℤ
  value_of = HistoryFetchReq.req_target_value req

  abbrev EndsOf : Result → Type 0
  EndsOf r = IsIdle db r ⊎ IsQueuedFor env req db r

  fetch_valid_lem :
      (chat mode : String) (message : Option String)
      → given (HistoryFetchReq.req_chat_jid req) ≡ some chat
      → or_else (HistoryFetchReq.req_mode req) (HistoryFetchReq.req_target_kind req) ≡ some mode
      → validate_fetch_mode mode value_of ≡ message
      → EndsOf (fetch_valid env chat mode value_of message db)
  unfolding fetch_valid
  fetch_valid_lem chat mode (some message) c m v = inl (refl, refl)
  fetch_valid_lem chat mode none c m v = elim (fetch_chat_lem env chat mode value_of db) [
    | inl idles ↦ inl idles
    | inr queued ↦ inr (chat, mode, c, m, v, queued)
  ]

  fetch_given_lem :
      (chat mode : Option String)
      → given (HistoryFetchReq.req_chat_jid req) ≡ chat
      → or_else (HistoryFetchReq.req_mode req) (HistoryFetchReq.req_target_kind req) ≡ mode
      → EndsOf (fetch_given env chat mode value_of db)
  unfolding fetch_given
  fetch_given_lem none mode c m = inl (refl, refl)
  fetch_given_lem (some chat) none c m = inl (refl, refl)
  fetch_given_lem (some chat) (some mode) c m =
      fetch_valid_lem chat mode (validate_fetch_mode mode value_of) c m refl

-- A call of the endpoint ends in one of two ways. Either no job is stored and the worker is not
-- notified; or the request names a chat and a mode that is valid with its target, exactly one job is
-- stored, for that chat, with the clamped target and a fresh id, the response names that id, the
-- worker is notified, the chat had no open job before, and a worker that now looks for an anchor of
-- the chat finds one.
pub handle_history_fetch_trigger_lem :
    (env : Env) (req : HistoryFetchReq) (db : Db)
    → IsIdle db (handle_history_fetch_trigger env (some req) db)
      ⊎ IsQueuedFor env req db (handle_history_fetch_trigger env (some req) db)
unfolding handle_history_fetch_trigger
handle_history_fetch_trigger_lem env req db = fetch_given_lem env req db _ _ refl refl
