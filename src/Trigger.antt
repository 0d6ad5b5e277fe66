-- ===== src/Trigger.antt =====
-- The history-fetch endpoint of src/api.rs: `validate_fetch_mode`, `enqueue_outcome_to_response`,
-- `handle_history_fetch_trigger` and `handle_history_fetch_cancel`, on the tables of the store. What
-- serde made of the body is an argument, `none` where it is no such request; so is which of the
-- store's calls fail. Replies stand for the responses, with the values their JSON holds.
use Prim.Native.String.{◌++◌}
use whatsrust.Prelude.{
  ℕ, String, Bool, true, false, ◌≡◌, Option, none, some, ltb, ◌==◌, str_eq, if◌then◌else◌,
}
use whatsrust.Prelude.Int.{ℤ, pos, ltb_ℤ}
use whatsrust.Store.Db.{Db, BackfillCursorRow, JobStatus}
use whatsrust.Store.Cursors.{get_backfill_cursor, upsert_backfill_cursor}
use whatsrust.Store.Jobs.{
  EnqueueOutcome, accepted, already_active, cooldown, queue_full, embedder_backlog_full,
  enqueue_backfill_job, mark_backfill_job,
}
use whatsrust.Backfill.Anchor.{
  Anchor, AnchorResolution, cursor, oldest_stored, no_anchor, resolve_anchor,
}
pub mod Queued
mod Tests

-- `HistoryFetchReq`
pub record HistoryFetchReq : Type 0 where
  pub req_chat_jid : Option String
  pub req_mode : Option String
  pub req_target_kind : Option String
  pub req_target_value : Option ℤ

pub data Reply : Type 0 where
  bad_json : Reply
  bad_request : String → Reply
  storage_error : Reply
  already_exhausted : String → Reply
  no_anchor_reply : String → Reply
  queued_reply : ℕ → String → String → Option ℤ → ℤ → Bool → Option ℤ → Reply
  already_active_reply : ℕ → String → Reply
  cooldown_reply : ℤ → Reply
  queue_full_reply : ℤ → Reply
  backlog_full_reply : ℕ → Reply
  job_not_found : Reply
  cancelled_reply : ℕ → Reply

-- The status code of each response.
unfoldable pub status : Reply → ℕ
status bad_json = 400
status (bad_request message) = 400
status storage_error = 500
status (already_exhausted chat) = 200
status (no_anchor_reply chat) = 409
status (queued_reply id chat mode value anchor more target) = 200
status (already_active_reply id chat) = 200
status (cooldown_reply left) = 429
status (queue_full_reply limit) = 429
status (backlog_full_reply count) = 429
status job_not_found = 404
status (cancelled_reply id) = 200

-- The message of an invalid combination, `none` where it is valid.
unfoldable pub validate_fetch_mode : String → Option ℤ → Option String
validate_fetch_mode mode value =
    if str_eq mode "all"
    then none
    else if str_eq mode "since"
    then elim value [
      | none ↦ some "mode 'since' requires a target_value (ms timestamp)"
      | some v ↦ none
    ]
    else if str_eq mode "count"
    then elim value [
      | none ↦ some "mode 'count' requires a target_value"
      | some v ↦
          if ltb_ℤ (pos 0) v then none else some "mode 'count' requires a positive target_value"
    ]
    else some ("invalid mode '" ++ (mode ++ "': must be 'all', 'since', or 'count'"))

unfoldable pub enqueue_outcome_to_response :
    EnqueueOutcome → String → String → Option ℤ → ℤ → Bool → Reply
enqueue_outcome_to_response (accepted id target) chat mode requested anchor more =
    queued_reply id chat mode requested anchor more target
enqueue_outcome_to_response (already_active id) chat mode requested anchor more =
    already_active_reply id chat
enqueue_outcome_to_response (cooldown left) chat mode requested anchor more = cooldown_reply left
enqueue_outcome_to_response (queue_full limit) chat mode requested anchor more =
    queue_full_reply limit
enqueue_outcome_to_response (embedder_backlog_full count) chat mode requested anchor more =
    backlog_full_reply count

-- Which calls of the store fail, and the bridge's settings.
pub record Env : Type 0 where
  pub cursor_fails : Bool
  pub resolve_fails : Bool
  pub upsert_fails : Bool
  pub enqueue_fails : Bool
  pub cooldown_secs : ℤ
  pub queue_depth : ℤ
  pub max_messages : ℤ
  pub active_model_id : Option String
  pub now_secs : ℤ

-- The tables after the call, the response, and whether the worker was notified.
pub record Result : Type 0 where
  pub db : Db
  pub reply : Reply
  pub notified : Bool

abbrev pub stop : Db → Reply → Result
stop db reply = record { db = db; reply = reply; notified = false }

-- What follows the enqueue: a notification for a job that was accepted, and the response.
unfoldable pub finish : Db → Option EnqueueOutcome → String → String → Option ℤ → ℤ → Bool → Result
unfolding enqueue_outcome_to_response
finish db none chat mode value anchor more = stop db storage_error
finish db (some (accepted id target)) chat mode value anchor more = record {
  db = db;
  reply = enqueue_outcome_to_response (accepted id target) chat mode value anchor more;
  notified = true;
}
finish db (some outcome) chat mode value anchor more =
    stop db (enqueue_outcome_to_response outcome chat mode value anchor more)

unfoldable pub enqueue_fetch : Env → String → String → Option ℤ → ℤ → Bool → Db → Result
unfolding finish enqueue_backfill_job
enqueue_fetch env chat mode value anchor more db =
    let (after, outcome) =
      enqueue_backfill_job chat mode value (Env.cooldown_secs env) (Env.queue_depth env)
        (Env.max_messages env) (Env.active_model_id env) (Env.now_secs env) db in
    if Env.enqueue_fails env
    then stop db storage_error
    else finish after outcome chat mode value anchor more

-- The oldest stored message (re)seeds the cursor.
unfoldable pub seed : String → Anchor → Bool → Db → Db
unfolding upsert_backfill_cursor
seed chat a more db =
    upsert_backfill_cursor chat (some (Anchor.oldest_msg_id a)) (some (Anchor.oldest_msg_from_me a))
      (some (Anchor.oldest_msg_timestamp_ms a)) more false none db

unfoldable pub with_anchor :
    Env → String → String → Option ℤ → Bool → AnchorResolution → Db → Result
unfolding seed enqueue_fetch
with_anchor env chat mode value more no_anchor db = stop db (no_anchor_reply chat)
with_anchor env chat mode value more (cursor a) db =
    enqueue_fetch env chat mode value (Anchor.oldest_msg_timestamp_ms a) more db
with_anchor env chat mode value more (oldest_stored a) db =
    if Env.upsert_fails env
    then stop db storage_error
    else enqueue_fetch env chat mode value (Anchor.oldest_msg_timestamp_ms a) more
        (seed chat a more db)

abbrev pub is_exhausted : Option BackfillCursorRow → Bool
is_exhausted none = false
is_exhausted (some c) = BackfillCursorRow.exhausted c

abbrev pub more_remain : Option BackfillCursorRow → Bool
more_remain none = true
more_remain (some c) = BackfillCursorRow.more_remain c

-- The handler behind its checks on the request.
unfoldable pub fetch_chat : Env → String → String → Option ℤ → Db → Result
unfolding get_backfill_cursor resolve_anchor with_anchor
fetch_chat env chat mode value db =
    let c = get_backfill_cursor chat db in
    if Env.cursor_fails env
    then stop db storage_error
    else if is_exhausted c
    then stop db (already_exhausted chat)
    else if Env.resolve_fails env
    then stop db storage_error
    else with_anchor env chat mode value (more_remain c) (resolve_anchor chat c db) db

-- `req.chat_jid…filter(|s| !s.is_empty())`
abbrev pub given : Option String → Option String
given none = none
given (some s) = if str_eq s "" then none else some s

-- `a.or(b)`
abbrev pub or_else : Option String → Option String → Option String
or_else none b = b
or_else (some a) b = some a

-- The handler with the answer of `validate_fetch_mode`, and with the request's chat and mode.
unfoldable pub fetch_valid : Env → String → String → Option ℤ → Option String → Db → Result
unfolding fetch_chat
fetch_valid env chat mode value (some message) db = stop db (bad_request message)
fetch_valid env chat mode value none db = fetch_chat env chat mode value db

unfoldable pub fetch_given : Env → Option String → Option String → Option ℤ → Db → Result
unfolding validate_fetch_mode fetch_valid
fetch_given env none mode value db = stop db (bad_request "chat_jid is required")
fetch_given env (some chat) none value db =
    stop db (bad_request "mode is required ('all', 'since', or 'count')")
fetch_given env (some chat) (some mode) value db =
    fetch_valid env chat mode value (validate_fetch_mode mode value) db

unfoldable pub handle_history_fetch_trigger : Env → Option HistoryFetchReq → Db → Result
unfolding fetch_given
handle_history_fetch_trigger env none db = stop db bad_json
handle_history_fetch_trigger env (some req) db =
    fetch_given env (given (HistoryFetchReq.req_chat_jid req))
      (or_else (HistoryFetchReq.req_mode req) (HistoryFetchReq.req_target_kind req))
      (HistoryFetchReq.req_target_value req) db

-- The body's `job_id`, and whether the write fails.
unfoldable pub handle_history_fetch_cancel : Option (Option ℕ) → Bool → ℤ → Db → Db × Reply
unfolding mark_backfill_job
handle_history_fetch_cancel none fails ts db = (db, bad_json)
handle_history_fetch_cancel (some none) fails ts db = (db, bad_request "job_id is required")
handle_history_fetch_cancel (some (some id)) fails ts db =
    let marked = mark_backfill_job id JobStatus.cancelled ts db in
    if fails
    then (db, storage_error)
    else if marked.1 == 0
    then (marked.0, job_not_found)
    else (marked.0, cancelled_reply id)
