-- ===== src/Store/Jobs.antt =====
-- The durable queue of backfill jobs (src/storage.rs, the table `backfill_jobs`): the admission
-- checks of `enqueue_backfill_job` in their order, the claim, and the guarded status writes. The
-- time `ts` is what `now_secs()` returned. `none` in place of an outcome is the failure of the
-- CHECK on `target_kind`, which rolls the transaction back.
pub mod OneActive
pub mod Enqueue
pub mod Admits
pub mod Cancel
pub mod Listed
mod Tests
use whatsrust.Prelude.{
  keep, ℕ, suc, ◌+◌, ◌≤◌, String, Bool, true, false, not, ◌&&◌, ◌||◌, Option, none, some, List, [],
  ◌∷◌, ◌++◌, leb, ltb, ◌==◌, min, str_eq, is_some, if◌then◌else◌,
}
use mathlib.Core.Option
use whatsrust.Prelude.Int.{ℤ, pos, ◌-ℤ◌, ltb_ℤ, leb_ℤ, min_ℤ}
use whatsrust.Prelude.Table.{update_where, first_where, count_where, row, IsAscending}
use whatsrust.Store.Db.{
  Db, MessageRow, EmbeddingKey, EmbedStatus, JobStatus, queued, running, paused, cancelled,
  BackfillJobRow,
}
use whatsrust.Store.Cursors.{get_backfill_cursor}

pub data EnqueueOutcome : Type 0 where
  accepted : ℕ → Option ℤ → EnqueueOutcome
  already_active : ℕ → EnqueueOutcome
  cooldown : ℤ → EnqueueOutcome
  queue_full : ℤ → EnqueueOutcome
  embedder_backlog_full : ℕ → EnqueueOutcome

-- status IN ('queued', 'running', 'paused')
abbrev pub is_active : JobStatus → Bool
is_active queued = true
is_active running = true
is_active paused = true
is_active _ = false

abbrev pub is_queued : JobStatus → Bool
is_queued queued = true
is_queued _ = false

abbrev pub is_cancelled : JobStatus → Bool
is_cancelled cancelled = true
is_cancelled _ = false

abbrev pub active_in : String → BackfillJobRow → Bool
active_in chat j = str_eq j.chat_jid chat && is_active j.status

abbrev pub job_id : BackfillJobRow → ℕ
job_id j = j.id

abbrev pub find_job : ℕ → Db → Option BackfillJobRow
find_job i db = row job_id i db.jobs

-- 1. One active job a chat.
unfoldable pub active_job : String → Db → Option BackfillJobRow
active_job chat db = first_where (active_in chat) db.jobs

-- `SELECT last_backfill_at … .flatten()`
unfoldable pub last_backfill_at : String → Db → Option ℤ
last_backfill_at chat db = elim (get_backfill_cursor chat db) [
  | none ↦ none
  | some c ↦ c.last_backfill_at
]

-- 2. The cooldown of a chat: what is left of it.
unfoldable pub cooldown_left : String → ℤ → ℤ → Db → Option ℤ
cooldown_left chat cooldown_secs ts db =
    if ltb_ℤ (pos 0) cooldown_secs
    then elim (last_backfill_at chat db) [
      | none ↦ none
      | some last ↦
          if ltb_ℤ (ts -ℤ last) cooldown_secs then some (cooldown_secs -ℤ (ts -ℤ last)) else none
    ]
    else none

unfoldable pub depth : Db → ℕ
depth db = count_where (λ j. is_active j.status) db.jobs

-- 3. The global limit on open jobs.
unfoldable pub is_full : ℤ → Db → Bool
is_full queue_depth_limit db =
    ltb_ℤ (pos 0) queue_depth_limit && leb_ℤ queue_depth_limit (pos (depth db))

abbrev pub is_pending : EmbedStatus → Bool
is_pending EmbedStatus.pending = true
is_pending _ = false

-- The row of `embeddings` that the LEFT JOIN looks for.
abbrev pub is_embedded : String → String → EmbeddingKey → Bool
is_embedded message_id model_id e = str_eq e.message_id message_id && str_eq e.model_id model_id

-- WHERE e.message_id IS NULL AND m.embed_status = 'pending'
unfoldable pub is_unembedded : List EmbeddingKey → String → MessageRow → Bool
is_unembedded embeddings model_id m =
    not (is_some (first_where (is_embedded m.message_id model_id) embeddings))
    && is_pending m.embed_status

abbrev pub pending_threshold : ℕ
pending_threshold = 100_000

-- 3b. The circuit breaker on unembedded messages; the count stops at the threshold and one more.
unfoldable pub backlog : Option String → Db → Option ℕ
backlog none db = none
backlog (some model_id) db =
    let pending_count =
      min (count_where (is_unembedded db.embeddings model_id) db.messages)
        (pending_threshold + 1) in
    if ltb pending_threshold pending_count then some pending_count else none

abbrev pub is_count : String → Bool
is_count kind = str_eq kind "count"

-- 4. The clamp of the target.
unfoldable pub effective_target : String → Option ℤ → ℤ → Option ℤ
effective_target kind value max_messages =
    if is_count kind && ltb_ℤ (pos 0) max_messages
    then Option.map (λ v. min_ℤ v max_messages) value
    else value

unfoldable pub accepted_target : String → Option ℤ → ℤ → Option ℤ
accepted_target kind value max_messages =
    if is_count kind then effective_target kind value max_messages else none

-- CHECK (target_kind IN ('since', 'all', 'count'))
abbrev pub is_kind : String → Bool
is_kind kind = str_eq kind "since" || (str_eq kind "all" || str_eq kind "count")

abbrev pub new_job : String → String → Option ℤ → ℤ → ℕ → BackfillJobRow
new_job chat kind value ts id = record {
  id = id;
  chat_jid = chat;
  target_kind = kind;
  target_value = value;
  status = queued;
  fetched = 0;
  created_at = ts;
  updated_at = ts;
}

unfoldable pub insert_job : String → String → Option ℤ → ℤ → Db → Db
insert_job chat kind value ts db = record db {
  jobs = db.jobs ++ new_job chat kind value ts (suc db.job_seq) ∷ [];
  job_seq = suc db.job_seq;
}

unfoldable pub enqueue_backfill_job :
    String → String → Option ℤ → ℤ → ℤ → ℤ → Option String → ℤ → Db → Db × Option EnqueueOutcome
enqueue_backfill_job chat kind value cooldown_secs queue_depth_limit max_messages model_id ts db =
    elim (active_job chat db) [
      | some existing ↦ (db, some (already_active existing.id))
      | none ↦ elim (cooldown_left chat cooldown_secs ts db) [
        | some left ↦ (db, some (cooldown left))
        | none ↦
            if is_full queue_depth_limit db
            then (db, some (queue_full queue_depth_limit))
            else elim (backlog model_id db) [
              | some pending_count ↦ (db, some (embedder_backlog_full pending_count))
              | none ↦
                  if is_kind kind
                  then (
                    insert_job chat kind (effective_target kind value max_messages) ts db,
                    some (accepted (suc db.job_seq) (accepted_target kind value max_messages)),
                  )
                  else (db, none)
            ]
      ]
    ]

unfoldable pub claim_next_backfill_job : ℤ → Db → Db × Option BackfillJobRow
claim_next_backfill_job ts db = elim (first_where (λ j. is_queued j.status) db.jobs) [
  | none ↦ (db, none)
  | some j ↦ (
    record db {
      jobs =
          update_where (λ x. x.id == j.id) (λ x. record x { status = running; updated_at = ts })
            db.jobs;
    },
    some j,
  )
]

-- WHERE id = ?3, and for every status but 'cancelled' AND status != 'cancelled'
abbrev pub may_mark : ℕ → JobStatus → BackfillJobRow → Bool
may_mark id status j = j.id == id && (is_cancelled status || not (is_cancelled j.status))

-- The number of rows changed comes back.
unfoldable pub mark_backfill_job : ℕ → JobStatus → ℤ → Db → Db × ℕ
mark_backfill_job id status ts db = (
  record db {
    jobs =
        update_where (may_mark id status) (λ j. record j { status = status; updated_at = ts })
          db.jobs;
  },
  count_where (may_mark id status) db.jobs,
)

unfoldable pub get_backfill_job : ℕ → Db → Option BackfillJobRow
get_backfill_job id db = first_where (λ j. j.id == id) db.jobs

unfoldable pub list_backfill_jobs : Bool → Db → List BackfillJobRow
list_backfill_jobs active_only db =
    if active_only then keep (λ j. is_active j.status) db.jobs else db.jobs

-- The ids go up and none passes the sequence counter.
abbrev pub IsValid : Db → Type 0
IsValid db = IsAscending job_id 0 db.jobs db.job_seq
