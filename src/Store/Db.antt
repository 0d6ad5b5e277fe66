-- ===== src/Store/Db.antt =====
-- The tables of src/storage.rs that the backfill worker and the embedding drain share: `messages`,
-- `embeddings`, `backfill_jobs` and `backfill_cursor`. Times are i64, in the unit of the column.
use whatsrust.Prelude.{ℕ, String, Bool, Option, List, []}
use whatsrust.Prelude.Int.{ℤ}

-- 'pending' | 'skipped' | 'failed'
pub data EmbedStatus : Type 0 where
  pending skipped failed : EmbedStatus

pub record MessageRow : Type 0 where
  pub id : ℕ
  pub chat_jid : String
  pub sender_jid : String
  pub message_id : String
  pub content_kind : String
  pub body_text : Option String
  pub timestamp : ℤ
  pub created_at : ℤ
  pub from_me : Bool
  pub source : String
  pub embed_status : EmbedStatus

-- The key of a row of `embeddings`; the vector itself is not modelled.
pub record EmbeddingKey : Type 0 where
  pub message_id : String
  pub model_id : String

pub data JobStatus : Type 0 where
  queued running paused done failed cancelled : JobStatus

pub record BackfillJobRow : Type 0 where
  pub id : ℕ
  pub chat_jid : String
  pub target_kind : String
  pub target_value : Option ℤ
  pub status : JobStatus
  pub fetched : ℕ
  pub created_at : ℤ
  pub updated_at : ℤ

pub record BackfillCursorRow : Type 0 where
  pub chat_jid : String
  pub oldest_msg_id : Option String
  pub oldest_msg_from_me : Option Bool
  pub oldest_msg_timestamp_ms : Option ℤ
  pub more_remain : Bool
  pub exhausted : Bool
  pub last_backfill_at : Option ℤ

pub record Db : Type 0 where
  pub messages : List MessageRow
  pub message_seq : ℕ
  pub embeddings : List EmbeddingKey
  pub jobs : List BackfillJobRow
  pub job_seq : ℕ
  pub cursors : List BackfillCursorRow

abbrev pub empty : Db
empty = record {
  messages = [];
  message_seq = 0;
  embeddings = [];
  jobs = [];
  job_seq = 0;
  cursors = [];
}
