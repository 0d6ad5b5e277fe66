-- ===== src/Store/Messages.antt =====
-- The message timeline and its embeddings (src/storage.rs, the tables `messages` and `embeddings`).
-- `message_id` is UNIQUE, so an insert of a known id is ignored.
pub mod Timeline
pub mod Pending
mod Tests
use whatsrust.Prelude.{
  ℕ, suc, String, Bool, true, false, Option, none, some, List, [], ◌∷◌, ◌++◌, str_eq, keep, take,
  is_some, max, if◌then◌else◌,
}
use whatsrust.Prelude.Int.{ℤ, pos_part, ltb_ℤ}
use whatsrust.Prelude.Table.{first_where, update_where}
use whatsrust.Store.Db.{Db, EmbedStatus, failed, MessageRow, EmbeddingKey}
use whatsrust.Store.Jobs.{is_unembedded}

pub record OldestMessageRow : Type 0 where
  pub message_id : String
  pub from_me : Bool
  pub timestamp_secs : ℤ

abbrev pub has_message_id : String → MessageRow → Bool
has_message_id id m = str_eq m.message_id id

-- The columns that the caller gives; the id and `created_at` come from the table and the clock.
pub record NewMessage : Type 0 where
  pub chat_jid : String
  pub sender_jid : String
  pub message_id : String
  pub content_kind : String
  pub body_text : Option String
  pub timestamp_secs : ℤ
  pub from_me : Bool
  pub source : String
  pub embed_status : EmbedStatus

abbrev pub to_row : NewMessage → ℕ → ℤ → MessageRow
to_row n id created = record {
  id = id;
  chat_jid = n.chat_jid;
  sender_jid = n.sender_jid;
  message_id = n.message_id;
  content_kind = n.content_kind;
  body_text = n.body_text;
  timestamp = n.timestamp_secs;
  created_at = created;
  from_me = n.from_me;
  source = n.source;
  embed_status = n.embed_status;
}

unfoldable pub insert_message_if_new : NewMessage → ℤ → Db → Db × Bool
insert_message_if_new n created db = elim (first_where (has_message_id n.message_id) db.messages) [
  | some old ↦ (db, false)
  | none ↦ (
    record db {
      messages = db.messages ++ to_row n (suc db.message_seq) created ∷ [];
      message_seq = suc db.message_seq;
    },
    true,
  )
]

unfoldable pub insert_message : NewMessage → ℤ → Db → Db
unfolding insert_message_if_new
insert_message n created db = (insert_message_if_new n created db).0

-- WHERE chat_jid = ?1 ORDER BY timestamp ASC LIMIT 1, over the index on (chat_jid, timestamp): of
-- equal times the first row.
abbrev pub in_chat : String → MessageRow → Bool
in_chat chat m = str_eq m.chat_jid chat

unfoldable pub oldest_row : List MessageRow → Option MessageRow
oldest_row [] = none
oldest_row (m ∷ ms) = elim (oldest_row ms) [
  | none ↦ some m
  | some best ↦ if ltb_ℤ best.timestamp m.timestamp then some best else some m
]

abbrev to_oldest : MessageRow → OldestMessageRow
to_oldest m = record {
  message_id = m.message_id;
  from_me = m.from_me;
  timestamp_secs = m.timestamp;
}

unfoldable pub get_oldest_message : String → Db → Option OldestMessageRow
get_oldest_message chat db = elim (oldest_row (keep (in_chat chat) db.messages)) [
  | none ↦ none
  | some m ↦ some (to_oldest m)
]

-- The rows that the set difference of `messages` and `embeddings` gives, oldest first.
unfoldable pub fetch_pending_embeddings : String → ℤ → Db → List MessageRow
fetch_pending_embeddings model_id batch_size db =
    take (max (pos_part batch_size) 1) (keep (is_unembedded db.embeddings model_id) db.messages)

-- INSERT OR REPLACE INTO embeddings: the key is there afterwards, once.
unfoldable pub put_embedding : String → String → List EmbeddingKey → List EmbeddingKey
put_embedding message_id model_id [] = record { message_id = message_id; model_id = model_id } ∷ []
put_embedding message_id model_id (e ∷ es) =
    if str_eq e.message_id message_id
    then if str_eq e.model_id model_id then e ∷ es else e ∷ put_embedding message_id model_id es
    else e ∷ put_embedding message_id model_id es

-- The loop of the transaction, over the ids that `zip` pairs with a vector.
unfoldable pub put_embeddings : List String → String → List EmbeddingKey → List EmbeddingKey
put_embeddings [] model_id es = es
put_embeddings (id ∷ ids) model_id es = put_embeddings ids model_id (put_embedding id model_id es)

unfoldable pub write_embedding_batch : List String → String → ℕ → Db → Db
write_embedding_batch ids model_id vectors db = record db {
  embeddings = put_embeddings (take vectors ids) model_id db.embeddings;
}

unfoldable pub mark_embedding_failed : String → Db → Db
mark_embedding_failed id db = record db {
  messages = update_where (has_message_id id) (λ m. record m { embed_status = failed }) db.messages;
}
