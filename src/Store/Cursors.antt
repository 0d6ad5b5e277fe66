-- ===== src/Store/Cursors.antt =====
-- The backfill frontier of a chat (src/storage.rs, the table `backfill_cursor`): one row a chat,
-- written by an UPSERT that keeps `last_backfill_at` where the new value is NULL.
pub mod Refines
use whatsrust.Prelude.{
  ℕ, ◌≡◌, String, Bool, Option, none, some, List, [], ◌∷◌, arith, eq_iff, str_eq, ◌==◌,
  if◌then◌else◌,
}
use whatsrust.Prelude.Int.{ℤ}
use whatsrust.Prelude.Table.{first_where, update_where}
use whatsrust.Store.Db.{Db, BackfillCursorRow}

abbrev pub is_chat : String → BackfillCursorRow → Bool
is_chat chat c = str_eq c.chat_jid chat

unfoldable pub get_backfill_cursor : String → Db → Option BackfillCursorRow
get_backfill_cursor chat db = first_where (is_chat chat) db.cursors

-- COALESCE(excluded.last_backfill_at, last_backfill_at)
abbrev pub coalesce : Option ℤ → Option ℤ → Option ℤ
coalesce none old = old
coalesce (some t) old = some t

-- INSERT … ON CONFLICT(chat_jid) DO UPDATE
unfoldable pub upsert : BackfillCursorRow → List BackfillCursorRow → List BackfillCursorRow
upsert new [] = new ∷ []
upsert new (c ∷ cs) =
    if str_eq c.chat_jid new.chat_jid
    then record new { last_backfill_at = coalesce new.last_backfill_at c.last_backfill_at } ∷ cs
    else c ∷ upsert new cs

unfoldable pub upsert_backfill_cursor :
    String → Option String → Option Bool → Option ℤ → Bool → Bool → Option ℤ → Db → Db
upsert_backfill_cursor chat msg_id from_me ts_ms more_remain exhausted last db =
    let new : BackfillCursorRow = record {
      chat_jid = chat;
      oldest_msg_id = msg_id;
      oldest_msg_from_me = from_me;
      oldest_msg_timestamp_ms = ts_ms;
      more_remain = more_remain;
      exhausted = exhausted;
      last_backfill_at = last;
    } in
    record db { cursors = upsert new db.cursors }

-- UPDATE backfill_jobs SET fetched … WHERE id
unfoldable pub update_backfill_fetched : ℕ → ℕ → ℤ → Db → Db
update_backfill_fetched id fetched ts db = record db {
  jobs =
      update_where (λ j. j.id == id) (λ j. record j { fetched = fetched; updated_at = ts }) db.jobs;
}

-- The cursor and the counter in one transaction.
unfoldable pub record_backfill_progress :
    ℕ → String → Option String → Option Bool → Option ℤ → Bool → Bool → Option ℤ → ℕ → ℤ → Db → Db
unfolding upsert_backfill_cursor update_backfill_fetched
record_backfill_progress job chat msg_id from_me ts_ms more_remain exhausted last fetched ts db =
    update_backfill_fetched job fetched ts
      (upsert_backfill_cursor chat msg_id from_me ts_ms more_remain exhausted last db)

-- What the write leaves for a chat: its own row, with the old stamp where it brings none.
abbrev pub upserted : BackfillCursorRow → Option BackfillCursorRow → BackfillCursorRow
upserted new none = new
upserted new (some old) = record new {
  last_backfill_at = coalesce new.last_backfill_at old.last_backfill_at;
}

-- A read after an UPSERT: the written chat has the new row with its stamp kept or replaced, and
-- every other chat has the row that it had.
pub first_where-upsert :
    (new : BackfillCursorRow) (chat : String) (cs : List BackfillCursorRow)
    → first_where (is_chat chat) (upsert new cs) ≡ (
        if str_eq new.chat_jid chat
        then some (upserted new (first_where (is_chat chat) cs))
        else first_where (is_chat chat) cs)
unfolding first_where upsert
first_where-upsert new chat [] = ground arith
first_where-upsert new chat (c ∷ cs) = ground (
  arith,
  eq_iff c.chat_jid chat,
  eq_iff c.chat_jid new.chat_jid,
  eq_iff new.chat_jid chat,
  first_where-upsert new chat cs,
)
