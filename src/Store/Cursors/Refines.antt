-- ===== src/Store/Cursors/Refines.antt =====
-- The cursor table as a map from chats (src/storage.rs): what the writes of a history do to it.
use whatsrust.Prelude.{
  ℕ, ◌≡◌, refl, ◌∙◌, ap, String, Option, some, List, [], ◌∷◌, arith, str_eq, if◌then◌else◌, inl,
  inr,
}
use whatsrust.Prelude.Int.{ℤ}
use whatsrust.Prelude.Table.{first_where}
use whatsrust.Store.Db.{Db, BackfillCursorRow, JobStatus}
use whatsrust.Store.Cursors.{
  is_chat, get_backfill_cursor, upserted, upsert_backfill_cursor, record_backfill_progress,
  update_backfill_fetched, first_where-upsert,
}
use whatsrust.Store.Jobs.{
  enqueue_backfill_job, claim_next_backfill_job, mark_backfill_job, insert_job,
}
use whatsrust.Store.Jobs.OneActive.{enqueue_cases}

-- The writes of the daemon to the tables that hold a cursor.
pub data CursorOp : Type 0 where
  seed : BackfillCursorRow → CursorOp
  progress : BackfillCursorRow → ℕ → ℕ → ℤ → CursorOp
  fetched : ℕ → ℕ → ℤ → CursorOp
  trigger : String → String → Option ℤ → ℤ → ℤ → ℤ → Option String → ℤ → CursorOp
  claim : ℤ → CursorOp
  mark : ℕ → JobStatus → ℤ → CursorOp

unfoldable pub apply : CursorOp → Db → Db
unfolding upsert_backfill_cursor record_backfill_progress update_backfill_fetched
apply (seed c) db =
    upsert_backfill_cursor c.chat_jid c.oldest_msg_id c.oldest_msg_from_me c.oldest_msg_timestamp_ms
      c.more_remain c.exhausted c.last_backfill_at db
apply (progress c job count ts) db =
    record_backfill_progress job c.chat_jid c.oldest_msg_id c.oldest_msg_from_me
      c.oldest_msg_timestamp_ms c.more_remain c.exhausted c.last_backfill_at count ts db
apply (fetched job count ts) db = update_backfill_fetched job count ts db
apply (trigger chat kind value cooldown limit ceiling model ts) db =
    (enqueue_backfill_job chat kind value cooldown limit ceiling model ts db).0
apply (claim ts) db = (claim_next_backfill_job ts db).0
apply (mark id status ts) db = (mark_backfill_job id status ts db).0

unfoldable pub run : List CursorOp → Db → Db
unfolding apply
run [] db = db
run (op ∷ ops) db = run ops (apply op db)

-- The abstract view: a partial map, whose only write is at one chat.
abbrev pub View : Type 0
View = String → Option BackfillCursorRow

abbrev pub write : BackfillCursorRow → View → View
write c view chat = if str_eq c.chat_jid chat then some (upserted c (view chat)) else view chat

abbrev pub apply_view : CursorOp → View → View
apply_view (seed c) view = write c view
apply_view (progress c job count ts) view = write c view
apply_view (fetched job count ts) view = view
apply_view (trigger chat kind value cooldown limit ceiling model ts) view = view
apply_view (claim ts) view = view
apply_view (mark id status ts) view = view

unfoldable pub run_view : List CursorOp → View → View
run_view [] view = view
run_view (op ∷ ops) view = run_view ops (apply_view op view)

abbrev pub view_of : Db → View
view_of db chat = get_backfill_cursor chat db

trigger_keeps :
    (chat kind : String) (value : Option ℤ) (cooldown limit ceiling : ℤ) (model : Option String)
    (ts : ℤ) (db : Db)
    → Db.cursors (enqueue_backfill_job chat kind value cooldown limit ceiling model ts db).0
      ≡ Db.cursors db
unfolding insert_job
trigger_keeps chat kind value cooldown limit ceiling model ts db =
    elim (enqueue_cases chat kind value cooldown limit ceiling model ts db) [
      | inl same ↦ ap (λ d. Db.cursors d) same
      | inr (free, stored) ↦ ap (λ d. Db.cursors d) stored
    ]

claim_keeps : (ts : ℤ) (db : Db) → Db.cursors (claim_next_backfill_job ts db).0 ≡ Db.cursors db
unfolding claim_next_backfill_job
claim_keeps ts db = ground arith

apply-view :
    (op : CursorOp) (db : Db) (chat : String)
    → view_of (apply op db) chat ≡ apply_view op (view_of db) chat
unfolding apply get_backfill_cursor upsert_backfill_cursor record_backfill_progress
    update_backfill_fetched mark_backfill_job
apply-view (seed c) db chat = first_where-upsert c chat (Db.cursors db)
apply-view (progress c job count ts) db chat = first_where-upsert c chat (Db.cursors db)
apply-view (fetched job count ts) db chat = refl
apply-view (trigger other kind value cooldown limit ceiling model ts) db chat =
    ap (λ cs. first_where (is_chat chat) cs)
      (trigger_keeps other kind value cooldown limit ceiling model ts db)
apply-view (claim ts) db chat = ap (λ cs. first_where (is_chat chat) cs) (claim_keeps ts db)
apply-view (mark id status ts) db chat = refl

write-cong :
    (op : CursorOp) (f g : View) (chat : String)
    → f chat ≡ g chat
    → apply_view op f chat ≡ apply_view op g chat
write-cong (seed c) f g chat e = rw e refl
write-cong (progress c job count ts) f g chat e = rw e refl
write-cong (fetched job count ts) f g chat e = e
write-cong (trigger other kind value cooldown limit ceiling model ts) f g chat e = e
write-cong (claim ts) f g chat e = e
write-cong (mark id status ts) f g chat e = e

run_view-cong :
    (ops : List CursorOp) (f g : View) (chat : String)
    → f chat ≡ g chat
    → run_view ops f chat ≡ run_view ops g chat
unfolding run_view
run_view-cong [] f g chat e = e
run_view-cong (op ∷ ops) f g chat e =
    run_view-cong ops (apply_view op f) (apply_view op g) chat (write-cong op f g chat e)

-- Over any history of cursor writes, progress writes, triggers, claims and status writes the table
-- is the map that results from the cursor and progress writes alone, each replacing the row of its own
-- chat, with the old time of the last backfill where it brings none.
pub run-view :
    (ops : List CursorOp) (db : Db) (chat : String)
    → view_of (run ops db) chat ≡ run_view ops (view_of db) chat
unfolding run run_view
run-view [] db chat = refl
run-view (op ∷ ops) db chat =
    run-view ops (apply op db) chat
    ∙ run_view-cong ops (view_of (apply op db)) (apply_view op (view_of db)) chat
        (apply-view op db chat)
