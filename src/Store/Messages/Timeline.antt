-- ===== src/Store/Messages/Timeline.antt =====
-- `insert_message_if_new` and `get_oldest_message` of src/storage.rs.
use whatsrust.Prelude.{
  suc, ◌≡◌, refl, String, Bool, true, false, Option, none, some, List, [], ◌∷◌, ◌++◌, arith, eq_iff,
  keep, is_none, inl, inr, Option-cases,
}
use whatsrust.Prelude.Int.{ℤ, ◌≤ℤ◌}
use whatsrust.Prelude.Table.{All, All-map, first_where, first_where-append}
use whatsrust.Store.Db.{Db, MessageRow}
use whatsrust.Store.Messages.{
  NewMessage, OldestMessageRow, to_row, has_message_id, in_chat, oldest_row, insert_message_if_new,
  get_oldest_message,
}

abbrev pub find_message : String → Db → Option MessageRow
find_message id db = first_where (has_message_id id) db.messages

abbrev with_message : NewMessage → ℤ → Db → Db
with_message n created db = record db {
  messages = db.messages ++ to_row n (suc db.message_seq) created ∷ [];
  message_seq = suc db.message_seq;
}

insert_known :
    (n : NewMessage) (created : ℤ) (db : Db) {m : MessageRow}
    → find_message n.message_id db ≡ some m
    → insert_message_if_new n created db ≡ (db, false)
unfolding insert_message_if_new
insert_known n created db e = rw (e, insert_message_if_new)

insert_new :
    (n : NewMessage) (created : ℤ) (db : Db)
    → find_message n.message_id db ≡ none
    → insert_message_if_new n created db ≡ (with_message n created db, true)
unfolding insert_message_if_new
insert_new n created db e = rw (e, insert_message_if_new)

find-with_message :
    (n : NewMessage) (created : ℤ) (db : Db)
    → find_message n.message_id db ≡ none
    → find_message n.message_id (with_message n created db)
      ≡ some (to_row n (suc db.message_seq) created)
unfolding first_where
find-with_message n created db e =
    rw (first_where-append (has_message_id n.message_id) db.messages _, e)
      (ground (arith, eq_iff n.message_id n.message_id))

-- What an insert does with the message `n`, where the id was new and where it was known.
pub record Inserted (n : NewMessage) (created : ℤ) (db : Db) (result : Db × Bool) : Type 0 where
  pub is_new : result.1 ≡ is_none (find_message n.message_id db)
  pub kept : (m : MessageRow) → find_message n.message_id db ≡ some m → result.0 ≡ db
  pub stored :
      find_message n.message_id db ≡ none
      → find_message n.message_id result.0 ≡ some (to_row n (suc db.message_seq) created)
  pub again :
      (n' : NewMessage) (later : ℤ)
      → n'.message_id ≡ n.message_id
      → insert_message_if_new n' later result.0 ≡ (result.0, false)

-- An insert says whether the message id was new. A new message is stored as given, under the next
-- row id; of a known one the row stays, and no table changes. Either way a second insert of the
-- same id, whatever its other columns, changes nothing.
pub insert_message_if_new_lem :
    (n : NewMessage) (created : ℤ) (db : Db)
    → Inserted n created db (insert_message_if_new n created db)
insert_message_if_new_lem n created db = elim (Option-cases (find_message n.message_id db)) [
  | inl e ↦ rw (insert_new n created db e) (record {
    is_new = rw e;
    kept = λ m f. absurd (cc);
    stored = λ f. find-with_message n created db f;
    again = λ n' later same.
        insert_known n' later (with_message n created db)
          {m = to_row n (suc db.message_seq) created} (rw same (find-with_message n created db e));
  })
  | inr (m, e) ↦ rw (insert_known n created db e) (record {
    is_new = rw e;
    kept = λ x f. refl;
    stored = λ f. absurd (cc);
    again = λ n' later same. insert_known n' later db {m = m} (rw same e);
  })
]

oldest_row-none : (ms : List MessageRow) → oldest_row ms ≡ none → ms ≡ []
unfolding oldest_row
oldest_row-none [] h = refl
oldest_row-none (x ∷ ms) h = absurd (ground arith)

oldest_row-least :
    (ms : List MessageRow) (m : MessageRow)
    → oldest_row ms ≡ some m
    → All (λ x. m.timestamp ≤ℤ x.timestamp) ms
unfolding oldest_row
oldest_row-least [] m h = tt
oldest_row-least (x ∷ ms) m h = elim (Option-cases (oldest_row ms)) [
  | inl e ↦ (ground arith, rw (oldest_row-none ms e) tt)
  | inr (b, e) ↦ (ground arith, All-map ms (λ y l. ground (arith, l)) (oldest_row-least ms b e))
]

-- The message that `get_oldest_message` returns is no later than any message of its chat.
pub get_oldest_message_lem :
    (chat : String) (db : Db) (row : OldestMessageRow)
    → get_oldest_message chat db ≡ some row
    → All (λ m. row.timestamp_secs ≤ℤ m.timestamp) (keep (in_chat chat) db.messages)
unfolding get_oldest_message
get_oldest_message_lem chat db row h =
    let ms = keep (in_chat chat) db.messages in
    elim (Option-cases (oldest_row ms)) [
      | inl e ↦ rw (oldest_row-none ms e) tt
      | inr (m, e) ↦ All-map ms (λ x l. ground (arith, l)) (oldest_row-least ms m e)
    ]
