-- ===== src/Store/Messages/Tests.antt =====
-- The message timeline at concrete inputs.
use whatsrust.Prelude.{◌≡◌, refl, false, some, [], ◌∷◌}
use whatsrust.Prelude.Int.{pos}
use whatsrust.Store.Db.{Db, EmbedStatus, empty}
use whatsrust.Store.Messages.{NewMessage, OldestMessageRow, to_row, oldest_row, get_oldest_message}

abbrev hello : NewMessage
hello = record {
  chat_jid = "a";
  sender_jid = "a";
  message_id = "m1";
  content_kind = "text";
  body_text = some "hello";
  timestamp_secs = pos 50;
  from_me = false;
  source = "live";
  embed_status = EmbedStatus.pending;
}

abbrev later : NewMessage
later = record hello { message_id = "m2"; timestamp_secs = pos 60 }

abbrev two_messages : Db
two_messages = record empty {
  messages = to_row later 1 (pos 61) ∷ to_row hello 2 (pos 62) ∷ [];
  message_seq = 2;
}

abbrev oldest : OldestMessageRow
oldest = record { message_id = "m1"; from_me = false; timestamp_secs = pos 50 }

get_oldest : get_oldest_message "a" two_messages ≡ some oldest
unfolding get_oldest_message oldest_row
get_oldest = refl
