-- ===== src/Trigger/Tests.antt =====
-- The history-fetch endpoint at concrete inputs.
use whatsrust.Prelude.{◌⊎◌, false, none, some, [], ◌∷◌}
use whatsrust.Prelude.Int.{pos}
use whatsrust.Store.Db.{Db, EmbedStatus, empty}
use whatsrust.Trigger.{HistoryFetchReq, Env, handle_history_fetch_trigger}
use whatsrust.Trigger.Queued.{IsIdle, IsQueuedFor, handle_history_fetch_trigger_lem}

abbrev settings : Env
settings = record {
  cursor_fails = false;
  resolve_fails = false;
  upsert_fails = false;
  enqueue_fails = false;
  cooldown_secs = pos 60;
  queue_depth = pos 10;
  max_messages = pos 500;
  active_model_id = none;
  now_secs = pos 1000;
}

abbrev one_message : Db
one_message = record empty {
  messages =
      record {
        id = 1;
        chat_jid = "a";
        sender_jid = "b";
        message_id = "m1";
        content_kind = "text";
        body_text = some "hello";
        timestamp = pos 900;
        created_at = pos 900;
        from_me = false;
        source = "live";
        embed_status = EmbedStatus.pending;
      }
      ∷ [];
  message_seq = 1;
}

abbrev count_request : HistoryFetchReq
count_request = record {
  req_chat_jid = some "a";
  req_mode = none;
  req_target_kind = some "count";
  req_target_value = some (pos 900);
}

handle_history_fetch_trigger_example :
    IsIdle one_message (handle_history_fetch_trigger settings (some count_request) one_message)
    ⊎ IsQueuedFor settings count_request one_message
        (handle_history_fetch_trigger settings (some count_request) one_message)
handle_history_fetch_trigger_example =
    handle_history_fetch_trigger_lem settings count_request one_message
