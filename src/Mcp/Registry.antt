-- ===== src/Mcp/Registry.antt =====
-- The tools of src/mcp_registry.rs in the order of `tools/list`: for each its access class, the
-- properties of its schema with their types, the required ones, and its REST call. Descriptions and
-- annotation hints are left out.
use whatsrust.Prelude.{List, [], ◌∷◌}
use whatsrust.Mcp.Tool.{
  Tool, read, write, no_query, sync_query, group_info_query, history_query, search_query,
  fetch_status_query, no_body, args_as_body, fetch_history_body,
}

abbrev pub first_tools : List Tool
first_tools =
    record {
      name = "whatsrust_status";
      access_class = read;
      properties = [];
      required = [];
      tool_method = "GET";
      tool_path = "/api/status";
      query = no_query;
      body = no_body;
    }
    ∷ record {
      name = "whatsrust_send";
      access_class = write;
      properties = ("jid", "string") ∷ ("text", "string") ∷ ("mentions", "array") ∷ [];
      required = "jid" ∷ "text" ∷ [];
      tool_method = "POST";
      tool_path = "/api/send";
      query = sync_query;
      body = args_as_body;
    }
    ∷ record {
      name = "whatsrust_reply";
      access_class = write;
      properties =
          ("jid", "string")
          ∷ ("id", "string")
          ∷ ("sender", "string")
          ∷ ("text", "string")
          ∷ ("mentions", "array")
          ∷ [];
      required = "jid" ∷ "id" ∷ "sender" ∷ "text" ∷ [];
      tool_method = "POST";
      tool_path = "/api/reply";
      query = no_query;
      body = args_as_body;
    }
    ∷ record {
      name = "whatsrust_react";
      access_class = write;
      properties =
          ("jid", "string")
          ∷ ("id", "string")
          ∷ ("emoji", "string")
          ∷ ("from_me", "boolean")
          ∷ ("sender_jid", "string")
          ∷ [];
      required = "jid" ∷ "id" ∷ "emoji" ∷ [];
      tool_method = "POST";
      tool_path = "/api/react";
      query = no_query;
      body = args_as_body;
    }
    ∷ record {
      name = "whatsrust_edit";
      access_class = write;
      properties = ("jid", "string") ∷ ("id", "string") ∷ ("text", "string") ∷ [];
      required = "jid" ∷ "id" ∷ "text" ∷ [];
      tool_method = "POST";
      tool_path = "/api/edit";
      query = no_query;
      body = args_as_body;
    }
    ∷ record {
      name = "whatsrust_revoke";
      access_class = write;
      properties = ("jid", "string") ∷ ("id", "string") ∷ [];
      required = "jid" ∷ "id" ∷ [];
      tool_method = "POST";
      tool_path = "/api/revoke";
      query = no_query;
      body = args_as_body;
    }
    ∷ record {
      name = "whatsrust_image";
      access_class = write;
      properties =
          ("jid", "string") ∷ ("data", "string") ∷ ("mime", "string") ∷ ("caption", "string") ∷ [];
      required = "jid" ∷ "data" ∷ [];
      tool_method = "POST";
      tool_path = "/api/image";
      query = no_query;
      body = args_as_body;
    }
    ∷ record {
      name = "whatsrust_groups";
      access_class = read;
      properties = [];
      required = [];
      tool_method = "GET";
      tool_path = "/api/groups";
      query = no_query;
      body = no_body;
    }
    ∷ record {
      name = "whatsrust_group_info";
      access_class = read;
      properties = ("jid", "string") ∷ [];
      required = "jid" ∷ [];
      tool_method = "GET";
      tool_path = "/api/group-info";
      query = group_info_query;
      body = no_body;
    }
    ∷ record {
      name = "whatsrust_history";
      access_class = read;
      properties = ("jid", "string") ∷ ("limit", "integer") ∷ ("before", "integer") ∷ [];
      required = "jid" ∷ [];
      tool_method = "GET";
      tool_path = "/api/history";
      query = history_query;
      body = no_body;
    }
    ∷ record {
      name = "whatsrust_search";
      access_class = read;
      properties = ("q", "string") ∷ ("jid", "string") ∷ ("limit", "integer") ∷ [];
      required = "q" ∷ [];
      tool_method = "GET";
      tool_path = "/api/search";
      query = search_query;
      body = no_body;
    }
    ∷ record {
      name = "whatsrust_fetch_history";
      access_class = write;
      properties = ("chat_jid", "string") ∷ ("mode", "string") ∷ ("target_value", "integer") ∷ [];
      required = "chat_jid" ∷ [];
      tool_method = "POST";
      tool_path = "/api/history-fetch";
      query = no_query;
      body = fetch_history_body;
    }
    ∷ []

abbrev pub chat_tools : List Tool
chat_tools =
    record {
      name = "whatsrust_fetch_status";
      access_class = read;
      properties = ("job_id", "integer") ∷ ("active", "boolean") ∷ [];
      required = [];
      tool_method = "GET";
      tool_path = "/api/history-fetch";
      query = fetch_status_query;
      body = no_body;
    }
    ∷ record {
      name = "whatsrust_fetch_cancel";
      access_class = write;
      properties = ("job_id", "integer") ∷ [];
      required = "job_id" ∷ [];
      tool_method = "POST";
      tool_path = "/api/history-fetch/cancel";
      query = no_query;
      body = args_as_body;
    }
    ∷ record {
      name = "whatsrust_typing";
      access_class = write;
      properties = ("jid", "string") ∷ [];
      required = "jid" ∷ [];
      tool_method = "POST";
      tool_path = "/api/typing";
      query = no_query;
      body = args_as_body;
    }
    ∷ record {
      name = "whatsrust_location";
      access_class = write;
      properties =
          ("jid", "string")
          ∷ ("lat", "number")
          ∷ ("lon", "number")
          ∷ ("name", "string")
          ∷ ("address", "string")
          ∷ [];
      required = "jid" ∷ "lat" ∷ "lon" ∷ [];
      tool_method = "POST";
      tool_path = "/api/location";
      query = no_query;
      body = args_as_body;
    }
    ∷ record {
      name = "whatsrust_contact";
      access_class = write;
      properties = ("jid", "string") ∷ ("name", "string") ∷ ("phone", "string") ∷ [];
      required = "jid" ∷ "name" ∷ "phone" ∷ [];
      tool_method = "POST";
      tool_path = "/api/contact";
      query = no_query;
      body = args_as_body;
    }
    ∷ record {
      name = "whatsrust_poll";
      access_class = write;
      properties =
          ("jid", "string")
          ∷ ("question", "string")
          ∷ ("options", "array")
          ∷ ("selectable_count", "integer")
          ∷ [];
      required = "jid" ∷ "question" ∷ "options" ∷ "selectable_count" ∷ [];
      tool_method = "POST";
      tool_path = "/api/poll";
      query = no_query;
      body = args_as_body;
    }
    ∷ record {
      name = "whatsrust_pin_chat";
      access_class = write;
      properties = ("jid", "string") ∷ [];
      required = "jid" ∷ [];
      tool_method = "POST";
      tool_path = "/api/pin-chat";
      query = no_query;
      body = args_as_body;
    }
    ∷ record {
      name = "whatsrust_unpin_chat";
      access_class = write;
      properties = ("jid", "string") ∷ [];
      required = "jid" ∷ [];
      tool_method = "POST";
      tool_path = "/api/unpin-chat";
      query = no_query;
      body = args_as_body;
    }
    ∷ record {
      name = "whatsrust_mute_chat";
      access_class = write;
      properties = ("jid", "string") ∷ [];
      required = "jid" ∷ [];
      tool_method = "POST";
      tool_path = "/api/mute-chat";
      query = no_query;
      body = args_as_body;
    }
    ∷ record {
      name = "whatsrust_unmute_chat";
      access_class = write;
      properties = ("jid", "string") ∷ [];
      required = "jid" ∷ [];
      tool_method = "POST";
      tool_path = "/api/unmute-chat";
      query = no_query;
      body = args_as_body;
    }
    ∷ record {
      name = "whatsrust_archive_chat";
      access_class = write;
      properties = ("jid", "string") ∷ [];
      required = "jid" ∷ [];
      tool_method = "POST";
      tool_path = "/api/archive-chat";
      query = no_query;
      body = args_as_body;
    }
    ∷ record {
      name = "whatsrust_unarchive_chat";
      access_class = write;
      properties = ("jid", "string") ∷ [];
      required = "jid" ∷ [];
      tool_method = "POST";
      tool_path = "/api/unarchive-chat";
      query = no_query;
      body = args_as_body;
    }
    ∷ []

abbrev pub last_tools : List Tool
last_tools =
    record {
      name = "whatsrust_mark_read";
      access_class = write;
      properties = ("jid", "string") ∷ [];
      required = "jid" ∷ [];
      tool_method = "POST";
      tool_path = "/api/mark-read";
      query = no_query;
      body = args_as_body;
    }
    ∷ record {
      name = "whatsrust_delete_chat";
      access_class = write;
      properties = ("jid", "string") ∷ [];
      required = "jid" ∷ [];
      tool_method = "POST";
      tool_path = "/api/delete-chat";
      query = no_query;
      body = args_as_body;
    }
    ∷ record {
      name = "whatsrust_delete_for_me";
      access_class = write;
      properties =
          ("jid", "string") ∷ ("id", "string") ∷ ("sender", "string") ∷ ("from_me", "boolean") ∷ [];
      required = "jid" ∷ "id" ∷ [];
      tool_method = "POST";
      tool_path = "/api/delete-for-me";
      query = no_query;
      body = args_as_body;
    }
    ∷ record {
      name = "whatsrust_star";
      access_class = write;
      properties =
          ("jid", "string") ∷ ("id", "string") ∷ ("sender", "string") ∷ ("from_me", "boolean") ∷ [];
      required = "jid" ∷ "id" ∷ [];
      tool_method = "POST";
      tool_path = "/api/star";
      query = no_query;
      body = args_as_body;
    }
    ∷ record {
      name = "whatsrust_unstar";
      access_class = write;
      properties =
          ("jid", "string") ∷ ("id", "string") ∷ ("sender", "string") ∷ ("from_me", "boolean") ∷ [];
      required = "jid" ∷ "id" ∷ [];
      tool_method = "POST";
      tool_path = "/api/unstar";
      query = no_query;
      body = args_as_body;
    }
    ∷ record {
      name = "whatsrust_status_text";
      access_class = write;
      properties =
          ("recipients", "array")
          ∷ ("text", "string")
          ∷ ("background_argb", "integer")
          ∷ ("font", "integer")
          ∷ ("privacy", "string")
          ∷ [];
      required = "recipients" ∷ "text" ∷ [];
      tool_method = "POST";
      tool_path = "/api/status-text";
      query = no_query;
      body = args_as_body;
    }
    ∷ record {
      name = "whatsrust_status_image";
      access_class = write;
      properties =
          ("recipients", "array")
          ∷ ("data", "string")
          ∷ ("mime", "string")
          ∷ ("caption", "string")
          ∷ ("privacy", "string")
          ∷ [];
      required = "recipients" ∷ "data" ∷ [];
      tool_method = "POST";
      tool_path = "/api/status-image";
      query = no_query;
      body = args_as_body;
    }
    ∷ record {
      name = "whatsrust_status_video";
      access_class = write;
      properties =
          ("recipients", "array")
          ∷ ("data", "string")
          ∷ ("mime", "string")
          ∷ ("caption", "string")
          ∷ ("seconds", "integer")
          ∷ ("privacy", "string")
          ∷ [];
      required = "recipients" ∷ "data" ∷ [];
      tool_method = "POST";
      tool_path = "/api/status-video";
      query = no_query;
      body = args_as_body;
    }
    ∷ record {
      name = "whatsrust_status_revoke";
      access_class = write;
      properties = ("recipients", "array") ∷ ("message_id", "string") ∷ ("privacy", "string") ∷ [];
      required = "recipients" ∷ "message_id" ∷ [];
      tool_method = "POST";
      tool_path = "/api/status-revoke";
      query = no_query;
      body = args_as_body;
    }
    ∷ record {
      name = "whatsrust_purge_embeddings";
      access_class = write;
      properties = ("model_id", "string") ∷ [];
      required = "model_id" ∷ [];
      tool_method = "POST";
      tool_path = "/api/embeddings/purge";
      query = no_query;
      body = args_as_body;
    }
    ∷ []
