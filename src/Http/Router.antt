-- ===== src/Http/Router.antt =====
-- The routes of src/api.rs: `handle_request`, as the table of its match, with the handler that each
-- route calls.
use whatsrust.Prelude.{
  Bool, true, false, ◌&&◌, Option, none, some, List, [], ◌∷◌, if◌then◌else◌, String,
}
use whatsrust.Prelude.Texts.{Text, codes, same_text}
pub mod Writes

-- `MediaKind`
pub data MediaKind : Type 0 where
  image : MediaKind
  video : MediaKind
  audio : MediaKind
  doc : MediaKind
  sticker : MediaKind
  view_once_image : MediaKind
  view_once_video : MediaKind

-- `JidAction`
pub data JidAction : Type 0 where
  start_typing : JidAction
  stop_typing : JidAction
  start_recording : JidAction
  stop_recording : JidAction
  subscribe_presence : JidAction
  group_leave : JidAction
  pin_chat : JidAction
  unpin_chat : JidAction
  mute_chat : JidAction
  unmute_chat : JidAction
  archive_chat : JidAction
  unarchive_chat : JidAction
  mark_read : JidAction
  mark_unread : JidAction
  delete_chat : JidAction

-- `ParticipantAction`
pub data ParticipantAction : Type 0 where
  add : ParticipantAction
  remove : ParticipantAction
  promote : ParticipantAction
  demote : ParticipantAction

-- `MessageAction`
pub data MessageAction : Type 0 where
  delete_for_me : MessageAction
  star : MessageAction
  unstar : MessageAction

-- The handlers, without the prefix `handle_`.
pub data Route : Type 0 where
  status : Route
  qr : Route
  groups : Route
  group_info : Route
  history : Route
  search : Route
  send : Route
  reply : Route
  edit : Route
  react : Route
  unreact : Route
  revoke : Route
  media : MediaKind → Route
  location : Route
  contact : Route
  forward : Route
  poll : Route
  jid_action : JidAction → Route
  group_create : Route
  group_subject : Route
  group_description : Route
  group_invite_link : Route
  group_participants : ParticipantAction → Route
  message_action : MessageAction → Route
  status_text : Route
  status_image : Route
  status_video : Route
  status_revoke : Route
  history_fetch_trigger : Route
  history_fetch_status : Route
  history_fetch_cancel : Route
  purge_embeddings : Route

pub record Entry : Type 0 where
  pub entry_method : String
  pub entry_path : String
  pub entry_route : Route

abbrev entry : String → String → Route → Entry
entry m p r = record { entry_method = m; entry_path = p; entry_route = r }

unfoldable pub route_table : List Entry
route_table =
    entry "GET" "/api/status" status
    ∷ entry "GET" "/health" status
    ∷ entry "GET" "/" status
    ∷ entry "GET" "/api/qr" qr
    ∷ entry "GET" "/api/groups" groups
    ∷ entry "GET" "/api/group-info" group_info
    ∷ entry "GET" "/api/history" history
    ∷ entry "GET" "/api/search" search
    ∷ entry "POST" "/api/send" send
    ∷ entry "POST" "/api/reply" reply
    ∷ entry "POST" "/api/edit" edit
    ∷ entry "POST" "/api/react" react
    ∷ entry "POST" "/api/unreact" unreact
    ∷ entry "POST" "/api/revoke" revoke
    ∷ entry "POST" "/api/image" (media image)
    ∷ entry "POST" "/api/video" (media video)
    ∷ entry "POST" "/api/audio" (media audio)
    ∷ entry "POST" "/api/doc" (media doc)
    ∷ entry "POST" "/api/sticker" (media sticker)
    ∷ entry "POST" "/api/location" location
    ∷ entry "POST" "/api/contact" contact
    ∷ entry "POST" "/api/forward" forward
    ∷ entry "POST" "/api/poll" poll
    ∷ entry "POST" "/api/view-once-image" (media view_once_image)
    ∷ entry "POST" "/api/view-once-video" (media view_once_video)
    ∷ entry "POST" "/api/typing" (jid_action start_typing)
    ∷ entry "POST" "/api/stop-typing" (jid_action stop_typing)
    ∷ entry "POST" "/api/recording" (jid_action start_recording)
    ∷ entry "POST" "/api/stop-recording" (jid_action stop_recording)
    ∷ entry "POST" "/api/subscribe-presence" (jid_action subscribe_presence)
    ∷ entry "POST" "/api/group-create" group_create
    ∷ entry "POST" "/api/group-subject" group_subject
    ∷ entry "POST" "/api/group-description" group_description
    ∷ entry "POST" "/api/group-leave" (jid_action group_leave)
    ∷ entry "GET" "/api/group-invite-link" group_invite_link
    ∷ entry "POST" "/api/group-add" (group_participants add)
    ∷ entry "POST" "/api/group-remove" (group_participants remove)
    ∷ entry "POST" "/api/group-promote" (group_participants promote)
    ∷ entry "POST" "/api/group-demote" (group_participants demote)
    ∷ entry "POST" "/api/pin-chat" (jid_action pin_chat)
    ∷ entry "POST" "/api/unpin-chat" (jid_action unpin_chat)
    ∷ entry "POST" "/api/mute-chat" (jid_action mute_chat)
    ∷ entry "POST" "/api/unmute-chat" (jid_action unmute_chat)
    ∷ entry "POST" "/api/archive-chat" (jid_action archive_chat)
    ∷ entry "POST" "/api/unarchive-chat" (jid_action unarchive_chat)
    ∷ entry "POST" "/api/mark-read" (jid_action mark_read)
    ∷ entry "POST" "/api/mark-unread" (jid_action mark_unread)
    ∷ entry "POST" "/api/delete-chat" (jid_action delete_chat)
    ∷ entry "POST" "/api/delete-for-me" (message_action delete_for_me)
    ∷ entry "POST" "/api/star" (message_action star)
    ∷ entry "POST" "/api/unstar" (message_action unstar)
    ∷ entry "POST" "/api/status-text" status_text
    ∷ entry "POST" "/api/status-image" status_image
    ∷ entry "POST" "/api/status-video" status_video
    ∷ entry "POST" "/api/status-revoke" status_revoke
    ∷ entry "POST" "/api/history-fetch" history_fetch_trigger
    ∷ entry "GET" "/api/history-fetch" history_fetch_status
    ∷ entry "POST" "/api/history-fetch/cancel" history_fetch_cancel
    ∷ entry "POST" "/api/embeddings/purge" purge_embeddings
    ∷ []

unfoldable pub find_route : List Entry → Text → Text → Option Route
find_route [] method path = none
find_route (e ∷ es) method path =
    let rest = find_route es method path in
    if same_text (codes (Entry.entry_method e)) method
      && same_text (codes (Entry.entry_path e)) path
    then some (Entry.entry_route e)
    else rest

-- `handle_request`, up to the handler it calls; none is the 404 of the last arm.
unfoldable pub route : Text → Text → Option Route
unfolding find_route route_table
route method path = find_route route_table method path

-- The routes that only read.
abbrev pub is_read : Route → Bool
is_read status = true
is_read qr = true
is_read groups = true
is_read group_info = true
is_read history = true
is_read search = true
is_read group_invite_link = true
is_read history_fetch_status = true
is_read r = false
