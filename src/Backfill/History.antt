-- ===== src/Backfill/History.antt =====
-- From a decoded history chunk to batches of messages (src/backfill.rs, `drain_history_sync` and
-- `drain_all_conversations`). Of a protobuf message the fields are kept that the code reads.
pub mod Selection
use whatsrust.Prelude.{
  ℕ, ◌^◌, ◌≡◌, ◌≢◌, ◌∙◌, refl, ap, String, Bool, true, false, not, ◌&&◌, ◌||◌, Option, none, some,
  List, [], ◌∷◌, ◌++◌, arith, ltb, ◌==◌, length, keep, str_eq, is_some, inl, inr, Bool-cases,
  if◌then◌else◌,
}
use mathlib.Core.List.{append-nil, append_assoc}
use whatsrust.Prelude.Table.{All}
use whatsrust.Prelude.Int.{ℤ, pos, negsuc}

pub record WebMessageInfo : Type 0 where
  pub has_message : Bool
  pub key_id : Option String
  pub key_from_me : Option Bool
  pub message_timestamp : Option ℕ

pub record Conversation : Type 0 where
  pub id : String
  pub messages : List (Option WebMessageInfo)
  pub end_of_history_transfer_type : Option ℤ
  pub pn_jid : Option String

pub record HistorySync : Type 0 where
  pub conversations : List Conversation
  pub progress : Option ℕ

pub record HistoryBatch : Type 0 where
  pub messages : List WebMessageInfo
  pub more_remain : Bool
  pub progress : Option ℕ

-- `hs.progress.map_or(true, |p| p < 100)`
abbrev pub progress_more : Option ℕ → Bool
progress_more none = true
progress_more (some p) = ltb p 100

abbrev pub is_code : ℕ → Option ℤ → Bool
is_code k (some (pos n)) = n == k
is_code k _ = false

unfoldable pub conv_more : HistorySync → Conversation → Bool
conv_more hs conv =
    let code = conv.end_of_history_transfer_type in
    if is_code 0 code || is_code 2 code
    then true
    else if is_code 1 code || is_code 3 code
    then false
    else progress_more hs.progress

-- The boxed messages of a conversation that are there.
unfoldable pub present : List (Option WebMessageInfo) → List WebMessageInfo
present [] = []
present (none ∷ ms) = present ms
present (some m ∷ ms) = m ∷ present ms

-- `accepted_ids.iter().any(|id| id == &conv.id)`
unfoldable pub is_accepted : List String → Conversation → Bool
is_accepted [] conv = false
is_accepted (id ∷ ids) conv = str_eq id conv.id || is_accepted ids conv

-- The three variables of the loop.
pub record Drained : Type 0 where
  pub messages : List WebMessageInfo
  pub found_any : Bool
  pub more_remain : Bool

abbrev take_conv : HistorySync → Conversation → Drained → Drained
take_conv hs conv d = record {
  messages = d.messages ++ present conv.messages;
  found_any = true;
  more_remain = d.more_remain || conv_more hs conv;
}

unfoldable pub drain_loop : HistorySync → List String → List Conversation → Drained → Drained
drain_loop hs ids [] d = d
drain_loop hs ids (conv ∷ convs) d =
    drain_loop hs ids convs (if is_accepted ids conv then take_conv hs conv d else d)

abbrev nothing : Drained
nothing = record { messages = []; found_any = false; more_remain = false }

-- The single-conversation fallback.
unfoldable pub fall_back : HistorySync → List Conversation → Drained → Drained
fall_back hs (conv ∷ []) d = if d.found_any then d else record {
  messages = d.messages ++ present conv.messages;
  found_any = true;
  more_remain = conv_more hs conv;
}
fall_back hs _ d = d

unfoldable pub drain_history_sync : HistorySync → List String → HistoryBatch
unfolding drain_loop fall_back
drain_history_sync hs ids =
    let d = fall_back hs hs.conversations (drain_loop hs ids hs.conversations nothing) in
    record {
      messages = d.messages;
      more_remain = if d.found_any then d.more_remain else progress_more hs.progress;
      progress = hs.progress;
    }

abbrev is_empty_text : String → Bool
is_empty_text s = str_eq s ""

-- i64::try_from(ts).is_ok_and(|ts| ts > 0)
abbrev is_storable_time : Option ℕ → Bool
is_storable_time none = false
is_storable_time (some ts) = ltb ts (2 ^ 63) && ltb 0 ts

abbrev has_key_id : Option String → Bool
has_key_id none = false
has_key_id (some id) = not (is_empty_text id)

unfoldable pub is_storable_history_message : WebMessageInfo → Bool
is_storable_history_message m =
    m.has_message && (has_key_id m.key_id && is_storable_time m.message_timestamp)

pub record ConversationBatch : Type 0 where
  pub id : String
  pub pn_jid : Option String
  pub batch : HistoryBatch

-- `.filter(|p| !p.is_empty())`
abbrev non_empty : Option String → Option String
non_empty none = none
non_empty (some s) = if is_empty_text s then none else some s

unfoldable pub has_id : String → List String → Bool
has_id id [] = false
has_id id (x ∷ seen) = str_eq x id || has_id id seen

abbrev pub is_nil {ℓ} : {A : Type ℓ} → List A → Bool
is_nil [] = true
is_nil (x ∷ xs) = false

-- The batch of one conversation id, with the messages that can be stored.
unfoldable pub storable_batch : HistorySync → String → HistoryBatch
storable_batch hs id =
    let b = drain_history_sync hs (id ∷ []) in
    record b { messages = keep is_storable_history_message b.messages }

-- The loop; `seen` holds the ids that `HashSet::insert` has taken.
unfoldable pub drain_convs :
    HistorySync → (String → Bool) → List String → List Conversation → List ConversationBatch
drain_convs hs skip_chat seen [] = []
drain_convs hs skip_chat seen (conv ∷ convs) =
    let skipped = drain_convs hs skip_chat seen convs in
    let rest = drain_convs hs skip_chat (conv.id ∷ seen) convs in
    let batch = storable_batch hs conv.id in
    if is_empty_text conv.id || (skip_chat conv.id || has_id conv.id seen)
    then skipped
    else if is_nil batch.messages
    then rest
    else record { id = conv.id; pn_jid = non_empty conv.pn_jid; batch = batch } ∷ rest

unfoldable pub drain_all_conversations : HistorySync → (String → Bool) → List ConversationBatch
unfolding drain_convs
drain_all_conversations hs skip_chat = drain_convs hs skip_chat [] hs.conversations
