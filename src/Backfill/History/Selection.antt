-- ===== src/Backfill/History/Selection.antt =====
-- Which messages a drain takes, and what it says of the rest (src/backfill.rs).
use whatsrust.Prelude.{
  ◌≡◌, String, Bool, true, false, ◌||◌, List, [], ◌∷◌, ◌++◌, arith, keep, inl, inr, Bool-cases,
  if◌then◌else◌,
}
use whatsrust.Prelude.Table.{All, keep-All}
use whatsrust.Backfill.History.{
  WebMessageInfo, Conversation, HistorySync, ConversationBatch, conv_more, present, is_accepted,
  is_storable_history_message, has_id, is_nil, is_empty_text, storable_batch, drain_convs,
  drain_all_conversations,
}

-- The messages of some conversations, in order.
abbrev pub all_messages : List Conversation → List WebMessageInfo
all_messages [] = []
all_messages (c ∷ cs) = present c.messages ++ all_messages cs

abbrev pub any_more : HistorySync → List Conversation → Bool
any_more hs [] = false
any_more hs (c ∷ cs) = conv_more hs c || any_more hs cs

-- The sole conversation of a chunk; nothing of a chunk that has more, or none.
abbrev pub sole : List Conversation → List Conversation
sole (c ∷ []) = c ∷ []
sole _ = []

-- The conversations that a drain reads: those with an accepted id; if there are none, the chunk's
-- only conversation.
abbrev pub selected : HistorySync → List String → List Conversation
selected hs ids =
    let found = keep (is_accepted ids) hs.conversations in
    if is_nil found then sole hs.conversations else found

-- What holds of every batch that a split gives.
pub record IsStorable (skip_chat : String → Bool) (b : ConversationBatch) : Type 0 where
  pub named : is_empty_text b.id ≡ false
  pub wanted : skip_chat b.id ≡ false
  pub some_message : is_nil b.batch.messages ≡ false
  pub all_storable : All (λ m. is_storable_history_message m ≡ true) b.batch.messages

storable_batch-All :
    (hs : HistorySync) (id : String)
    → All (λ m. is_storable_history_message m ≡ true) (storable_batch hs id).messages
unfolding storable_batch
storable_batch-All hs id = keep-All is_storable_history_message _

-- No id of the batches is among those that were seen, nor twice in the batches.
abbrev pub Fresh : List String → List ConversationBatch → Type 0
Fresh seen [] = Unit
Fresh seen (b ∷ bs) = (has_id b.id seen ≡ false) × Fresh (b.id ∷ seen) bs

Fresh-weaken :
    (small big : List String) (bs : List ConversationBatch)
    → ((id : String) → has_id id small ≡ true → has_id id big ≡ true)
    → Fresh big bs
    → Fresh small bs
unfolding has_id
Fresh-weaken small big [] sub h = tt
Fresh-weaken small big (b ∷ bs) sub h = (
  ground (arith, sub b.id, h.0),
  Fresh-weaken (b.id ∷ small) (b.id ∷ big) bs (λ id t. ground (arith, sub id)) h.1,
)

module _ (hs : HistorySync) (skip_chat : String → Bool) where
  drain_convs-Fresh :
      (seen : List String) (cs : List Conversation) → Fresh seen (drain_convs hs skip_chat seen cs)
  unfolding drain_convs has_id
  drain_convs-Fresh seen [] = tt
  drain_convs-Fresh seen (c ∷ cs) =
      let later = drain_convs-Fresh (c.id ∷ seen) cs in
      elim (Bool-cases (is_empty_text c.id || (skip_chat c.id || has_id c.id seen))) [
        | inl out ↦ rw out (drain_convs-Fresh seen cs)
        | inr stays ↦ elim (Bool-cases (is_nil (storable_batch hs c.id).messages)) [
          | inl none_left ↦
              rw (stays, none_left)
                (Fresh-weaken seen (c.id ∷ seen) _ (λ id t. ground (arith, t)) later)
          | inr some_left ↦ rw (stays, some_left) (ground (arith, stays), later)
        ]
      ]

  drain_convs-IsStorable :
      (seen : List String) (cs : List Conversation)
      → All (IsStorable skip_chat) (drain_convs hs skip_chat seen cs)
  unfolding drain_convs
  drain_convs-IsStorable seen [] = tt
  drain_convs-IsStorable seen (c ∷ cs) =
      let later = drain_convs-IsStorable (c.id ∷ seen) cs in
      elim (Bool-cases (is_empty_text c.id || (skip_chat c.id || has_id c.id seen))) [
        | inl out ↦ rw out (drain_convs-IsStorable seen cs)
        | inr stays ↦ elim (Bool-cases (is_nil (storable_batch hs c.id).messages)) [
          | inl none_left ↦ rw (stays, none_left) later
          | inr some_left ↦
              rw (stays, some_left)
                (
                  record {
                    named = ground (arith, stays);
                    wanted = ground (arith, stays);
                    some_message = some_left;
                    all_storable = storable_batch-All hs c.id;
                  },
                  later,
                )
        ]
      ]

  -- Each batch of a split chunk is for a named conversation that is not skipped, and has at least
  -- one message, all of them storable: with a payload, a key id and a positive time. No
  -- conversation has two batches.
  pub drain_all_conversations_lem :
      All (IsStorable skip_chat) (drain_all_conversations hs skip_chat)
      × Fresh [] (drain_all_conversations hs skip_chat)
  unfolding drain_all_conversations
  drain_all_conversations_lem =
      (drain_convs-IsStorable [] hs.conversations, drain_convs-Fresh [] hs.conversations)
