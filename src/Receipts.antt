-- ===== src/Receipts.antt =====
-- The read receipt scheduler of src/read_receipts.rs: the pending receipts by chat and participant,
-- and the loop over commands and ticks. The map is a list of batches with different keys; the order
-- in which a drain visits them is not fixed by the code. A batch that is handed to `send_receipt`
-- goes to `sent`, in which the calls are recorded.
pub mod Conserve
mod Tests
use whatsrust.Prelude.{
  ℕ, String, Bool, true, false, not, ◌&&◌, Option, none, some, List, [], ◌∷◌, ◌++◌, str_eq, keep,
  if◌then◌else◌,
}

pub record Batch : Type 0 where
  pub chat : String
  pub participant : Option String
  pub ids : List String

abbrev pub same_participant : Option String → Option String → Bool
same_participant none none = true
same_participant (some a) (some b) = str_eq a b
same_participant _ _ = false

abbrev pub has_key : String → Option String → Batch → Bool
has_key chat participant b = str_eq b.chat chat && same_participant b.participant participant

abbrev pub of_chat : String → Batch → Bool
of_chat chat b = str_eq b.chat chat

-- `entry(key).or_default().push(id)`
unfoldable pub insert : String → Option String → String → List Batch → List Batch
insert chat participant id [] =
    record { chat = chat; participant = participant; ids = id ∷ [] } ∷ []
insert chat participant id (b ∷ bs) =
    if has_key chat participant b
    then record b { ids = b.ids ++ id ∷ [] } ∷ bs
    else b ∷ insert chat participant id bs

-- What is left, and what is drained.
unfoldable pub drain_chat : String → List Batch → List Batch × List Batch
drain_chat chat bs = (keep (λ b. not (of_chat chat b)) bs, keep (of_chat chat) bs)

pub data Cmd : Type 0 where
  seen : String → Option String → String → Cmd
  flush_chat : String → Cmd
  set_client : Bool → Cmd
  tick : Cmd

-- `acks` holds the answers to the flushes, the last one first.
pub record Scheduler : Type 0 where
  pub pending : List Batch
  pub client : Bool
  pub sent : List Batch
  pub acks : List Bool

abbrev pub idle : Bool → Scheduler
idle client = record { pending = []; client = client; sent = []; acks = [] }

unfoldable pub send_all : Scheduler → Scheduler
send_all s = if s.client then record s { pending = []; sent = s.sent ++ s.pending } else s

unfoldable pub flush : String → Scheduler → Scheduler
unfolding drain_chat
flush chat s =
    if s.client
    then (let (left, flushed) = drain_chat chat s.pending in
        record s { pending = left; sent = s.sent ++ flushed; acks = true ∷ s.acks })
    else record s { acks = false ∷ s.acks }

unfoldable pub step : Cmd → Scheduler → Scheduler
unfolding insert flush send_all
step (seen chat participant id) s = record s { pending = insert chat participant id s.pending }
step (flush_chat chat) s = flush chat s
step (set_client client) s = record s { client = client }
step tick s = send_all s

-- The commands until the stop, or until every sender is gone.
unfoldable pub serve : List Cmd → Scheduler → Scheduler
unfolding step
serve [] s = s
serve (c ∷ cs) s = serve cs (step c s)

-- The drain at the shutdown.
unfoldable pub run_scheduler : List Cmd → Bool → Scheduler
unfolding serve send_all
run_scheduler cmds client = send_all (serve cmds (idle client))
