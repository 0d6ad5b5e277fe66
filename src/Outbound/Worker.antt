-- ===== src/Outbound/Worker.antt =====
-- One turn of the outbound worker: `handle_outbound` of src/bridge.rs over the queue of
-- src/storage.rs. What the world answers in the turn is a `Turn`. The JID library is a parameter:
-- `parse_jid` gives the canonical text of a JID, or nothing for one that it refuses.
pub mod Marks
pub mod Others
use whatsrust.Prelude.{
  ℕ, zero, suc, ◌+◌, ◌*◌, String, Bool, true, false, not, ◌&&◌, Option, none, some, List, [], ◌∷◌,
  ◌++◌, leb, ltb, min, max, str_eq, keep, if◌then◌else◌,
}
use whatsrust.Prelude.Int.{ℤ}
use whatsrust.Store.Queue.{
  Queue, OutboundJobRow, claim_next_job, mark_outbound_sent_with_id, mark_outbound_failed,
  requeue_outbound,
}
use whatsrust.Outbound.OpKind.{OutboundOpKind, text, reply, forward, parse_str}

-- A row of `poll_keys`; its primary key is the chat with the poll.
pub record PollKey : Type 0 where
  pub chat_jid : String
  pub poll_id : String
  pub enc_key : List ℕ
  pub options : List String

-- The two tables that a turn writes.
pub record Outbox : Type 0 where
  pub queue : Queue
  pub poll_keys : List PollKey

pub record PollKeyInfo : Type 0 where
  pub enc_key : List ℕ
  pub options : List String

pub record ExecOutcome : Type 0 where
  pub wa_message_id : Option String
  pub poll_key : Option PollKeyInfo

-- What `execute_job` returns.
pub data Executed : Type 0 where
  ok : ExecOutcome → Executed
  err : String → Executed

pub record Turn : Type 0 where
  pub cancelled : Bool
  pub connected : Bool  -- a client handle before the claim
  pub claim_works : Bool
  pub claimed_at : ℤ
  pub connected_after : Bool  -- a client handle after the pacing
  pub executed : Executed
  pub writes : List (Option ℤ)  -- the tries of the final write: its time, or none if it fails
  pub poll_key_works : Bool

pub data State : Type 0 where
  sending sent failed : State

-- An `OutboundStatus` event; the text of an error is left out.
pub record Event : Type 0 where
  pub job_id : ℕ
  pub state : State
  pub wa_message_id : Option String

-- `for attempt in 0..n`: the write is tried until it works.
unfoldable pub try_write : (ℤ → Queue → Queue) → ℕ → List (Option ℤ) → Queue → Queue
try_write f zero answers q = q
try_write f (suc n) [] q = q
try_write f (suc n) (some ts ∷ answers) q = f ts q
try_write f (suc n) (none ∷ answers) q = try_write f n answers q

-- The write that is tried once.
abbrev pub write_once : (ℤ → Queue → Queue) → List (Option ℤ) → Queue → Queue
write_once f answers q = try_write f 1 answers q

abbrev is_poll : PollKey → PollKey → Bool
is_poll new k = str_eq k.chat_jid new.chat_jid && str_eq k.poll_id new.poll_id

-- INSERT OR REPLACE INTO poll_keys
unfoldable pub store_poll_key : PollKey → List PollKey → List PollKey
store_poll_key new keys = keep (λ k. not (is_poll new k)) keys ++ new ∷ []

abbrev id_or_empty : Option String → String
id_or_empty none = ""
id_or_empty (some id) = id

unfoldable pub put_poll_key : Bool → String → ExecOutcome → List PollKey → List PollKey
unfolding store_poll_key
put_poll_key works chat outcome keys = elim outcome.poll_key [
  | none ↦ keys
  | some pk ↦
      if works
      then store_poll_key
          (record {
            chat_jid = chat;
            poll_id = id_or_empty outcome.wa_message_id;
            enc_key = pk.enc_key;
            options = pk.options;
          })
          keys
      else keys
]

-- Whether a typing indicator is shown first, and its time in ms before the jitter.
unfoldable pub needs_typing : String → Bool
needs_typing op_kind = elim (parse_str op_kind) [
  | some text ↦ true
  | some reply ↦ true
  | some forward ↦ true
  | _ ↦ false
]

unfoldable pub typing_base_ms : ℕ → ℕ
typing_base_ms payload_len = min (max (min payload_len 500 * 40) 800) 6000

abbrev pub event : ℕ → State → Option String → Event
event id state wa = record { job_id = id; state = state; wa_message_id = wa }

-- `row.retries + 1 >= max_retries`
abbrev pub is_last : ℕ → OutboundJobRow → Bool
is_last max_retries row = leb max_retries (row.retries + 1)

unfoldable pub finish : ℕ → Turn → OutboundJobRow → String → Executed → Outbox → Outbox × List Event
unfolding put_poll_key
finish max_retries turn row chat (ok outcome) box = (
  record {
    queue =
        try_write (mark_outbound_sent_with_id row.id outcome.wa_message_id) 3 turn.writes box.queue;
    poll_keys = put_poll_key turn.poll_key_works chat outcome box.poll_keys;
  },
  event row.id sending none ∷ event row.id sent outcome.wa_message_id ∷ [],
)
finish max_retries turn row chat (err e) box = (
  record box {
    queue = try_write (mark_outbound_failed row.id max_retries) 3 turn.writes box.queue;
  },
  event row.id sending none
      ∷ (if is_last max_retries row then event row.id failed none ∷ [] else []),
)

module _ (parse_jid : String → Option String) (max_retries : ℕ) where
  -- A claimed row: its JID, the client, the send.
  unfoldable pub send : Turn → OutboundJobRow → Outbox → Outbox × List Event
  unfolding finish
  send turn row box = elim (parse_jid row.jid) [
    | none ↦ (
      record box { queue = write_once (mark_outbound_failed row.id 0) turn.writes box.queue },
      event row.id failed none ∷ [],
    )
    | some chat ↦
        if not turn.connected_after
        then (record box { queue = write_once (requeue_outbound row.id) turn.writes box.queue }, [])
        else finish max_retries turn row chat turn.executed box
  ]

  unfoldable pub take_job :
      Turn → Queue × Option OutboundJobRow → List PollKey → Outbox × List Event
  unfolding send
  take_job turn (q, none) keys = (record { queue = q; poll_keys = keys }, [])
  take_job turn (q, some row) keys = send turn row (record { queue = q; poll_keys = keys })

  unfoldable pub handle_outbound : Turn → Outbox → Outbox × List Event
  unfolding take_job
  handle_outbound turn box =
      if turn.cancelled
      then (box, [])
      else if not turn.connected
      then (box, [])
      else if not turn.claim_works
      then (box, [])
      else take_job turn (claim_next_job turn.claimed_at box.queue) box.poll_keys
