-- ===== src/Store/Queue.antt =====
-- The outbound queue (src/storage.rs, the table `outbound_queue` and its operations). A time is an
-- i64 of unix seconds, given to the operation as the value that `now_secs()` returned; sums and
-- differences of seconds stay far inside i64. The statuses are those that the operations write.
-- A statement runs to its end or leaves the table as it was (`unchecked_transaction`).
pub mod Rows
pub mod Claim
pub mod Retry
pub mod Depth
mod Tests
use whatsrust.Prelude.{
  ℕ, suc, ◌+◌, ◌^◌, ◌%◌, not, keep, String, Bool, true, false, ◌&&◌, ◌||◌, Option, none, some, List,
  [], ◌∷◌, ◌++◌, leb, ◌==◌, min, str_eq, if◌then◌else◌,
}
use whatsrust.Prelude.Int.{ℤ, pos, ◌+ℤ◌, ◌-ℤ◌, ltb_ℤ, leb_ℤ}
use whatsrust.Prelude.Table.{update_where, first_where, count_where, row, IsAscending}

pub data Status : Type 0 where
  queued inflight sent failed : Status

pub record Row : Type 0 where
  pub id : ℕ
  pub jid : String
  pub op_kind : String
  pub payload_json : String
  pub payload_blob : Option (List ℕ)
  pub wa_message_id : Option String
  pub delivery_status : Option String
  pub status : Status
  pub retries : ℕ
  pub retry_after : ℤ
  pub created_at : ℤ
  pub updated_at : ℤ

-- What `claim_next_job` returns of a row.
pub record OutboundJobRow : Type 0 where
  pub id : ℕ
  pub jid : String
  pub op_kind : String
  pub payload_json : String
  pub payload_blob : Option (List ℕ)
  pub retries : ℕ

-- The rows in the order of their ids, and the last id that AUTOINCREMENT handed out.
pub record Queue : Type 0 where
  pub rows : List Row
  pub seq : ℕ

abbrev pub is_queued : Status → Bool
is_queued queued = true
is_queued _ = false

abbrev pub is_inflight : Status → Bool
is_inflight inflight = true
is_inflight _ = false

-- status IN ('queued', 'inflight')
abbrev pub is_open : Status → Bool
is_open queued = true
is_open inflight = true
is_open _ = false

abbrev pub has_id : ℕ → Row → Bool
has_id i r = r.id == i

abbrev pub rows_of : Row → ℕ
rows_of r = r.id

abbrev pub job : ℕ → Queue → Option Row
job i q = row rows_of i q.rows

unfoldable pub enqueue_job_at :
    String → String → String → Option (List ℕ) → ℤ → ℤ → Queue → Queue × ℕ
enqueue_job_at jid op_kind payload_json payload_blob execute_at ts q =
    let r : Row = record {
      id = suc q.seq;
      jid = jid;
      op_kind = op_kind;
      payload_json = payload_json;
      payload_blob = payload_blob;
      wa_message_id = none;
      delivery_status = none;
      status = queued;
      retries = 0;
      retry_after = execute_at;
      created_at = ts;
      updated_at = ts;
    } in
    (record { rows = q.rows ++ r ∷ []; seq = suc q.seq }, suc q.seq)

-- The column `retry_after` has the default 0.
unfoldable pub enqueue_job : String → String → String → Option (List ℕ) → ℤ → Queue → Queue × ℕ
unfolding enqueue_job_at
enqueue_job jid op_kind payload_json payload_blob ts q =
    enqueue_job_at jid op_kind payload_json payload_blob (pos 0) ts q

-- WHERE status = 'queued' AND retry_after <= ts
abbrev pub is_due : ℤ → Row → Bool
is_due ts r = is_queued r.status && leb_ℤ r.retry_after ts

abbrev pub to_job_row : Row → OutboundJobRow
to_job_row r = record {
  id = r.id;
  jid = r.jid;
  op_kind = r.op_kind;
  payload_json = r.payload_json;
  payload_blob = r.payload_blob;
  retries = r.retries;
}

unfoldable pub claim_next_job : ℤ → Queue → Queue × Option OutboundJobRow
claim_next_job ts q = elim (first_where (is_due ts) q.rows) [
  | none ↦ (q, none)
  | some r ↦ (
    record q {
      rows =
          update_where (has_id r.id) (λ x. record x { status = inflight; updated_at = ts }) q.rows;
    },
    some (to_job_row r),
  )
]

-- COALESCE(new, old)
abbrev pub coalesce {ℓ} : {A : Type ℓ} → Option A → Option A → Option A
coalesce none old = old
coalesce (some a) old = some a

unfoldable pub mark_outbound_sent_with_id : ℕ → Option String → ℤ → Queue → Queue
mark_outbound_sent_with_id id wa ts q = record q {
  rows =
      update_where (has_id id)
        (λ x. record x {
          status = sent;
          wa_message_id = coalesce wa x.wa_message_id;
          updated_at = ts;
        })
        q.rows;
}

-- `SELECT retries … .unwrap_or(0)`
abbrev pub retries_of : ℕ → Queue → ℕ
retries_of id q = elim (job id q) [ none ↦ 0 | some r ↦ r.retries ]

-- 1i64 << retries.min(6)
abbrev pub backoff_secs : ℕ → ℕ
backoff_secs retries = 2 ^ min retries 6

-- The update of one row, with the time until which it waits.
abbrev pub bump_retries : ℕ → ℤ → ℤ → Row → Row
bump_retries max_retries ts until x = record x {
  retries = x.retries + 1;
  status = if leb max_retries (x.retries + 1) then failed else queued;
  retry_after = if leb max_retries (x.retries + 1) then pos 0 else until;
  updated_at = ts;
}

unfoldable pub mark_outbound_failed : ℕ → ℕ → ℤ → Queue → Queue
mark_outbound_failed id max_retries ts q =
    let until : ℤ = ts +ℤ pos (backoff_secs (retries_of id q)) in
    record q { rows = update_where (has_id id) (bump_retries max_retries ts until) q.rows }

-- WHERE status = 'inflight' AND updated_at < cutoff
abbrev pub is_stale : ℤ → Row → Bool
is_stale cutoff r = is_inflight r.status && ltb_ℤ r.updated_at cutoff

-- `now` is read for the cutoff, and `ts` again inside the statement. The number of rows changed
-- comes back; the u32 check of it fails only for a table of 2^32 such rows.
unfoldable pub requeue_stale_inflight : ℤ → ℤ → ℤ → Queue → Queue × ℕ
requeue_stale_inflight older_than_secs now ts q =
    let cutoff = now -ℤ older_than_secs in
    (
      record q {
        rows =
            update_where (is_stale cutoff) (λ x. record x { status = queued; updated_at = ts })
              q.rows;
      },
      count_where (is_stale cutoff) q.rows,
    )

unfoldable pub requeue_outbound : ℕ → ℤ → Queue → Queue
requeue_outbound id ts q = record q {
  rows = update_where (has_id id) (λ x. record x { status = queued; updated_at = ts }) q.rows;
}

unfoldable pub outbound_queue_depth : Queue → ℕ
outbound_queue_depth q = count_where (λ r. is_open r.status) q.rows

abbrev pub has_wa_id : String → Row → Bool
has_wa_id wa r = elim r.wa_message_id [ none ↦ false | some w ↦ str_eq w wa ]

unfoldable pub update_delivery_status : String → String → ℤ → Queue → Queue
update_delivery_status wa status ts q = record q {
  rows =
      update_where (has_wa_id wa) (λ x. record x { delivery_status = some status; updated_at = ts })
        q.rows;
}

abbrev pub is_finished : Status → Bool
is_finished sent = true
is_finished failed = true
is_finished _ = false

-- WHERE status IN ('sent', 'failed') AND updated_at < cutoff
abbrev pub is_prunable : ℤ → Row → Bool
is_prunable cutoff r = is_finished r.status && ltb_ℤ r.updated_at cutoff

-- The number of rows deleted is cut to a u32. The vacuum that follows changes no row.
unfoldable pub prune_old_data : ℤ → ℤ → Queue → Queue × ℕ
prune_old_data sent_retention_secs now q =
    let cutoff = now -ℤ sent_retention_secs in
    (
      record q { rows = keep (λ r. not (is_prunable cutoff r)) q.rows },
      count_where (is_prunable cutoff) q.rows % 2 ^ 32,
    )

-- The operations as data, so that a history of the queue is a list of them.
pub data Op : Type 0 where
  enqueue : String → String → String → Option (List ℕ) → ℤ → Op
  enqueue_at : String → String → String → Option (List ℕ) → ℤ → ℤ → Op
  claim : ℤ → Op
  mark_sent : ℕ → Option String → ℤ → Op
  mark_failed : ℕ → ℕ → ℤ → Op
  requeue_stale : ℤ → ℤ → ℤ → Op
  requeue : ℕ → ℤ → Op
  deliver : String → String → ℤ → Op
  prune : ℤ → ℤ → Op

unfoldable pub apply : Op → Queue → Queue
apply (enqueue j k p b ts) q = (enqueue_job j k p b ts q).0
apply (enqueue_at j k p b at ts) q = (enqueue_job_at j k p b at ts q).0
apply (claim ts) q = (claim_next_job ts q).0
apply (mark_sent i wa ts) q = mark_outbound_sent_with_id i wa ts q
apply (mark_failed i n ts) q = mark_outbound_failed i n ts q
apply (requeue_stale older now ts) q = (requeue_stale_inflight older now ts q).0
apply (requeue i ts) q = requeue_outbound i ts q
apply (deliver wa status ts) q = update_delivery_status wa status ts q
apply (prune retention now) q = (prune_old_data retention now q).0

unfoldable pub run : List Op → Queue → Queue
run [] q = q
run (o ∷ os) q = run os (apply o q)

-- The ids go up and none passes the sequence counter.
abbrev pub IsValid : Queue → Type 0
IsValid q = IsAscending rows_of 0 q.rows q.seq

abbrev pub empty : Queue
empty = record { rows = []; seq = 0 }
