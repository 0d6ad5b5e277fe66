-- ===== src/Outbound/Worker/Marks.antt =====
-- What a turn of the outbound worker leaves of the row that it claimed (src/bridge.rs).
use whatsrust.Prelude.{
  ℕ, ◌+◌, ◌≡◌, ◌∙◌, refl, sym, String, Bool, true, false, not, Option, none, some, List, [], ◌∷◌,
  arith, leb, inl, inr, Option-cases, Bool-cases, if◌then◌else◌,
}
use whatsrust.Prelude.Int.{ℤ}
use whatsrust.Prelude.Table.{row-update_self}
use whatsrust.Store.Queue.{
  Queue, Row, OutboundJobRow, Status, inflight, queued, IsValid, rows_of, job, claim_next_job,
  mark_outbound_sent_with_id, mark_outbound_failed, requeue_outbound,
}
use whatsrust.Store.Queue.Claim.{claim_next_job_lem}
use whatsrust.Outbound.Worker.{
  Outbox, Turn, Executed, ok, err, Event, State, try_write, finish, send, take_job, handle_outbound,
}

-- What the end of a turn makes of the claimed row: its new status and number of retries.
pub data Fate : Type 0 where
  bad_jid unconnected : Fate
  delivered : Fate
  broken : Fate

-- The fate that the answers of the turn decide.
abbrev pub fate : Option String → Turn → Fate
fate none turn = bad_jid
fate (some chat) turn =
    if not turn.connected_after
    then unconnected
    else (elim turn.executed [ ok o ↦ delivered | err e ↦ broken ])

-- The status of the row after each fate.
abbrev pub left_status : Fate → ℕ → ℕ → Status
left_status bad_jid max_retries retries = Status.failed
left_status unconnected max_retries retries = queued
left_status delivered max_retries retries = Status.sent
left_status broken max_retries retries =
    if leb max_retries (retries + 1) then Status.failed else queued

-- The number of retries after each fate.
abbrev pub left_retries : Fate → ℕ → ℕ
left_retries bad_jid retries = retries + 1
left_retries broken retries = retries + 1
left_retries _ retries = retries

-- Whether some event says that the send failed for good.
abbrev pub reports_failure : List Event → Bool
reports_failure [] = false
reports_failure (e ∷ es) = elim e.state [ State.failed ↦ true | _ ↦ reports_failure es ]

-- What holds of the claimed row `i`, which had `retries`, after its turn.
pub record Settled (f : Fate) (max_retries retries i : ℕ) (result : Outbox × List Event)
    : Type 0 where
  pub after : Row
  pub found : job i result.0.queue ≡ some after
  pub status_eq : after.status ≡ left_status f max_retries retries
  pub retries_eq : after.retries ≡ left_retries f retries
  pub reported : reports_failure result.1 ≡ (elim after.status [ Status.failed ↦ true | _ ↦ false ])

module _ (i : ℕ) (ts : ℤ) (q : Queue) {r : Row} (found : job i q ≡ some r) where
  job-failed :
      (m : ℕ)
      → (x : Row) × (job i (mark_outbound_failed i m ts q) ≡ some x)
        × (x.retries ≡ r.retries + 1)
        × (x.status ≡ (if leb m (r.retries + 1) then Status.failed else queued))
  unfolding mark_outbound_failed
  job-failed m = (_, row-update_self rows_of _ (λ x. refl) i q.rows found, refl, refl)

  job-sent :
      (wa : Option String)
      → (x : Row) × (job i (mark_outbound_sent_with_id i wa ts q) ≡ some x)
        × (x.retries ≡ r.retries)
        × (x.status ≡ Status.sent)
  unfolding mark_outbound_sent_with_id
  job-sent wa = (_, row-update_self rows_of _ (λ x. refl) i q.rows found, refl, refl)

  job-requeued :
      (x : Row) × (job i (requeue_outbound i ts q) ≡ some x)
      × (x.retries ≡ r.retries)
      × (x.status ≡ queued)
  unfolding requeue_outbound
  job-requeued = (_, row-update_self rows_of _ (λ x. refl) i q.rows found, refl, refl)

module _ (parse_jid : String → Option String) (max_retries : ℕ) where
  abbrev pub fate_of : Turn → OutboundJobRow → Fate
  fate_of turn row = fate (parse_jid row.jid) turn

  finish-Settled :
      (turn : Turn) (row : OutboundJobRow) (chat : String) (x : Executed) (box : Outbox) {r : Row}
      (ts : ℤ) (rest : List (Option ℤ))
      → turn.writes ≡ some ts ∷ rest
      → job row.id box.queue ≡ some r
      → row.retries ≡ r.retries
      → Settled
          (elim x [ ok o ↦ delivered | err e ↦ broken ])
          max_retries
          row.retries
          row.id
          (finish max_retries turn row chat x box)
  unfolding finish try_write
  finish-Settled turn row chat (ok o) box ts rest w found same =
      let (x, f, n, s) = job-sent row.id ts box.queue found o.wa_message_id in
      record {
        after = x;
        found = rw (w, try_write) f;
        status_eq = s;
        retries_eq = n ∙ sym same;
        reported = rw s refl;
      }
  finish-Settled turn row chat (err e) box ts rest w found same =
      let (x, f, n, s) = job-failed row.id ts box.queue found max_retries in
      record {
        after = x;
        found = rw (w, try_write) f;
        status_eq = rw same s;
        retries_eq = rw same n;
        reported = ground (arith, s, same);
      }

  send-Settled :
      (turn : Turn) (row : OutboundJobRow) (box : Outbox) {r : Row} (ts : ℤ)
      (rest : List (Option ℤ))
      → turn.writes ≡ some ts ∷ rest
      → job row.id box.queue ≡ some r
      → row.retries ≡ r.retries
      → r.status ≡ inflight
      → Settled
          (fate_of turn row)
          max_retries
          row.retries
          row.id
          (send parse_jid max_retries turn row box)
  unfolding send try_write
  send-Settled turn row box ts rest w found same held = elim (Option-cases (parse_jid row.jid)) [
    | inl e ↦
        let (x, f, n, s') = job-failed row.id ts box.queue found 0 in
        let s : x.status ≡ Status.failed = ground (arith, s') in
        rw (e, send)
          (record {
            after = x;
            found = rw (w, try_write) f;
            status_eq = s;
            retries_eq = rw same n;
            reported = rw s refl;
          })
    | inr (chat, e) ↦ elim (Bool-cases (not turn.connected_after)) [
      | inl lost ↦
          let (x, f, n, s) = job-requeued row.id ts box.queue found in
          rw (e, lost, send)
            (record {
              after = x;
              found = rw (w, try_write) f;
              status_eq = s;
              retries_eq = n ∙ sym same;
              reported = rw s refl;
            })
      | inr there ↦
          rw (e, there, send) (finish-Settled turn row chat turn.executed box ts rest w found same)
    ]
  ]

  pub handle_outbound-send :
      (turn : Turn) (box : Outbox) (row : OutboundJobRow)
      → turn.cancelled ≡ false
      → turn.connected ≡ true
      → turn.claim_works ≡ true
      → (claim_next_job turn.claimed_at box.queue).1 ≡ some row
      → handle_outbound parse_jid max_retries turn box
        ≡ send parse_jid max_retries turn row
            (record box { queue = (claim_next_job turn.claimed_at box.queue).0 })
  unfolding handle_outbound take_job
  handle_outbound-send turn box row on up works h = ground (arith, on, up, works, h)

  -- A turn that claims a row settles it, over ascending ids and if the first try of its last write
  -- works. A refused JID fails the row for good; no connection queues it again with its retries as
  -- they were; a send marks it sent; a failed send counts a retry, and fails it for good exactly at
  -- the maximum. The turn reports a failure exactly if the row is left failed.
  pub handle_outbound-Settled :
      (turn : Turn) (box : Outbox) (row : OutboundJobRow) (ts : ℤ) (rest : List (Option ℤ))
      → IsValid box.queue
      → turn.cancelled ≡ false
      → turn.connected ≡ true
      → turn.claim_works ≡ true
      → (claim_next_job turn.claimed_at box.queue).1 ≡ some row
      → turn.writes ≡ some ts ∷ rest
      → Settled
          (fate_of turn row)
          max_retries
          row.retries
          row.id
          (handle_outbound parse_jid max_retries turn box)
  handle_outbound-Settled turn box row ts rest v on up works h w =
      let (r, c) = claim_next_job_lem turn.claimed_at box.queue v row h in
      let same : row.retries ≡ r.retries = rw c.same refl in
      rw (handle_outbound-send turn box row on up works h) (
        send-Settled turn row (record box { queue = (claim_next_job turn.claimed_at box.queue).0 })
          ts rest w c.marked same refl)
