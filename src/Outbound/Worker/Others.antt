-- ===== src/Outbound/Worker/Others.antt =====
-- The rows that a turn of the outbound worker did not claim (src/bridge.rs).
use whatsrust.Prelude.{
  ℕ, suc, zero, ◌≡◌, ◌≢◌, ◌∙◌, refl, String, true, false, not, Option, none, some, List, [], ◌∷◌,
  inl, inr, Option-cases, Bool-cases,
}
use whatsrust.Prelude.Int.{ℤ}
use whatsrust.Prelude.Table.{row-update_ne}
use whatsrust.Store.Queue.{
  Queue, OutboundJobRow, IsValid, rows_of, job, claim_next_job, mark_outbound_sent_with_id,
  mark_outbound_failed, requeue_outbound,
}
use whatsrust.Store.Queue.Claim.{claim_next_job_lem}
use whatsrust.Outbound.Worker.{
  Outbox, Turn, Executed, ok, err, try_write, finish, send, handle_outbound,
}
use whatsrust.Outbound.Worker.Marks.{handle_outbound-send}

-- A write that leaves the row `k` alone does so however often it is tried.
try_write-job :
    (k : ℕ) (f : ℤ → Queue → Queue)
    → ((ts : ℤ) (q : Queue) → job k (f ts q) ≡ job k q)
    → (n : ℕ) (answers : List (Option ℤ)) (q : Queue) → job k (try_write f n answers q) ≡ job k q
unfolding try_write
try_write-job k f same zero answers q = refl
try_write-job k f same (suc n) [] q = refl
try_write-job k f same (suc n) (some ts ∷ answers) q = same ts q
try_write-job k f same (suc n) (none ∷ answers) q = try_write-job k f same n answers q

module _ (k : ℕ) (row : OutboundJobRow) (other : k ≢ row.id) where
  failed-job :
      (m n : ℕ) (answers : List (Option ℤ)) (q : Queue)
      → job k (try_write (mark_outbound_failed row.id m) n answers q) ≡ job k q
  unfolding mark_outbound_failed
  failed-job m n answers q =
      try_write-job k _ (λ ts q. row-update_ne rows_of _ (λ x. refl) k row.id q.rows other) n
        answers q

  sent-job :
      (wa : Option String) (n : ℕ) (answers : List (Option ℤ)) (q : Queue)
      → job k (try_write (mark_outbound_sent_with_id row.id wa) n answers q) ≡ job k q
  unfolding mark_outbound_sent_with_id
  sent-job wa n answers q =
      try_write-job k _ (λ ts q. row-update_ne rows_of _ (λ x. refl) k row.id q.rows other) n
        answers q

  requeued-job :
      (n : ℕ) (answers : List (Option ℤ)) (q : Queue)
      → job k (try_write (requeue_outbound row.id) n answers q) ≡ job k q
  unfolding requeue_outbound
  requeued-job n answers q =
      try_write-job k _ (λ ts q. row-update_ne rows_of _ (λ x. refl) k row.id q.rows other) n
        answers q

  module _ (parse_jid : String → Option String) (max_retries : ℕ) (turn : Turn) where
    finish-job :
        (chat : String) (x : Executed) (box : Outbox)
        → job k (finish max_retries turn row chat x box).0.queue ≡ job k box.queue
    unfolding finish
    finish-job chat (ok o) box = sent-job o.wa_message_id 3 turn.writes box.queue
    finish-job chat (err e) box = failed-job max_retries 3 turn.writes box.queue

    send-job :
        (box : Outbox) → job k (send parse_jid max_retries turn row box).0.queue ≡ job k box.queue
    unfolding send
    send-job box = elim (Option-cases (parse_jid row.jid)) [
      | inl e ↦ rw (e, send) (failed-job 0 1 turn.writes box.queue)
      | inr (chat, e) ↦ elim (Bool-cases (not turn.connected_after)) [
        | inl lost ↦ rw (e, lost, send) (requeued-job 1 turn.writes box.queue)
        | inr there ↦ rw (e, there, send) (finish-job chat turn.executed box)
      ]
    ]

    -- Over ascending ids, every row but the claimed one is after the turn as it was before, however
    -- the send and the writes go.
    pub handle_outbound-others :
        (box : Outbox)
        → IsValid box.queue
        → turn.cancelled ≡ false
        → turn.connected ≡ true
        → turn.claim_works ≡ true
        → (claim_next_job turn.claimed_at box.queue).1 ≡ some row
        → job k (handle_outbound parse_jid max_retries turn box).0.queue ≡ job k box.queue
    handle_outbound-others box v on up works h =
        let (r, c) = claim_next_job_lem turn.claimed_at box.queue v row h in
        rw (handle_outbound-send parse_jid max_retries turn box row on up works h) (
          send-job (record box { queue = (claim_next_job turn.claimed_at box.queue).0 })
          ∙ c.others k other)
