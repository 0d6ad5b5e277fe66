-- ===== src/Receipts/Conserve.antt =====
-- How often a message is pending and sent, over the commands (src/read_receipts.rs).
use whatsrust.Prelude.{
  ℕ, ◌+◌, ◌≡◌, refl, sym, ap, String, Bool, true, false, ◌&&◌, Option, none, some, List, [], ◌∷◌,
  ◌++◌, arith, str_eq, eq_iff, inl, inr, Bool-cases, if◌then◌else◌,
}
use whatsrust.Receipts.{
  Batch, has_key, same_participant, of_chat, insert, drain_chat, Cmd, seen, flush_chat, set_client,
  tick, Scheduler, idle, send_all, flush, step, serve, run_scheduler,
}

-- A chat and a participant, compared apart from the keys of the map.
abbrev pub same_reader : String → Option String → String → Option String → Bool
same_reader chat none chat2 none = str_eq chat chat2
same_reader chat (some p) chat2 (some p2) = str_eq chat chat2 && str_eq p p2
same_reader chat none chat2 (some p2) = false
same_reader chat (some p) chat2 none = false

-- How often an id occurs in a list, and, for one chat and participant, in batches and in the commands.
abbrev pub times_in : String → List String → ℕ
times_in id [] = 0
times_in id (x ∷ xs) = (if str_eq x id then 1 else 0) + times_in id xs

times_in-append :
    (id : String) (xs ys : List String) → times_in id (xs ++ ys) ≡ times_in id xs + times_in id ys
times_in-append id [] ys = omega arith
times_in-append id (x ∷ xs) ys = omega (arith, times_in-append id xs ys)

-- A batch with the key of an insertion is one of the same chat and participant.
has_key-same :
    (chat : String) (participant : Option String) (b : Batch)
    → has_key chat participant b ≡ true
    → (b.chat ≡ chat) × (b.participant ≡ participant)
has_key-same chat participant b h =
    ((eq_iff b.chat chat).0 (ground arith), same b.participant participant (ground arith))
  where
    same : (p q : Option String) → same_participant p q ≡ true → p ≡ q
    same none none e = refl
    same none (some q) e = absurd (cc)
    same (some p) none e = absurd (cc)
    same (some p) (some q) e = ap (λ k. some k) ((eq_iff p q).0 e)

module _ (id to : String) (by : Option String) where
  abbrev pub times : List Batch → ℕ
  times [] = 0
  times (b ∷ bs) =
      (if same_reader to by b.chat b.participant then times_in id b.ids else 0) + times bs

  abbrev pub times_seen : List Cmd → ℕ
  times_seen [] = 0
  times_seen (seen chat participant x ∷ cs) =
      (if same_reader to by chat participant then (if str_eq x id then 1 else 0) else 0)
      + times_seen cs
  times_seen (flush_chat chat ∷ cs) = times_seen cs
  times_seen (set_client client ∷ cs) = times_seen cs
  times_seen (tick ∷ cs) = times_seen cs

  times-append : (bs cs : List Batch) → times (bs ++ cs) ≡ times bs + times cs
  times-append [] cs = omega arith
  times-append (b ∷ bs) cs = omega (arith, times-append bs cs)

  times-insert :
      (chat : String) (participant : Option String) (x : String) (bs : List Batch)
      → times (insert chat participant x bs)
        ≡ (if same_reader to by chat participant then (if str_eq x id then 1 else 0) else 0)
          + times bs
  unfolding insert
  times-insert chat participant x [] = ground arith
  times-insert chat participant x (b ∷ bs) = elim (Bool-cases (has_key chat participant b)) [
    | inl hit ↦
        let (c, p) = has_key-same chat participant b hit in
        rw (hit, insert, sym c, sym p) (ground (arith, times_in-append id b.ids (x ∷ [])))
    | inr miss ↦ rw (miss, insert) (omega (arith, times-insert chat participant x bs))
  ]

  times-drain_chat :
      (chat : String) (bs : List Batch)
      → times (drain_chat chat bs).0 + times (drain_chat chat bs).1 ≡ times bs
  unfolding drain_chat
  times-drain_chat chat [] = refl
  times-drain_chat chat (b ∷ bs) = elim (Bool-cases (of_chat chat b)) [
    | inl hit ↦ rw hit (omega (arith, times-drain_chat chat bs))
    | inr miss ↦ rw miss (omega (arith, times-drain_chat chat bs))
  ]

  -- The receipts that are pending or sent.
  abbrev held : Scheduler → ℕ
  held s = times s.pending + times s.sent

  held-send_all : (s : Scheduler) → held (send_all s) ≡ held s
  unfolding send_all
  held-send_all s = elim (Bool-cases s.client) [
    | inl on ↦ rw (on, send_all) (omega (arith, times-append s.sent s.pending))
    | inr off ↦ rw (off, send_all) refl
  ]

  held-flush : (chat : String) (s : Scheduler) → held (flush chat s) ≡ held s
  unfolding flush
  held-flush chat s = elim (Bool-cases s.client) [
    | inl on ↦
        rw (on, flush)
          (omega (
            arith,
            times-append s.sent (drain_chat chat s.pending).1,
            times-drain_chat chat s.pending,
          ))
    | inr off ↦ rw (off, flush) refl
  ]

  held-serve : (cs : List Cmd) (s : Scheduler) → held (serve cs s) ≡ held s + times_seen cs
  unfolding serve step
  held-serve [] s = omega arith
  held-serve (seen chat participant x ∷ cs) s = omega (
    arith,
    held-serve cs (step (seen chat participant x) s),
    times-insert chat participant x s.pending,
  )
  held-serve (flush_chat chat ∷ cs) s =
      omega (arith, held-serve cs (flush chat s), held-flush chat s)
  held-serve (set_client client ∷ cs) s =
      omega (arith, held-serve cs (record s { client = client }))
  held-serve (tick ∷ cs) s = omega (arith, held-serve cs (send_all s), held-send_all s)

  sent-send_all : (s : Scheduler) → s.client ≡ true → times (send_all s).pending ≡ 0
  unfolding send_all
  sent-send_all s on = rw (on, send_all) refl

  -- After any commands, each message of each chat and participant was handed to the sender, or is
  -- pending, for that chat and participant, and in all exactly as often as it was seen for them: no
  -- receipt is lost, sent twice, or filed under another chat or participant.
  pub serve-conserves :
      (cmds : List Cmd) (client : Bool)
      → times (serve cmds (idle client)).pending + times (serve cmds (idle client)).sent
        ≡ times_seen cmds
  serve-conserves cmds client = omega (arith, held-serve cmds (idle client))

  -- If there is a client when the scheduler stops, then after the shutdown nothing is pending, and
  -- each message of each chat and participant was handed to the sender, for that chat and participant,
  -- exactly as often as it was seen for them.
  pub run_scheduler-sent :
      (cmds : List Cmd) (client : Bool)
      → (serve cmds (idle client)).client ≡ true
      → (times (run_scheduler cmds client).pending ≡ 0)
        × (times (run_scheduler cmds client).sent ≡ times_seen cmds)
  unfolding run_scheduler
  run_scheduler-sent cmds client on =
      let all = held-serve cmds (idle client) in
      let kept = held-send_all (serve cmds (idle client)) in
      let none_left = sent-send_all (serve cmds (idle client)) on in
      (none_left, omega (arith, all, kept, none_left))
