-- ===== src/Store/Jobs/Admits.antt =====
-- When a trigger is accepted (src/storage.rs, `enqueue_backfill_job`), said of the tables alone.
use whatsrust.Prelude.{
  ◌⊎◌, ℕ, suc, ◌≤◌, ◌≡◌, refl, sym, String, true, false, Option, none, some, List, [], ◌∷◌, arith,
  str_eq, eq_iff, inl, inr, Bool-cases, Option-cases, some_cancel,
}
use whatsrust.Prelude.Int.{ℤ, pos, ◌-ℤ◌, ◌≤ℤ◌, ◌<ℤ◌}
use whatsrust.Prelude.Table.{All, All-map, count_where, first_where, first_where-none}
use whatsrust.Store.Db.{
  Db, BackfillJobRow, BackfillCursorRow, JobStatus, queued, running, paused, cancelled,
}
use whatsrust.Store.Cursors.{get_backfill_cursor}
use whatsrust.Store.Jobs.{
  accepted, is_active, active_in, active_job, cooldown_left, last_backfill_at, depth, is_full,
  is_unembedded, backlog, effective_target, accepted_target, is_kind, insert_job,
  enqueue_backfill_job,
}
use whatsrust.Store.Jobs.Enqueue.{Accepted, enqueue_accepted, enqueued}

abbrev pub IsClosed : JobStatus → Type 0
IsClosed queued = false ≡ true
IsClosed running = false ≡ true
IsClosed paused = false ≡ true
IsClosed JobStatus.done = Unit
IsClosed JobStatus.failed = Unit
IsClosed cancelled = Unit

-- No job of the chat is open.
abbrev pub IsFreeOf : String → BackfillJobRow → Type 0
IsFreeOf chat j = j.chat_jid ≡ chat → IsClosed j.status

closed : (s : JobStatus) → is_active s ≡ false → IsClosed s
closed queued h = absurd (cc)
closed running h = absurd (cc)
closed paused h = absurd (cc)
closed JobStatus.done h = tt
closed JobStatus.failed h = tt
closed cancelled h = tt

not_active : (s : JobStatus) → IsClosed s → is_active s ≡ false
not_active queued h = absurd (cc)
not_active running h = absurd (cc)
not_active paused h = absurd (cc)
not_active JobStatus.done h = refl
not_active JobStatus.failed h = refl
not_active cancelled h = refl

active_in-IsFreeOf :
    (chat : String) (j : BackfillJobRow) → active_in chat j ≡ false → IsFreeOf chat j
active_in-IsFreeOf chat j h e =
    let here = (eq_iff j.chat_jid chat).1 e in closed j.status (ground (arith, h, here))

active_job-none :
    (chat : String) (js : List BackfillJobRow)
    → All (IsFreeOf chat) js
    → first_where (active_in chat) js ≡ none
unfolding first_where
active_job-none chat [] h = refl
active_job-none chat (j ∷ js) h = elim (Bool-cases (str_eq j.chat_jid chat)) [
  | inl same ↦
      let shut = not_active j.status (h.0 ((eq_iff j.chat_jid chat).0 same)) in
      ground (arith, same, shut, active_job-none chat js h.1)
  | inr other ↦ ground (arith, other, active_job-none chat js h.1)
]

module _ (chat kind : String) (value : Option ℤ) (cooldown_secs limit max_messages : ℤ)
    (model_id : Option String) (ts : ℤ) (db : Db) where
  -- What the tables and the settings must be like for the trigger to be accepted.
  pub record Admits : Type 0 where
    pub known : (kind ≡ "since") ⊎ ((kind ≡ "all") ⊎ (kind ≡ "count"))
    pub free : All (IsFreeOf chat) db.jobs
    pub cooled :
        (c : BackfillCursorRow) (last : ℤ)
        → get_backfill_cursor chat db ≡ some c
        → c.last_backfill_at ≡ some last
        → pos 0 <ℤ cooldown_secs
        → cooldown_secs ≤ℤ ts -ℤ last
    pub room : pos 0 <ℤ limit → pos (depth db) <ℤ limit
    pub drained :
        (m : String)
        → model_id ≡ some m
        → count_where (is_unembedded db.embeddings m) db.messages ≤ 100000

  last_of :
      (c : BackfillCursorRow) (last : ℤ)
      → get_backfill_cursor chat db ≡ some c
      → c.last_backfill_at ≡ some last
      → last_backfill_at chat db ≡ some last
  unfolding last_backfill_at
  last_of c last e h = rw (e, last_backfill_at) h

  backlog-le :
      (o : Option String)
      → backlog o db ≡ none
      → (m : String) → o ≡ some m
      → count_where (is_unembedded db.embeddings m) db.messages ≤ 100000
  unfolding backlog
  backlog-le none h m e = absurd (cc)
  backlog-le (some n) h m e = rw (sym (some_cancel e)) (ground arith)

  known_kind :
      (id : ℕ) (target : Option ℤ)
      → (enqueued chat kind value cooldown_secs limit max_messages model_id ts db).1
        ≡ some (accepted id target)
      → is_kind kind ≡ true
  unfolding enqueue_backfill_job
  known_kind id target h = ground arith

  is_kind-known : is_kind kind ≡ true → (kind ≡ "since") ⊎ ((kind ≡ "all") ⊎ (kind ≡ "count"))
  is_kind-known h = elim (Bool-cases (str_eq kind "since")) [
    | inl e ↦ inl ((eq_iff kind "since").0 e)
    | inr e ↦ elim (Bool-cases (str_eq kind "all")) [
      | inl f ↦ inr (inl ((eq_iff kind "all").0 f))
      | inr f ↦ inr (inr ((eq_iff kind "count").0 (ground (arith, h, e, f))))
    ]
  ]

  accepted-Admits :
      (id : ℕ) (target : Option ℤ)
      → (enqueued chat kind value cooldown_secs limit max_messages model_id ts db).1
        ≡ some (accepted id target)
      → Admits
  unfolding active_job
  accepted-Admits id target h =
      let a =
        enqueue_accepted chat kind value cooldown_secs limit max_messages model_id ts db id target
          h in
      record {
        known = is_kind-known (known_kind id target h);
        free =
            All-map db.jobs (λ j e. active_in-IsFreeOf chat j e)
              (first_where-none (active_in chat) db.jobs (Accepted.no_active a));
        cooled = λ c last e l positive. Accepted.cooled a last (last_of c last e l) positive;
        room = Accepted.room a;
        drained = backlog-le model_id (Accepted.drained a);
      }

  cooldown_left-none : Admits → cooldown_left chat cooldown_secs ts db ≡ none
  unfolding cooldown_left last_backfill_at
  cooldown_left-none ok = elim (Option-cases (get_backfill_cursor chat db)) [
    | inl e ↦ rw (e, cooldown_left) (ground arith)
    | inr (c, e) ↦ elim (Option-cases c.last_backfill_at) [
      | inl n ↦ rw (e, n, cooldown_left) (ground arith)
      | inr (last, l) ↦ rw (e, l, cooldown_left) (ground (arith, Admits.cooled ok c last e l))
    ]
  ]

  backlog-none : (o : Option String) → model_id ≡ o → Admits → backlog o db ≡ none
  unfolding backlog
  backlog-none none e ok = refl
  backlog-none (some m) e ok = ground (arith, Admits.drained ok m e)

  known-is_kind : (kind ≡ "since") ⊎ ((kind ≡ "all") ⊎ (kind ≡ "count")) → is_kind kind ≡ true
  known-is_kind (inl e) = rw e refl
  known-is_kind (inr (inl e)) = rw e refl
  known-is_kind (inr (inr e)) = rw e refl

  -- A trigger is accepted exactly if its kind is one of the three, no job of the chat is queued,
  -- running or paused, the cooldown since the chat's last backfill is over, the open jobs are fewer
  -- than the limit, and at most 100000 messages lack an embedding of the active model, where these
  -- three limits are set; and then the job is stored as the next one, and its id and its target are
  -- reported.
  pub enqueue_backfill_job_iff :
      (Admits
        → enqueued chat kind value cooldown_secs limit max_messages model_id ts db ≡ (
          insert_job chat kind (effective_target kind value max_messages) ts db,
          some (accepted (suc db.job_seq) (accepted_target kind value max_messages)),
        ))
      × ((id : ℕ) (target : Option ℤ)
          → (enqueued chat kind value cooldown_secs limit max_messages model_id ts db).1
            ≡ some (accepted id target)
          → Admits)
  unfolding enqueue_backfill_job active_job is_full
  enqueue_backfill_job_iff = (
    λ ok.
        let free = active_job-none chat db.jobs (Admits.free ok) in
        let cooled = cooldown_left-none ok in
        let full : is_full limit db ≡ false = ground (arith, Admits.room ok) in
        let drained = backlog-none model_id refl ok in
        let kinds = known-is_kind (Admits.known ok) in
        rw (free, cooled, full, drained, kinds, enqueue_backfill_job) refl,
    λ id target h. accepted-Admits id target h,
  )
