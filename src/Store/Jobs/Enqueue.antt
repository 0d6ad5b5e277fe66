-- ===== src/Store/Jobs/Enqueue.antt =====
-- What each outcome of `enqueue_backfill_job` means (src/storage.rs).
use whatsrust.Prelude.{◌⊎◌, ℕ, suc, ◌≡◌, ◌≢◌, String, true, Option, none, some, [], ◌∷◌, arith}
use whatsrust.Prelude.Int.{ℤ, pos, ◌-ℤ◌, ◌≤ℤ◌, ◌<ℤ◌}
use whatsrust.Prelude.Table.{count_where, count_where-append}
use whatsrust.Store.Db.{Db}
use whatsrust.Store.Jobs.{
  EnqueueOutcome, accepted, is_active, active_job, cooldown_left, last_backfill_at, depth, is_full,
  backlog, effective_target, accepted_target, is_count, new_job, insert_job, enqueue_backfill_job,
}

module _ (chat kind : String) (value : Option ℤ) (cooldown_secs limit max_messages : ℤ)
    (model_id : Option String) (ts : ℤ) (db : Db) where
  abbrev pub enqueued : Db × Option EnqueueOutcome
  enqueued = enqueue_backfill_job chat kind value cooldown_secs limit max_messages model_id ts db

  -- What holds when the trigger is accepted with the id `id` and the target `target`.
  pub record Accepted (id : ℕ) (target : Option ℤ) : Type 0 where
    pub fresh : id ≡ suc db.job_seq
    pub stored : enqueued.0 ≡ insert_job chat kind (effective_target kind value max_messages) ts db
    pub target_eq : target ≡ accepted_target kind value max_messages
    pub no_active : active_job chat db ≡ none
    pub cooled :
        (last : ℤ)
        → last_backfill_at chat db ≡ some last
        → pos 0 <ℤ cooldown_secs
        → cooldown_secs ≤ℤ ts -ℤ last
    pub room : pos 0 <ℤ limit → pos (depth db) <ℤ limit
    pub drained : backlog model_id db ≡ none

  -- An accepted trigger has passed every check: no open job of the chat, the cooldown over, room in
  -- the queue, no backlog of embeddings; and it stores the job, with the clamped target, under a
  -- fresh id.
  pub enqueue_accepted :
      (id : ℕ) (target : Option ℤ) → enqueued.1 ≡ some (accepted id target) → Accepted id target
  unfolding enqueue_backfill_job cooldown_left is_full
  enqueue_accepted id target h = record {
    fresh = ground arith;
    stored = ground arith;
    target_eq = ground arith;
    no_active = ground arith;
    cooled = λ last e c. ground arith;
    room = λ c. ground arith;
    drained = ground arith;
  }

  -- A trigger that is not accepted changes no table.
  pub enqueue_refused :
      ((id : ℕ) (target : Option ℤ) → enqueued.1 ≢ some (accepted id target)) → enqueued.0 ≡ db
  unfolding enqueue_backfill_job
  enqueue_refused h = ground (arith, h (suc db.job_seq) (accepted_target kind value max_messages))

  -- With a positive limit the open jobs of all chats never pass it.
  pub enqueue-depth-le : pos 0 <ℤ limit → pos (depth db) ≤ℤ limit → pos (depth enqueued.0) ≤ℤ limit
  unfolding enqueue_backfill_job is_full insert_job depth count_where
  enqueue-depth-le positive fits = ground (
    arith,
    count_where-append (λ j. is_active j.status) db.jobs
        (new_job chat kind (effective_target kind value max_messages) ts (suc db.job_seq) ∷ []),
  )

  -- An accepted count job under a positive ceiling asks for the smaller of what it asked and the
  -- ceiling.
  pub accepted_target-le :
      (id : ℕ) (v target : ℤ)
      → is_count kind ≡ true
      → pos 0 <ℤ max_messages
      → value ≡ some v
      → enqueued.1 ≡ some (accepted id (some target))
      → (target ≤ℤ max_messages) × (target ≤ℤ v) × ((target ≡ max_messages) ⊎ (target ≡ v))
  unfolding enqueue_backfill_job accepted_target effective_target
  accepted_target-le id v target counts positive asked h =
      (ground arith, ground arith, ground arith)
