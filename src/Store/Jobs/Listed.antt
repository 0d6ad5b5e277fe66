-- ===== src/Store/Jobs/Listed.antt =====
-- What the list of the open jobs shows (src/storage.rs, `list_backfill_jobs`).
use whatsrust.Prelude.{
  ◌≤◌, ◌≡◌, refl, String, Bool, true, List, [], ◌∷◌, arith, keep, length, str_eq,
}
use whatsrust.Prelude.Table.{count_where}
use whatsrust.Store.Db.{Db, BackfillJobRow}
use whatsrust.Store.Jobs.{is_active, active_in, depth, list_backfill_jobs}
use whatsrust.Store.Jobs.OneActive.{OneActive}

length-active :
    (js : List BackfillJobRow)
    → length (keep (λ j. is_active j.status) js) ≡ count_where (λ j. is_active j.status) js
unfolding count_where
length-active [] = refl
length-active (j ∷ js) = ground (arith, length-active js)

abbrev pub in_chat : String → BackfillJobRow → Bool
in_chat chat j = str_eq j.chat_jid chat

count-active :
    (chat : String) (js : List BackfillJobRow)
    → count_where (in_chat chat) (keep (λ j. is_active j.status) js)
      ≡ count_where (active_in chat) js
unfolding count_where
count-active chat [] = refl
count-active chat (j ∷ js) = ground (arith, count-active chat js)

-- The list of open jobs is as long as the depth that the admission of a trigger counts, and where no
-- chat has two open jobs it shows no chat twice.
pub list_backfill_jobs-active :
    (db : Db) (chat : String)
    → OneActive db
    → (length (list_backfill_jobs true db) ≡ depth db)
      × (count_where (in_chat chat) (list_backfill_jobs true db) ≤ 1)
unfolding list_backfill_jobs depth
list_backfill_jobs-active db chat one =
    (length-active db.jobs, omega (arith, count-active chat db.jobs, one chat))
