-- ===== src/Receipts/Tests.antt =====
-- The read receipt scheduler at concrete inputs.
use whatsrust.Prelude.{◌+◌, ◌≡◌, refl, true, false, none, some, List, [], ◌∷◌}
use whatsrust.Receipts.{
  Cmd, seen, flush_chat, set_client, tick, idle, send_all, flush, insert, step, serve,
  run_scheduler,
}
use whatsrust.Receipts.Conserve.{times, times_seen, serve-conserves, run_scheduler-sent}

abbrev some_cmds : List Cmd
some_cmds =
    seen "a" none "m1"
    ∷ flush_chat "a"
    ∷ set_client true
    ∷ seen "a" (some "p") "m2"
    ∷ tick
    ∷ seen "b" none "m1"
    ∷ []

client_at_stop : (serve some_cmds (idle false)).client ≡ true
unfolding serve step insert flush send_all
client_at_stop = refl

serve-conserves_example :
    times "m2" "a" (some "p") (serve some_cmds (idle false)).pending
      + times "m2" "a" (some "p") (serve some_cmds (idle false)).sent
    ≡ times_seen "m2" "a" (some "p") some_cmds
serve-conserves_example = serve-conserves "m2" "a" (some "p") some_cmds false

run_scheduler-sent_example :
    (times "m1" "b" none (run_scheduler some_cmds false).pending ≡ 0)
    × (times "m1" "b" none (run_scheduler some_cmds false).sent
        ≡ times_seen "m1" "b" none some_cmds)
run_scheduler-sent_example = run_scheduler-sent "m1" "b" none some_cmds false client_at_stop
