-- ===== src/Dedup/Tests.antt =====
-- The dedup cache at a concrete history, in which an id is removed and admitted again.
use whatsrust.Prelude.{List, [], ◌∷◌}
use whatsrust.Dedup.{Op, admits, marks, removes, new, run}
use whatsrust.Dedup.Bounds.{IsSane, run-IsSane}

abbrev some_ops : List Op
some_ops =
    admits "a" ∷ admits "b" ∷ admits "c" ∷ removes "a" ∷ admits "a" ∷ marks "a" ∷ admits "d" ∷ []

run-IsSane_example : IsSane (run some_ops (new 3))
run-IsSane_example = run-IsSane some_ops 3
