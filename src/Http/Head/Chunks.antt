-- ===== src/Http/Head/Chunks.antt =====
-- The head that is read does not depend on how the bytes come in.
use whatsrust.Prelude.{◌≡◌, Option, none, some, List, [], ◌∷◌, ◌++◌}
use whatsrust.Prelude.Texts.{Text}
use whatsrust.Http.{RequestHead}
use whatsrust.Http.Head.{split_head, parse_head}

-- All the bytes that the reads give.
abbrev pub received : List (Option Text) → Text
received [] = []
received (none ∷ reads) = received reads
received (some chunk ∷ reads) = chunk ++ received reads

-- A head that is parsed is that of the first blank line, and takes along what the reads so far
-- brought behind it.
abbrev pub IsHeadOf : Text → RequestHead → Type 0
IsHeadOf bytes head =
    (h : Text) × (l : Text) × (more : Text) × (split_head bytes ≡ some (h, l ++ more))
    × (parse_head (h, l) ≡ some head)
