-- ===== src/Http/Tokens/Held.antt =====
-- When a request holds the token, in terms of its headers.
use whatsrust.Prelude.{◌≡◌, Option, some, List}
use whatsrust.Prelude.Table.{All}
use whatsrust.Prelude.Texts.{Text}
use whatsrust.Http.{Header}
use whatsrust.Http.Tokens.{AreChars}

-- Every header value is a text of characters.
abbrev pub ValuesAreChars : List Header → Type 0
ValuesAreChars hs = All (λ h. AreChars (Header.value h)) hs

-- A header that may be absent has only characters.
abbrev HasChars : Option Text → Type 0
HasChars o = (v : Text) → o ≡ some v → AreChars v
