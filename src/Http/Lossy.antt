-- ===== src/Http/Lossy.antt =====
-- The reading of bytes as UTF-8, where what is no character is replaced: `String::from_utf8_lossy`.
pub mod Written
use whatsrust.Prelude.{
  ℕ, zero, suc, ◌+◌, ◌-◌, ◌*◌, ◌/◌, ◌%◌, ◌≤◌, ◌<◌, ◌≡◌, ◌⊎◌, refl, sym, ap, ◌∙◌, Bool, true, false,
  ◌&&◌, List, [], ◌∷◌, ◌++◌, arith, ltb, leb, ◌==◌, inl, inr, Bool-cases, if_cases, if◌then◌else◌,
}
use mathlib.Core.List.{append_assoc}
use whatsrust.Prelude.Table.{All}
use whatsrust.Prelude.Texts.{Text}
use whatsrust.Http.Tokens.{utf8_char, utf8}

-- Byte by byte. Within a character: how many bytes are to come, the bits so
-- far, and the bounds of the next byte. What is no character becomes U+FFFD.
pub data Decoder : Type 0 where
  idle : Decoder
  within : ℕ → ℕ → ℕ → ℕ → Decoder
  bad : Decoder

unfoldable pub lead : ℕ → Decoder
lead b =
    if ltb b 128
    then idle
    else if leb 194 b && leb b 223
    then within 0 (b - 192) 128 191
    else if b == 224
    then within 1 0 160 191
    else if b == 237
    then within 1 13 128 159
    else if leb 225 b && leb b 239
    then within 1 (b - 224) 128 191
    else if b == 240
    then within 2 0 144 191
    else if leb 241 b && leb b 243
    then within 2 (b - 240) 128 191
    else if b == 244
    then within 2 4 128 143
    else bad

-- The state behind a first byte, and what the byte adds to the text of the rest.
abbrev pub first_byte : ℕ → Decoder → (Decoder → Text) → Text
first_byte b idle rest = b ∷ rest idle
first_byte b bad rest = 65533 ∷ rest idle
first_byte b (within k acc lo hi) rest = rest (within k acc lo hi)

abbrev pub next_byte : ℕ → ℕ → ℕ → (Decoder → Text) → Text
next_byte zero acc b rest = (acc * 64 + (b - 128)) ∷ rest idle
next_byte (suc k) acc b rest = rest (within k (acc * 64 + (b - 128)) 128 191)

unfoldable pub decode_lossy : Text → Decoder → Text
unfolding lead
decode_lossy [] (within k acc lo hi) = 65533 ∷ []
decode_lossy [] idle = []
decode_lossy [] bad = []
decode_lossy (b ∷ s) (within k acc lo hi) =
    if leb lo b && leb b hi
    then next_byte k acc b (decode_lossy s)
    else 65533 ∷ first_byte b (lead b) (decode_lossy s)
decode_lossy (b ∷ s) idle = first_byte b (lead b) (decode_lossy s)
decode_lossy (b ∷ s) bad = first_byte b (lead b) (decode_lossy s)

unfoldable pub from_utf8_lossy : Text → Text
unfolding decode_lossy
from_utf8_lossy s = decode_lossy s idle

pub decode_lossy-ascii :
    (s t : Text) → All (λ c. c < 128) s → decode_lossy (s ++ t) idle ≡ s ++ decode_lossy t idle
unfolding decode_lossy lead
decode_lossy-ascii [] t h = refl
decode_lossy-ascii (c ∷ s) t h =
    let small : lead c ≡ idle = rw (ltb_true c 128 h.0, lead) refl in
    rw (small, decode_lossy) (ap (λ r. c ∷ r) (decode_lossy-ascii s t h.1))
  where
    ltb_true : (m n : ℕ) → m < n → ltb m n ≡ true
    ltb_true m n l = ground arith
