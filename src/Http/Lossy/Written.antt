-- ===== src/Http/Lossy/Written.antt =====
-- What is written in UTF-8 is read back (`String::from_utf8_lossy`).
use whatsrust.Prelude.{
  ℕ, suc, ◌+◌, ◌*◌, ◌/◌, ◌%◌, ◌≤◌, ◌<◌, ◌≡◌, ◌⊎◌, refl, ap, ◌∙◌, true, ◌&&◌, [], ◌∷◌, ◌++◌, arith,
  ltb, leb, ◌==◌, inl, inr, Bool-cases, if_cases,
}
use whatsrust.Prelude.Table.{All}
use whatsrust.Prelude.Texts.{Text}
use whatsrust.Http.Tokens.{utf8_char, utf8}
use whatsrust.Http.Lossy.{
  idle, within, lead, next_byte, decode_lossy, from_utf8_lossy, decode_lossy-ascii,
}

-- The values that a character may have.
abbrev pub IsChar : ℕ → Type 0
IsChar c = (c < 55296) ⊎ ((57344 ≤ c) × (c < 1114112))

decode_lossy-next :
    (b k acc lo hi : ℕ) (s : Text)
    → lo ≤ b
    → b ≤ hi
    → decode_lossy (b ∷ s) (within k acc lo hi) ≡ next_byte k acc b (decode_lossy s)
unfolding decode_lossy
decode_lossy-next b k acc lo hi s low high =
    let inside : (leb lo b && leb b hi) ≡ true = ground arith in rw (inside, decode_lossy) refl

decode_lossy-lead :
    (b k acc lo hi : ℕ) (s : Text)
    → lead b ≡ within k acc lo hi
    → decode_lossy (b ∷ s) idle ≡ decode_lossy s (within k acc lo hi)
unfolding decode_lossy
decode_lossy-lead b k acc lo hi s e = rw (e, decode_lossy) refl

lead-two : (c : ℕ) → 2 ≤ c → c < 32 → lead (192 + c) ≡ within 0 c 128 191
unfolding lead
lead-two c low high = ground arith

-- A lead byte and the byte behind it, which is within the bounds that the lead byte sets.
abbrev Leads : ℕ → ℕ → ℕ → ℕ → Type 0
Leads b k acc next = (lo : ℕ) × (hi : ℕ) × (lead b ≡ within k acc lo hi) × (lo ≤ next) × (next ≤ hi)

lead-three :
    (c x : ℕ)
    → c < 16
    → x < 64
    → (c ≡ 0 → 32 ≤ x)
    → (c ≡ 13 → x < 32)
    → Leads (224 + c) 1 c (128 + x)
unfolding lead
lead-three c x small hx first last = elim (Bool-cases (c == 0)) [
  | inl z ↦ (160, 191, ground (arith, z), ground (arith, first, z), omega arith)
  | inr nz ↦ elim (Bool-cases (c == 13)) [
    | inl d ↦ (128, 159, ground (arith, d), omega arith, ground (arith, last, d))
    | inr nd ↦ (128, 191, ground arith, omega arith, omega arith)
  ]
]

lead-four :
    (c x : ℕ) → c < 5 → x < 64 → (c ≡ 0 → 16 ≤ x) → (c ≡ 4 → x < 16) → Leads (240 + c) 2 c (128 + x)
unfolding lead
lead-four c x small hx first last = elim (Bool-cases (c == 0)) [
  | inl z ↦ (144, 191, ground (arith, z), ground (arith, first, z), omega arith)
  | inr nz ↦ elim (Bool-cases (c == 4)) [
    | inl d ↦ (128, 143, ground (arith, d), omega arith, ground (arith, last, d))
    | inr nd ↦ (128, 191, ground arith, omega arith, omega arith)
  ]
]

-- The last byte of a character, and one before it.
decode_lossy-last :
    (acc x : ℕ) (s : Text)
    → x < 64
    → decode_lossy ((128 + x) ∷ s) (within 0 acc 128 191) ≡ (acc * 64 + x) ∷ decode_lossy s idle
decode_lossy-last acc x s h =
    decode_lossy-next (128 + x) 0 acc 128 191 s (omega arith) (omega arith)
    ∙ ap (λ d. (acc * 64 + d) ∷ decode_lossy s idle) (omega arith)

decode_lossy-more :
    (k acc lo hi x : ℕ) (s : Text)
    → lo ≤ 128 + x
    → 128 + x ≤ hi
    → decode_lossy ((128 + x) ∷ s) (within (suc k) acc lo hi)
      ≡ decode_lossy s (within k (acc * 64 + x) 128 191)
decode_lossy-more k acc lo hi x s low high =
    decode_lossy-next (128 + x) (suc k) acc lo hi s low high
    ∙ ap (λ d. decode_lossy s (within k (acc * 64 + d) 128 191)) (omega arith)

-- A character that is written comes back.
pub decode_lossy-utf8_char :
    (c : ℕ) (s : Text) → IsChar c → decode_lossy (utf8_char c ++ s) idle ≡ c ∷ decode_lossy s idle
unfolding utf8_char
decode_lossy-utf8_char c s h = elim (Bool-cases (ltb c 128)) [
  | inl one ↦ rw (one, utf8_char) (decode_lossy-ascii (c ∷ []) s (ground arith, tt))
  | inr more ↦ elim (Bool-cases (ltb c 2048)) [
    | inl two ↦
        rw (more, two, utf8_char)
          (decode_lossy-lead (192 + c / 64) 0 (c / 64) 128 191 _
              (lead-two (c / 64) (ground arith) (ground arith))
            ∙ decode_lossy-last (c / 64) (c % 64) s (omega arith)
            ∙ ap (λ d. d ∷ decode_lossy s idle) (omega arith))
    | inr many ↦ elim (Bool-cases (ltb c 65536)) [
      | inl three ↦ rw (more, many, three, utf8_char) (of_three (ground arith) (ground arith))
      | inr four ↦ rw (more, many, four, utf8_char) (of_four (ground arith))
    ]
  ]
]
  where
    of_three :
        2048 ≤ c
        → c < 65536
        → decode_lossy ((224 + c / 4096) ∷ (128 + c / 64 % 64) ∷ (128 + c % 64) ∷ s) idle
          ≡ c ∷ decode_lossy s idle
    of_three low high =
        let (lo, hi, e, l, g) =
          lead-three (c / 4096) (c / 64 % 64) (omega arith) (omega arith) (λ z. omega arith)
            (λ z. elim h [ inl a ↦ omega arith | inr b ↦ omega (arith, b) ]) in
        decode_lossy-lead (224 + c / 4096) 1 (c / 4096) lo hi _ e
        ∙ decode_lossy-more 0 (c / 4096) lo hi (c / 64 % 64) _ l g
        ∙ decode_lossy-last (c / 4096 * 64 + c / 64 % 64) (c % 64) s (omega arith)
        ∙ ap (λ d. d ∷ decode_lossy s idle) (omega arith)

    of_four :
        65536 ≤ c
        → decode_lossy
            ((240 + c / 262144) ∷ (128 + c / 4096 % 64) ∷ (128 + c / 64 % 64) ∷ (128 + c % 64) ∷ s)
            idle
          ≡ c ∷ decode_lossy s idle
    of_four low =
        let top : c < 1114112 = elim h [ inl a ↦ omega arith | inr b ↦ b.1 ] in
        let (lo, hi, e, l, g) =
          lead-four (c / 262144) (c / 4096 % 64) (omega arith) (omega arith) (λ z. omega arith)
            (λ z. omega arith) in
        decode_lossy-lead (240 + c / 262144) 2 (c / 262144) lo hi _ e
        ∙ decode_lossy-more 1 (c / 262144) lo hi (c / 4096 % 64) _ l g
        ∙ decode_lossy-more 0 (c / 262144 * 64 + c / 4096 % 64) 128 191 (c / 64 % 64) _
            (omega arith) (omega arith)
        ∙ decode_lossy-last ((c / 262144 * 64 + c / 4096 % 64) * 64 + c / 64 % 64) (c % 64) s
            (omega arith)
        ∙ ap (λ d. d ∷ decode_lossy s idle) (omega arith)

-- A text that is written in UTF-8 is read back.
pub from_utf8_lossy-utf8 : (s : Text) → All IsChar s → from_utf8_lossy (utf8 s) ≡ s
unfolding from_utf8_lossy utf8 decode_lossy
from_utf8_lossy-utf8 [] h = refl
from_utf8_lossy-utf8 (c ∷ s) h =
    decode_lossy-utf8_char c (utf8 s) h.0 ∙ ap (λ t. c ∷ t) (from_utf8_lossy-utf8 s h.1)

utf8_char-bytes : (c : ℕ) → IsChar c → All (λ b. b < 256) (utf8_char c)
unfolding utf8_char
utf8_char-bytes c h =
    if_cases (All (λ b. b < 256)) (ltb c 128) (λ one. (ground arith, tt))
      λ more.
        if_cases (All (λ b. b < 256)) (ltb c 2048) (λ two. (ground arith, (omega arith, tt)))
          λ many.
            if_cases (All (λ b. b < 256)) (ltb c 65536)
              (λ three. (ground arith, (omega arith, (omega arith, tt))))
              λ four.
                let top : c < 1114112 = elim h [ inl a ↦ omega arith | inr b ↦ b.1 ] in
                (omega arith, (omega arith, (omega arith, (omega arith, tt))))

pub utf8-bytes : (s : Text) → All IsChar s → All (λ b. b < 256) (utf8 s)
unfolding utf8
utf8-bytes [] h = tt
utf8-bytes (c ∷ s) h = both (utf8_char c) (utf8_char-bytes c h.0) (utf8-bytes s h.1)
  where
    both :
        (xs : Text)
        → All (λ b. b < 256) xs
        → All (λ b. b < 256) (utf8 s)
        → All (λ b. b < 256) (xs ++ utf8 s)
    both [] k rest = rest
    both (x ∷ xs) k rest = (k.0, both xs k.1 rest)
