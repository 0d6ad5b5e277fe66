-- ===== src/Http/Response/Status.antt =====
-- The status that the client takes out of the first line of a response.
use whatsrust.Prelude.{
  ℕ, suc, ◌≤◌, ◌<◌, ◌≡◌, ◌≢◌, refl, sym, ap, ◌∙◌, List, [], ◌∷◌, ◌++◌, Bool, true, false, ◌&&◌,
  ◌==◌, ltb, leb, if◌then◌else◌, arith, inl, inr, Bool-cases, if_either, keep,
}
use whatsrust.Prelude.Table.{All}
use mathlib.Core.List.{append_assoc}
use whatsrust.Prelude.Texts.{
  Text, codes, Lacks, split_on, split_on-append, Lacks-append, is_whitespace,
}
use whatsrust.Http.Head.{
  strip_cr, pieces_to_lines, split_by, split_whitespace, is_full, parse_unsigned, or_zero,
}
use whatsrust.Http.Lossy.{idle, decode_lossy, from_utf8_lossy, decode_lossy-ascii}
use whatsrust.Http.Response.{
  decimal, decimal_within, status_text, status_of_words, status_of_lines, status_of,
}
use whatsrust.Http.Response.Decimal.{
  IsDigit, decimal_within-digits, decimal_within-first, parse_unsigned-decimal,
}

strip_cr-line : (s : Text) → strip_cr (s ++ 13 ∷ []) ≡ s
unfolding strip_cr
strip_cr-line [] = refl
strip_cr-line (c ∷ []) = refl
strip_cr-line (c ∷ d ∷ s) = ap (λ r. c ∷ r) (strip_cr-line (d ∷ s))

pieces_cons : (d : ℕ) (s : Text) → (p : Text) × (ps : List Text) × (split_on d s ≡ p ∷ ps)
unfolding split_on
pieces_cons d [] = ([], [], refl)
pieces_cons d (c ∷ s) = elim (Bool-cases (c == d)) [
  | inl hit ↦ rw hit ([], split_on d s, refl)
  | inr miss ↦ let (p, ps, e) = pieces_cons d s in rw (miss, e) (c ∷ p, ps, refl)
]

-- The first line of a text that has a line end.
first_line :
    (l s : Text)
    → Lacks 10 l
    → (ls : List Text) × (pieces_to_lines (split_on 10 (l ++ 13 ∷ 10 ∷ s)) ≡ l ∷ ls)
unfolding pieces_to_lines
first_line l s h =
    let (p, ps, e) = pieces_cons 10 s in
    (
      pieces_to_lines (p ∷ ps),
      ap (λ t. pieces_to_lines (split_on 10 t)) (sym (append_assoc l (13 ∷ []) (10 ∷ s)))
          ∙ ap pieces_to_lines (
              split_on-append 10 (l ++ 13 ∷ []) s
                (Lacks-append 10 l (13 ∷ []) h ((omega arith), tt))
              ∙ ap (λ ps. (l ++ 13 ∷ []) ∷ ps) e)
          ∙ to_lines (l ++ 13 ∷ []) p ps
          ∙ ap (λ k. k ∷ pieces_to_lines (p ∷ ps)) (strip_cr-line l),
    )
  where
    to_lines :
        (s p : Text) (ps : List Text)
        → pieces_to_lines (s ∷ p ∷ ps) ≡ strip_cr s ∷ pieces_to_lines (p ∷ ps)
    to_lines [] p ps = refl
    to_lines (c ∷ s) p ps = refl

split_by-append :
    (p : ℕ → Bool) (s t : Text) (c : ℕ)
    → All (λ x. p x ≡ false) s
    → p c ≡ true
    → split_by p (s ++ c ∷ t) ≡ s ∷ split_by p t
unfolding split_by
split_by-append p [] t c h e = rw e refl
split_by-append p (x ∷ s) t c h e = rw (h.0, split_by-append p s t c h.1 e) refl

module _ {ℓ} {A : Type ℓ} (P : A → Type 0) where
  pub All-append : (xs ys : List A) → All P xs → All P ys → All P (xs ++ ys)
  All-append [] ys h k = k
  All-append (x ∷ xs) ys h k = (h.0, All-append xs ys h.1 k)

pub All-imp : (P Q : ℕ → Type 0) → ((c : ℕ) → P c → Q c) → (s : Text) → All P s → All Q s
All-imp P Q f [] h = tt
All-imp P Q f (c ∷ s) h = (f c h.0, All-imp P Q f s h.1)

-- A printable ASCII character.
abbrev pub IsPlain : ℕ → Type 0
IsPlain c = (32 ≤ c) × (c < 127)

abbrev pub all_plain : Text → Bool
all_plain [] = true
all_plain (c ∷ s) = leb 32 c && (ltb c 127 && all_plain s)

pub all_plain-IsPlain : (s : Text) → all_plain s ≡ true → All IsPlain s
all_plain-IsPlain [] h = tt
all_plain-IsPlain (c ∷ s) h =
    let parts : (leb 32 c ≡ true) × (ltb c 127 ≡ true) × (all_plain s ≡ true) = ground arith in
    ((ground arith, ground arith), all_plain-IsPlain s (parts.2))

status_text-IsPlain : (status : ℕ) → All IsPlain (status_text status)
unfolding status_text
status_text-IsPlain status = all_plain-IsPlain (status_text status) (
    plain_if (status == 200) _ _ refl (
      plain_if (status == 202) _ _ refl (
        plain_if (status == 400) _ _ refl (
          plain_if (status == 401) _ _ refl (
            plain_if (status == 403) _ _ refl (
              plain_if (status == 404) _ _ refl (
                plain_if (status == 405) _ _ refl (
                  plain_if (status == 409) _ _ refl (
                    plain_if (status == 411) _ _ refl (
                      plain_if (status == 413) _ _ refl (
                        plain_if (status == 415) _ _ refl (
                          plain_if (status == 417) _ _ refl (
                            plain_if (status == 429) _ _ refl (
                              plain_if (status == 500) _ _ refl (
                                plain_if (status == 501) _ _ refl (
                                  plain_if (status == 503) _ _ refl
                                    (plain_if (status == 504) _ _ refl refl)))))))))))))))))
  where
    plain_if :
        (b : Bool) (s t : Text)
        → all_plain s ≡ true
        → all_plain t ≡ true
        → all_plain (if b then s else t) ≡ true
    plain_if b s t h k = if_either (λ x. all_plain x ≡ true) b h k

abbrev pub status_line : ℕ → Text
status_line status = codes "HTTP/1.1 " ++ (decimal status ++ (codes " " ++ status_text status))

IsDigit-IsPlain : (c : ℕ) → IsDigit c → IsPlain c
IsDigit-IsPlain c h = (omega arith, omega arith)

pub decimal-IsPlain : (n : ℕ) → All IsPlain (decimal n)
unfolding decimal
decimal-IsPlain n =
    All-imp IsDigit IsPlain IsDigit-IsPlain (decimal_within (suc n) n)
      (decimal_within-digits (suc n) n)

pub status_line-IsPlain : (status : ℕ) → All IsPlain (status_line status)
status_line-IsPlain status =
    All-append IsPlain (codes "HTTP/1.1 ") (decimal status ++ (codes " " ++ status_text status))
      (all_plain-IsPlain (codes "HTTP/1.1 ") refl)
      (All-append IsPlain (decimal status) (codes " " ++ status_text status)
        (decimal-IsPlain status) ((omega arith, omega arith), status_text-IsPlain status))

IsDigit-word : (c : ℕ) → IsDigit c → is_whitespace c ≡ false
unfolding is_whitespace
IsDigit-word c h = ground arith

status_of_words-line :
    (status : ℕ) → status < 65536 → status_of_words (split_whitespace (status_line status)) ≡ status
unfolding split_whitespace split_by is_whitespace decimal
status_of_words-line status h =
    let (c, s, e) = decimal_within-first (suc status) status (omega arith) in
    let digits = decimal_within-digits (suc status) status in
    let words =
      split_by-append is_whitespace (decimal_within (suc status) status) (status_text status) 32
        (All-imp IsDigit (λ c. is_whitespace c ≡ false) IsDigit-word
          (decimal_within (suc status) status) digits)
        refl in
    ap (λ ws. status_of_words (keep is_full (codes "HTTP/1.1" ∷ ws))) words
    ∙ second (decimal status) c s (split_by is_whitespace (status_text status)) e
    ∙ ap or_zero (parse_unsigned-decimal 16 status h)
  where
    second :
        (d : Text) (c : ℕ) (s : Text) (ws : List Text)
        → d ≡ c ∷ s
        → status_of_words (keep is_full (codes "HTTP/1.1" ∷ d ∷ ws)) ≡ or_zero (parse_unsigned 16 d)
    second [] c s ws e = absurd (cc)
    second (x ∷ d) c s ws e = refl

pub status_of-line :
    (status : ℕ) (s : Text)
    → status < 65536
    → status_of (status_line status ++ 13 ∷ 10 ∷ s) ≡ status
unfolding status_of from_utf8_lossy
status_of-line status s h =
    let plain = status_line-IsPlain status in
    let text = decode_lossy s idle in
    let ascii = decode_lossy-ascii (status_line status ++ 13 ∷ 10 ∷ []) s (
      All-append (λ c. c < 128) (status_line status) (13 ∷ 10 ∷ [])
        (All-imp IsPlain (λ c. c < 128) (λ c k. omega arith) (status_line status) plain)
        (omega arith, (omega arith, tt))) in
    let (ls, e) =
      first_line (status_line status) text
        (All-imp IsPlain (λ c. c ≢ 10) (λ c k. omega arith) (status_line status) plain) in
    ap (λ t. status_of_lines (pieces_to_lines (split_on 10 t)))
      (ap (λ t. decode_lossy t idle) (sym (append_assoc (status_line status) (13 ∷ 10 ∷ []) s))
        ∙ ascii
        ∙ append_assoc (status_line status) (13 ∷ 10 ∷ []) text)
    ∙ ap status_of_lines e
    ∙ status_of_words-line status h
