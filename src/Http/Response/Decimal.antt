-- ===== src/Http/Response/Decimal.antt =====
-- Printing and parsing of unsigned numbers.
use whatsrust.Prelude.{
  ℕ, zero, suc, ◌+◌, ◌*◌, ◌-◌, ◌/◌, ◌%◌, ◌^◌, ◌≤◌, ◌<◌, ◌≡◌, refl, ap, ◌∙◌, some, [], ◌∷◌, ◌++◌,
  ltb, arith, inl, inr, Bool-cases,
}
use mathlib.Core.Path.{subst}
use whatsrust.Prelude.Table.{All}
use whatsrust.Prelude.Texts.{Text}
use whatsrust.Http.Head.{digits_value, parse_digits, parse_unsigned}
use whatsrust.Http.Response.{decimal_within, decimal}

abbrev pub IsDigit : ℕ → Type 0
IsDigit c = (b'0' ≤ c) × (c ≤ b'9')

digits_value-snoc :
    (acc : ℕ) (s : Text) (d n : ℕ)
    → IsDigit d
    → digits_value acc s ≡ some n
    → digits_value acc (s ++ d ∷ []) ≡ some (n * 10 + (d - b'0'))
unfolding digits_value
digits_value-snoc acc [] d n h e = ground arith
digits_value-snoc acc (c ∷ s) d n h e =
    ground (arith, digits_value-snoc (acc * 10 + (c - b'0')) s d n h)

digits_value-decimal_within :
    (fuel n : ℕ) → n < fuel → digits_value 0 (decimal_within fuel n) ≡ some n
unfolding decimal_within digits_value
digits_value-decimal_within zero n h = absurd (omega arith)
digits_value-decimal_within (suc fuel) n h = elim (Bool-cases (ltb n 10)) [
  | inl small ↦ rw small (ground arith)
  | inr large ↦ rw large (
      digits_value-snoc 0 (decimal_within fuel (n / 10)) (b'0' + n % 10) (n / 10)
        (omega arith, omega arith) (digits_value-decimal_within fuel (n / 10) (ground arith))
      ∙ (let e : n / 10 * 10 + (b'0' + n % 10 - b'0') ≡ n = omega arith in ground arith))
]

All-snoc : (p : ℕ → Type 0) (s : Text) (c : ℕ) → All p s → p c → All p (s ++ c ∷ [])
All-snoc p [] c h k = (k, tt)
All-snoc p (x ∷ s) c h k = (h.0, All-snoc p s c h.1 k)

-- Digits are neither white space nor a sign.
pub decimal_within-digits : (fuel n : ℕ) → All IsDigit (decimal_within fuel n)
unfolding decimal_within
decimal_within-digits zero n = tt
decimal_within-digits (suc fuel) n = elim (Bool-cases (ltb n 10)) [
  | inl small ↦ rw small ((omega arith, ground arith), tt)
  | inr large ↦ rw large (
      All-snoc IsDigit (decimal_within fuel (n / 10)) (b'0' + n % 10)
        (decimal_within-digits fuel (n / 10)) (omega arith, omega arith))
]

-- A printed number starts with a digit.
pub decimal_within-first :
    (fuel n : ℕ) → n < fuel → (c : ℕ) × (s : Text) × (decimal_within fuel n ≡ c ∷ s)
unfolding decimal_within
decimal_within-first zero n h = absurd (omega arith)
decimal_within-first (suc fuel) n h = elim (Bool-cases (ltb n 10)) [
  | inl small ↦ rw small (b'0' + n, [], refl)
  | inr large ↦
      let (c, s, e) = decimal_within-first fuel (n / 10) (ground arith) in
      rw large (c, s ++ (b'0' + n % 10) ∷ [], ap (λ t. t ++ (b'0' + n % 10) ∷ []) e)
]

parse_unsigned-digits :
    (w n c : ℕ) (s : Text)
    → IsDigit c
    → digits_value 0 (c ∷ s) ≡ some n
    → n < 2 ^ w
    → parse_unsigned w (c ∷ s) ≡ some n
unfolding parse_unsigned parse_digits
parse_unsigned-digits w n c s h e small =
    let parsed : parse_digits w (c ∷ s) ≡ some n = rw (e, parse_digits) (ground arith) in
    ground arith

-- What is printed is parsed to itself.
pub parse_unsigned-decimal : (w n : ℕ) → n < 2 ^ w → parse_unsigned w (decimal n) ≡ some n
unfolding decimal
parse_unsigned-decimal w n small =
    let (c, s, e) = decimal_within-first (suc n) n (omega arith) in
    let digits = subst (λ t. All IsDigit t) e (decimal_within-digits (suc n) n) in
    let value =
      subst (λ t. digits_value 0 t ≡ some n) e
        (digits_value-decimal_within (suc n) n (omega arith)) in
    ap (parse_unsigned w) e ∙ parse_unsigned-digits w n c s digits.0 value small
