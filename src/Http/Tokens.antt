-- ===== src/Http/Tokens.antt =====
-- The token check of src/api.rs: `ct_eq` and `request_has_api_token`. Tokens are compared by their
-- UTF-8 bytes.
use mathlib.Core.Path.{subst}
use whatsrust.Prelude.{
  ℕ, zero, suc, ◌+◌, ◌-◌, ◌*◌, ◌/◌, ◌%◌, ◌^◌, ◌≤◌, ◌<◌, ◌≡◌, ◌≢◌, ◌↔◌, ◌⊎◌, refl, sym, ap, Bool,
  true, false, Option, none, some, List, [], ◌∷◌, ◌++◌, arith, ltb, ◌==◌, inl, inr, Bool-cases,
  Option-cases, if◌then◌else◌, length,
}
use whatsrust.Prelude.Texts.{Text, codes, eq_ignore_case, strip_prefix}
use whatsrust.Prelude.Table.{All}
use whatsrust.Http.{Header}
use whatsrust.Http.Headers.{find_header}
pub mod Held

-- The UTF-8 bytes of a character, and of a text (`str::as_bytes`).
unfoldable pub utf8_char : ℕ → Text
utf8_char c =
    if ltb c 128
    then c ∷ []
    else if ltb c 2048
    then (192 + c / 64) ∷ (128 + c % 64) ∷ []
    else if ltb c 65536
    then (224 + c / 4096) ∷ (128 + c / 64 % 64) ∷ (128 + c % 64) ∷ []
    else (240 + c / 262144) ∷ (128 + c / 4096 % 64) ∷ (128 + c / 64 % 64) ∷ (128 + c % 64) ∷ []

unfoldable pub utf8 : Text → Text
unfolding utf8_char
utf8 [] = []
utf8 (c ∷ s) = utf8_char c ++ utf8 s

-- `^` and `|` on the lowest `n` bits.
unfoldable pub xor_bits : ℕ → ℕ → ℕ → ℕ
xor_bits zero x y = 0
xor_bits (suc n) x y = (x + y) % 2 + 2 * xor_bits n (x / 2) (y / 2)

unfoldable pub or_bits : ℕ → ℕ → ℕ → ℕ
or_bits zero x y = 0
or_bits (suc n) x y = (if x % 2 + y % 2 == 0 then 0 else 1) + 2 * or_bits n (x / 2) (y / 2)

-- The fold of `ct_eq` over the pairs of bytes.
unfoldable pub difference : ℕ → Text → Text → ℕ
unfolding xor_bits or_bits
difference acc [] b = acc
difference acc (x ∷ a) [] = acc
difference acc (x ∷ a) (y ∷ b) = difference (or_bits 8 acc (xor_bits 8 x y)) a b

-- `ct_eq`, on the bytes of its two texts.
unfoldable pub ct_eq : Text → Text → Bool
unfolding difference
ct_eq a b = if length a == length b then difference 0 a b == 0 else false

-- Whether a header that may be absent holds the token.
unfoldable pub token_is : Text → Option Text → Bool
unfolding ct_eq utf8
token_is expected none = false
token_is expected (some t) = ct_eq (utf8 t) (utf8 expected)

-- `v.strip_prefix("Bearer ")` of the header, where it is there
unfoldable pub bearer : Option Text → Option Text
unfolding strip_prefix
bearer none = none
bearer (some v) = strip_prefix (codes "Bearer ") v

unfoldable pub request_has_api_token : List Header → Text → Bool
unfolding find_header token_is bearer
request_has_api_token headers expected =
    if token_is expected (find_header headers (codes "x-api-token"))
    then true
    else token_is expected (bearer (find_header headers (codes "authorization")))

xor_bits-zero : (n x y : ℕ) → x < 2 ^ n → y < 2 ^ n → xor_bits n x y ≡ 0 → x ≡ y
unfolding xor_bits
xor_bits-zero zero x y hx hy e = omega arith
xor_bits-zero (suc n) x y hx hy e =
    omega (arith, xor_bits-zero n (x / 2) (y / 2) (omega arith) (omega arith) (omega arith))

xor_bits-same : (n x : ℕ) → xor_bits n x x ≡ 0
unfolding xor_bits
xor_bits-same zero x = refl
xor_bits-same (suc n) x = omega (arith, xor_bits-same n (x / 2))

xor_bits_lt : (n x y : ℕ) → xor_bits n x y < 2 ^ n
unfolding xor_bits
xor_bits_lt zero x y = omega arith
xor_bits_lt (suc n) x y = omega (arith, xor_bits_lt n (x / 2) (y / 2))

or_bits-zero : (n x y : ℕ) → x < 2 ^ n → y < 2 ^ n → or_bits n x y ≡ 0 → (x ≡ 0) × (y ≡ 0)
unfolding or_bits
or_bits-zero zero x y hx hy e = (omega arith, omega arith)
or_bits-zero (suc n) x y hx hy e =
    let (low, high) = or_bits-zero n (x / 2) (y / 2) (omega arith) (omega arith) (ground arith) in
    (ground arith, ground arith)

or_bits-lt : (n x y : ℕ) → or_bits n x y < 2 ^ n
unfolding or_bits
or_bits-lt zero x y = omega arith
or_bits-lt (suc n) x y = ground (arith, or_bits-lt n (x / 2) (y / 2))

or_bits-zeros : (n : ℕ) → or_bits n 0 0 ≡ 0
unfolding or_bits
or_bits-zeros zero = refl
or_bits-zeros (suc n) = omega (arith, or_bits-zeros n)

abbrev pub AreBytes : Text → Type 0
AreBytes s = All (λ b. b < 256) s

difference-zero :
    (acc : ℕ) (a b : Text)
    → acc < 256
    → AreBytes a
    → AreBytes b
    → length a ≡ length b
    → difference acc a b ≡ 0
    → (acc ≡ 0) × (a ≡ b)
unfolding difference
difference-zero acc [] [] h ha hb l e = (e, refl)
difference-zero acc [] (y ∷ b) h ha hb l e = absurd (omega arith)
difference-zero acc (x ∷ a) [] h ha hb l e = absurd (omega arith)
difference-zero acc (x ∷ a) (y ∷ b) h ha hb l e =
    let x_xor = xor_bits 8 x y in
    let (zero_or, tails) =
      difference-zero (or_bits 8 acc x_xor) a b (or_bits-lt 8 acc x_xor) ha.1 hb.1 (omega arith)
        e in
    let (acc_zero, xor_zero) = or_bits-zero 8 acc x_xor h (xor_bits_lt 8 x y) zero_or in
    let heads = xor_bits-zero 8 x y ha.0 hb.0 xor_zero in (acc_zero, cc)

difference-same : (a : Text) → difference 0 a a ≡ 0
unfolding difference
difference-same [] = refl
difference-same (x ∷ a) = rw (xor_bits-same 8 x, or_bits-zeros 8) (difference-same a)

-- The comparison that folds `^` and `|` over the bytes of two texts gives `true` exactly for
-- equal texts.
pub ct_eq_iff : (a b : Text) → AreBytes a → AreBytes b → (ct_eq a b ≡ true) ↔ (a ≡ b)
unfolding ct_eq
ct_eq_iff a b ha hb = (there, back)
  where
    there : ct_eq a b ≡ true → a ≡ b
    there e =
        let l : length a ≡ length b = ground arith in
        (difference-zero 0 a b (omega arith) ha hb l (ground arith)).1

    back : a ≡ b → ct_eq a b ≡ true
    back e = subst (λ k. ct_eq a k ≡ true) e (ground (arith, difference-same a))

utf8_char-AreBytes : (c : ℕ) → c < 1114112 → AreBytes (utf8_char c)
unfolding utf8_char
utf8_char-AreBytes c h = ground arith

append-AreBytes : (s t : Text) → AreBytes s → AreBytes t → AreBytes (s ++ t)
append-AreBytes [] t h k = k
append-AreBytes (c ∷ s) t h k = (h.0, append-AreBytes s t h.1 k)

-- The codes are characters.
abbrev pub AreChars : Text → Type 0
AreChars s = All (λ c. c < 1114112) s

pub utf8-AreBytes : (s : Text) → AreChars s → AreBytes (utf8 s)
unfolding utf8
utf8-AreBytes [] h = tt
utf8-AreBytes (c ∷ s) h =
    append-AreBytes (utf8_char c) (utf8 s) (utf8_char-AreBytes c h.0) (utf8-AreBytes s h.1)

utf8_char-cancel :
    (c d : ℕ) (s t : Text)
    → c < 1114112
    → d < 1114112
    → utf8_char c ++ s ≡ utf8_char d ++ t
    → (c ≡ d) × (s ≡ t)
unfolding utf8_char
utf8_char-cancel c d s t hc hd e = ground arith

utf8_char-nonempty : (c : ℕ) (s : Text) → utf8_char c ++ s ≢ []
unfolding utf8_char
utf8_char-nonempty c s e = ground arith

pub utf8-cancel : (s t : Text) → AreChars s → AreChars t → utf8 s ≡ utf8 t → s ≡ t
unfolding utf8
utf8-cancel [] [] hs ht e = refl
utf8-cancel [] (d ∷ t) hs ht e = absurd (utf8_char-nonempty d (utf8 t) (sym e))
utf8-cancel (c ∷ s) [] hs ht e = absurd (utf8_char-nonempty c (utf8 s) e)
utf8-cancel (c ∷ s) (d ∷ t) hs ht e =
    let (heads, tails) = utf8_char-cancel c d (utf8 s) (utf8 t) hs.0 ht.0 e in
    let rest = utf8-cancel s t hs.1 ht.1 tails in cc

pub token_is_iff :
    (expected v : Text)
    → AreChars expected
    → AreChars v
    → (token_is expected (some v) ≡ true) ↔ (v ≡ expected)
unfolding token_is
token_is_iff expected v he hv = (
  λ e.
      utf8-cancel v expected hv he
        ((ct_eq_iff (utf8 v) (utf8 expected) (utf8-AreBytes v hv) (utf8-AreBytes expected he)).0 e),
  λ e.
      (ct_eq_iff (utf8 v) (utf8 expected) (utf8-AreBytes v hv) (utf8-AreBytes expected he)).1
        (ap utf8 e),
)
