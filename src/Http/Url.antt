-- ===== src/Http/Url.antt =====
-- Percent-encoding of query components: `urlencode` and `decode_query_component` of src/api.rs, and the split of a query string that `read_request_head` does.
use whatsrust.Prelude.{
  ℕ, ◌+◌, ◌-◌, ◌*◌, ◌/◌, ◌%◌, ◌<◌, ◌≡◌, ◌≢◌, refl, ap, ◌∙◌, Bool, true, false, ◌&&◌, ◌||◌, Option,
  none, some, List, [], ◌∷◌, ◌++◌, map, arith, ltb, leb, ◌==◌, inl, inr, Bool-cases, if◌then◌else◌,
}
use whatsrust.Prelude.Texts.{
  Text, split_on, split_once, split_on-append, split_on-whole, split_once-append, Lacks,
  Lacks-append,
}
use mathlib.Core.Path.{subst}
use whatsrust.Prelude.Table.{All}
use whatsrust.Http.Tokens.{utf8}
use whatsrust.Http.Lossy.{from_utf8_lossy}
use whatsrust.Http.Lossy.Written.{IsChar, from_utf8_lossy-utf8, utf8-bytes}

-- The bytes that stay as they are: letters, digits, `-`, `_`, `.` and `~`.
unfoldable pub is_unreserved : ℕ → Bool
is_unreserved b =
    leb b'A' b && leb b b'Z'
    || (leb b'a' b && leb b b'z'
        || (leb b'0' b && leb b b'9' || (b == 45 || (b == 95 || (b == 46 || b == 126)))))

-- The upper-case digit of `{:02X}`.
unfoldable pub hex_digit : ℕ → ℕ
hex_digit n = if ltb n 10 then 48 + n else 55 + n

unfoldable pub encode_byte : ℕ → Text
unfolding is_unreserved hex_digit
encode_byte b =
    if is_unreserved b then b ∷ [] else b'%' ∷ hex_digit (b / 16) ∷ hex_digit (b % 16) ∷ []

unfoldable pub encode_bytes : Text → Text
unfolding encode_byte
encode_bytes [] = []
encode_bytes (b ∷ s) = encode_byte b ++ encode_bytes s

-- The bytes of the text in UTF-8 are encoded.
unfoldable pub urlencode : Text → Text
unfolding encode_bytes utf8
urlencode s = encode_bytes (utf8 s)

unfoldable pub hex : ℕ → Option ℕ
hex c =
    if leb b'0' c && leb c b'9'
    then some (c - b'0')
    else if leb b'a' c && leb c b'f'
    then some (c - b'a' + 10)
    else if leb b'A' c && leb c b'F'
    then some (c - b'A' + 10)
    else none

-- Both digits of an escape: `(h << 4) | l` for h, l below 16.
unfoldable pub both_digits : Option ℕ → Option ℕ → Option ℕ
both_digits (some h) (some l) = some (h * 16 + l)
both_digits none l = none
both_digits (some h) none = none

-- The byte that `%` and two hexadecimal digits stand for.
unfoldable pub escape : ℕ → ℕ → ℕ → Option ℕ
unfolding hex both_digits
escape c h l = if c == b'%' then both_digits (hex h) (hex l) else none

-- A `+` is a space, any other byte is itself.
unfoldable pub plain_byte : ℕ → ℕ
plain_byte c = if c == b'+' then b' ' else c

-- An escape needs two bytes behind the `%`.
unfoldable pub decode_bytes : Text → Text
unfolding escape plain_byte
decode_bytes [] = []
decode_bytes (c ∷ []) = plain_byte c ∷ []
decode_bytes (c ∷ h ∷ []) = plain_byte c ∷ decode_bytes (h ∷ [])
decode_bytes (c ∷ h ∷ l ∷ s) = elim (escape c h l) [
  | some b ↦ b ∷ decode_bytes s
  | none ↦ plain_byte c ∷ decode_bytes (h ∷ l ∷ s)
]

-- The decoded bytes as a text: `String::from_utf8_lossy`.
unfoldable pub decode_query_component : Text → Text
unfolding decode_bytes from_utf8_lossy
decode_query_component s = from_utf8_lossy (decode_bytes s)

-- One `key=value` of a query: `splitn(2, '=')`, a missing value being empty.
unfoldable pub parse_pair : Text → Text × Text
unfolding decode_query_component
parse_pair s = elim (split_once b'=' s) [
  | none ↦ (decode_query_component s, [])
  | some (k, v) ↦ (decode_query_component k, decode_query_component v)
]

unfoldable pub parse_query : Text → List (Text × Text)
unfolding parse_pair
parse_query s = map parse_pair (split_on b'&' s)

decode-plain :
    (c : ℕ) (s : Text) → is_unreserved c ≡ true → decode_bytes (c ∷ s) ≡ c ∷ decode_bytes s
unfolding decode_bytes escape plain_byte is_unreserved
decode-plain c [] h = ground arith
decode-plain c (d ∷ []) h = ground arith
decode-plain c (d ∷ e ∷ s) h = ground arith

hex-hex_digit : (n : ℕ) → n < 16 → hex (hex_digit n) ≡ some n
unfolding hex hex_digit
hex-hex_digit n h = ground arith

escape-hex : (b : ℕ) → b < 256 → escape b'%' (hex_digit (b / 16)) (hex_digit (b % 16)) ≡ some b
unfolding escape both_digits
escape-hex b h =
    rw (hex-hex_digit (b / 16) (omega arith), hex-hex_digit (b % 16) (omega arith)) (ground arith)

encode_byte-keep : (b : ℕ) → is_unreserved b ≡ true → encode_byte b ≡ b ∷ []
unfolding encode_byte
encode_byte-keep b h = rw h refl

encode_byte-coded :
    (b : ℕ)
    → is_unreserved b ≡ false
    → encode_byte b ≡ b'%' ∷ hex_digit (b / 16) ∷ hex_digit (b % 16) ∷ []
unfolding encode_byte
encode_byte-coded b h = rw h refl

decode-escape :
    (b : ℕ) (s : Text)
    → b < 256
    → decode_bytes (b'%' ∷ hex_digit (b / 16) ∷ hex_digit (b % 16) ∷ s) ≡ b ∷ decode_bytes s
unfolding decode_bytes
decode-escape b s h = rw (escape-hex b h, decode_bytes) refl

decode_nil : decode_bytes [] ≡ []
unfolding decode_bytes
decode_nil = refl

-- Bytes come back from their percent-encoding.
decode_bytes-encode_bytes : (s : Text) → All (λ b. b < 256) s → decode_bytes (encode_bytes s) ≡ s
unfolding encode_bytes
decode_bytes-encode_bytes [] h = decode_nil
decode_bytes-encode_bytes (b ∷ s) h = elim (Bool-cases (is_unreserved b)) [
  | inl keep ↦
      rw
        (
          encode_byte-keep b keep,
          decode-plain b (encode_bytes s) keep,
          decode_bytes-encode_bytes s h.1,
        )
        refl
  | inr coded ↦
      rw
        (
          encode_byte-coded b coded,
          decode-escape b (encode_bytes s) h.0,
          decode_bytes-encode_bytes s h.1,
        )
        refl
]

-- A byte that stays as it is, or `%`.
abbrev pub IsSafe : ℕ → Type 0
IsSafe c = (is_unreserved c || c == b'%') ≡ true

hex_digit-IsSafe : (n : ℕ) → n < 16 → IsSafe (hex_digit n)
unfolding hex_digit is_unreserved
hex_digit-IsSafe n h = ground arith

safe_ne : (c d : ℕ) → IsSafe c → (is_unreserved d || d == b'%') ≡ false → c ≢ d
safe_ne c d safe h e = absurd (let g : IsSafe d = subst (λ k. IsSafe k) e safe in cc)

encode_byte-Lacks :
    (d b : ℕ) → (is_unreserved d || d == b'%') ≡ false → b < 256 → Lacks d (encode_byte b)
encode_byte-Lacks d b h small =
    let high = safe_ne (hex_digit (b / 16)) d (hex_digit-IsSafe (b / 16) (omega arith)) h in
    let low = safe_ne (hex_digit (b % 16)) d (hex_digit-IsSafe (b % 16) (omega arith)) h in
    elim (Bool-cases (is_unreserved b)) [
      | inl keep ↦ rw (encode_byte-keep b keep) (safe_ne b d (rw keep refl) h, tt)
      | inr coded ↦
          rw (encode_byte-coded b coded) (safe_ne b'%' d (ground arith) h, (high, (low, tt)))
    ]

encode_bytes-Lacks :
    (d : ℕ) (s : Text)
    → (is_unreserved d || d == b'%') ≡ false
    → All (λ b. b < 256) s
    → Lacks d (encode_bytes s)
unfolding encode_bytes
encode_bytes-Lacks d [] h ok = tt
encode_bytes-Lacks d (b ∷ s) h ok =
    Lacks-append d (encode_byte b) (encode_bytes s) (encode_byte-Lacks d b h ok.0)
      (encode_bytes-Lacks d s h ok.1)

-- A text comes back from its percent-encoding.
pub decode_query_component-urlencode :
    (s : Text) → All IsChar s → decode_query_component (urlencode s) ≡ s
unfolding decode_query_component urlencode
decode_query_component-urlencode s h =
    ap from_utf8_lossy (decode_bytes-encode_bytes (utf8 s) (utf8-bytes s h))
    ∙ from_utf8_lossy-utf8 s h

urlencode-Lacks :
    (d : ℕ) (s : Text)
    → (is_unreserved d || d == b'%') ≡ false
    → All IsChar s
    → Lacks d (urlencode s)
unfolding urlencode
urlencode-Lacks d s h ok = encode_bytes-Lacks d (utf8 s) h (utf8-bytes s ok)

-- A parameter as the clients write it: `key=value`, both percent-encoded.
abbrev pub pair_text : Text × Text → Text
pair_text (k, v) = urlencode k ++ b'=' ∷ urlencode v

-- Several parameters, with `&` between them.
abbrev pub query_text : Text × Text → List (Text × Text) → Text
query_text p [] = pair_text p
query_text p (q ∷ qs) = pair_text p ++ b'&' ∷ query_text q qs

abbrev pub AreTexts : Text × Text → Type 0
AreTexts (k, v) = All IsChar k × All IsChar v

parse_pair-pair_text : (p : Text × Text) → AreTexts p → parse_pair (pair_text p) ≡ p
unfolding parse_pair is_unreserved split_once
parse_pair-pair_text (k, v) h =
    rw
      (
        split_once-append b'=' (urlencode k) (urlencode v) (urlencode-Lacks b'=' k refl h.0),
        decode_query_component-urlencode k h.0,
        decode_query_component-urlencode v h.1,
        parse_pair,
      )
      refl

pair_text-Lacks : (p : Text × Text) → AreTexts p → Lacks b'&' (pair_text p)
unfolding is_unreserved
pair_text-Lacks (k, v) h =
    Lacks-append b'&' (urlencode k) (b'=' ∷ urlencode v) (urlencode-Lacks b'&' k refl h.0)
      (ground arith, urlencode-Lacks b'&' v refl h.1)

-- A query that is written from percent-encoded names and values is read back as the same
-- parameters in the same order, whatever Unicode characters the names and the values hold: no byte of
-- a value ends it or begins another parameter.
pub parse_query-query_text :
    (p : Text × Text) (qs : List (Text × Text))
    → AreTexts p
    → All AreTexts qs
    → parse_query (query_text p qs) ≡ p ∷ qs
unfolding parse_query
parse_query-query_text p [] h hs =
    rw (split_on-whole b'&' (pair_text p) (pair_text-Lacks p h), parse_pair-pair_text p h) refl
parse_query-query_text p (q ∷ qs) h hs =
    rw
      (
        split_on-append b'&' (pair_text p) (query_text q qs) (pair_text-Lacks p h),
        parse_pair-pair_text p h,
      )
      (ground (arith, parse_query-query_text q qs hs.0 hs.1))
