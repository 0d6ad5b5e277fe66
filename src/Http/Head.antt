-- ===== src/Http/Head.antt =====
-- Reading a request head: `read_request_head` of src/api.rs, with what it uses of Rust's `str`. A
-- read gives a chunk of bytes, an empty one being the end of the stream, or nothing: an I/O error or
-- a timeout.
use whatsrust.Prelude.{
  ℕ, zero, suc, ◌+◌, ◌-◌, ◌*◌, ◌^◌, ◌≤◌, ◌<◌, ◌≡◌, refl, sym, ap, ◌∙◌, Bool, true, false, not, ◌&&◌,
  ◌||◌, Option, none, some, List, [], ◌∷◌, ◌++◌, map, arith, ltb, leb, ◌==◌, inl, inr, Bool-cases,
  if◌then◌else◌, length, keep,
}
use whatsrust.Prelude.Texts.{
  Text, codes, eq_ignore_case, is_whitespace, trim, split_on, split_once, push_front, to_lower,
}
use whatsrust.Http.{Header, RequestHead}
use whatsrust.Http.Url.{parse_query}
use whatsrust.Http.Tokens.{utf8}
pub mod Chunks

-- `str::from_utf8`, byte by byte: `k` continuation bytes are still to come for the character whose
-- bits so far are `acc`, and which is at least `lo`.
unfoldable pub is_scalar : ℕ → Bool
is_scalar c = ltb c 55296 || leb 57344 c && ltb c 1114112

unfoldable pub push_char : ℕ → Option Text → Option Text
push_char c none = none
push_char c (some s) = some (c ∷ s)

unfoldable pub utf8_step : ℕ → ℕ → ℕ → Text → Option Text
unfolding is_scalar push_char
utf8_step zero acc lo [] = some []
utf8_step (suc k) acc lo [] = none
utf8_step zero acc lo (b ∷ s) =
    let one = utf8_step 0 0 0 s in
    let two = utf8_step 1 (b - 192) 128 s in
    let three = utf8_step 2 (b - 224) 2048 s in
    let four = utf8_step 3 (b - 240) 65536 s in
    if ltb b 128
    then push_char b one
    else if leb 192 b && ltb b 224
    then two
    else if leb 224 b && ltb b 240
    then three
    else if leb 240 b && ltb b 248
    then four
    else none
utf8_step (suc k) acc lo (b ∷ s) =
    let c = acc * 64 + (b - 128) in
    let done = utf8_step 0 0 0 s in
    let more = utf8_step k c lo s in
    if leb 128 b && ltb b 192
    then (if k == 0 then (if leb lo c && is_scalar c then push_char c done else none) else more)
    else none

unfoldable pub from_utf8 : Text → Option Text
unfolding utf8_step
from_utf8 s = utf8_step 0 0 0 s

-- The buffer at its first blank line: `windows(4).position(…)`, the head before it and the rest.
unfoldable pub split_head : Text → Option (Text × Text)
split_head [] = none
split_head (a ∷ []) = none
split_head (a ∷ b ∷ []) = none
split_head (a ∷ b ∷ c ∷ []) = none
split_head (a ∷ b ∷ c ∷ d ∷ s) =
    let rest = split_head (b ∷ c ∷ d ∷ s) in
    if a == 13 && (b == 10 && (c == 13 && d == 10))
    then some ([], s)
    else elim rest [ none ↦ none | some (h, t) ↦ some (a ∷ h, t) ]

-- `str::lines` of the pieces between line feeds: each but the last loses its carriage return, and a
-- last piece with nothing in it is no line.
unfoldable pub strip_cr : Text → Text
strip_cr [] = []
strip_cr (c ∷ []) = if c == 13 then [] else c ∷ []
strip_cr (c ∷ d ∷ s) = c ∷ strip_cr (d ∷ s)

unfoldable pub pieces_to_lines : List Text → List Text
unfolding strip_cr
pieces_to_lines [] = []
pieces_to_lines ([] ∷ []) = []
pieces_to_lines ((c ∷ s) ∷ []) = (c ∷ s) ∷ []
pieces_to_lines (s ∷ t ∷ ss) = strip_cr s ∷ pieces_to_lines (t ∷ ss)

-- `str::split_whitespace`
unfoldable pub split_by : (ℕ → Bool) → Text → List Text
split_by p [] = [] ∷ []
split_by p (c ∷ s) = let rest = split_by p s in if p c then [] ∷ rest else push_front c rest

abbrev pub is_full : Text → Bool
is_full [] = false
is_full (c ∷ s) = true

unfoldable pub split_whitespace : Text → List Text
unfolding split_by is_whitespace
split_whitespace s = keep is_full (split_by is_whitespace s)

-- `str::parse` of an unsigned integer of `w` bits: digits behind an optional sign.
unfoldable pub digits_value : ℕ → Text → Option ℕ
digits_value acc [] = some acc
digits_value acc (c ∷ s) =
    let rest = digits_value (acc * 10 + (c - b'0')) s in
    if leb b'0' c && leb c b'9' then rest else none

unfoldable pub parse_digits : ℕ → Text → Option ℕ
unfolding digits_value
parse_digits w [] = none
parse_digits w (c ∷ s) = elim (digits_value 0 (c ∷ s)) [
  | none ↦ none
  | some n ↦ if ltb n (2 ^ w) then some n else none
]

unfoldable pub parse_unsigned : ℕ → Text → Option ℕ
unfolding parse_digits
parse_unsigned w [] = none
parse_unsigned w (c ∷ s) = if c == b'+' then parse_digits w s else parse_digits w (c ∷ s)

abbrev pub or_zero : Option ℕ → ℕ
or_zero none = 0
or_zero (some n) = n

-- The headers of the lines that have a colon.
unfoldable pub parse_headers : List Text → List Header
unfolding split_once trim
parse_headers [] = []
parse_headers (line ∷ lines) =
    let rest = parse_headers lines in
    elim (split_once b':' line) [
      | none ↦ rest
      | some (name, value) ↦ record { name = name; value = trim value } ∷ rest
    ]

-- The last Content-Length decides.
unfoldable pub content_length_of : ℕ → List Header → ℕ
unfolding parse_unsigned eq_ignore_case
content_length_of n [] = n
content_length_of n (h ∷ hs) =
    content_length_of
      (if eq_ignore_case (Header.name h) (codes "content-length")
        then or_zero (parse_unsigned 64 (Header.value h))
        else n)
      hs

-- The query is split and decoded on its bytes.
unfoldable pub path_of : Text → Text × List (Text × Text)
unfolding split_once parse_query utf8
path_of raw = elim (split_once b'?' raw) [
  | none ↦ (raw, [])
  | some (path, query) ↦ (path, parse_query (utf8 query))
]

unfoldable pub head_of_words : List Text → List Header → Text → Option RequestHead
unfolding path_of content_length_of
head_of_words [] headers leftover = none
head_of_words (method ∷ []) headers leftover = none
head_of_words (method ∷ raw ∷ more) headers leftover = some record {
  method = method;
  path = (path_of raw).0;
  query = (path_of raw).1;
  headers = headers;
  content_length = content_length_of 0 headers;
  leftover = leftover;
}

unfoldable pub head_of_lines : List Text → Text → Option RequestHead
unfolding head_of_words split_whitespace parse_headers
head_of_lines [] leftover = none
head_of_lines (request_line ∷ lines) leftover =
    head_of_words (split_whitespace request_line) (parse_headers lines) leftover

unfoldable pub parse_head : Text × Text → Option RequestHead
unfolding from_utf8 pieces_to_lines head_of_lines split_on
parse_head (bytes, leftover) = elim (from_utf8 bytes) [
  | none ↦ none
  | some text ↦ head_of_lines (pieces_to_lines (split_on 10 text)) leftover
]

abbrev pub max_head : ℕ
max_head = 131072

-- The loop of `read_request_head` with what it has in its buffer.
unfoldable pub read_head : Text → List (Option Text) → Option RequestHead
unfolding split_head parse_head
read_head buf [] = none
read_head buf (none ∷ reads) = none
read_head buf (some [] ∷ reads) = none
read_head buf (some (c ∷ chunk) ∷ reads) = elim (split_head (buf ++ c ∷ chunk)) [
  | some found ↦ parse_head found
  | none ↦
      let next = read_head (buf ++ c ∷ chunk) reads in
      if ltb max_head (length (buf ++ c ∷ chunk)) then none else next
]

unfoldable pub read_request_head : List (Option Text) → Option RequestHead
unfolding read_head
read_request_head reads = read_head [] reads
