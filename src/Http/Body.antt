-- ===== src/Http/Body.antt =====
-- Reading a request body: `max_body_bytes` and `read_request_body` of src/api.rs.
use mathlib.Core.List.{append_assoc}
use whatsrust.Prelude.{
  ℕ, zero, suc, ◌≤◌, ◌≡◌, refl, sym, ap, ◌∙◌, Bool, true, false, ◌||◌, Option, none, some, List, [],
  ◌∷◌, ◌++◌, arith, ltb, ◌==◌, inl, inr, Bool-cases, if◌then◌else◌, length, length-append, take,
}
use whatsrust.Prelude.Texts.{Text, codes, starts_with}
use whatsrust.Prelude.Table.{All}
use whatsrust.Http.{RequestHead}
use whatsrust.Http.Head.Chunks.{received}

abbrev media_routes : List Text
media_routes =
    codes "/api/image"
    ∷ codes "/api/video"
    ∷ codes "/api/audio"
    ∷ codes "/api/doc"
    ∷ codes "/api/sticker"
    ∷ codes "/api/view-once"
    ∷ codes "/api/status-image"
    ∷ codes "/api/status-video"
    ∷ []

unfoldable pub has_prefix_of : List Text → Text → Bool
unfolding starts_with
has_prefix_of [] path = false
has_prefix_of (p ∷ ps) path = let rest = has_prefix_of ps path in starts_with p path || rest

-- 70 MiB on the media routes, 1 MiB on the others
unfoldable pub max_body_bytes : Text → ℕ
unfolding has_prefix_of
max_body_bytes path = if has_prefix_of media_routes path then 73400320 else 1048576

-- The loop that fills the body up to `n` bytes; a read that gives nothing ends it.
unfoldable pub fill_body : ℕ → Text → List (Option Text) → Text
fill_body n body [] = body
fill_body n body (none ∷ reads) = body
fill_body n body (some [] ∷ reads) = body
fill_body n body (some (c ∷ chunk) ∷ reads) =
    let next = fill_body n (body ++ c ∷ chunk) reads in if ltb (length body) n then next else body

-- The truncated body is rejected, and what follows it cut off.
unfoldable pub whole_body : ℕ → Text → Option Text
whole_body n body = if ltb (length body) n then none else some (take n body)

-- Of `n` declared bytes, where `leftover` came with the head.
unfoldable pub read_body : ℕ → ℕ → Text → List (Option Text) → Option Text
unfolding fill_body whole_body
read_body limit n leftover reads =
    if ltb limit n
    then none
    else if n == 0
    then some []
    else whole_body n (fill_body n leftover reads)

unfoldable pub read_request_body : List (Option Text) → RequestHead → ℕ → Option Text
unfolding read_body
read_request_body reads head limit =
    read_body limit (RequestHead.content_length head) (RequestHead.leftover head) reads

length-take : (n : ℕ) (s : Text) → n ≤ length s → length (take n s) ≡ n
length-take zero s h = refl
length-take (suc n) [] h = omega arith
length-take (suc n) (c ∷ s) h = omega (arith, length-take n s (omega arith))

take-append : (n : ℕ) (s t : Text) → n ≤ length s → take n (s ++ t) ≡ take n s
take-append zero s t h = refl
take-append (suc n) [] t h = absurd (omega arith)
take-append (suc n) (c ∷ s) t h = ap (λ r. c ∷ r) (take-append n s t (omega arith))

-- What is filled in is a first part of what the stream brings.
fill_body-prefix :
    (n : ℕ) (body : Text) (reads : List (Option Text))
    → (more : Text) × (body ++ received reads ≡ fill_body n body reads ++ more)
unfolding fill_body
fill_body-prefix n body [] = ([], refl)
fill_body-prefix n body (none ∷ reads) = (received reads, refl)
fill_body-prefix n body (some [] ∷ reads) = (received reads, refl)
fill_body-prefix n body (some (c ∷ chunk) ∷ reads) = elim (Bool-cases (ltb (length body) n)) [
  | inl short ↦
      let (more, e) = fill_body-prefix n (body ++ c ∷ chunk) reads in
      rw short (more, sym (append_assoc body (c ∷ chunk) (received reads)) ∙ e)
  | inr full ↦ rw full (received (some (c ∷ chunk) ∷ reads), refl)
]

-- The stream gives bytes at every read.
abbrev pub IsFlowing : Option Text → Type 0
IsFlowing none = false ≡ true
IsFlowing (some []) = false ≡ true
IsFlowing (some (c ∷ s)) = Unit

fill_body-full :
    (n : ℕ) (body : Text) (reads : List (Option Text))
    → All IsFlowing reads
    → n ≤ length (body ++ received reads)
    → n ≤ length (fill_body n body reads)
unfolding fill_body
fill_body-full n body [] ok h = omega (arith, length-append body [])
fill_body-full n body (none ∷ reads) ok h = absurd (cc (ok.0))
fill_body-full n body (some [] ∷ reads) ok h = absurd (cc (ok.0))
fill_body-full n body (some (c ∷ chunk) ∷ reads) ok h = elim (Bool-cases (ltb (length body) n)) [
  | inl short ↦ rw short (
      fill_body-full n (body ++ c ∷ chunk) reads ok.1
        (rw (sym (append_assoc body (c ∷ chunk) (received reads))) at h))
  | inr full ↦ rw full (ground arith)
]

whole_body-prefix :
    (n : ℕ) (body more : Text) → n ≤ length body → whole_body n body ≡ some (take n (body ++ more))
unfolding whole_body
whole_body-prefix n body more h = ground (arith, take-append n body more h)

whole_body-some :
    (n : ℕ) (body more b : Text)
    → whole_body n body ≡ some b
    → (length b ≡ n) × (b ≡ take n (body ++ more))
unfolding whole_body
whole_body-some n body more b e = elim (Bool-cases (ltb (length body) n)) [
  | inl short ↦ absurd (ground arith)
  | inr full ↦
      ground (arith, length-take n body (ground arith), take-append n body more (ground arith))
]

read_body_lem :
    (limit n : ℕ) (leftover : Text) (reads : List (Option Text)) (b : Text)
    → read_body limit n leftover reads ≡ some b
    → (n ≤ limit) × (length b ≡ n) × (b ≡ take n (leftover ++ received reads))
unfolding read_body
read_body_lem limit zero leftover reads b e = ground arith
read_body_lem limit (suc n) leftover reads b e =
    let (more, all) = fill_body-prefix (suc n) leftover reads in
    elim (Bool-cases (ltb limit (suc n))) [
      | inl over ↦ absurd (ground arith)
      | inr within ↦
          let w : whole_body (suc n) (fill_body (suc n) leftover reads) ≡ some b = ground arith in
          let (l, same) = whole_body-some (suc n) (fill_body (suc n) leftover reads) more b w in
          (ground arith, l, rw all same)
    ]

-- A body that is read has exactly the declared length, which is within the limit, and its
-- bytes are the first ones of what came with the head and what the stream brought, in order.
pub read_request_body_lem :
    (reads : List (Option Text)) (head : RequestHead) (limit : ℕ) (b : Text)
    → read_request_body reads head limit ≡ some b
    → (RequestHead.content_length head ≤ limit)
      × (length b ≡ RequestHead.content_length head)
      × (b ≡ take (RequestHead.content_length head) (RequestHead.leftover head ++ received reads))
unfolding read_request_body
read_request_body_lem reads head limit b e =
    read_body_lem limit (RequestHead.content_length head) (RequestHead.leftover head) reads b e

read_body-flowing :
    (limit n : ℕ) (leftover : Text) (reads : List (Option Text))
    → All IsFlowing reads
    → n ≤ limit
    → n ≤ length (leftover ++ received reads)
    → read_body limit n leftover reads ≡ some (take n (leftover ++ received reads))
unfolding read_body
read_body-flowing limit zero leftover reads flows within enough = ground arith
read_body-flowing limit (suc n) leftover reads flows within enough =
    let (more, all) = fill_body-prefix (suc n) leftover reads in
    let filled =
      whole_body-prefix (suc n) (fill_body (suc n) leftover reads) more
        (fill_body-full (suc n) leftover reads flows enough) in
    let same : whole_body (suc n) (fill_body (suc n) leftover reads)
        ≡ some (take (suc n) (leftover ++ received reads)) =
      rw all filled in
    ground arith

-- A stream that brings bytes at every read, the declared number of them together with what came
-- with the head, and a limit that allows that number: then the body is read, in full.
pub read_request_body-flowing :
    (reads : List (Option Text)) (head : RequestHead) (limit : ℕ)
    → All IsFlowing reads
    → RequestHead.content_length head ≤ limit
    → RequestHead.content_length head ≤ length (RequestHead.leftover head ++ received reads)
    → read_request_body reads head limit
      ≡ some (take (RequestHead.content_length head) (RequestHead.leftover head ++ received reads))
unfolding read_request_body
read_request_body-flowing reads head limit flows within enough =
    read_body-flowing limit (RequestHead.content_length head) (RequestHead.leftover head) reads
      flows within enough
