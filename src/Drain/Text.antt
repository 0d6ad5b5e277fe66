-- ===== src/Drain/Text.antt =====
-- The text that is embedded of a message: `prepare_text_for_embedding` of src/embed_drain.rs. A text
-- is the list of its characters, so a cut never falls inside one.
use Prim.Native.Char.{code}
use Prim.Native.String.count
use Prim.Native.String.append
use Prim.Native.String.{[], ◌∷◌, ◌++◌, count}
use text.Mathlib.TextLemmas.{append-nil, nil≢cons}
use mathlib.Core.Path.{subst}
use whatsrust.Prelude.{
  ℕ, zero, suc, ◌≤◌, ◌≡◌, ◌≢◌, ◌∙◌, refl, sym, ap, String, Bool, true, false, ◌||◌, Option, none,
  some, arith, ltb, ◌==◌, str_eq, eq_iff, inl, inr, Bool-cases, some_cancel, if◌then◌else◌,
}

-- `split_once(']')`, of which only the part behind the bracket is used.
unfoldable pub after_bracket : String → Option String
after_bracket [] = none
after_bracket (c ∷ s) = if code c == 93 then some s else after_bracket s

-- `strip_prefix(' ').unwrap_or(…)`
unfoldable pub strip_space : String → String
strip_space [] = []
strip_space (c ∷ s) = if code c == 32 then s else c ∷ s

-- The first `n` characters.
unfoldable pub take_chars : ℕ → String → String
take_chars zero s = []
take_chars (suc n) [] = []
take_chars (suc n) (c ∷ s) = c ∷ take_chars n s

-- The caption behind the decoration, or the whole text where it has none.
unfoldable pub caption : String → String
unfolding after_bracket strip_space
caption s = elim (after_bracket s) [ none ↦ s | some rest ↦ strip_space rest ]

abbrev is_media : String → Bool
is_media kind = str_eq kind "image" || (str_eq kind "video" || str_eq kind "document")

abbrev is_label : String → Bool
is_label kind = str_eq kind "location" || (str_eq kind "contact" || str_eq kind "poll")

unfoldable pub bare_text : String → String → Option String
unfolding caption
bare_text kind s =
    if str_eq kind "text"
    then some s
    else if is_media kind
    then some (caption s)
    else if is_label kind
    then some s
    else none

unfoldable pub truncated : Option ℕ → String → String
unfolding take_chars
truncated none s = s
truncated (some max_tokens) s = if ltb max_tokens (count s) then take_chars max_tokens s else s

abbrev pub non_empty : String → Option String
non_empty [] = none
non_empty (c ∷ s) = some (c ∷ s)

-- `bare_text.is_empty()`, the cut, `truncated.is_empty()`
unfoldable pub cut : Option ℕ → Option String → Option String
unfolding truncated
cut max_tokens none = none
cut max_tokens (some []) = none
cut max_tokens (some (c ∷ s)) = non_empty (truncated max_tokens (c ∷ s))

unfoldable pub prepare_text_for_embedding : String → Option String → Option ℕ → Option String
unfolding bare_text cut
prepare_text_for_embedding kind none max_tokens = none
prepare_text_for_embedding kind (some body) max_tokens = cut max_tokens (bare_text kind body)

-- A text fits the token limit, where there is one.
abbrev pub Fits : Option ℕ → String → Type 0
Fits none t = Unit
Fits (some n) t = count t ≤ n

count-take_chars : (n : ℕ) (s : String) → count (take_chars n s) ≤ n
unfolding take_chars
count-take_chars zero s = omega arith
count-take_chars (suc n) [] = omega arith
count-take_chars (suc n) (c ∷ s) =
    omega (arith, count-take_chars n s, count.cons c (take_chars n s))

take_chars-prefix : (n : ℕ) (s : String) → (rest : String) × (s ≡ take_chars n s ++ rest)
unfolding take_chars
take_chars-prefix zero s = (s, sym (append.nil s))
take_chars-prefix (suc n) [] = ([], refl)
take_chars-prefix (suc n) (c ∷ s) =
    let (rest, e) = take_chars-prefix n s in
    (rest, ap (λ t. c ∷ t) e ∙ sym (append.cons c (take_chars n s) rest))

-- What a cut gives of a text.
abbrev pub IsCut : Option ℕ → String → String → Type 0
IsCut max_tokens s t = (t ≢ []) × Fits max_tokens t × ((rest : String) × (s ≡ t ++ rest))

truncated-cut :
    (max_tokens : Option ℕ) (s : String)
    → Fits max_tokens (truncated max_tokens s)
      × ((rest : String) × (s ≡ truncated max_tokens s ++ rest))
unfolding truncated
truncated-cut none s = (tt, ([], sym (append-nil s)))
truncated-cut (some n) s = elim (Bool-cases (ltb n (count s))) [
  | inl long ↦ rw long (count-take_chars n s, take_chars-prefix n s)
  | inr short ↦ rw short (ground arith, ([], sym (append-nil s)))
]

non_empty-some : (s t : String) → non_empty s ≡ some t → (t ≢ []) × (s ≡ t)
non_empty-some [] t h = absurd (cc)
non_empty-some (c ∷ s) t h = (λ e. nil≢cons (sym (some_cancel h ∙ e)), some_cancel h)

cut-IsCut :
    (max_tokens : Option ℕ) (s : Option String) (t : String)
    → cut max_tokens s ≡ some t
    → (bare : String) × (s ≡ some bare) × IsCut max_tokens bare t
unfolding cut
cut-IsCut max_tokens none t h = absurd (cc)
cut-IsCut max_tokens (some []) t h = absurd (cc)
cut-IsCut max_tokens (some (c ∷ s)) t h =
    let (full, same) = non_empty-some (truncated max_tokens (c ∷ s)) t h in
    let (fits, rest) = truncated-cut max_tokens (c ∷ s) in
    (c ∷ s, refl, (full, rw same at fits, rw same at rest))

-- A text that is prepared is not empty, has no more characters than the limit allows, and is a first
-- part of the bare text of its kind: nothing is changed or left out before the cut.
pub prepare_text_for_embedding_lem :
    (kind body : String) (max_tokens : Option ℕ) (t : String)
    → prepare_text_for_embedding kind (some body) max_tokens ≡ some t
    → (bare : String) × (bare_text kind body ≡ some bare) × IsCut max_tokens bare t
unfolding prepare_text_for_embedding
prepare_text_for_embedding_lem kind body max_tokens t h =
    cut-IsCut max_tokens (bare_text kind body) t h

after_bracket-label :
    (label rest : String)
    → after_bracket label ≡ none
    → after_bracket (label ++ ("]" ++ rest)) ≡ some rest
unfolding after_bracket
after_bracket-label [] rest h = rw (append.nil, append.cons, append.nil) refl
after_bracket-label (c ∷ label) rest h = elim (Bool-cases (code c == 93)) [
  | inl hit ↦ absurd (let g : some label ≡ none = rw (hit, after_bracket) at h in cc)
  | inr miss ↦
      rw (append.cons, miss, after_bracket)
        (after_bracket-label label rest (rw (miss, after_bracket) at h))
]

caption-label :
    (label caption_text : String)
    → after_bracket label ≡ none
    → caption (label ++ ("]" ++ (" " ++ caption_text))) ≡ caption_text
unfolding caption strip_space
caption-label label caption_text clean =
    rw (after_bracket-label label (" " ++ caption_text) clean, caption) space
  where
    space : strip_space (" " ++ caption_text) ≡ caption_text
    space = rw (append.cons, append.nil) refl

bare_text-media : (kind s : String) → is_media kind ≡ true → bare_text kind s ≡ some (caption s)
unfolding bare_text
bare_text-media kind s media = elim (Bool-cases (str_eq kind "text")) [
  | inl e ↦
      absurd (
        let g : false ≡ true = subst (λ k. is_media k ≡ true) ((eq_iff kind "text").0 e) media in
        cc)
  | inr e ↦ rw (e, media) refl
]

cut-full : (s : String) → s ≢ [] → cut none (some s) ≡ some s
unfolding cut truncated
cut-full [] full = absurd (full refl)
cut-full (c ∷ s) full = refl

-- Of a picture, video or document the caption is embedded: a label without a bracket, the closing
-- bracket, a space and a caption give back the caption, where there is no token limit.
pub prepare_text_for_embedding-caption :
    (kind label caption_text : String)
    → is_media kind ≡ true
    → after_bracket label ≡ none
    → caption_text ≢ []
    → prepare_text_for_embedding kind (some (label ++ ("]" ++ (" " ++ caption_text)))) none
      ≡ some caption_text
unfolding prepare_text_for_embedding
prepare_text_for_embedding-caption kind label caption_text media clean full =
    rw (bare_text-media kind _ media, caption-label label caption_text clean)
      (cut-full caption_text full)
