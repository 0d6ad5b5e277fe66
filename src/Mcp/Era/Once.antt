-- ===== src/Mcp/Era/Once.antt =====
-- What `single_header` of src/mcp_http.rs says of the headers, in terms of the list of headers alone.
use whatsrust.Prelude.{
  ℕ, ◌≤◌, ◌≡◌, ◌≢◌, ◌⊎◌, refl, sym, ap, ◌∙◌, Bool, true, false, ◌&&◌, ◌||◌, Option, none, some,
  List, [], ◌∷◌, ◌++◌, map, arith, leb, ◌==◌, inl, inr, Bool-cases,
}
use whatsrust.Prelude.Table.{All}
use whatsrust.Prelude.Texts.{Text, trim, to_lower, eq_ignore_case, same_text_iff}
use whatsrust.Http.{Header}
use whatsrust.Mcp.Era.{
  Single, absent, present, malformed, header_values, is_printable, one_value, single_header,
}

-- The trimmed name of the header is the given one but for the case of its letters.
abbrev pub IsNamed : Text → Header → Type 0
IsNamed name h = map to_lower (trim (Header.name h)) ≡ map to_lower name

abbrev pub IsOther : Text → Header → Type 0
IsOther name h = map to_lower (trim (Header.name h)) ≢ map to_lower name

-- Visible ASCII, a space or a tab.
abbrev pub IsVisible : ℕ → Type 0
IsVisible c = (c ≡ 9) ⊎ ((32 ≤ c) × (c ≤ 126))

-- No header has the name; or exactly one has, and it has the value, which is visible.
pub record StandsOnce (headers : List Header) (name value : Text) : Type 0 where
  pub before : List Header
  pub header : Header
  pub behind : List Header
  pub place : headers ≡ before ++ header ∷ behind
  pub named : IsNamed name header
  pub has_value : Header.value header ≡ value
  pub alone_before : All (IsOther name) before
  pub alone_behind : All (IsOther name) behind
  pub visible : All IsVisible value

abbrev pub StandsAtMostOnce : List Header → Text → Option Text → Type 0
StandsAtMostOnce headers name none = All (IsOther name) headers
StandsAtMostOnce headers name (some value) = StandsOnce headers name value

is_printable-IsVisible : (s : Text) → is_printable s ≡ true → All IsVisible s
unfolding is_printable
is_printable-IsVisible [] h = tt
is_printable-IsVisible (c ∷ s) h =
    let first : (c == 9 || leb 32 c && leb c 126) ≡ true = ground arith in
    let rest : is_printable s ≡ true = ground arith in
    (visible c first, is_printable-IsVisible s rest)
  where
    visible : (c : ℕ) → (c == 9 || leb 32 c && leb c 126) ≡ true → IsVisible c
    visible c e = elim (Bool-cases (c == 9)) [
      | inl tab ↦ inl (ground (arith, tab))
      | inr other ↦ inr (ground (arith, other, e), ground (arith, other, e))
    ]

is_named : Text → Header → Bool
unfolding eq_ignore_case
is_named name h = eq_ignore_case (trim (Header.name h)) name

is_named-IsNamed : (name : Text) (h : Header) → is_named name h ≡ true → IsNamed name h
unfolding is_named eq_ignore_case
is_named-IsNamed name h e = (same_text_iff _ _).0 e

is_named-IsOther : (name : Text) (h : Header) → is_named name h ≡ false → IsOther name h
unfolding is_named eq_ignore_case
is_named-IsOther name h e same = absurd (let yes = (same_text_iff _ _).1 same in cc)

header_values-hit :
    (h : Header) (hs : List Header) (name : Text)
    → is_named name h ≡ true
    → header_values (h ∷ hs) name ≡ Header.value h ∷ header_values hs name
unfolding header_values is_named
header_values-hit h hs name e = rw (e, header_values) refl

header_values-miss :
    (h : Header) (hs : List Header) (name : Text)
    → is_named name h ≡ false
    → header_values (h ∷ hs) name ≡ header_values hs name
unfolding header_values is_named
header_values-miss h hs name e = rw (e, header_values) refl

header_values-none :
    (hs : List Header) (name : Text) → header_values hs name ≡ [] → All (IsOther name) hs
header_values-none [] name e = tt
header_values-none (h ∷ hs) name e = elim (Bool-cases (is_named name h)) [
  | inl hit ↦ absurd (
      let g : Header.value h ∷ header_values hs name ≡ [] =
        sym (header_values-hit h hs name hit) ∙ e in
      cc)
  | inr miss ↦ (
    is_named-IsOther name h miss,
    header_values-none hs name (sym (header_values-miss h hs name miss) ∙ e),
  )
]

cons_cancel : {x y : Text} {xs ys : List Text} → x ∷ xs ≡ y ∷ ys → (x ≡ y) × (xs ≡ ys)
cons_cancel h = (cc, cc)

header_values-one :
    (hs : List Header) (name v : Text)
    → header_values hs name ≡ v ∷ []
    → All IsVisible v
    → StandsOnce hs name v
unfolding header_values
header_values-one [] name v e vis = absurd (cc)
header_values-one (h ∷ hs) name v e vis = elim (Bool-cases (is_named name h)) [
  | inl hit ↦
      let (value, rest) = cons_cancel (sym (header_values-hit h hs name hit) ∙ e) in
      record {
        before = [];
        header = h;
        behind = hs;
        place = refl;
        named = is_named-IsNamed name h hit;
        has_value = value;
        alone_before = tt;
        alone_behind = header_values-none hs name rest;
        visible = vis;
      }
  | inr miss ↦
      let s = header_values-one hs name v (sym (header_values-miss h hs name miss) ∙ e) vis in
      record {
        before = h ∷ StandsOnce.before s;
        header = StandsOnce.header s;
        behind = StandsOnce.behind s;
        place = ap (λ k. h ∷ k) (StandsOnce.place s);
        named = StandsOnce.named s;
        has_value = StandsOnce.has_value s;
        alone_before = (is_named-IsOther name h miss, StandsOnce.alone_before s);
        alone_behind = StandsOnce.alone_behind s;
        visible = vis;
      }
]

-- A header that is there once or not at all.
abbrev pub of_option : Option Text → Single
of_option none = absent
of_option (some v) = present v

present_cancel : {v w : Text} → present v ≡ present w → v ≡ w
present_cancel h = cc

one_value-StandsAtMostOnce :
    (headers : List Header) (name : Text) (vs : List Text) (o : Option Text)
    → header_values headers name ≡ vs
    → one_value name vs ≡ of_option o
    → StandsAtMostOnce headers name o
unfolding one_value
one_value-StandsAtMostOnce headers name [] none e h = header_values-none headers name e
one_value-StandsAtMostOnce headers name [] (some v) e h = absurd (cc)
one_value-StandsAtMostOnce headers name (v ∷ w ∷ vs) none e h = absurd (cc)
one_value-StandsAtMostOnce headers name (v ∷ w ∷ vs) (some x) e h = absurd (cc)
one_value-StandsAtMostOnce headers name (v ∷ []) none e h = elim (Bool-cases (is_printable v)) [
  | inl p ↦ absurd (ground arith)
  | inr p ↦ absurd (ground arith)
]
one_value-StandsAtMostOnce headers name (v ∷ []) (some x) e h = elim (Bool-cases (is_printable v)) [
  | inl p ↦
      let same : v ≡ x = present_cancel (rw (p, one_value) at h) in
      header_values-one headers name x (e ∙ ap (λ k. k ∷ []) same)
        (is_printable-IsVisible x (ap is_printable (sym same) ∙ p))
  | inr p ↦ absurd (let g : malformed _ ≡ present x = rw (p, one_value) at h in cc)
]

-- A header that is read as one value, or as absent, stands at most once.
pub single_header-StandsAtMostOnce :
    (headers : List Header) (name : Text) (o : Option Text)
    → single_header headers name ≡ of_option o
    → StandsAtMostOnce headers name o
unfolding single_header
single_header-StandsAtMostOnce headers name o h =
    one_value-StandsAtMostOnce headers name (header_values headers name) o refl h
