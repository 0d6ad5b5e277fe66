-- ===== src/Mcp/Era/Encoded.antt =====
-- What the value of an Mcp-Name header stands for (`decode_name_header` of src/mcp_http.rs).
use whatsrust.Prelude.{
  ℕ, ◌≡◌, ◌≢◌, ◌⊎◌, refl, sym, ap, ◌∙◌, Option, none, some, [], ◌∷◌, ◌++◌, arith, inl, inr, ◌==◌,
  Bool-cases, Option-cases, some_cancel,
}
use whatsrust.Prelude.Texts.{Text, codes, same_text, same_text_iff, strip_prefix}
use whatsrust.Http.Head.{from_utf8}
use whatsrust.Mcp.Era.{absent, present, malformed, strip_suffix, encoded_part, decode_name_header}

-- The value is a Base64 word: the prefix, what is encoded, and the suffix.
abbrev pub IsEncoded : Text → Text → Type 0
IsEncoded value inner = value ≡ codes "=?base64?" ++ (inner ++ codes "?=")

strip_prefix-some : (p s r : Text) → strip_prefix p s ≡ some r → s ≡ p ++ r
unfolding strip_prefix
strip_prefix-some [] s r h = some_cancel h
strip_prefix-some (c ∷ p) [] r h = absurd (cc)
strip_prefix-some (c ∷ p) (d ∷ s) r h = elim (Bool-cases (c == d)) [
  | inl hit ↦
      let rest = strip_prefix-some p s r (rw (hit, strip_prefix) at h) in
      ap (λ k. k ∷ s) (ground (arith, hit)) ∙ ap (λ k. c ∷ k) rest
  | inr miss ↦ absurd (let g : none ≡ some r = rw (miss, strip_prefix) at h in cc)
]

strip_prefix-append : (p r : Text) → strip_prefix p (p ++ r) ≡ some r
unfolding strip_prefix
strip_prefix-append [] r = refl
strip_prefix-append (c ∷ p) r = ground (arith, strip_prefix-append p r)

strip_suffix-some : (p s r : Text) → strip_suffix p s ≡ some r → s ≡ r ++ p
unfolding strip_suffix
strip_suffix-some p [] r h = elim (Bool-cases (same_text p [])) [
  | inl hit ↦
      let e : [] ≡ r = some_cancel (rw (hit, strip_suffix) at h) in
      sym ((same_text_iff p []).0 hit) ∙ ap (λ k. k ++ p) e
  | inr miss ↦ absurd (let g : none ≡ some r = rw (miss, strip_suffix) at h in cc)
]
strip_suffix-some p (c ∷ s) r h = elim (Bool-cases (same_text p (c ∷ s))) [
  | inl hit ↦
      let e : [] ≡ r = some_cancel (rw (hit, strip_suffix) at h) in
      sym ((same_text_iff p (c ∷ s)).0 hit) ∙ ap (λ k. k ++ p) e
  | inr miss ↦ elim (Option-cases (strip_suffix p s)) [
    | inl none_left ↦ absurd (let g : none ≡ some r = rw (miss, none_left, strip_suffix) at h in cc)
    | inr (q, found) ↦
        let e : c ∷ q ≡ r = some_cancel (rw (miss, found, strip_suffix) at h) in
        ap (λ k. c ∷ k) (strip_suffix-some p s q found) ∙ ap (λ k. k ++ p) e
  ]
]

-- The suffix is not longer than itself.
suffix_proper : (c : ℕ) (r : Text) → codes "?=" ≢ c ∷ (r ++ codes "?=")
suffix_proper c [] h = cc
suffix_proper c (d ∷ []) h = cc
suffix_proper c (d ∷ e ∷ r) h = cc

strip_suffix-append : (r : Text) → strip_suffix (codes "?=") (r ++ codes "?=") ≡ some r
unfolding strip_suffix same_text
strip_suffix-append [] = refl
strip_suffix-append (c ∷ r) = elim (Bool-cases (same_text (codes "?=") (c ∷ (r ++ codes "?=")))) [
  | inl hit ↦ absurd (suffix_proper c r ((same_text_iff _ _).0 hit))
  | inr miss ↦ rw (miss, strip_suffix-append r, strip_suffix) refl
]

encoded_part-some : (v inner : Text) → encoded_part v ≡ some inner → IsEncoded v inner
unfolding encoded_part
encoded_part-some v inner h = elim (Option-cases (strip_prefix (codes "=?base64?") v)) [
  | inl e ↦ absurd (let g : none ≡ some inner = rw (e, encoded_part) at h in cc)
  | inr (r, e) ↦
      let g : strip_suffix (codes "?=") r ≡ some inner = rw (e, encoded_part) at h in
      strip_prefix-some (codes "=?base64?") v r e
      ∙ ap (λ k. codes "=?base64?" ++ k) (strip_suffix-some (codes "?=") r inner g)
]

encoded_part-prefixed :
    (v rest : Text)
    → strip_prefix (codes "=?base64?") v ≡ some rest
    → encoded_part v ≡ strip_suffix (codes "?=") rest
unfolding encoded_part
encoded_part-prefixed v rest e = rw (e, encoded_part) refl

encoded_part-append :
    (inner : Text) → encoded_part (codes "=?base64?" ++ (inner ++ codes "?=")) ≡ some inner
encoded_part-append inner =
    encoded_part-prefixed (codes "=?base64?" ++ (inner ++ codes "?=")) (inner ++ codes "?=")
      (strip_prefix-append (codes "=?base64?") (inner ++ codes "?="))
    ∙ strip_suffix-append inner

encoded_part-none :
    (v inner : Text) → encoded_part v ≡ none → v ≢ codes "=?base64?" ++ (inner ++ codes "?=")
encoded_part-none v inner h e =
    absurd (let g : none ≡ some inner = sym h ∙ ap encoded_part e ∙ encoded_part-append inner in cc)

module _ (base64 : Text → Option Text) where
  -- The name that a value stands for: what its Base64 word decodes to, as UTF-8, or itself.
  abbrev pub StandsFor : Text → Text → Type 0
  StandsFor value name =
      ((inner : Text) × (bytes : Text) × IsEncoded value inner
        × (base64 inner ≡ some bytes)
        × (from_utf8 bytes ≡ some name))
      ⊎ (((inner : Text) → value ≢ codes "=?base64?" ++ (inner ++ codes "?=")) × (value ≡ name))

  present_cancel : {v w : Text} → present v ≡ present w → v ≡ w
  present_cancel h = cc

  pub decode_name_header-StandsFor :
      (value name : Text) → decode_name_header base64 value ≡ present name → StandsFor value name
  unfolding decode_name_header
  decode_name_header-StandsFor value name h = elim (Option-cases (encoded_part value)) [
    | inl e ↦
        inr (
          λ inner. encoded_part-none value inner e,
          present_cancel (rw (e, decode_name_header) at h),
        )
    | inr (inner, e) ↦ elim (Option-cases (base64 inner)) [
      | inl f ↦
          absurd (let g : malformed _ ≡ present name = rw (e, f, decode_name_header) at h in cc)
      | inr (bytes, f) ↦ elim (Option-cases (from_utf8 bytes)) [
        | inl u ↦
            absurd
              (let g : malformed _ ≡ present name = rw (e, f, u, decode_name_header) at h in cc)
        | inr (n, u) ↦
            let same : n ≡ name = present_cancel (rw (e, f, u, decode_name_header) at h) in
            inl (inner, bytes, encoded_part-some value inner e, f, u ∙ ap (λ k. some k) same)
      ]
    ]
  ]

  pub decode_name_header-absent : (value : Text) → decode_name_header base64 value ≢ absent
  unfolding decode_name_header
  decode_name_header-absent value h = elim (Option-cases (encoded_part value)) [
    | inl e ↦ let g : present value ≡ absent = rw (e, decode_name_header) at h in cc
    | inr (inner, e) ↦ elim (Option-cases (base64 inner)) [
      | inl f ↦ let g : malformed _ ≡ absent = rw (e, f, decode_name_header) at h in cc
      | inr (bytes, f) ↦ elim (Option-cases (from_utf8 bytes)) [
        | inl u ↦ let g : malformed _ ≡ absent = rw (e, f, u, decode_name_header) at h in cc
        | inr (n, u) ↦ let g : present n ≡ absent = rw (e, f, u, decode_name_header) at h in cc
      ]
    ]
  ]
