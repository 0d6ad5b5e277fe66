-- ===== src/Http/Response/Split.antt =====
-- Where a head of lines ends.
use whatsrust.Prelude.{
  ℕ, ◌≡◌, ◌≢◌, refl, ap, ◌∙◌, Option, none, some, List, [], ◌∷◌, ◌++◌, true, false, ◌&&◌, ◌==◌,
  arith,
}
use whatsrust.Prelude.Table.{All}
use whatsrust.Prelude.Texts.{Text, Lacks}
use whatsrust.Http.Head.{split_head}

-- A head that has `l` in front of it.
abbrev pub behind : Text → Option (Text × Text) → Option (Text × Text)
behind l none = none
behind l (some (h, t)) = some (l ++ h, t)

split_head-skip : (c : ℕ) (s : Text) → c ≢ 13 → split_head (c ∷ s) ≡ behind (c ∷ []) (split_head s)
unfolding split_head
split_head-skip c [] h = refl
split_head-skip c (x ∷ []) h = refl
split_head-skip c (x ∷ y ∷ []) h = refl
split_head-skip c (x ∷ y ∷ z ∷ s) h =
    let miss : (c == 13 && (x == 10 && (y == 13 && z == 10))) ≡ false = ground arith in
    rw (miss, split_head) (drop_case (split_head (x ∷ y ∷ z ∷ s)))
  where
    drop_case :
        (o : Option (Text × Text))
        → elim o [ none ↦ none | some (h, t) ↦ some (c ∷ h, t) ] ≡ behind (c ∷ []) o
    drop_case none = refl
    drop_case (some (h, t)) = refl

split_head-append : (l s : Text) → Lacks 13 l → split_head (l ++ s) ≡ behind l (split_head s)
split_head-append [] s h = nothing (split_head s)
  where
    nothing : (o : Option (Text × Text)) → o ≡ behind [] o
    nothing none = refl
    nothing (some (h, t)) = refl
split_head-append (c ∷ l) s h =
    split_head-skip c (l ++ s) h.0
    ∙ ap (behind (c ∷ [])) (split_head-append l s h.1)
    ∙ twice (split_head s)
  where
    twice : (o : Option (Text × Text)) → behind (c ∷ []) (behind l o) ≡ behind (c ∷ l) o
    twice none = refl
    twice (some (h, t)) = refl

split_head-line :
    (d : ℕ) (s : Text)
    → d ≢ 13
    → split_head (13 ∷ 10 ∷ d ∷ s) ≡ behind (13 ∷ 10 ∷ []) (split_head (d ∷ s))
unfolding split_head
split_head-line d [] h = refl
split_head-line d (x ∷ s) h =
    let miss : (13 == 13 && (10 == 10 && (d == 13 && x == 10))) ≡ false = ground arith in
    rw (miss, split_head)
      (drop_case (split_head (10 ∷ d ∷ x ∷ s))
        ∙ ap (behind (13 ∷ [])) (split_head-skip 10 (d ∷ x ∷ s) (omega arith))
        ∙ twice (split_head (d ∷ x ∷ s)))
  where
    drop_case :
        (o : Option (Text × Text))
        → elim o [ none ↦ none | some (h, t) ↦ some (13 ∷ h, t) ] ≡ behind (13 ∷ []) o
    drop_case none = refl
    drop_case (some (h, t)) = refl

    twice :
        (o : Option (Text × Text)) → behind (13 ∷ []) (behind (10 ∷ []) o) ≡ behind (13 ∷ 10 ∷ []) o
    twice none = refl
    twice (some (h, t)) = refl

-- A line of a head has something in it and no carriage return.
abbrev pub IsLine : Text → Type 0
IsLine [] = false ≡ true
IsLine (c ∷ s) = Lacks 13 (c ∷ s)

-- The lines, the blank line and the body as sent, and the lines behind the first as read.
abbrev pub wire : List Text → Text → Text
wire [] body = 13 ∷ 10 ∷ body
wire (l ∷ ls) body = l ++ 13 ∷ 10 ∷ wire ls body

abbrev pub after : List Text → Text
after [] = []
after (l ∷ ls) = 13 ∷ 10 ∷ l ++ after ls

pub split_head-wire :
    (l : Text) (ls : List Text) (body : Text)
    → All IsLine (l ∷ ls)
    → split_head (wire (l ∷ ls) body) ≡ some (l ++ after ls, body)
unfolding split_head
split_head-wire [] ls body h = absurd (let e = h.0 in cc)
split_head-wire (c ∷ l) [] body h = split_head-append (c ∷ l) (wire ([] ∷ []) body) h.0
split_head-wire (c ∷ l) ([] ∷ ms) body h = absurd (let e = h.1.0 in cc)
split_head-wire (c ∷ l) ((d ∷ m) ∷ ms) body h =
    split_head-append (c ∷ l) (13 ∷ 10 ∷ wire ((d ∷ m) ∷ ms) body) h.0
    ∙ ap (behind (c ∷ l)) (
        split_head-line d (m ++ 13 ∷ 10 ∷ wire ms body) h.1.0.0
        ∙ ap (behind (13 ∷ 10 ∷ [])) (split_head-wire (d ∷ m) ms body h.1))
