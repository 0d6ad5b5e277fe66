-- ===== src/Mcp/Args/Valid.antt =====
-- What arguments that pass the validation are like.
use mathlib.Core.Path.{subst}
use whatsrust.Prelude.{
  String, ◌≡◌, ◌⊎◌, refl, sym, ap, ◌∙◌, true, false, not, ◌||◌, Option, none, some, List, [], ◌∷◌,
  ◌++◌, if_either, inl, inr, Bool-cases, Option-cases, some_cancel,
}
use whatsrust.Prelude.Table.{All}
use whatsrust.Mcp.Tool.{
  Json, null, boolean, integer, unsigned, float, string, array, object, Fields, no_fields, field_of,
  get_field, is_null, Tool,
}
use whatsrust.Mcp.Args.{
  find_tool, type_of, unknown_keys, retain, check_value, check_fields, note, missing, is_missing,
  unknown_tool, valid, is_required, judge, check_known, check_keys, check_args, validated_args,
}
use whatsrust.Mcp.Args.Types.{HasType, check_type-HasType}

-- A value is null or of the declared type.
abbrev pub Suits : Option String → Json → Type 0
Suits none v = Unit
Suits (some ty) v = (is_null v ≡ true) ⊎ HasType ty v

check_value-Suits : (ty : Option String) (v w : Json) → check_value ty v ≡ some w → Suits ty w
unfolding check_value
check_value-Suits none v w h = tt
check_value-Suits (some ty) v w h = elim (Bool-cases (is_null v)) [
  | inl empty ↦
      let same : v ≡ w = some_cancel (rw (empty, check_value) at h) in
      inl (ap is_null (sym same) ∙ empty)
  | inr full ↦ inr (check_type-HasType ty v w (rw (full, check_value) at h))
]

-- Every argument suits the type that is declared for its key.
abbrev pub AllSuit : List (String × String) → Fields → Type 0
AllSuit declared no_fields = Unit
AllSuit declared (field_of k v fs) = Suits (type_of k declared) v × AllSuit declared fs

check_fields-AllSuit :
    (declared : List (String × String)) (fs : Fields)
    → (check_fields declared fs).1 ≡ []
    → AllSuit declared (check_fields declared fs).0
unfolding check_fields
check_fields-AllSuit declared no_fields h = tt
check_fields-AllSuit declared (field_of k v fs) h =
    note_lem (check_value (type_of k declared) v) refl (check_fields-AllSuit declared fs) h
  where
    note_lem :
        (o : Option Json)
        → check_value (type_of k declared) v ≡ o
        → ((check_fields declared fs).1 ≡ [] → AllSuit declared (check_fields declared fs).0)
        → (note k v o (check_fields declared fs)).1 ≡ []
        → AllSuit declared (note k v o (check_fields declared fs)).0
    note_lem none e rest g = absurd (cc)
    note_lem (some w) e rest g = (check_value-Suits (type_of k declared) v w e, rest g)

-- A required key is there, and its value is not null.
abbrev pub IsGiven : Fields → String → Type 0
IsGiven fs key = is_missing (get_field key fs) ≡ false

missing-IsGiven :
    (required : List String) (fs : Fields) → missing required fs ≡ [] → All (IsGiven fs) required
unfolding missing
missing-IsGiven [] fs h = tt
missing-IsGiven (r ∷ rs) fs h = elim (Bool-cases (is_missing (get_field r fs))) [
  | inl absent ↦ absurd (let g : r ∷ missing rs fs ≡ [] = rw (absent, missing) at h in cc)
  | inr there ↦ (there, missing-IsGiven rs fs (rw (there, missing) at h))
]

append_empty : (xs ys : List String) → xs ++ ys ≡ [] → (xs ≡ []) × (ys ≡ [])
append_empty [] ys h = (refl, h)
append_empty (x ∷ xs) ys h = absurd (cc)

-- Every argument has a declared key.
abbrev pub AllKnown : List (String × String) → Fields → Type 0
AllKnown declared no_fields = Unit
AllKnown declared (field_of k v fs) =
    ((ty : String) × (type_of k declared ≡ some ty)) × AllKnown declared fs

unknown_keys-AllKnown :
    (fs : Fields) (declared : List (String × String))
    → unknown_keys fs declared ≡ []
    → AllKnown declared fs
unfolding unknown_keys
unknown_keys-AllKnown no_fields declared h = tt
unknown_keys-AllKnown (field_of k v fs) declared h = elim (Option-cases (type_of k declared)) [
  | inl unknown ↦
      absurd (let g : k ∷ unknown_keys fs declared ≡ [] = rw (unknown, unknown_keys) at h in cc)
  | inr found ↦ (found, unknown_keys-AllKnown fs declared (rw (found.1, unknown_keys) at h))
]

retain-AllKnown :
    (required : List String) (declared : List (String × String)) (fs : Fields)
    → AllKnown declared fs
    → AllKnown declared (retain required fs)
unfolding retain
retain-AllKnown required declared no_fields h = tt
retain-AllKnown required declared (field_of k v fs) h =
    let rest = retain-AllKnown required declared fs h.1 in
    if_either (λ r. AllKnown declared r) (not (is_null v) || is_required k required) (h.0, rest)
      rest

check_fields-AllKnown :
    (declared : List (String × String)) (fs : Fields)
    → AllKnown declared fs
    → AllKnown declared (check_fields declared fs).0
unfolding check_fields
check_fields-AllKnown declared no_fields h = tt
check_fields-AllKnown declared (field_of k v fs) h =
    noted (check_value (type_of k declared) v) (check_fields-AllKnown declared fs h.1)
  where
    noted :
        (o : Option Json)
        → AllKnown declared (check_fields declared fs).0
        → AllKnown declared (note k v o (check_fields declared fs)).0
    noted none rest = (h.0, rest)
    noted (some w) rest = (h.0, rest)

-- What the caller may rely on.
pub record IsValidFor (t : Tool) (args : Fields) : Type 0 where
  pub known : AllKnown (Tool.properties t) args
  pub suits : AllSuit (Tool.properties t) args
  pub given : All (IsGiven args) (Tool.required t)

judge-valid :
    (t u : Tool) (fs args : Fields) (problems : List String)
    → judge t fs problems ≡ valid u args
    → (problems ≡ []) × (t ≡ u) × (fs ≡ args)
judge-valid t u fs args [] h = (refl, cc, cc)
judge-valid t u fs args (p ∷ ps) h = absurd (cc)

check_known-valid :
    (t u : Tool) (given args : Fields)
    → AllKnown (Tool.properties t) given
    → check_known t given ≡ valid u args
    → (t ≡ u) × IsValidFor t args
unfolding check_known
check_known-valid t u given args known h =
    let retained = retain (Tool.required t) given in
    let fs = (check_fields (Tool.properties t) retained).0 in
    let problems = (check_fields (Tool.properties t) retained).1 in
    let (none_left, same, fields) =
      judge-valid t u fs args (problems ++ missing (Tool.required t) fs) h in
    let (typed, complete) = append_empty problems (missing (Tool.required t) fs) none_left in
    (
      same,
      subst (λ k. IsValidFor t k) fields
          record {
            known =
                check_fields-AllKnown (Tool.properties t) retained
                  (retain-AllKnown (Tool.required t) (Tool.properties t) given known);
            suits = check_fields-AllSuit (Tool.properties t) retained typed;
            given = missing-IsGiven (Tool.required t) fs complete;
          },
    )

check_keys-valid :
    (t u : Tool) (given args : Fields) (unknown : List String)
    → unknown_keys given (Tool.properties t) ≡ unknown
    → check_keys t given unknown ≡ valid u args
    → (t ≡ u) × IsValidFor t args
check_keys-valid t u given args [] e h =
    check_known-valid t u given args (unknown_keys-AllKnown given (Tool.properties t) e) h
check_keys-valid t u given args (k ∷ ks) e h = absurd (cc)

check_args-valid :
    (t u : Tool) (args : Json) (fs : Fields)
    → check_args t args ≡ valid u fs
    → (t ≡ u) × IsValidFor t fs
unfolding check_args
check_args-valid t u null fs h = check_keys-valid t u no_fields fs _ refl h
check_args-valid t u (object given) fs h = check_keys-valid t u given fs _ refl h
check_args-valid t u (boolean b) fs h = absurd (cc)
check_args-valid t u (integer n) fs h = absurd (cc)
check_args-valid t u (unsigned n) fs h = absurd (cc)
check_args-valid t u (float n) fs h = absurd (cc)
check_args-valid t u (string s) fs h = absurd (cc)
check_args-valid t u (array vs) fs h = absurd (cc)

-- A call whose arguments pass the validation names a tool of the registry, and its arguments have
-- only keys that the tool declares, each value null or of the declared type, and every required
-- key with a value that is not null.
pub validated_args-valid :
    (name : String) (args : Json) (t : Tool) (fs : Fields)
    → validated_args name args ≡ valid t fs
    → (find_tool name ≡ some t) × IsValidFor t fs
unfolding validated_args
validated_args-valid name args t fs h = elim (Option-cases (find_tool name)) [
  | inl unknown ↦
      absurd (let g : unknown_tool name ≡ valid t fs = rw (unknown, validated_args) at h in cc)
  | inr (u, found) ↦
      let (same, ok) = check_args-valid u t args fs (rw (found, validated_args) at h) in
      (found ∙ ap (λ k. some k) same, subst (λ k. IsValidFor k fs) same ok)
]
