-- ===== src/Prelude/Table.antt =====
-- A table of an SQLite database: rows in the order of their integer primary key, which
-- AUTOINCREMENT hands out. `UPDATE … WHERE` maps over the rows, and `SELECT … ORDER BY id LIMIT 1`
-- is the first row that passes the test.
use Prim.Native.Nat.{ℕ, suc, ◌+◌, ◌≤◌, ◌<◌}
use mathlib.Core.Path.{◌≡◌, refl}
use mathlib.Core.Bool.{Bool, true, false}
use mathlib.Core.Logic.{inl, inr, ◌≢◌}
use mathlib.Core.Option.{Option, none, some}
use mathlib.Core.List.{List, [], ◌∷◌, ◌++◌}
use native.Mathlib.Omega.{arith}
use whatsrust.Prelude.Lists.{keep}
use whatsrust.Prelude.Tests.{if◌then◌else◌, ◌==◌, Bool-cases, Option-cases}

module _ {ℓ} {R : Type ℓ} where
  -- UPDATE … SET f WHERE p
  unfoldable pub update_where : (R → Bool) → (R → R) → List R → List R
  update_where p f [] = []
  update_where p f (r ∷ rs) = (if p r then f r else r) ∷ update_where p f rs

  -- SELECT … WHERE p ORDER BY id LIMIT 1
  unfoldable pub first_where : (R → Bool) → List R → Option R
  first_where p [] = none
  first_where p (r ∷ rs) = if p r then some r else first_where p rs

  -- SELECT COUNT(*) … WHERE p
  unfoldable pub count_where : (R → Bool) → List R → ℕ
  count_where p [] = 0
  count_where p (r ∷ rs) = (if p r then 1 else 0) + count_where p rs

  -- The row that a first match returns passes the test.
  pub first_where-holds :
      (p : R → Bool) (rs : List R) {r : R} → first_where p rs ≡ some r → p r ≡ true
  unfolding first_where
  first_where-holds p [] h = ground arith
  first_where-holds p (x ∷ rs) {r} h = ground (arith, first_where-holds p rs {r = r})

  pub count_where-append :
      (p : R → Bool) (rs qs : List R)
      → count_where p (rs ++ qs) ≡ count_where p rs + count_where p qs
  unfolding count_where
  count_where-append p [] qs = omega arith
  count_where-append p (r ∷ rs) qs = omega (arith, count_where-append p rs qs)

  pub first_where-append :
      (p : R → Bool) (rs qs : List R)
      → first_where p (rs ++ qs)
        ≡ elim (first_where p rs) [ none ↦ first_where p qs | some r ↦ some r ]
  unfolding first_where
  first_where-append p [] qs = refl
  first_where-append p (r ∷ rs) qs = ground (arith, first_where-append p rs qs)

module _ {ℓ} {R : Type ℓ} (key : R → ℕ) where
  -- SELECT … WHERE id = i
  abbrev pub row : ℕ → List R → Option R
  row i rs = first_where (λ r. key r == i) rs

  -- The keys go up, from above `lo`, and none passes `seq`, the last one handed out.
  abbrev pub IsAscending : ℕ → List R → ℕ → Type 0
  IsAscending lo [] seq = lo ≤ seq
  IsAscending lo (r ∷ rs) seq = (lo < key r) × IsAscending (key r) rs seq

  pub row-update_where :
      (p : R → Bool) (f : R → R)
      → ((r : R) → key (f r) ≡ key r)
      → (i : ℕ) (rs : List R)
      → row i (update_where p f rs)
        ≡ elim (row i rs) [ none ↦ none | some r ↦ some (if p r then f r else r) ]
  unfolding update_where first_where
  row-update_where p f same i [] = refl
  row-update_where p f same i (r ∷ rs) = ground (arith, same r, row-update_where p f same i rs)

  pub update_where-IsAscending :
      (p : R → Bool) (f : R → R)
      → ((r : R) → key (f r) ≡ key r)
      → (lo : ℕ) (rs : List R) (seq : ℕ) → IsAscending lo rs seq
      → IsAscending lo (update_where p f rs) seq
  unfolding update_where
  update_where-IsAscending p f same lo [] seq h = h
  update_where-IsAscending p f same lo (r ∷ rs) seq h =
      ground (arith, same r, update_where-IsAscending p f same (key r) rs seq h.1)

  pub append-IsAscending :
      (lo : ℕ) (rs : List R) (seq : ℕ) (r : R)
      → key r ≡ suc seq
      → IsAscending lo rs seq
      → IsAscending lo (rs ++ r ∷ []) (suc seq)
  append-IsAscending lo [] seq r e h = omega arith
  append-IsAscending lo (x ∷ rs) seq r e h = (h.0, append-IsAscending (key x) rs seq r e h.1)

  pub IsAscending-le : (lo : ℕ) (rs : List R) (seq : ℕ) → IsAscending lo rs seq → lo ≤ seq
  IsAscending-le lo [] seq h = h
  IsAscending-le lo (r ∷ rs) seq h = omega (arith, IsAscending-le (key r) rs seq h.1)

  -- A row that is found lies within the bounds.
  pub row_bounds :
      (lo : ℕ) (rs : List R) (seq i : ℕ) {r : R}
      → IsAscending lo rs seq
      → row i rs ≡ some r
      → (lo < i) × (i ≤ seq)
  unfolding first_where
  row_bounds lo [] seq i h e = ground arith
  row_bounds lo (x ∷ rs) seq i {r} h e =
      ground (arith, IsAscending-le (key x) rs seq h.1, row_bounds (key x) rs seq i {r = r} h.1)

  pub row-key : (i : ℕ) (rs : List R) {r : R} → row i rs ≡ some r → key r ≡ i
  row-key i rs {r} e = ground (arith, first_where-holds (λ q. key q == i) rs {r = r})

  -- Keys are unique: the first match is the row of its own key.
  pub row-first_where :
      (lo : ℕ) (rs : List R) (seq : ℕ) (p : R → Bool) {r : R}
      → IsAscending lo rs seq
      → first_where p rs ≡ some r
      → (lo < key r) × (row (key r) rs ≡ some r)
  unfolding first_where
  row-first_where lo [] seq p h e = ground arith
  row-first_where lo (x ∷ rs) seq p {r} h e =
      ground (arith, row-first_where (key x) rs seq p {r = r} h.1)

  -- ORDER BY id: no row that passes the test has a smaller key than the first match.
  pub first_where-least :
      (lo : ℕ) (rs : List R) (seq : ℕ) (p : R → Bool) {r q : R} (j : ℕ)
      → IsAscending lo rs seq
      → first_where p rs ≡ some r
      → row j rs ≡ some q
      → p q ≡ true
      → key r ≤ j
  unfolding first_where
  first_where-least lo [] seq p j h e f t = ground arith
  first_where-least lo (x ∷ rs) seq p {r} {q} j h e f t = ground (
    arith,
    row_bounds (key x) rs seq j {r = q} h.1,
    first_where-least (key x) rs seq p {r = r} {q = q} j h.1,
  )

  -- UPDATE … WHERE id = i, seen at the row i and at any other.
  pub row-update_self :
      (f : R → R)
      → ((r : R) → key (f r) ≡ key r)
      → (i : ℕ) (rs : List R) {r : R} → row i rs ≡ some r
      → row i (update_where (λ x. key x == i) f rs) ≡ some (f r)
  unfolding update_where first_where
  row-update_self f same i [] e = ground arith
  row-update_self f same i (x ∷ rs) {r} e =
      ground (arith, same x, row-update_self f same i rs {r = r})

  pub row-update_ne :
      (f : R → R)
      → ((r : R) → key (f r) ≡ key r)
      → (i k : ℕ) (rs : List R) → i ≢ k
      → row i (update_where (λ x. key x == k) f rs) ≡ row i rs
  unfolding update_where first_where
  row-update_ne f same i k [] h = refl
  row-update_ne f same i k (x ∷ rs) h = ground (arith, same x, row-update_ne f same i k rs h)

  -- A new row hides no row that was there.
  pub row-append : (i : ℕ) (rs qs : List R) {r : R} → row i rs ≡ some r → row i (rs ++ qs) ≡ some r
  row-append i rs qs e = rw (first_where-append (λ x. key x == i) rs qs, e)

  update_absent :
      (f : R → R) (i : ℕ) (rs : List R) → row i rs ≡ none → update_where (λ x. key x == i) f rs ≡ rs
  unfolding update_where first_where
  update_absent f i [] e = refl
  update_absent f i (x ∷ rs) e = ground (arith, update_absent f i rs)

  absent_below :
      (lo : ℕ) (rs : List R) (seq i : ℕ) → IsAscending lo rs seq → i ≤ lo → row i rs ≡ none
  absent_below lo rs seq i h le = elim (Option-cases (row i rs)) [
    | inl e ↦ e
    | inr (r, e) ↦ absurd (omega (arith, (row_bounds lo rs seq i h e).0))
  ]

  -- A change of one row moves a count by that row alone.
  pub count-update_id :
      (test : R → Bool) (f : R → R) (lo : ℕ) (rs : List R) (seq i : ℕ) {r : R}
      → IsAscending lo rs seq
      → row i rs ≡ some r
      → count_where test (update_where (λ x. key x == i) f rs) + (if test r then 1 else 0)
        ≡ count_where test rs + (if test (f r) then 1 else 0)
  unfolding update_where first_where count_where
  count-update_id test f lo [] seq i h e = ground arith
  count-update_id test f lo (x ∷ rs) seq i {r} h e = ground (
    arith,
    absent_below (key x) rs seq i h.1,
    update_absent f i rs,
    count-update_id test f (key x) rs seq i {r = r} h.1,
  )

module _ {ℓ} {R : Type ℓ} where
  -- A change that keeps a test keeps its count.
  pub count-update_where :
      (test p : R → Bool) (f : R → R)
      → ((r : R) → p r ≡ true → test (f r) ≡ test r)
      → (rs : List R) → count_where test (update_where p f rs) ≡ count_where test rs
  unfolding update_where count_where
  count-update_where test p f same [] = refl
  count-update_where test p f same (r ∷ rs) =
      ground (arith, same r, count-update_where test p f same rs)

  -- A predicate of every row.
  abbrev pub All {κ} : (R → Type κ) → List R → Type κ
  All P [] = Unit
  All P (r ∷ rs) = P r × All P rs

  -- A change after which no further row passes a test.
  pub count-update-le :
      (test p : R → Bool) (f : R → R) (rs : List R)
      → All (λ r. p r ≡ true → test (f r) ≡ true → test r ≡ true) rs
      → count_where test (update_where p f rs) ≤ count_where test rs
  unfolding update_where count_where
  count-update-le test p f [] h = omega arith
  count-update-le test p f (r ∷ rs) h = ground (arith, h.0, count-update-le test p f rs h.1)

  pub count_where-eq_zero :
      (p : R → Bool) (rs : List R) → first_where p rs ≡ none → count_where p rs ≡ 0
  unfolding first_where count_where
  count_where-eq_zero p [] h = refl
  count_where-eq_zero p (r ∷ rs) h = ground (arith, count_where-eq_zero p rs)

-- No first match: no row passes the test.
pub first_where-none {ℓ} :
    {R : Type ℓ} (p : R → Bool) (rs : List R) → first_where p rs ≡ none → All (λ r. p r ≡ false) rs
unfolding first_where
first_where-none p [] h = tt
first_where-none p (r ∷ rs) h = elim (Bool-cases (p r)) [
  | inl hit ↦ absurd (let g : some r ≡ none = rw (hit, first_where) at h in cc)
  | inr miss ↦ (miss, first_where-none p rs (rw (miss, first_where) at h))
]

pub All-map {ℓ κ μ} :
    {R : Type ℓ} {P : R → Type κ} {Q : R → Type μ} (rs : List R)
    → ((r : R) → P r → Q r)
    → All P rs
    → All Q rs
All-map [] f h = tt
All-map (r ∷ rs) f h = (f r h.0, All-map rs f h.1)

module _ {ℓ κ} {R : Type ℓ} (key : R → ℕ) (P : R → Type κ) where
  -- What holds of the row of a key holds of every row with that key.
  pub All-row :
      (lo : ℕ) (rs : List R) (seq i : ℕ)
      → IsAscending key lo rs seq
      → ((r : R) → row key i rs ≡ some r → P r)
      → All (λ r. key r ≡ i → P r) rs
  unfolding first_where
  All-row lo [] seq i h p = tt
  All-row lo (x ∷ rs) seq i h p = (
    λ e. p x (ground arith),
    All-row (key x) rs seq i h.1
        λ r e. p r (ground (arith, row_bounds key (key x) rs seq i {r = r} h.1)),
  )

-- What is kept passes the test.
pub keep-All {ℓ} : {A : Type ℓ} (p : A → Bool) (xs : List A) → All (λ x. p x ≡ true) (keep p xs)
keep-All p [] = tt
keep-All p (x ∷ xs) = elim (Bool-cases (p x)) [
  | inl hit ↦ rw hit (hit, keep-All p xs)
  | inr miss ↦ rw miss (keep-All p xs)
]
