-- ===== src/Prelude/Deletes.antt =====
-- Tables under DELETE … WHERE: the rows that stay are kept in their order.
use Prim.Native.Nat.{ℕ, ◌≤◌}
use mathlib.Core.Path.{◌≡◌}
use mathlib.Core.Bool.{Bool, true}
use mathlib.Core.Option.{some}
use mathlib.Core.List.{List, [], ◌∷◌}
use native.Mathlib.Omega.{arith}
use whatsrust.Prelude.Lists.{keep}
use whatsrust.Prelude.Tests.{if_either}
use whatsrust.Prelude.Table.{first_where, row, IsAscending}

module _ {ℓ} {R : Type ℓ} (key : R → ℕ) where
  IsAscending-weaken :
      (lo mid : ℕ) (rs : List R) (seq : ℕ)
      → lo ≤ mid
      → IsAscending key mid rs seq
      → IsAscending key lo rs seq
  IsAscending-weaken lo mid [] seq le h = omega arith
  IsAscending-weaken lo mid (r ∷ rs) seq le h = (omega (arith, h.0), h.1)

  pub keep-IsAscending :
      (p : R → Bool) (lo : ℕ) (rs : List R) (seq : ℕ)
      → IsAscending key lo rs seq
      → IsAscending key lo (keep p rs) seq
  keep-IsAscending p lo [] seq h = h
  keep-IsAscending p lo (r ∷ rs) seq h =
      let rest = keep-IsAscending p (key r) rs seq h.1 in
      if_either (λ k. IsAscending key lo k seq) (p r) (h.0, rest)
        (IsAscending-weaken lo (key r) (keep p rs) seq (omega (arith, h.0)) rest)

  -- A row that stays is found as before.
  pub row-keep :
      (p : R → Bool) (i : ℕ) (rs : List R) {r : R}
      → row key i rs ≡ some r
      → p r ≡ true
      → row key i (keep p rs) ≡ some r
  unfolding first_where
  row-keep p i [] h stays = h
  row-keep p i (x ∷ rs) {r} h stays = ground (arith, row-keep p i rs {r = r})
