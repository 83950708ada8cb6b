-- ===== src/Prelude/Table/Sums.antt =====
-- How a sum over a table moves with each write to it.
use kintsugi.Prelude.Tests.{if◌then◌else◌}
use kintsugi.Prelude.Table.{Table, find_unique, find_many, update, update_many, create, sum_by}
use Prim.Native.Nat.{ℕ, ◌+◌}
use mathlib.Core.Path.{◌≡◌, refl}
use mathlib.Core.Bool.{Bool}
use mathlib.Core.Option.{some}
use mathlib.Core.List.{[], ◌∷◌, ◌++◌}
use native.Mathlib.Omega.{arith}

module _ {ℓ} {V : Type ℓ} where
  pub sum_by-update :
      (w : ℕ → V → ℕ) (k : ℕ) (f : V → V) (t : Table V) (v : V)
      → find_unique k t ≡ some v
      → sum_by w (update k f t) + w k v ≡ sum_by w t + w k (f v)
  unfolding find_unique update sum_by
  sum_by-update w k f [] v h = cc
  sum_by-update w k f ((j, x) ∷ t) v h = ground (arith, sum_by-update w k f t v)

  pub sum_by-update_same :
      (w : ℕ → V → ℕ) (k : ℕ) (f : V → V) (t : Table V)
      → ((j : ℕ) (v : V) → w j (f v) ≡ w j v)
      → sum_by w (update k f t) ≡ sum_by w t
  unfolding update sum_by
  sum_by-update_same w k f [] h = refl
  sum_by-update_same w k f ((j, x) ∷ t) h = ground (arith, h j x, sum_by-update_same w k f t h)

  -- A write that takes the matched rows out of the sum.
  pub sum_by-update_many :
      (w : ℕ → V → ℕ) (p : ℕ → V → Bool) (f : V → V) (t : Table V)
      → ((j : ℕ) (v : V) → w j (f v) ≡ 0)
      → sum_by w (update_many p f t) + sum_by w (find_many p t) ≡ sum_by w t
  unfolding update_many find_many sum_by
  sum_by-update_many w p f [] h = refl
  sum_by-update_many w p f ((j, x) ∷ t) h = ground (arith, h j x, sum_by-update_many w p f t h)

  pub sum_by-create :
      (w : ℕ → V → ℕ) (k : ℕ) (u : V) (t : Table V) → sum_by w (create k u t) ≡ sum_by w t + w k u
  unfolding create sum_by
  sum_by-create w k u [] = omega arith
  sum_by-create w k u ((j, x) ∷ t) = omega (arith, sum_by-create w k u t)

  pub sum_by-append : (w : ℕ → V → ℕ) (s t : Table V) → sum_by w (s ++ t) ≡ sum_by w s + sum_by w t
  unfolding sum_by
  sum_by-append w [] t = omega arith
  sum_by-append w ((j, x) ∷ s) t = omega (arith, sum_by-append w s t)

  pub sum_by-congr :
      (w w' : ℕ → V → ℕ) (t : Table V)
      → ((j : ℕ) (v : V) → w j v ≡ w' j v)
      → sum_by w t ≡ sum_by w' t
  unfolding sum_by
  sum_by-congr w w' [] h = refl
  sum_by-congr w w' ((j, x) ∷ t) h = omega (arith, h j x, sum_by-congr w w' t h)

  pub sum_by-add :
      (a b c : ℕ → V → ℕ) (t : Table V)
      → ((j : ℕ) (v : V) → c j v ≡ a j v + b j v)
      → sum_by c t ≡ sum_by a t + sum_by b t
  unfolding sum_by
  sum_by-add a b c [] h = omega arith
  sum_by-add a b c ((j, x) ∷ t) h = omega (arith, h j x, sum_by-add a b c t h)

  -- The sum over the rows that a query returns.
  pub sum_by-find_many :
      (w : ℕ → V → ℕ) (p : ℕ → V → Bool) (t : Table V)
      → sum_by w (find_many p t) ≡ sum_by (λ j v. if p j v then w j v else 0) t
  unfolding find_many sum_by
  sum_by-find_many w p [] = refl
  sum_by-find_many w p ((j, x) ∷ t) = ground (arith, sum_by-find_many w p t)
