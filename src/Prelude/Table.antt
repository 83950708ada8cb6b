-- ===== src/Prelude/Table.antt =====
-- A database table: rows under their primary key, in the order in which they were created. The
-- functions are named for the Prisma calls that the program makes (findUnique, findFirst, findMany,
-- update, updateMany, count, create).
use kintsugi.Prelude.Tests.{◌==◌, if◌then◌else◌, contains}
pub mod Lookup
pub mod Sums
use Prim.Native.Nat.{ℕ, ◌+◌}
use mathlib.Core.Path.{◌≡◌}
use mathlib.Core.Bool.{Bool}
use mathlib.Core.Option.{Option, none, some}
use mathlib.Core.List.{List, [], ◌∷◌, ◌++◌}

abbrev pub Table {ℓ} : Type ℓ → Type ℓ
Table V = List (ℕ × V)

module _ {ℓ} {V : Type ℓ} where
  -- `findUnique({ where: { id } })`
  unfoldable pub find_unique : ℕ → Table V → Option V
  find_unique k [] = none
  find_unique k ((j, v) ∷ t) = if j == k then some v else find_unique k t

  -- `findFirst({ where })`, with the key of the row.
  unfoldable pub find_first : (ℕ → V → Bool) → Table V → Option (ℕ × V)
  find_first p [] = none
  find_first p ((j, v) ∷ t) = if p j v then some (j, v) else find_first p t

  -- `findFirst({ where, orderBy: { createdAt: "desc" } })`
  unfoldable pub find_last : (ℕ → V → Bool) → Table V → Option (ℕ × V)
  find_last p [] = none
  find_last p ((j, v) ∷ t) = elim (find_last p t) [
    | none ↦ if p j v then some (j, v) else none
    | some found ↦ some found
  ]

  -- `findMany({ where })`
  unfoldable pub find_many : (ℕ → V → Bool) → Table V → Table V
  find_many p [] = []
  find_many p ((j, v) ∷ t) = let rest = find_many p t in if p j v then (j, v) ∷ rest else rest

  unfoldable pub ids : Table V → List ℕ
  ids [] = []
  ids ((j, v) ∷ t) = j ∷ ids t

  -- `update({ where: { id }, data })`
  unfoldable pub update : ℕ → (V → V) → Table V → Table V
  update k f [] = []
  update k f ((j, v) ∷ t) = if j == k then (j, f v) ∷ t else (j, v) ∷ update k f t

  -- `updateMany({ where, data })`
  unfoldable pub update_many : (ℕ → V → Bool) → (V → V) → Table V → Table V
  update_many p f [] = []
  update_many p f ((j, v) ∷ t) = (j, (if p j v then f v else v)) ∷ update_many p f t

  -- `count({ where })`, and the number of rows that an `updateMany` matched.
  unfoldable pub count : (ℕ → V → Bool) → Table V → ℕ
  count p [] = 0
  count p ((j, v) ∷ t) = (if p j v then 1 else 0) + count p t

  -- `create({ data })`; the database mints the key.
  unfoldable pub create : ℕ → V → Table V → Table V
  create k v t = t ++ (k, v) ∷ []

  -- `_sum` over a column.
  unfoldable pub sum_by : (ℕ → V → ℕ) → Table V → ℕ
  sum_by w [] = 0
  sum_by w ((j, v) ∷ t) = w j v + sum_by w t

  -- Primary keys are distinct.
  abbrev pub IsKeyed : Table V → Type ℓ
  IsKeyed [] = Unit
  IsKeyed ((j, v) ∷ t) = (find_unique j t ≡ none) × IsKeyed t

  -- The selection by key of what `findMany` returned, `where: { id: { in: rows.map((r) => r.id) } }`.
  abbrev pub in_ids : Table V → ℕ → V → Bool
  in_ids rows k v = contains k (ids rows)
