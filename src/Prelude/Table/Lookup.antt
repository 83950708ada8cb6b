-- ===== src/Prelude/Table/Lookup.antt =====
-- What a lookup by primary key returns after each write to a table, and that keys stay distinct.
use kintsugi.Prelude.Tests.{
  ◌==◌, if◌then◌else◌, contains, is_some, ==_refl, Bool-cases, Option-cases,
}
use kintsugi.Prelude.Table.{
  Table, find_unique, find_first, find_last, find_many, ids, update, update_many, create, count,
  IsKeyed, in_ids,
}
use Prim.Native.Nat.{ℕ}
use mathlib.Core.Path.{◌≡◌, refl, ◌∙◌}
use mathlib.Core.Logic.{◌≢◌, inl, inr}
use mathlib.Core.Bool.{Bool, true, false, ◌&&◌}
use mathlib.Core.Option.{none, some}
use mathlib.Core.List.{List, [], ◌∷◌}
use native.Mathlib.Omega.{arith}

module _ {ℓ} {V : Type ℓ} where
  pub find_unique-update_self :
      (k : ℕ) (f : V → V) (t : Table V) (v : V)
      → find_unique k t ≡ some v
      → find_unique k (update k f t) ≡ some (f v)
  unfolding find_unique update
  find_unique-update_self k f [] v h = cc
  find_unique-update_self k f ((j, x) ∷ t) v h = ground (arith, find_unique-update_self k f t v)

  pub find_unique-update_ne :
      (j k : ℕ) (f : V → V) (t : Table V) → j ≢ k → find_unique j (update k f t) ≡ find_unique j t
  unfolding find_unique update
  find_unique-update_ne j k f [] h = refl
  find_unique-update_ne j k f ((i, x) ∷ t) h = ground (arith, find_unique-update_ne j k f t)

  pub find_unique-update-none :
      (j k : ℕ) (f : V → V) (t : Table V)
      → find_unique j t ≡ none
      → find_unique j (update k f t) ≡ none
  unfolding find_unique update
  find_unique-update-none j k f [] h = refl
  find_unique-update-none j k f ((i, x) ∷ t) h = ground (arith, find_unique-update-none j k f t)

  pub find_unique-update_many :
      (j : ℕ) (p : ℕ → V → Bool) (f : V → V) (t : Table V) (v : V)
      → find_unique j t ≡ some v
      → find_unique j (update_many p f t) ≡ some (if p j v then f v else v)
  unfolding find_unique update_many
  find_unique-update_many j p f [] v h = cc
  find_unique-update_many j p f ((i, x) ∷ t) v h = ground (arith, find_unique-update_many j p f t v)

  pub find_unique-update_many-none :
      (j : ℕ) (p : ℕ → V → Bool) (f : V → V) (t : Table V)
      → find_unique j t ≡ none
      → find_unique j (update_many p f t) ≡ none
  unfolding find_unique update_many
  find_unique-update_many-none j p f [] h = refl
  find_unique-update_many-none j p f ((i, x) ∷ t) h =
      ground (arith, find_unique-update_many-none j p f t)

  pub find_unique-create_old :
      (j k : ℕ) (u : V) (t : Table V) (v : V)
      → find_unique j t ≡ some v
      → find_unique j (create k u t) ≡ some v
  unfolding find_unique create
  find_unique-create_old j k u [] v h = cc
  find_unique-create_old j k u ((i, x) ∷ t) v h = ground (arith, find_unique-create_old j k u t v)

  pub find_unique-create_ne :
      (j k : ℕ) (u : V) (t : Table V) → j ≢ k → find_unique j (create k u t) ≡ find_unique j t
  unfolding find_unique create
  find_unique-create_ne j k u [] h = ground arith
  find_unique-create_ne j k u ((i, x) ∷ t) h = ground (arith, find_unique-create_ne j k u t)

  pub find_unique-create_new :
      (k : ℕ) (u : V) (t : Table V) → find_unique k t ≡ none → find_unique k (create k u t) ≡ some u
  unfolding find_unique create
  find_unique-create_new k u [] h = ground arith
  find_unique-create_new k u ((i, x) ∷ t) h = ground (arith, find_unique-create_new k u t)

  pub update-IsKeyed : (k : ℕ) (f : V → V) (t : Table V) → IsKeyed t → IsKeyed (update k f t)
  unfolding update
  update-IsKeyed k f [] h = tt
  update-IsKeyed k f ((i, x) ∷ t) h =
      ground (arith, update-IsKeyed k f t h.1, find_unique-update-none i k f t)

  pub update_many-IsKeyed :
      (p : ℕ → V → Bool) (f : V → V) (t : Table V) → IsKeyed t → IsKeyed (update_many p f t)
  unfolding update_many
  update_many-IsKeyed p f [] h = tt
  update_many-IsKeyed p f ((i, x) ∷ t) h =
      (find_unique-update_many-none i p f t h.0, update_many-IsKeyed p f t h.1)

  -- A key that is not in a table is not the key of its first row.
  absent_ne :
      (k i : ℕ) (x : V) (t : Table V)
      → find_unique k ((i, x) ∷ t) ≡ none
      → (i ≢ k) × (find_unique k t ≡ none)
  unfolding find_unique
  absent_ne k i x t h = ground arith

  pub create-IsKeyed :
      (k : ℕ) (u : V) (t : Table V) → find_unique k t ≡ none → IsKeyed t → IsKeyed (create k u t)
  unfolding create find_unique
  create-IsKeyed k u [] f h = (refl, tt)
  create-IsKeyed k u ((i, x) ∷ t) f h =
      let (other, absent) = absent_ne k i x t f in
      (find_unique-create_ne i k u t other ∙ h.0, create-IsKeyed k u t absent h.1)

  -- A row that is not in the table is in no selection of it.
  pub contains-ids :
      (k : ℕ) (p : ℕ → V → Bool) (t : Table V)
      → find_unique k t ≡ none
      → contains k (ids (find_many p t)) ≡ false
  unfolding find_unique find_many ids
  contains-ids k p [] h = refl
  contains-ids k p ((i, x) ∷ t) h = ground (arith, contains-ids k p t)

  update_many-cons_absent :
      (k : ℕ) (js : List ℕ) (f : V → V) (t : Table V)
      → find_unique k t ≡ none
      → update_many (λ i _. contains i (k ∷ js)) f t ≡ update_many (λ i _. contains i js) f t
  unfolding find_unique update_many
  update_many-cons_absent k js f [] h = refl
  update_many-cons_absent k js f ((i, x) ∷ t) h = ground (arith, update_many-cons_absent k js f t)

  -- To write to the rows whose keys a query returned is to write to the rows that it matched.
  pub update_many-in_ids :
      (p : ℕ → V → Bool) (f : V → V) (t : Table V)
      → IsKeyed t
      → update_many (in_ids (find_many p t)) f t ≡ update_many p f t
  unfolding find_many update_many ids
  update_many-in_ids p f [] h = refl
  update_many-in_ids p f ((i, x) ∷ t) h = ground (
    arith,
    ==_refl i,
    contains-ids i p t,
    update_many-cons_absent i (ids (find_many p t)) f t,
    update_many-in_ids p f t h.1,
  )

  absent_first :
      (k : ℕ) (q : V → Bool) (t : Table V)
      → find_unique k t ≡ none
      → find_first (λ i r. i == k && q r) t ≡ none
  unfolding find_first find_unique
  absent_first k q [] h = refl
  absent_first k q ((i, x) ∷ t) h = ground (arith, absent_first k q t)

  -- With distinct keys, a query by key and a further test finds the row of that key.
  pub find_first-by_key :
      (k : ℕ) (q : V → Bool) (t : Table V) (j : ℕ) (v : V)
      → IsKeyed t
      → find_first (λ i r. i == k && q r) t ≡ some (j, v)
      → (find_unique k t ≡ some v) × (q v ≡ true)
  unfolding find_first find_unique
  find_first-by_key k q [] j v h e = cc
  find_first-by_key k q ((i, x) ∷ t) j v h e =
      ground (arith, find_first-by_key k q t j v h.1, absent_first k q t, h.0)

  -- The key of the row that a query by key finds.
  pub find_first-named :
      (k : ℕ) (q : V → Bool) (t : Table V) (j : ℕ) (v : V)
      → find_first (λ i r. i == k && q r) t ≡ some (j, v)
      → j ≡ k
  unfolding find_first
  find_first-named k q [] j v e = absurd (ground (arith, e))
  find_first-named k q ((i, x) ∷ t) j v e = ground (arith, e, find_first-named k q t j v)

  pub find_first-none :
      (k : ℕ) (q : V → Bool) (t : Table V) (v : V)
      → find_first (λ i r. i == k && q r) t ≡ none
      → find_unique k t ≡ some v
      → q v ≡ false
  unfolding find_first find_unique
  find_first-none k q [] v e h = cc
  find_first-none k q ((i, x) ∷ t) v e h = ground (arith, find_first-none k q t v)

  pub is_some-update :
      (j k : ℕ) (f : V → V) (t : Table V)
      → is_some (find_unique j (update k f t)) ≡ is_some (find_unique j t)
  unfolding find_unique update
  is_some-update j k f [] = refl
  is_some-update j k f ((i, x) ∷ t) = ground (arith, is_some-update j k f t)

module _ {V : Type 0} where
  -- Where a row of an updated table comes from.
  pub find_unique-update_inv :
      (j k : ℕ) (f : V → V) (t : Table V) (v : V)
      → find_unique j (update k f t) ≡ some v
      → (u : V) × (find_unique j t ≡ some u) × (v ≡ (if j == k then f u else u))
  find_unique-update_inv j k f t v e = elim (Option-cases (find_unique j t)) [
    | inl absent ↦ cc (find_unique-update-none j k f t absent)
    | inr (u, found) ↦ (
      u,
      found,
      ground (arith, e, found, find_unique-update_self k f t u, find_unique-update_ne j k f t),
    )
  ]

  pub count-none :
      (k : ℕ) (q : V → Bool) (t : Table V)
      → find_unique k t ≡ none
      → count (λ j x. j == k && q x) t ≡ 0
  unfolding count find_unique
  count-none k q [] h = refl
  count-none k q ((j, x) ∷ t) h = ground (arith, h, count-none k q t)

  -- A condition on the row of one key holds of one row at most.
  pub count-by_key :
      (k : ℕ) (q : V → Bool) (t : Table V) (v : V)
      → IsKeyed t
      → find_unique k t ≡ some v
      → count (λ j x. j == k && q x) t ≡ (if q v then 1 else 0)
  unfolding count find_unique
  count-by_key k q [] v keyed h = absurd (ground (arith, h))
  count-by_key k q ((j, x) ∷ t) v keyed h =
      ground (arith, h, keyed.0, count-none k q t, count-by_key k q t v keyed.1)

  pub find_first-key :
      (p : ℕ → V → Bool) (k j : ℕ) (v : V) (t : Table V)
      → find_unique k t ≡ none
      → find_first p t ≡ some (j, v)
      → j ≢ k
  unfolding find_first find_unique
  find_first-key p k j v [] h first = ground (arith, first)
  find_first-key p k j v ((i, x) ∷ t) h first = ground (arith, h, first, find_first-key p k j v t)

  -- The row that a search finds is the row of its key.
  pub find_unique-find_first :
      (p : ℕ → V → Bool) (k : ℕ) (v : V) (t : Table V)
      → IsKeyed t
      → find_first p t ≡ some (k, v)
      → find_unique k t ≡ some v
  unfolding find_first find_unique
  find_unique-find_first p k v [] keyed first = absurd (ground (arith, first))
  find_unique-find_first p k v ((i, x) ∷ t) keyed first =
      ground
        (arith, first, find_first-key p i k v t keyed.0, find_unique-find_first p k v t keyed.1)

  pub find_unique-update :
      (k j : ℕ) (f : V → V) (t : Table V) (v : V)
      → find_unique k t ≡ some v
      → find_unique k (update j f t) ≡ some (if k == j then f v else v)
  unfolding find_unique update
  find_unique-update k j f [] v h = absurd (ground (arith, h))
  find_unique-update k j f ((i, x) ∷ t) v h = ground (arith, h, find_unique-update k j f t v)

  -- The last row that passes a test is the row of its key.
  last-key :
      (p : ℕ → V → Bool) (j k : ℕ) (a : V) (t : Table V)
      → find_unique j t ≡ none
      → find_last p t ≡ some (k, a)
      → (j == k) ≡ false
  unfolding find_last find_unique
  last-key p j k a [] h e = absurd (ground (arith, e))
  last-key p j k a ((i, b) ∷ t) h e = elim (Option-cases (find_last p t)) [
    | inl gone ↦ ground (arith, gone, e, h)
    | inr ((i', b'), at) ↦ ground (arith, at, e, last-key p j i' b' t (ground (arith, h)) at)
  ]

  pub find_unique-find_last :
      (p : ℕ → V → Bool) (k : ℕ) (a : V) (t : Table V)
      → IsKeyed t
      → find_last p t ≡ some (k, a)
      → (find_unique k t ≡ some a) × (p k a ≡ true)
  unfolding find_last find_unique
  find_unique-find_last p k a [] keyed e = absurd (ground (arith, e))
  find_unique-find_last p k a ((j, b) ∷ t) keyed e = elim (Option-cases (find_last p t)) [
    | inl gone ↦ elim (Bool-cases (p j b)) [
      | inl here ↦
          let key : j ≡ k = ground (arith, gone, here, e) in
          let row : b ≡ a = ground (arith, gone, here, e) in
          (ground (arith, key, row), ground (arith, here, key, row))
      | inr there ↦ absurd (ground (arith, gone, there, e))
    ]
    | inr (found, at) ↦
        let here : find_last p t ≡ some (k, a) = ground (arith, at, e) in
        let (row, holds) = find_unique-find_last p k a t keyed.1 here in
        (ground (arith, row, last-key p j k a t keyed.0 here), holds)
  ]
