-- ===== src/Addresses/Tally.antt =====
-- How many addresses of a user are live and default, after each write
-- (backend/src/lib/addresses.ts).
use kintsugi.Prelude.{
  ℕ, ◌+◌, ◌≤◌, ◌≡◌, refl, inl, inr, Bool, true, false, ◌&&◌, none, some, [], ◌∷◌, ◌==◌,
  if◌then◌else◌, is_some, arith, Bool-cases, Option-cases,
}
use kintsugi.Prelude.Table.{find_unique, find_last, update, update_many, create, count, IsKeyed}
use kintsugi.Schema.{Address}
use kintsugi.Addresses.{
  Book, is_live, is_default_of, is_other_default, clear_default, clear_defaults,
}

-- A deleted address that is still a default.
abbrev pub is_stale : ℕ → ℕ → Address → Bool
is_stale user_id id a = is_default_of user_id id a && is_some a.deleted_at

module _ (p : ℕ → Address → Bool) where
  abbrev pub weight : ℕ → Address → ℕ
  weight k a = if p k a then 1 else 0

  pub count-update :
      (k : ℕ) (f : Address → Address) (t : Book) (a : Address)
      → find_unique k t ≡ some a
      → count p (update k f t) + weight k a ≡ count p t + weight k (f a)
  unfolding count update find_unique
  count-update k f [] a e = absurd (ground (arith, e))
  count-update k f ((j, b) ∷ t) a e = elim (Bool-cases (j == k)) [
    | inl here ↦
        let key : j ≡ k = ground (arith, here) in
        let row : b ≡ a = ground (arith, here, e) in ground (arith, here, key, row)
    | inr there ↦ ground (arith, there, e, count-update k f t a (ground (arith, there, e)))
  ]

  pub count-row :
      (k : ℕ) (t : Book) (a : Address) → find_unique k t ≡ some a → weight k a ≤ count p t
  unfolding count find_unique
  count-row k [] a e = absurd (ground (arith, e))
  count-row k ((j, b) ∷ t) a e = elim (Bool-cases (j == k)) [
    | inl here ↦
        let key : j ≡ k = ground (arith, here) in
        let row : b ≡ a = ground (arith, here, e) in ground (arith, here, key, row)
    | inr there ↦ ground (arith, there, e, count-row k t a (ground (arith, there, e)))
  ]

  pub count-create :
      (k : ℕ) (a : Address) (t : Book) → count p (create k a t) ≡ count p t + weight k a
  unfolding count create
  count-create k a [] = ground arith
  count-create k a ((j, b) ∷ t) = ground (arith, count-create k a t)

  pub find_last-none : (t : Book) → find_last p t ≡ none → count p t ≡ 0
  unfolding find_last count
  find_last-none [] e = refl
  find_last-none ((j, b) ∷ t) e = elim (Option-cases (find_last p t)) [
    | inl gone ↦ ground (arith, gone, e, find_last-none t gone)
    | inr (found, at) ↦ absurd (ground (arith, at, e))
  ]

  -- A write that clears defaults, under any condition.
  pub live-clear :
      (u : ℕ) (t : Book) → count (is_live u) (update_many p clear_default t) ≡ count (is_live u) t
  unfolding count update_many
  live-clear u [] = refl
  live-clear u ((j, b) ∷ t) = ground (arith, live-clear u t)

  pub stale-clear :
      (u : ℕ) (t : Book) → count (is_stale u) (update_many p clear_default t) ≤ count (is_stale u) t
  unfolding count update_many
  stale-clear u [] = omega arith
  stale-clear u ((j, b) ∷ t) = ground (arith, stale-clear u t)

  pub default-clear_ne :
      (u : ℕ) (t : Book)
      → ((k : ℕ) (a : Address) → (a.user_id == u) ≡ true → p k a ≡ false)
      → count (is_default_of u) (update_many p clear_default t) ≡ count (is_default_of u) t
  unfolding count update_many
  default-clear_ne u [] others = refl
  default-clear_ne u ((j, b) ∷ t) others = elim (Bool-cases (b.user_id == u)) [
    | inl here ↦ ground (arith, here, others j b here, default-clear_ne u t others)
    | inr there ↦ ground (arith, there, default-clear_ne u t others)
  ]

pub default-clear : (u : ℕ) (t : Book) → count (is_default_of u) (clear_defaults u t) ≡ 0
unfolding clear_defaults count update_many
default-clear u [] = refl
default-clear u ((j, b) ∷ t) = ground (arith, default-clear u t)

others_absent :
    (u id : ℕ) (t : Book)
    → find_unique id t ≡ none
    → count (is_default_of u) (update_many (is_other_default u id) clear_default t) ≡ 0
unfolding count update_many find_unique
others_absent u id [] e = refl
others_absent u id ((j, b) ∷ t) e = ground (arith, e, others_absent u id t)

pub default-clear_others :
    (u id : ℕ) (a : Address) (t : Book)
    → IsKeyed t
    → find_unique id t ≡ some a
    → count (is_default_of u) (update_many (is_other_default u id) clear_default t)
      ≡ weight (is_default_of u) id a
unfolding count update_many find_unique
default-clear_others u id a [] keyed e = absurd (ground (arith, e))
default-clear_others u id a ((j, b) ∷ t) keyed e = elim (Bool-cases (j == id)) [
  | inl here ↦
      let key : j ≡ id = ground (arith, here) in
      let row : b ≡ a = ground (arith, here, e) in
      ground (arith, here, key, row, others_absent u id t (ground (arith, key, keyed.0)))
  | inr there ↦
      ground (arith, there, e, default-clear_others u id a t keyed.1 (ground (arith, there, e)))
]

-- A default is live or stale.
pub default-le :
    (u : ℕ) (t : Book) → count (is_default_of u) t ≤ count (is_live u) t + count (is_stale u) t
unfolding count
default-le u [] = omega arith
default-le u ((j, b) ∷ t) = ground (arith, default-le u t)
