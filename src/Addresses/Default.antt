-- ===== src/Addresses/Default.antt =====
-- The default of an address book (backend/src/lib/addresses.ts).
use kintsugi.Prelude.{
  ℕ, ◌+◌, ◌≤◌, ◌≡◌, inl, inr, Bool, true, false, ◌||◌, some, leb, ◌==◌, if◌then◌else◌, arith,
  Bool-cases,
}
use kintsugi.Prelude.Table.{find_unique, update, update_many, create, count, IsKeyed}
use kintsugi.Prelude.Table.Lookup.{find_unique-update_many}
use kintsugi.Schema.{Address, ShipTo}
use kintsugi.Addresses.{
  Book, is_live, is_default_of, is_other_default, clear_default, set_default, clear_defaults,
  new_address, insert_address, rewrite, write_address,
}
use kintsugi.Addresses.Tally.{
  is_stale, count-update, count-row, count-create, live-clear, stale-clear, default-clear_ne,
  default-clear, default-clear_others, weight,
}

-- No deleted address is a default, one address is the default where there is any, and there are
-- twenty at most.
abbrev pub IsBook : ℕ → Book → Type 0
IsBook user_id t =
    (count (is_stale user_id) t ≡ 0)
    × (count (is_default_of user_id) t ≡ (if count (is_live user_id) t == 0 then 0 else 1))
    × (count (is_live user_id) t ≤ 20)

-- The three counts of a user after a write to one row.
pub update-counts :
    (u k : ℕ) (f : Address → Address) (t : Book) (a : Address)
    → find_unique k t ≡ some a
    → (count (is_stale u) (update k f t) + weight (is_stale u) k a
        ≡ count (is_stale u) t + weight (is_stale u) k (f a))
      × (count (is_default_of u) (update k f t) + weight (is_default_of u) k a
          ≡ count (is_default_of u) t + weight (is_default_of u) k (f a))
      × (count (is_live u) (update k f t) + weight (is_live u) k a
          ≡ count (is_live u) t + weight (is_live u) k (f a))
update-counts u k f t a e = (
  count-update (is_stale u) k f t a e,
  count-update (is_default_of u) k f t a e,
  count-update (is_live u) k f t a e,
)

-- Clearing a user's defaults leaves the defaults of the others.
cleared-other :
    (u v : ℕ) (t : Book)
    → (v == u) ≡ false
    → count (is_default_of u) (clear_defaults v t) ≡ count (is_default_of u) t
unfolding clear_defaults
cleared-other u v t ne = default-clear_ne (is_default_of v) u t (λ k a e. ground (arith, ne, e))

cleared_others-other :
    (u v id : ℕ) (t : Book)
    → (v == u) ≡ false
    → count (is_default_of u) (update_many (is_other_default v id) clear_default t)
      ≡ count (is_default_of u) t
cleared_others-other u v id t ne =
    default-clear_ne (is_other_default v id) u t (λ k a e. ground (arith, ne, e))

-- The counts of a user after an insertion.
create-counts :
    (u k : ℕ) (t : Book) (a : Address)
    → (count (is_stale u) (create k a t) ≡ count (is_stale u) t + weight (is_stale u) k a)
      × (count (is_default_of u) (create k a t)
          ≡ count (is_default_of u) t + weight (is_default_of u) k a)
      × (count (is_live u) (create k a t) ≡ count (is_live u) t + weight (is_live u) k a)
create-counts u k t a = (
  count-create (is_stale u) k a t,
  count-create (is_default_of u) k a t,
  count-create (is_live u) k a t,
)

cleared-counts :
    (u v : ℕ) (t : Book)
    → (count (is_stale u) (clear_defaults v t) ≤ count (is_stale u) t)
      × (count (is_default_of u) (clear_defaults v t)
          ≡ (if v == u then 0 else count (is_default_of u) t))
      × (count (is_live u) (clear_defaults v t) ≡ count (is_live u) t)
unfolding clear_defaults
cleared-counts u v t = (
  stale-clear (is_default_of v) u t,
  elim (Bool-cases (v == u)) [
    | inl same ↦ let is_u : v ≡ u = ground (arith, same) in ground (arith, is_u, default-clear u t)
    | inr other ↦ ground (arith, other, cleared-other u v t other)
  ],
  live-clear (is_default_of v) u t,
)

pub insert_address-IsBook :
    (u v id : ℕ) (data_ : ShipTo) (asked : Bool) (t : Book)
    → leb 20 (count (is_live v) t) ≡ false
    → IsBook u t
    → IsBook u (insert_address v id data_ (asked || count (is_live v) t == 0) t)
unfolding insert_address
insert_address-IsBook u v id data_ asked t room (stale, one, few) =
    let made = asked || count (is_live v) t == 0 in
    let a = new_address v data_ made in
    elim (Bool-cases made) [
      | inl asked_ ↦
          let made_counts = create-counts u id (clear_defaults v t) (new_address v data_ made) in
          let counts = cleared-counts u v t in
          elim (Bool-cases (v == u)) [
            | inl same ↦
                let is_u : v ≡ u = ground (arith, same) in
                (
                  ground (arith, asked_, is_u, made_counts.0, counts.0, stale),
                  ground (
                    arith, asked_, is_u, made_counts.1, counts.1, made_counts.2, counts.2, one, few,
                  ),
                  ground (arith, asked_, is_u, made_counts.2, counts.2, room, few),
                )
            | inr other ↦ (
              ground (arith, asked_, other, made_counts.0, counts.0, stale),
              ground (
                arith, asked_, other, made_counts.1, counts.1, made_counts.2, counts.2, one, few,
              ),
              ground (arith, asked_, other, made_counts.2, counts.2, room, few),
            )
          ]
      | inr silent ↦
          let counts = create-counts u id t (new_address v data_ made) in
          elim (Bool-cases (v == u)) [
            | inl same ↦
                let is_u : v ≡ u = ground (arith, same) in
                (
                  ground (arith, silent, is_u, counts.0, stale),
                  ground (arith, silent, is_u, counts.1, counts.2, one, few),
                  ground (arith, silent, is_u, counts.2, room, few),
                )
            | inr other ↦ (
              ground (arith, silent, other, counts.0, stale),
              ground (arith, silent, other, counts.1, counts.2, one, few),
              ground (arith, silent, other, counts.2, room, few),
            )
          ]
    ]

-- The counts of a user after the defaults but one are cleared.
cleared_others-counts :
    (u v id : ℕ) (a : Address) (t : Book)
    → IsKeyed t
    → find_unique id t ≡ some a
    → (count (is_stale u) (update_many (is_other_default v id) clear_default t)
        ≤ count (is_stale u) t)
      × (count (is_default_of u) (update_many (is_other_default v id) clear_default t)
          ≡ (if v == u then weight (is_default_of u) id a else count (is_default_of u) t))
      × (count (is_live u) (update_many (is_other_default v id) clear_default t)
          ≡ count (is_live u) t)
cleared_others-counts u v id a t keyed e = (
  stale-clear (is_other_default v id) u t,
  elim (Bool-cases (v == u)) [
    | inl same ↦
        let is_u : v ≡ u = ground (arith, same) in
        ground (arith, is_u, default-clear_others u id a t keyed e)
    | inr other ↦ ground (arith, other, cleared_others-other u v id t other)
  ],
  live-clear (is_other_default v id) u t,
)

kept_row :
    (v id : ℕ) (a : Address) (t : Book)
    → find_unique id t ≡ some a
    → find_unique id (update_many (is_other_default v id) clear_default t) ≡ some a
kept_row v id a t e =
    ground (arith, find_unique-update_many id (is_other_default v id) clear_default t a e)

pub write_address-IsBook :
    (u v id : ℕ) (data_ : ShipTo) (make_default : Bool) (a : Address) (t : Book)
    → IsKeyed t
    → find_unique id t ≡ some a
    → is_live v id a ≡ true
    → IsBook u t
    → IsBook u (write_address v id data_ make_default a.is_default t)
unfolding write_address
write_address-IsBook u v id data_ true a t keyed e live (stale, one, few) =
    let some_ = count-row (is_live v) id t a e in
    let counts = cleared_others-counts u v id a t keyed e in
    let after =
      update-counts u id (rewrite data_ true) (update_many (is_other_default v id) clear_default t)
        a (kept_row v id a t e) in
    let (s, d, l) = after in
    elim (Bool-cases (v == u)) [
      | inl same ↦
          let is_u : v ≡ u = ground (arith, same) in
          (
            ground (arith, is_u, live, stale, s, counts.0),
            ground (arith, is_u, live, some_, one, d, l, counts.1, counts.2),
            ground (arith, is_u, live, few, l, counts.2),
          )
      | inr other ↦ (
        ground (arith, other, live, stale, s, counts.0),
        ground (arith, other, live, one, d, l, counts.1, counts.2),
        ground (arith, other, live, few, l, counts.2),
      )
    ]
write_address-IsBook u v id data_ false a t keyed e live (stale, one, few) =
    let after = update-counts u id (rewrite data_ a.is_default) t a e in
    let (s, d, l) = after in
    (ground (arith, live, stale, s), ground (arith, live, one, d, l), ground (arith, live, few, l))

pub set_default-IsBook :
    (u v id : ℕ) (a : Address) (t : Book)
    → find_unique id t ≡ some a
    → is_live v id a ≡ true
    → IsBook u t
    → IsBook u (update id set_default (clear_defaults v t))
unfolding clear_defaults
set_default-IsBook u v id a t e live (stale, one, few) =
    let some_ = count-row (is_live v) id t a e in
    let b = if is_default_of v id a then clear_default a else a in
    let row = find_unique-update_many id (is_default_of v) clear_default t a e in
    let counts = cleared-counts u v t in
    let (s, d, l) = update-counts u id set_default (clear_defaults v t) b row in
    elim (Bool-cases (v == u)) [
      | inl same ↦
          let is_u : v ≡ u = ground (arith, same) in
          (
            ground (arith, is_u, live, stale, s, counts.0),
            ground (arith, is_u, live, some_, one, d, l, counts.1, counts.2),
            ground (arith, is_u, live, few, l, counts.2),
          )
      | inr other ↦ (
        ground (arith, other, live, stale, s, counts.0),
        ground (arith, other, live, one, d, l, counts.1, counts.2),
        ground (arith, other, live, few, l, counts.2),
      )
    ]
