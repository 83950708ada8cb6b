-- ===== src/Addresses/Removal.antt =====
-- The default of an address book after an address is deleted (backend/src/lib/addresses.ts).
use kintsugi.Prelude.{
  ℕ, ◌≤◌, ◌≡◌, inl, inr, true, some, ◌==◌, if◌then◌else◌, arith, Bool-cases, Option-cases,
}
use kintsugi.Prelude.Table.{find_last, find_unique, update, count, IsKeyed}
use kintsugi.Schema.{Address}
use kintsugi.Prelude.Table.Lookup.{find_unique-find_last, update-IsKeyed}
use kintsugi.Addresses.{
  Book, is_live, is_default_of, set_default, remove, promote_latest, remove_address,
}
use kintsugi.Addresses.Tally.{is_stale, count-row, find_last-none, default-le}
use kintsugi.Addresses.Default.{IsBook, update-counts}

promote_latest-IsBook :
    (u v : ℕ) (t : Book)
    → IsKeyed t
    → count (is_stale u) t ≡ 0
    → count (is_live u) t ≤ 20
    → count (is_default_of u) t
      ≡ (if v == u then 0 else (if count (is_live u) t == 0 then 0 else 1))
    → IsBook u (promote_latest v t)
unfolding promote_latest
promote_latest-IsBook u v t keyed stale few none_ = elim (Option-cases (find_last (is_live v) t)) [
  | inl gone ↦
      let empty = find_last-none (is_live v) t gone in
      elim (Bool-cases (v == u)) [
        | inl same ↦
            let is_u : v ≡ u = ground (arith, same) in
            (
              ground (arith, gone, stale),
              ground (arith, gone, is_u, empty, none_),
              ground (arith, gone, few),
            )
        | inr other ↦ (
          ground (arith, gone, stale),
          ground (arith, gone, other, none_),
          ground (arith, gone, few),
        )
      ]
  | inr ((k, a), at) ↦
      let (row, live) = find_unique-find_last (is_live v) k a t keyed at in
      let some_ = count-row (is_live v) k t a row in
      let old = count-row (is_default_of v) k t a row in
      let (s, d, l) = update-counts u k set_default t a row in
      elim (Bool-cases (v == u)) [
        | inl same ↦
            let is_u : v ≡ u = ground (arith, same) in
            (
              ground (arith, at, is_u, live, stale, s),
              ground (arith, at, is_u, live, some_, old, none_, d, l),
              ground (arith, at, is_u, live, few, l),
            )
        | inr other ↦ (
          ground (arith, at, other, live, stale, s),
          ground (arith, at, other, live, none_, d, l),
          ground (arith, at, other, live, few, l),
        )
      ]
]

pub remove_address-IsBook :
    (now u v id : ℕ) (a : Address) (t : Book)
    → IsKeyed t
    → find_unique id t ≡ some a
    → is_live v id a ≡ true
    → IsBook u t
    → IsBook u (remove_address now v id a.is_default t)
unfolding remove_address
remove_address-IsBook now u v id a t keyed e live (stale, one, few) =
    let rest = update id (remove now) t in
    let some_ = count-row (is_live v) id t a e in
    let bound = default-le u rest in
    let (s, d, l) = update-counts u id (remove now) t a e in
    let still : count (is_stale u) rest ≡ 0 = ground (arith, live, stale, s) in
    let fewer : count (is_live u) rest ≤ 20 = ground (arith, live, few, l) in
    elim (Bool-cases a.is_default) [
      | inl default ↦
          let left : count (is_default_of u) rest
              ≡ (if v == u then 0 else (if count (is_live u) rest == 0 then 0 else 1)) =
            elim (Bool-cases (v == u)) [
              | inl same ↦
                  let is_u : v ≡ u = ground (arith, same) in
                  ground (arith, default, live, is_u, one, some_, d, l)
              | inr other ↦ ground (arith, default, live, other, one, d, l)
            ] in
          let ih =
            promote_latest-IsBook u v rest (update-IsKeyed id (remove now) t keyed) still fewer
              left in
          (
            ground (arith, default, ih.0),
            ground (arith, default, ih.1),
            ground (arith, default, ih.2),
          )
      | inr plain ↦ (
        ground (arith, plain, still),
        ground (arith, plain, live, one, bound, still, d, l),
        ground (arith, plain, fewer),
      )
    ]
