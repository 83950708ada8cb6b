-- ===== src/Addresses/Single.antt =====
-- One default address for each user, whatever is asked for (backend/src/lib/addresses.ts).
use kintsugi.Prelude.{ℕ, inl, inr, leb, ◌==◌, arith, Bool-cases, Option-cases}
use kintsugi.Prelude.Table.{count, IsKeyed}
use kintsugi.Prelude.Table.Lookup.{find_first-by_key}
use kintsugi.Prelude.Text.{Text, length}
use kintsugi.Addresses.{
  Book, AddressInput, is_asked, trimmed, clean, is_live, create_address, find_address,
  update_address, set_default_address, delete_address,
}
use kintsugi.Addresses.Default.{
  IsBook, insert_address-IsBook, write_address-IsBook, set_default-IsBook,
}
use kintsugi.Addresses.Removal.{remove_address-IsBook}

-- The requests of a user; a new address comes with its key.
pub data Request : Type 0 where
  creates : (user_id id : ℕ) → AddressInput → Request
  updates : (user_id id : ℕ) → AddressInput → Request
  prefers : (user_id id : ℕ) → Request
  deletes : (now user_id id : ℕ) → Request

unfoldable pub serve : (Text → Text) → Request → Book → Book
serve to_upper_case (creates user_id id input) book =
    (create_address to_upper_case user_id id input book).1
serve to_upper_case (updates user_id id input) book =
    (update_address to_upper_case user_id id input book).1
serve to_upper_case (prefers user_id id) book = (set_default_address user_id id book).1
serve to_upper_case (deletes now user_id id) book = (delete_address now user_id id book).1

-- Creating, changing, choosing and deleting addresses keep the address book of every user in order,
-- whichever user asks: one address is the default exactly where there is any, none that was
-- deleted is, and there are twenty at most. Addresses have distinct keys.
pub serve-IsBook :
    (to_upper_case : Text → Text) (u : ℕ) (request : Request) (book : Book)
    → IsKeyed book
    → IsBook u book
    → IsBook u (serve to_upper_case request book)
unfolding serve create_address update_address set_default_address delete_address clean
serve-IsBook up u (creates v id input) t keyed h =
    let data_ = trimmed up input.ship_to in
    elim (Bool-cases (leb 20 (count (is_live v) t))) [
      | inl full ↦ (ground (arith, full, h.0), ground (arith, full, h.1), ground (arith, full, h.2))
      | inr room ↦
          let done = insert_address-IsBook u v id data_ (is_asked input.is_default) t room h in
          elim (Bool-cases (length data_.country == 2)) [
            | inl two ↦ (
              ground (arith, room, two, done.0),
              ground (arith, room, two, done.1),
              ground (arith, room, two, done.2),
            )
            | inr odd ↦ (
              ground (arith, room, odd, h.0),
              ground (arith, room, odd, h.1),
              ground (arith, room, odd, h.2),
            )
          ]
    ]
serve-IsBook up u (updates v id input) t keyed h =
    let data_ = trimmed up input.ship_to in
    elim (Option-cases (find_address v id t)) [
      | inl gone ↦ ground (arith, gone, h)
      | inr ((j, a), e) ↦
          let found = find_first-by_key id (is_live v id) t j a keyed e in
          let done =
            write_address-IsBook u v id data_ (is_asked input.is_default) a t keyed found.0 found.1
              h in
          elim (Bool-cases (length data_.country == 2)) [
            | inl two ↦ ground (arith, e, two, done)
            | inr odd ↦ ground (arith, e, odd, h)
          ]
    ]
serve-IsBook up u (prefers v id) t keyed h = elim (Option-cases (find_address v id t)) [
  | inl gone ↦ ground (arith, gone, h)
  | inr ((j, a), e) ↦
      let found = find_first-by_key id (is_live v id) t j a keyed e in
      ground (arith, e, set_default-IsBook u v id a t found.0 found.1 h)
]
serve-IsBook up u (deletes now v id) t keyed h = elim (Option-cases (find_address v id t)) [
  | inl gone ↦ ground (arith, gone, h)
  | inr ((j, a), e) ↦
      let found = find_first-by_key id (is_live v id) t j a keyed e in
      ground (arith, e, remove_address-IsBook now u v id a t keyed found.0 found.1 h)
]
