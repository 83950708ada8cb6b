-- ===== src/Addresses.antt =====
-- The address book (backend/src/lib/addresses.ts). `toUpperCase` of the language is an argument, the
-- rows stand in the order in which they were created, and what a form shows of an address is left
-- out.
pub mod Default
pub mod Tally
pub mod Removal
pub mod Single
use kintsugi.Prelude.{
  ℕ, zero, suc, ◌+◌, Bool, true, false, not, ◌&&◌, ◌||◌, Option, none, some, List, [], ◌∷◌, ◌++◌,
  ltb, leb, ◌==◌, if◌then◌else◌, is_some, is_none,
}
use kintsugi.Prelude.Table.{
  Table, find_first, find_last, find_many, update, update_many, create, count,
}
use kintsugi.Prelude.Action.{
  Action, Result, ok, err, ◌>>=◌, ◌>>◌, throw_if, or_throw, gets, modify, not_found, too_many,
  invalid_country,
}
use kintsugi.Prelude.Text.{Text, trim, length}
use kintsugi.Schema.{Address, ShipTo}
use kintsugi.Sales.{tidy}

abbrev pub Book : Type 0
Book = Table Address

abbrev pub max_addresses : ℕ
max_addresses = 20

pub record AddressInput : Type 0 where
  pub ship_to : ShipTo
  pub is_default : Option Bool

abbrev pub is_asked : Option Bool → Bool
is_asked none = false
is_asked (some b) = b

abbrev pub trimmed : (Text → Text) → ShipTo → ShipTo
trimmed to_upper_case input = record {
  full_name = trim input.full_name;
  line1 = trim input.line1;
  line2 = tidy input.line2;
  city = trim input.city;
  region = tidy input.region;
  postcode = trim input.postcode;
  country = to_upper_case (trim input.country);
  phone = tidy input.phone;
}

unfoldable pub clean : (Text → Text) → AddressInput → Action Book ShipTo
clean to_upper_case input = do
  throw_if (not (length (trimmed to_upper_case input.ship_to).country == 2)) invalid_country 400
  gets (λ _. trimmed to_upper_case input.ship_to)

abbrev pub is_live : ℕ → ℕ → Address → Bool
is_live user_id _ a = (a.user_id == user_id) && is_none a.deleted_at

abbrev pub is_default_of : ℕ → ℕ → Address → Bool
is_default_of user_id _ a = (a.user_id == user_id) && a.is_default

abbrev pub clear_default : Address → Address
clear_default a = record a { is_default = false }

abbrev pub set_default : Address → Address
set_default a = record a { is_default = true }

-- `updateMany({ where: { userId, isDefault: true }, data: { isDefault: false } })`
unfoldable pub clear_defaults : ℕ → Book → Book
clear_defaults user_id book = update_many (is_default_of user_id) clear_default book

abbrev pub new_address : ℕ → ShipTo → Bool → Address
new_address user_id data_ make_default = record {
  user_id = user_id;
  ship_to = data_;
  is_default = make_default;
  deleted_at = none;
}

unfoldable pub insert_address : ℕ → ℕ → ShipTo → Bool → Book → Book
unfolding clear_defaults
insert_address user_id id data_ make_default book =
    create id (new_address user_id data_ make_default)
      (if make_default then clear_defaults user_id book else book)

-- What follows the count of the user's addresses, which stands outside the transaction of the insert.
unfoldable pub create_after : (Text → Text) → ℕ → ℕ → AddressInput → ℕ → Action Book (Unit {0})
unfolding clean insert_address
create_after to_upper_case user_id id input n = do
  throw_if (leb max_addresses n) too_many 409
  data_ ← clean to_upper_case input
  modify (insert_address user_id id data_ (is_asked input.is_default || n == 0))

-- The count and what follows with no other write in between.
unfoldable pub create_address : (Text → Text) → ℕ → ℕ → AddressInput → Action Book (Unit {0})
unfolding create_after
create_address to_upper_case user_id id input = do
  n ← gets (count (is_live user_id))
  create_after to_upper_case user_id id input n

-- `findFirst({ where: { id, userId, deletedAt: null } })`
unfoldable pub find_address : ℕ → ℕ → Book → Option (ℕ × Address)
find_address user_id address_id book =
    find_first (λ id a. id == address_id && is_live user_id id a) book

abbrev pub rewrite : ShipTo → Bool → Address → Address
rewrite data_ is_default a = record a { ship_to = data_; is_default = is_default }

abbrev pub is_other_default : ℕ → ℕ → ℕ → Address → Bool
is_other_default user_id address_id id a = is_default_of user_id id a && not (id == address_id)

unfoldable pub write_address : ℕ → ℕ → ShipTo → Bool → Bool → Book → Book
write_address user_id address_id data_ make_default was_default book =
    update address_id (rewrite data_ (make_default || was_default)) (
      if make_default
      then update_many (is_other_default user_id address_id) clear_default book
      else book)

unfoldable pub update_address : (Text → Text) → ℕ → ℕ → AddressInput → Action Book (Unit {0})
unfolding clean write_address find_address
update_address to_upper_case user_id address_id input = do
  existing ← or_throw (← gets (find_address user_id address_id)) not_found 404
  data_ ← clean to_upper_case input
  modify (write_address user_id address_id data_ (is_asked input.is_default) existing.1.is_default)

unfoldable pub set_default_address : ℕ → ℕ → Action Book (Unit {0})
unfolding clear_defaults find_address
set_default_address user_id address_id = do
  existing ← or_throw (← gets (find_address user_id address_id)) not_found 404
  modify (λ book. update address_id set_default (clear_defaults user_id book))

abbrev pub remove : ℕ → Address → Address
remove now a = record a { deleted_at = some now; is_default = false }

-- The most recent address that is left takes over.
unfoldable pub promote_latest : ℕ → Book → Book
unfolding find_last
promote_latest user_id book = elim (find_last (is_live user_id) book) [
  | none ↦ book
  | some (id, a) ↦ update id set_default book
]

unfoldable pub remove_address : ℕ → ℕ → ℕ → Bool → Book → Book
unfolding promote_latest
remove_address now user_id address_id was_default book =
    let rest = update address_id (remove now) book in
    if was_default then promote_latest user_id rest else rest

unfoldable pub delete_address : ℕ → ℕ → ℕ → Action Book (Unit {0})
unfolding remove_address find_address
delete_address now user_id address_id = do
  existing ← or_throw (← gets (find_address user_id address_id)) not_found 404
  modify (remove_address now user_id address_id existing.1.is_default)
