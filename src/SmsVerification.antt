-- ===== src/SmsVerification.antt =====
-- Proving a phone number (backend/src/lib/smsVerification.ts). The hash of a code is an argument, and
-- so are the new code and whether its text went out. A request is split after its read, since other
-- requests may run before it writes.
pub mod Attempts
pub mod Guesses
pub mod Races
use kintsugi.Prelude.{
  ℕ, ◌+◌, Bool, true, false, not, ◌&&◌, ◌||◌, Option, none, some, List, [], ◌∷◌, ltb, leb, ◌==◌,
  if◌then◌else◌, is_some, is_none,
}
use kintsugi.Prelude.Table.{Table, find_first, find_last, update, update_many, create}
use kintsugi.Prelude.Text.{Text, trim, same_text}
use kintsugi.Phone.{to_e164, Parsed, valid, invalid, Fault}

pub record PhoneVerification : Type 0 where
  pub user_id : ℕ
  pub phone : Text
  pub code_hash : ℕ
  pub attempts : ℕ
  pub expires_at : ℕ
  pub used_at : Option ℕ

-- The columns of a user that a verification writes.
pub record User : Type 0 where
  pub phone : Option Text
  pub phone_verified_at : Option ℕ
  pub sms_consent_at : Option ℕ

pub record Phones : Type 0 where
  pub codes : Table PhoneVerification
  pub users : Table User

abbrev pub code_ttl_ms : ℕ
code_ttl_ms = 600000

abbrev pub max_attempts : ℕ
max_attempts = 5

abbrev pub has_phone : Text → Option Text → Bool
has_phone phone none = false
has_phone phone (some p) = same_text p phone

abbrev pub is_verified_elsewhere : ℕ → Text → ℕ → User → Bool
is_verified_elsewhere user_id phone id u =
    has_phone phone u.phone && (is_some u.phone_verified_at && not (id == user_id))

abbrev pub is_unused : ℕ → ℕ → PhoneVerification → Bool
is_unused user_id _ r = r.user_id == user_id && is_none r.used_at

abbrev pub spend : ℕ → PhoneVerification → PhoneVerification
spend now r = record r { used_at = some now }

abbrev pub spend_all : ℕ → ℕ → Phones → Phones
spend_all user_id now db = record db {
  codes = update_many (is_unused user_id) (spend now) db.codes;
}

abbrev pub new_code : ℕ → Text → ℕ → ℕ → PhoneVerification
new_code user_id phone code_hash now = record {
  user_id = user_id;
  phone = phone;
  code_hash = code_hash;
  attempts = 0;
  expires_at = now + code_ttl_ms;
  used_at = none;
}

pub data IssueResult : Type 0 where
  issued : Text → ℕ → IssueResult
  invalid_number : Fault → IssueResult
  already_in_use unsent : IssueResult

unfoldable pub insert_code : ℕ → ℕ → Text → ℕ → ℕ → Phones → Phones
insert_code id user_id phone code_hash now db =
    let db' = spend_all user_id now db in
    record db' { codes = create id (new_code user_id phone code_hash now) db'.codes }

unfoldable pub issue_for : ℕ → ℕ → Parsed → ℕ → Bool → ℕ → Phones → IssueResult × Phones
unfolding insert_code
issue_for id user_id (invalid why) code_hash is_sent now db = (invalid_number why, db)
issue_for id user_id (valid phone) code_hash is_sent now db =
    if is_some (find_first (is_verified_elsewhere user_id phone) db.users)
    then (already_in_use, db)
    else (
      (if is_sent then issued phone (now + code_ttl_ms) else unsent),
      insert_code id user_id phone code_hash now db,
    )

unfoldable pub issue_and_send_code : ℕ → ℕ → Text → ℕ → Bool → ℕ → Phones → IssueResult × Phones
unfolding issue_for
issue_and_send_code id user_id raw_phone code_hash is_sent now db =
    issue_for id user_id (to_e164 raw_phone) code_hash is_sent now db

pub data VerifyOutcome : Type 0 where
  verified : Text → VerifyOutcome
  no_code expired too_many_attempts wrong_code taken : VerifyOutcome

abbrev pub count_attempt : PhoneVerification → PhoneVerification
count_attempt r = record r { attempts = r.attempts + 1 }

abbrev pub is_owned_elsewhere : ℕ → Text → ℕ → User → Bool
is_owned_elsewhere user_id phone id u = has_phone phone u.phone && not (id == user_id)

abbrev pub prove : Text → ℕ → User → User
prove phone now u = record u {
  phone = some phone;
  phone_verified_at = some now;
  sms_consent_at = some now;
}

-- One transaction, which the unique index on the number can undo.
unfoldable pub commit_phone : ℕ → ℕ → PhoneVerification → ℕ → Phones → VerifyOutcome × Phones
commit_phone user_id id r now db =
    if is_some (find_first (is_owned_elsewhere user_id r.phone) db.users) then (taken, db) else (
      verified r.phone,
      record {
        codes = update id (spend now) db.codes;
        users = update user_id (prove r.phone now) db.users;
      },
    )

-- The request after it has read the newest code that is not spent.
unfoldable pub verify_after :
    (Text → ℕ) → Option (ℕ × PhoneVerification) → ℕ → Text → ℕ → Phones → VerifyOutcome × Phones
unfolding commit_phone
verify_after hash_token none user_id raw_code now db = (no_code, db)
verify_after hash_token (some (id, r)) user_id raw_code now db =
    if ltb r.expires_at now
    then (expired, db)
    else (if leb max_attempts r.attempts
        then (too_many_attempts, db)
        else (if hash_token (trim raw_code) == r.code_hash
            then commit_phone user_id id r now db
            else (wrong_code, record db { codes = update id count_attempt db.codes })))

unfoldable pub newest_code : ℕ → Phones → Option (ℕ × PhoneVerification)
newest_code user_id db = find_last (is_unused user_id) db.codes

unfoldable pub verify_code : (Text → ℕ) → ℕ → Text → ℕ → Phones → VerifyOutcome × Phones
unfolding verify_after newest_code
verify_code hash_token user_id raw_code now db =
    verify_after hash_token (newest_code user_id db) user_id raw_code now db

abbrev pub forget : User → User
forget u = record { phone = none; phone_verified_at = none; sms_consent_at = none }

unfoldable pub remove_phone : ℕ → ℕ → Phones → Phones
remove_phone user_id now db =
    let db' = spend_all user_id now db in record db' { users = update user_id forget db'.users }
