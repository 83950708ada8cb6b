-- ===== src/SmsVerification/Races.antt =====
-- Guesses that run at once (backend/src/lib/smsVerification.ts).
use kintsugi.Prelude.{
  ℕ, ◌+◌, ◌≡◌, refl, Bool, true, false, not, ◌&&◌, some, List, [], ◌∷◌, ltb, leb, ◌==◌,
  if◌then◌else◌, arith,
}
use kintsugi.Prelude.Text.{Text, trim, length}
use kintsugi.SmsVerification.{
  PhoneVerification, Phones, verify_after, wrong_code, count_attempt, newest_code,
}
use kintsugi.Prelude.Table.{find_unique, update, IsKeyed}
use kintsugi.Prelude.Table.Lookup.{find_unique-update_self}
use kintsugi.SmsVerification.Guesses.{is_wrong, found_row}

module _ (hash : Text → ℕ) (id : ℕ) (r : PhoneVerification) (user_id now : ℕ) where
  -- None of the guesses is the code.
  unfoldable pub miss_all : List Text → Bool
  miss_all [] = true
  miss_all (raw ∷ rest) = not (hash (trim raw) == r.code_hash) && miss_all rest

  -- Requests that all read the row before the first of them writes: how many are told that the code
  -- is wrong, and what they leave.
  unfoldable pub raced_guesses : List Text → Phones → ℕ × Phones
  raced_guesses [] db = (0, db)
  raced_guesses (raw ∷ rest) db =
      let (answer, db') = verify_after hash (some (id, r)) user_id raw now db in
      let (told, db'') = raced_guesses rest db' in ((if is_wrong answer then 1 else 0) + told, db'')

  wrong_guess :
      (raw : Text) (db : Phones)
      → leb 5 r.attempts ≡ false
      → ltb r.expires_at now ≡ false
      → (hash (trim raw) == r.code_hash) ≡ false
      → verify_after hash (some (id, r)) user_id raw now db
        ≡ (wrong_code, record db { codes = update id count_attempt db.codes })
  unfolding verify_after
  wrong_guess raw db low live wrong = ground (arith, low, live, wrong)

  raced-counted :
      (raws : List Text) (s : PhoneVerification) (db : Phones)
      → leb 5 r.attempts ≡ false
      → ltb r.expires_at now ≡ false
      → miss_all raws ≡ true
      → find_unique id db.codes ≡ some s
      → ((raced_guesses raws db).0 ≡ length raws)
        × (find_unique id (raced_guesses raws db).1.codes
            ≡ some (record s { attempts = s.attempts + length raws }))
  unfolding miss_all raced_guesses
  raced-counted [] s db low live wrong e = (refl, ground (arith, e))
  raced-counted (raw ∷ rest) s db low live wrong e =
      let db' = record db { codes = update id count_attempt db.codes } in
      let step = wrong_guess raw db low live (ground (arith, wrong)) in
      let (told, row) =
        raced-counted rest (count_attempt s) db' low live (ground (arith, wrong))
          (find_unique-update_self id count_attempt db.codes s e) in
      (ground (arith, step, told), ground (arith, step, row))

-- The limit on attempts does not hold for guesses that run at once: where the newest code of a user
-- lives and has attempts left, and any number of wrong guesses read it before the first of them
-- writes, all of them are compared with the code and told that it is wrong, and they leave the row
-- with that many attempts more, beyond the limit of five where they are enough. Codes have distinct
-- keys.
pub raced_guesses_unlimited :
    (hash : Text → ℕ) (id : ℕ) (r : PhoneVerification) (user_id now : ℕ) (raws : List Text)
    (db : Phones)
    → IsKeyed db.codes
    → newest_code user_id db ≡ some (id, r)
    → leb 5 r.attempts ≡ false
    → ltb r.expires_at now ≡ false
    → miss_all hash id r user_id now raws ≡ true
    → ((raced_guesses hash id r user_id now raws db).0 ≡ length raws)
      × (find_unique id (raced_guesses hash id r user_id now raws db).1.codes
          ≡ some (record r { attempts = r.attempts + length raws }))
raced_guesses_unlimited hash id r user_id now raws db keyed newest low live wrong =
    raced-counted hash id r user_id now raws r db low live wrong
      (found_row user_id id r db keyed newest)
