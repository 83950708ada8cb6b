-- ===== src/SmsVerification/Guesses.antt =====
-- How often a code can be guessed (backend/src/lib/smsVerification.ts).
use kintsugi.Prelude.{
  ℕ, ◌+◌, ◌≤◌, ◌≡◌, refl, ◌∙◌, inl, inr, Bool, true, false, ◌&&◌, Option, none, some, List, [], ◌∷◌,
  leb, ◌==◌, if◌then◌else◌, arith, Bool-cases, Option-cases,
}
use kintsugi.Prelude.Table.{find_unique, update_many, IsKeyed}
use kintsugi.Prelude.Table.Lookup.{
  find_unique-find_last, update-IsKeyed, update_many-IsKeyed, create-IsKeyed,
  find_unique-update_many-none,
}
use kintsugi.Prelude.Text.{Text}
use kintsugi.Phone.{Parsed, to_e164, valid, invalid}
use kintsugi.SmsVerification.{
  PhoneVerification, Phones, is_unused, spend, new_code, insert_code, issue_for,
  issue_and_send_code, VerifyOutcome, no_code, wrong_code, count_attempt, commit_phone,
  verify_after, verify_code, newest_code, remove_phone,
}
use kintsugi.SmsVerification.Attempts.{
  left_of, left-update, left-update_many, left-create, left-count_attempt, left_of-le,
}

-- What a user asks for; the keys and the hashes of new codes come with it.
pub data Request : Type 0 where
  issues : (id user_id : ℕ) → Text → (code_hash : ℕ) → Bool → (now : ℕ) → Request
  guesses : (user_id : ℕ) → Text → (now : ℕ) → Request
  removes : (user_id now : ℕ) → Request

unfoldable pub serve : (Text → ℕ) → Request → Phones → Phones
serve hash (issues id user_id raw code_hash is_sent now) db =
    (issue_and_send_code id user_id raw code_hash is_sent now db).1
serve hash (guesses user_id raw now) db = (verify_code hash user_id raw now db).1
serve hash (removes user_id now) db = remove_phone user_id now db

abbrev pub is_wrong : VerifyOutcome → Bool
is_wrong wrong_code = true
is_wrong _ = false

abbrev pub is_row : ℕ → Option (ℕ × PhoneVerification) → Bool
is_row id none = false
is_row id (some (j, r)) = j == id

-- Is the request a wrong guess at this code?
unfoldable pub misses : (Text → ℕ) → ℕ → Request → Phones → Bool
misses hash id (issues _ _ _ _ _ _) db = false
misses hash id (guesses user_id raw now) db =
    is_row id (newest_code user_id db) && is_wrong (verify_code hash user_id raw now db).0
misses hash id (removes _ _) db = false

unfoldable pub wrong_guesses : (Text → ℕ) → ℕ → List Request → Phones → ℕ
unfolding misses serve
wrong_guesses hash id [] db = 0
wrong_guesses hash id (request ∷ rest) db =
    (if misses hash id request db then 1 else 0)
    + wrong_guesses hash id rest (serve hash request db)

-- The key that a request brings is new.
abbrev pub IsNew : Request → Phones → Type 0
IsNew (issues id _ _ _ _ _) db = find_unique id db.codes ≡ none
IsNew (guesses _ _ _) db = Unit
IsNew (removes _ _) db = Unit

abbrev pub AreNew : (Text → ℕ) → List Request → Phones → Type 0
AreNew hash [] db = Unit
AreNew hash (request ∷ rest) db = IsNew request db × AreNew hash rest (serve hash request db)

pub found_row :
    (user_id id : ℕ) (r : PhoneVerification) (db : Phones)
    → IsKeyed db.codes
    → newest_code user_id db ≡ some (id, r)
    → find_unique id db.codes ≡ some r
unfolding newest_code
found_row user_id id r db keyed e =
    (find_unique-find_last (is_unused user_id) id r db.codes keyed e).0

verify_none :
    (hash : Text → ℕ) (user_id : ℕ) (raw : Text) (now : ℕ) (db : Phones)
    → verify_after hash none user_id raw now db ≡ (no_code, db)
unfolding verify_after
verify_none hash user_id raw now db = refl

insert_code-left :
    (i id user_id : ℕ) (phone : Text) (code_hash now : ℕ) (db : Phones)
    → find_unique id db.codes ≡ none
    → left_of (find_unique i (insert_code id user_id phone code_hash now db).codes)
      ≡ left_of (find_unique i db.codes)
unfolding insert_code
insert_code-left i id user_id phone code_hash now db fresh =
    let t = update_many (is_unused user_id) (spend now) db.codes in
    left-create i id (new_code user_id phone code_hash now) t refl
      (find_unique-update_many-none id (is_unused user_id) (spend now) db.codes fresh)
    ∙ left-update_many i (is_unused user_id) (spend now) db.codes (λ r. refl)

insert_code-IsKeyed :
    (id user_id : ℕ) (phone : Text) (code_hash now : ℕ) (db : Phones)
    → find_unique id db.codes ≡ none
    → IsKeyed db.codes
    → IsKeyed (insert_code id user_id phone code_hash now db).codes
unfolding insert_code
insert_code-IsKeyed id user_id phone code_hash now db fresh keyed =
    let t = update_many (is_unused user_id) (spend now) db.codes in
    create-IsKeyed id (new_code user_id phone code_hash now) t
      (find_unique-update_many-none id (is_unused user_id) (spend now) db.codes fresh)
      (update_many-IsKeyed (is_unused user_id) (spend now) db.codes keyed)

issue_for-IsKeyed :
    (id user_id : ℕ) (p : Parsed) (code_hash : ℕ) (is_sent : Bool) (now : ℕ) (db : Phones)
    → find_unique id db.codes ≡ none
    → IsKeyed db.codes
    → IsKeyed (issue_for id user_id p code_hash is_sent now db).1.codes
unfolding issue_for
issue_for-IsKeyed id user_id (invalid why) code_hash is_sent now db fresh keyed = keyed
issue_for-IsKeyed id user_id (valid phone) code_hash is_sent now db fresh keyed =
    ground (arith, keyed, insert_code-IsKeyed id user_id phone code_hash now db fresh keyed)

issue_for-left :
    (i id user_id : ℕ) (p : Parsed) (code_hash : ℕ) (is_sent : Bool) (now : ℕ) (db : Phones)
    → find_unique id db.codes ≡ none
    → left_of (find_unique i (issue_for id user_id p code_hash is_sent now db).1.codes)
      ≡ left_of (find_unique i db.codes)
unfolding issue_for
issue_for-left i id user_id (invalid why) code_hash is_sent now db fresh = refl
issue_for-left i id user_id (valid phone) code_hash is_sent now db fresh =
    ground (arith, insert_code-left i id user_id phone code_hash now db fresh)

verify_after-IsKeyed :
    (hash : Text → ℕ) (read : Option (ℕ × PhoneVerification)) (user_id : ℕ) (raw : Text) (now : ℕ)
    (db : Phones)
    → IsKeyed db.codes
    → IsKeyed (verify_after hash read user_id raw now db).1.codes
unfolding verify_after commit_phone
verify_after-IsKeyed hash none user_id raw now db keyed = keyed
verify_after-IsKeyed hash (some (id, r)) user_id raw now db keyed = ground (
  arith,
  keyed,
  update-IsKeyed id (spend now) db.codes keyed,
  update-IsKeyed id count_attempt db.codes keyed,
)

verify_after-left :
    (hash : Text → ℕ) (i id : ℕ) (r : PhoneVerification) (user_id : ℕ) (raw : Text) (now : ℕ)
    (db : Phones)
    → find_unique id db.codes ≡ some r
    → left_of (find_unique i (verify_after hash (some (id, r)) user_id raw now db).1.codes)
        + (if is_row i (some (id, r))
              && is_wrong (verify_after hash (some (id, r)) user_id raw now db).0
            then 1
            else 0)
      ≤ left_of (find_unique i db.codes)
unfolding verify_after commit_phone
verify_after-left hash i id r user_id raw now db e = elim (Bool-cases (leb 5 r.attempts)) [
  | inl used_up ↦ ground (arith, used_up)
  | inr low ↦ ground (
    arith,
    low,
    left-update i id (spend now) db.codes (λ x. refl),
    left-count_attempt i id r db.codes e (ground (arith, low)),
  )
]

serve-IsKeyed :
    (hash : Text → ℕ) (request : Request) (db : Phones)
    → IsNew request db
    → IsKeyed db.codes
    → IsKeyed (serve hash request db).codes
unfolding serve issue_and_send_code verify_code remove_phone
serve-IsKeyed hash (issues id user_id raw code_hash is_sent now) db fresh keyed =
    issue_for-IsKeyed id user_id (to_e164 raw) code_hash is_sent now db fresh keyed
serve-IsKeyed hash (guesses user_id raw now) db fresh keyed =
    verify_after-IsKeyed hash (newest_code user_id db) user_id raw now db keyed
serve-IsKeyed hash (removes user_id now) db fresh keyed =
    update_many-IsKeyed (is_unused user_id) (spend now) db.codes keyed

-- A wrong guess uses up an attempt, and nothing gives one back.
serve-left :
    (hash : Text → ℕ) (i : ℕ) (request : Request) (db : Phones)
    → IsNew request db
    → IsKeyed db.codes
    → left_of (find_unique i (serve hash request db).codes)
        + (if misses hash i request db then 1 else 0)
      ≤ left_of (find_unique i db.codes)
unfolding serve misses issue_and_send_code verify_code remove_phone
serve-left hash i (issues id user_id raw code_hash is_sent now) db fresh keyed =
    ground (arith, issue_for-left i id user_id (to_e164 raw) code_hash is_sent now db fresh)
serve-left hash i (guesses user_id raw now) db fresh keyed =
    elim (Option-cases (newest_code user_id db)) [
      | inl gone ↦ ground (arith, gone, verify_none hash user_id raw now db)
      | inr ((id, r), e) ↦
          let row = found_row user_id id r db keyed e in
          ground (arith, e, verify_after-left hash i id r user_id raw now db row)
    ]
serve-left hash i (removes user_id now) db fresh keyed =
    ground (arith, left-update_many i (is_unused user_id) (spend now) db.codes (λ r. refl))

left-le :
    (hash : Text → ℕ) (i : ℕ) (requests : List Request) (db : Phones)
    → IsKeyed db.codes
    → AreNew hash requests db
    → wrong_guesses hash i requests db ≤ left_of (find_unique i db.codes)
unfolding wrong_guesses
left-le hash i [] db keyed fresh = omega arith
left-le hash i (request ∷ rest) db keyed (fresh, later) = ground (
  arith,
  serve-left hash i request db fresh keyed,
  left-le hash i rest (serve hash request db) (serve-IsKeyed hash request db fresh keyed) later,
)

-- A code takes five wrong guesses at most, in any sequence of requests to issue codes, to guess them
-- and to remove a number, from any state, whether the code is issued before or in the sequence. Each
-- request reads and writes before the next one, codes have distinct keys, and the key of a new code
-- is new.
pub wrong_guesses-le-five :
    (hash : Text → ℕ) (id : ℕ) (requests : List Request) (db : Phones)
    → IsKeyed db.codes
    → AreNew hash requests db
    → wrong_guesses hash id requests db ≤ 5
wrong_guesses-le-five hash id requests db keyed fresh =
    ground (arith, left-le hash id requests db keyed fresh, left_of-le (find_unique id db.codes))
