-- ===== src/Examples/Accounts.antt =====
-- The theorems on sessions, address books and sales at small tables.
use kintsugi.Prelude.{ℕ, ◌+◌, ◌≤◌, ◌≡◌, refl, true, false, none, some, List, [], ◌∷◌, ◌==◌, arith}
use kintsugi.Prelude.Table.{find_unique, find_last, count, sum_by}
use kintsugi.Prelude.Text.{Text, text, length, trim, trim_start, is_space}
use kintsugi.Schema.{Db, FulfilmentStatus}
use kintsugi.RefreshTokens.{
  RefreshToken, Tokens, is_live_of, revoke_all_refresh_tokens, rotate_after,
}
use kintsugi.RefreshTokens.Rotation.{
  Request, rotates, replacements, replacements-le-one, mints_again,
}
use kintsugi.RefreshTokens.Sessions.{is_owned, allowed, rotate_after-allowed}
use kintsugi.Addresses.{Book}
use kintsugi.Addresses.Default.{IsBook}
use kintsugi.Addresses.Single.{serve-IsBook, deletes}
use kintsugi.Addresses.Single
use kintsugi.Sales.{mark_unfulfillable}
use kintsugi.Sales.Parcel.{line, expected, confirms}
use kintsugi.Sales.Parcel.Stages.{serve-line}
use kintsugi.Sales.Parcel
use kintsugi.Sales.Books.{mark_unfulfillable-IsBalanced}
use kintsugi.Refunds.{is_active_for}
use kintsugi.Refunds.Books.{IsBalanced, booked}
use kintsugi.Prelude.Action.{err, invalid_token}
use kintsugi.Passwords.{
  Accounts, Secrets, change_password, assert_usable_password, finish_change, is_outstanding,
  reset_password, reset_after, finish_reset,
}
use kintsugi.Passwords.Lockout.{
  change_password-lockout, reset_password_twice, is_live_kept, is_other_session,
}
use kintsugi.SmsVerification.{PhoneVerification, Phones, newest_code}
use kintsugi.SmsVerification.Guesses
use kintsugi.SmsVerification.Guesses.{guesses, wrong_guesses, wrong_guesses-le-five}
use kintsugi.SmsVerification.Races.{miss_all, raced_guesses, raced_guesses_unlimited}
use kintsugi.Examples.Shop.{shop, sold_line, home}
use kintsugi.Examples.Money.{world}

abbrev session : RefreshToken
session = record {
  user_id = 20;
  expires_at = 5000;
  revoked_at = none;
  replaced_by_token_hash = none;
}

abbrev tokens : Tokens
tokens = (1, session) ∷ []

-- Two requests that read the token before either claims it.
abbrev racing : List Request
racing = rotates (some session) 1 2 100 ∷ rotates (some session) 1 3 101 ∷ []

replacements-le-one_example : replacements 9000 1 racing tokens ≤ 1
unfolding mints_again
replacements-le-one_example = replacements-le-one 9000 1 racing tokens refl

rotate_after-allowed_example :
    count (is_live_of 20) (rotate_after (some session) 9000 1 2 100 tokens).1
    ≤ allowed (rotate_after (some session) 9000 1 2 100 tokens).0 (count (is_live_of 20) tokens)
unfolding is_owned
rotate_after-allowed_example = rotate_after-allowed 9000 1 2 100 session tokens refl

abbrev book : Book
book =
    (30, record { user_id = 20; ship_to = home; is_default = true; deleted_at = none })
    ∷ (31, record { user_id = 20; ship_to = home; is_default = false; deleted_at = none })
    ∷ []

serve-IsBook_example : IsBook 20 (Single.serve (λ t. t) (deletes 100 20 30) book)
unfolding find_unique count
serve-IsBook_example =
    serve-IsBook (λ t. t) 20 (deletes 100 20 30) book (refl, (refl, tt)) (refl, refl, omega arith)

abbrev sent_shop : Db
sent_shop = record shop {
  order_items =
      (61, record sold_line { fulfilment = FulfilmentStatus.shipped; delivered_at = none }) ∷ [];
}

serve-line_example :
    line 61 (Parcel.serve world (confirms 22 61) sent_shop)
    ≡ expected world.now (confirms 22 61) 61 sent_shop
unfolding find_unique
serve-line_example = serve-line world 61 (confirms 22 61) sent_shop (refl, tt)

mark_unfulfillable-IsBalanced_example :
    (count (is_active_for 61) (mark_unfulfillable world 7 61 (text "lost") sent_shop).1.refunds ≤ 1)
    × IsBalanced 51 (mark_unfulfillable world 7 61 (text "lost") sent_shop).1
unfolding find_unique booked sum_by count
mark_unfulfillable-IsBalanced_example =
    mark_unfulfillable-IsBalanced world 51 7 61 (text "lost") sent_shop (refl, (refl, tt)) refl refl
      (ground arith)

abbrev hash : Text → ℕ
hash t = length t

abbrev code : PhoneVerification
code = record {
  user_id = 20;
  phone = text "+442079460958";
  code_hash = 6;
  attempts = 4;
  expires_at = 1000;
  used_at = none;
}

abbrev phones : Phones
phones = record {
  codes = (70, code) ∷ [];
  users = (20, record { phone = none; phone_verified_at = none; sms_consent_at = none }) ∷ [];
}

abbrev guessing : List Guesses.Request
guessing = guesses 20 (text "1") 100 ∷ guesses 20 (text "2") 101 ∷ []

wrong_guesses-le-five_example : wrong_guesses hash 70 guessing phones ≤ 5
unfolding find_unique
wrong_guesses-le-five_example =
    wrong_guesses-le-five hash 70 guessing phones (refl, tt) (tt, (tt, tt))

abbrev tries : List Text
tries = text "1" ∷ text "2" ∷ text "3" ∷ []

raced_guesses_unlimited_example :
    ((raced_guesses hash 70 code 20 100 tries phones).0 ≡ 3)
    × (find_unique 70 (raced_guesses hash 70 code 20 100 tries phones).1.codes
        ≡ some (record code { attempts = 4 + 3 }))
unfolding miss_all trim trim_start is_space find_unique newest_code find_last
raced_guesses_unlimited_example =
    raced_guesses_unlimited hash 70 code 20 100 tries phones (refl, tt) refl refl refl refl

abbrev secrets : Secrets
secrets = record {
  verify_password = λ password h. length password == h;
  hash_password = λ password. length password;
  is_breached = λ password. false;
}

abbrev accounts : Accounts
accounts = record {
  users = (20, record { email = text "a@b.c"; password_hash = 13; email_verified = false }) ∷ [];
  reset_tokens = (7, record { user_id = 20; expires_at = 900; used_at = none }) ∷ [];
  sessions = tokens;
}

-- The user is signed in twice, and keeps the second session.
abbrev two_sessions : Accounts
two_sessions = record accounts { sessions = (1, session) ∷ (2, session) ∷ [] }

abbrev changed : Accounts
changed =
    (change_password secrets 100 20 (text "old password1") (text "new password 1") (some 2)
      two_sessions).1

change_password-lockout_example :
    (count (is_live_kept (some 2)) changed.sessions
      ≡ count (is_live_kept (some 2)) two_sessions.sessions)
    × (count (is_other_session 20 (some 2)) changed.sessions ≡ 0)
    × (count (is_outstanding 20) changed.reset_tokens ≡ 0)
unfolding change_password assert_usable_password finish_change revoke_all_refresh_tokens find_unique
    count
change_password-lockout_example =
    change_password-lockout secrets 100 20 (text "old password1") (text "new password 1") (some 2) 1
      two_sessions refl

reset_password_twice_example :
    (count
        (is_live_of 20)
        (reset_password secrets 100 7 (text "new password 1") accounts).1.sessions
      ≡ 0)
    × (reset_password secrets 101 7
          (text "third password")
          (reset_password secrets 100 7 (text "new password 1") accounts).1
        ≡ (
          err invalid_token 400,
          (reset_password secrets 100 7 (text "new password 1") accounts).1,
        ))
unfolding reset_password reset_after assert_usable_password finish_reset revoke_all_refresh_tokens
    find_unique count
reset_password_twice_example =
    reset_password_twice secrets 100 101 7 (text "new password 1") (text "third password")
      record { user_id = 20; expires_at = 900; used_at = none } 1 accounts refl refl
