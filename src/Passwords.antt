-- ===== src/Passwords.antt =====
-- Changing and resetting a password (backend/src/lib/passwordReset.ts). The password hash, the check
-- of a password against it and the list of breached passwords are arguments; a reset link stands
-- under the hash of its token, and the mail that carries it is left out. A reset is split after its
-- read.
pub mod Lockout
use kintsugi.Prelude.{
  ℕ, ◌+◌, Bool, true, false, not, ◌&&◌, ◌||◌, Option, none, some, List, [], ◌∷◌, ltb, ◌==◌,
  if◌then◌else◌, is_some, is_none,
}
use kintsugi.Prelude.Table.{Table, find_unique, find_first, update, update_many, create}
use kintsugi.Prelude.Action.{
  Action, Result, ok, err, ◌>>=◌, ◌>>◌, throw_if, or_throw, gets, not_found, invalid_input,
  same_password, password_breached, wrong_password, invalid_token,
}
use kintsugi.Prelude.Text.{Text, length, same_text}
use kintsugi.RefreshTokens.{Tokens, revoke_all_refresh_tokens}

pub record Account : Type 0 where
  pub email : Text
  pub password_hash : ℕ
  pub email_verified : Bool

pub record ResetToken : Type 0 where
  pub user_id : ℕ
  pub expires_at : ℕ
  pub used_at : Option ℕ

pub record Accounts : Type 0 where
  pub users : Table Account
  pub reset_tokens : Table ResetToken
  pub sessions : Tokens

-- What bcrypt and the list of breaches answer.
pub record Secrets : Type 0 where
  pub verify_password : Text → ℕ → Bool
  pub hash_password : Text → ℕ
  pub is_breached : Text → Bool

abbrev pub reset_token_ttl_ms : ℕ
reset_token_ttl_ms = 3600000

unfoldable pub assert_usable_password : Secrets → Text → ℕ → Action Accounts (Unit {0})
assert_usable_password s password current_hash = do
  throw_if (ltb (length password) 12) invalid_input 400
  throw_if (s.verify_password password current_hash) same_password 400
  throw_if (s.is_breached password) password_breached 400

abbrev pub is_outstanding : ℕ → ℕ → ResetToken → Bool
is_outstanding user_id _ r = r.user_id == user_id && is_none r.used_at

abbrev pub burn : ℕ → ResetToken → ResetToken
burn now r = record r { used_at = some now }

abbrev pub set_password : Secrets → Text → Account → Account
set_password s password u = record u { password_hash = s.hash_password password }

-- The writes of a change, one after the other.
unfoldable pub finish_change : Secrets → ℕ → ℕ → Text → Option ℕ → Action Accounts ℕ
unfolding revoke_all_refresh_tokens
finish_change s now user_id password keep db =
    let (ended, sessions) = revoke_all_refresh_tokens user_id keep now db.sessions in
    (
      ok ended,
      record {
        users = update user_id (set_password s password) db.users;
        reset_tokens = update_many (is_outstanding user_id) (burn now) db.reset_tokens;
        sessions = sessions;
      },
    )

unfoldable pub change_password : Secrets → ℕ → ℕ → Text → Text → Option ℕ → Action Accounts ℕ
unfolding assert_usable_password finish_change
change_password s now user_id current password keep = do
  u ← or_throw (← gets (λ db. find_unique user_id db.users)) not_found 404
  throw_if (not (s.verify_password current u.password_hash)) wrong_password 401
  assert_usable_password s password u.password_hash
  finish_change s now user_id password keep

abbrev pub new_reset_token : ℕ → ℕ → ResetToken
new_reset_token user_id now = record {
  user_id = user_id;
  expires_at = now + reset_token_ttl_ms;
  used_at = none;
}

-- Nothing happens where the address has no account.
unfoldable pub request_password_reset : ℕ → Text → ℕ → Accounts → Accounts
request_password_reset now email token_hash db =
    elim (find_first (λ _ u. same_text u.email email) db.users) [
      | none ↦ db
      | some (user_id, u) ↦ record db {
        reset_tokens =
            create token_hash (new_reset_token user_id now)
              (update_many (is_outstanding user_id) (burn now) db.reset_tokens);
      }
    ]

abbrev pub is_unusable : ℕ → ResetToken → Bool
is_unusable now r = is_some r.used_at || ltb r.expires_at now

abbrev pub redeem : Secrets → Text → Account → Account
redeem s password u = record u { password_hash = s.hash_password password; email_verified = true }

-- The transaction, and the end of every session.
unfoldable pub finish_reset : Secrets → ℕ → ℕ → ℕ → Text → Action Accounts ℕ
unfolding revoke_all_refresh_tokens
finish_reset s now token_hash user_id password db =
    let (ended, sessions) = revoke_all_refresh_tokens user_id none now db.sessions in
    (
      ok ended,
      record {
        users = update user_id (redeem s password) db.users;
        reset_tokens = update token_hash (burn now) db.reset_tokens;
        sessions = sessions;
      },
    )

-- After the read of the link and its account.
unfoldable pub reset_after : Secrets → ℕ → ℕ → Text → ResetToken → Account → Action Accounts ℕ
unfolding assert_usable_password finish_reset
reset_after s now token_hash password r u = do
  throw_if (is_unusable now r) invalid_token 400
  assert_usable_password s password u.password_hash
  finish_reset s now token_hash r.user_id password

unfoldable pub reset_password : Secrets → ℕ → ℕ → Text → Action Accounts ℕ
unfolding reset_after
reset_password s now token_hash password = do
  r ← or_throw (← gets (λ db. find_unique token_hash db.reset_tokens)) invalid_token 400
  u ← or_throw (← gets (λ db. find_unique r.user_id db.users)) invalid_token 400
  reset_after s now token_hash password r u
