-- ===== src/Passwords/Lockout.antt =====
-- A new password ends what came before it (backend/src/lib/passwordReset.ts with
-- backend/src/lib/refreshTokens.ts).
use kintsugi.Prelude.{
  ◌&&◌, is_none, Bool, false, not, ◌==◌, if◌then◌else◌, ℕ, ◌≡◌, refl, inl, inr, true, Option, none,
  some, [], ◌∷◌, is_some, arith, Option-cases,
}
use kintsugi.Prelude.Table.{Table, find_unique, update_many, count}
use kintsugi.Prelude.Table.Lookup.{find_unique-update_self}
use kintsugi.Prelude.Action.{ok, err, invalid_token}
use kintsugi.Prelude.Text.{Text}
use kintsugi.RefreshTokens.{
  RefreshToken, Tokens, is_revocable, is_live_of, revoke_at, revoke_all_refresh_tokens,
}
use kintsugi.Passwords.{
  ResetToken, Accounts, Secrets, assert_usable_password, is_outstanding, burn, finish_change,
  change_password, finish_reset, reset_after, reset_password,
}

none_revocable :
    (u : ℕ) (keep : Option ℕ) (now : ℕ) (t : Tokens)
    → count (is_revocable u keep) (update_many (is_revocable u keep) (revoke_at now) t) ≡ 0
unfolding count update_many
none_revocable u keep now [] = refl
none_revocable u keep now ((k, r) ∷ t) = ground (arith, none_revocable u keep now t)

revocable-live : (u : ℕ) (t : Tokens) → count (is_revocable u none) t ≡ count (is_live_of u) t
unfolding count
revocable-live u [] = refl
revocable-live u ((k, r) ∷ t) = ground (arith, revocable-live u t)

none_outstanding :
    (u now : ℕ) (t : Table ResetToken)
    → count (is_outstanding u) (update_many (is_outstanding u) (burn now) t) ≡ 0
unfolding count update_many
none_outstanding u now [] = refl
none_outstanding u now ((k, r) ∷ t) = ground (arith, none_outstanding u now t)

-- The sessions of a user that a change of password is to end: the live ones, but for the one that the
-- request comes from.
abbrev pub is_session_kept : Option ℕ → ℕ → Bool
is_session_kept none k = false
is_session_kept (some h) k = k == h

abbrev pub is_other_session : ℕ → Option ℕ → ℕ → RefreshToken → Bool
is_other_session u keep k r =
    (if r.user_id == u then is_none r.revoked_at else false) && not (is_session_kept keep k)

none_other :
    (u : ℕ) (keep : Option ℕ) (now : ℕ) (t : Tokens)
    → count (is_other_session u keep) (update_many (is_revocable u keep) (revoke_at now) t) ≡ 0
unfolding count update_many
none_other u none now [] = refl
none_other u none now ((k, r) ∷ t) = ground (arith, none_other u none now t)
none_other u (some h) now [] = refl
none_other u (some h) now ((k, r) ∷ t) = ground (arith, none_other u (some h) now t)

abbrev pub is_live_kept : Option ℕ → ℕ → RefreshToken → Bool
is_live_kept keep k r = is_session_kept keep k && is_none r.revoked_at

kept_session :
    (u : ℕ) (keep : Option ℕ) (now : ℕ) (t : Tokens)
    → count (is_live_kept keep) (update_many (is_revocable u keep) (revoke_at now) t)
      ≡ count (is_live_kept keep) t
unfolding count update_many
kept_session u none now [] = refl
kept_session u none now ((k, r) ∷ t) = ground (arith, kept_session u none now t)
kept_session u (some h) now [] = refl
kept_session u (some h) now ((k, r) ∷ t) = ground (arith, kept_session u (some h) now t)

-- A change of password that succeeds leaves the user no live session but the one that the request
-- names, if it names one, leaves that one live where it was, and leaves no reset link that works.
pub change_password-lockout :
    (s : Secrets) (now user_id : ℕ) (current password : Text) (keep : Option ℕ) (n : ℕ)
    (db : Accounts)
    → (change_password s now user_id current password keep db).0 ≡ ok n
    → (count (is_live_kept keep) (change_password s now user_id current password keep db).1.sessions
        ≡ count (is_live_kept keep) db.sessions)
      × (count
            (is_other_session user_id keep)
            (change_password s now user_id current password keep db).1.sessions
          ≡ 0)
      × (count
            (is_outstanding user_id)
            (change_password s now user_id current password keep db).1.reset_tokens
          ≡ 0)
unfolding change_password assert_usable_password finish_change revoke_all_refresh_tokens
change_password-lockout s now user_id current password keep n db done =
    elim (Option-cases (find_unique user_id db.users)) [
      | inl gone ↦ absurd (ground (arith, gone, done))
      | inr (u, e) ↦ (
        ground (arith, e, done, kept_session user_id keep now db.sessions),
        ground (arith, e, done, none_other user_id keep now db.sessions),
        ground (arith, e, done, none_outstanding user_id now db.reset_tokens),
      )
    ]

reset-finished :
    (s : Secrets) (now token_hash : ℕ) (password : Text) (r : ResetToken) (n : ℕ) (db : Accounts)
    → find_unique token_hash db.reset_tokens ≡ some r
    → (reset_password s now token_hash password db).0 ≡ ok n
    → (reset_password s now token_hash password db).1
      ≡ (finish_reset s now token_hash r.user_id password db).1
unfolding reset_password reset_after assert_usable_password
reset-finished s now token_hash password r n db e done =
    elim (Option-cases (find_unique r.user_id db.users)) [
      | inl gone ↦ absurd (ground (arith, e, gone, done))
      | inr (u, e') ↦ ground (arith, e, e', done)
    ]

used_refused :
    (s : Secrets) (now token_hash : ℕ) (password : Text) (r : ResetToken) (db : Accounts)
    → find_unique token_hash db.reset_tokens ≡ some r
    → is_some r.used_at ≡ true
    → reset_password s now token_hash password db ≡ (err invalid_token 400, db)
unfolding reset_password reset_after
used_refused s now token_hash password r db e used =
    elim (Option-cases (find_unique r.user_id db.users)) [
      | inl gone ↦ ground (arith, e, gone)
      | inr (u, e') ↦ ground (arith, e, e', used)
    ]

finished-sessions :
    (s : Secrets) (now token_hash user_id : ℕ) (password : Text) (db : Accounts)
    → count (is_live_of user_id) (finish_reset s now token_hash user_id password db).1.sessions ≡ 0
unfolding finish_reset revoke_all_refresh_tokens
finished-sessions s now token_hash user_id password db =
    let t = update_many (is_revocable user_id none) (revoke_at now) db.sessions in
    ground (arith, none_revocable user_id none now db.sessions, revocable-live user_id t)

finished-burned :
    (s : Secrets) (now token_hash user_id : ℕ) (password : Text) (r : ResetToken) (db : Accounts)
    → find_unique token_hash db.reset_tokens ≡ some r
    → find_unique token_hash (finish_reset s now token_hash user_id password db).1.reset_tokens
      ≡ some (burn now r)
unfolding finish_reset
finished-burned s now token_hash user_id password r db e =
    find_unique-update_self token_hash (burn now) db.reset_tokens r e

-- A reset that succeeds ends every session of the owner of the link, and the link cannot be used
-- again: a later request with it, with whatever password and at whatever time, is refused and writes
-- nothing.
pub reset_password_twice :
    (s : Secrets) (now later token_hash : ℕ) (password other : Text) (r : ResetToken) (n : ℕ)
    (db : Accounts)
    → find_unique token_hash db.reset_tokens ≡ some r
    → (reset_password s now token_hash password db).0 ≡ ok n
    → (count (is_live_of r.user_id) (reset_password s now token_hash password db).1.sessions ≡ 0)
      × (reset_password s later token_hash other (reset_password s now token_hash password db).1
          ≡ (err invalid_token 400, (reset_password s now token_hash password db).1))
reset_password_twice s now later token_hash password other r n db e done =
    let db' = (reset_password s now token_hash password db).1 in
    let finished = reset-finished s now token_hash password r n db e done in
    (
      ground (arith, finished, finished-sessions s now token_hash r.user_id password db),
      used_refused s later token_hash other (burn now r) db'
          (ground (arith, finished, finished-burned s now token_hash r.user_id password r db e))
          refl,
    )
