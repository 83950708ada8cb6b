-- ===== src/RefreshTokens.antt =====
-- Refresh tokens (backend/src/lib/refreshTokens.ts). The table is kept under the unique column
-- `tokenHash`; the hash of a presented token and of a new one are arguments, as is what the request
-- read before it claims the token, since other requests run between the two.
pub mod Rotation
pub mod Sessions
use kintsugi.Prelude.{
  ℕ, zero, ◌+◌, Bool, true, false, not, ◌&&◌, Option, none, some, List, [], ◌∷◌, ltb, leb, ◌==◌,
  if◌then◌else◌, is_none, is_some,
}
use kintsugi.Prelude.Table.{Table, find_unique, update, update_many, create, count}

pub record RefreshToken : Type 0 where
  pub user_id : ℕ
  pub expires_at : ℕ
  pub revoked_at : Option ℕ
  pub replaced_by_token_hash : Option ℕ

abbrev pub Tokens : Type 0
Tokens = Table RefreshToken

pub data Reason : Type 0 where
  not_found expired reused : Reason

-- `token: null` where the request lost a race within the window.
pub data RotateResult : Type 0 where
  rotated : (user_id token_hash : ℕ) → RotateResult
  raced : (user_id : ℕ) → RotateResult
  refused : Reason → RotateResult

abbrev pub race_grace_ms : ℕ
race_grace_ms = 10000

-- REFRESH_TOKEN_MAX_AGE_MS is declared with the sign-in code, so it is an argument.
abbrev pub new_token : ℕ → ℕ → ℕ → RefreshToken
new_token max_age user_id now = record {
  user_id = user_id;
  expires_at = now + max_age;
  revoked_at = none;
  replaced_by_token_hash = none;
}

unfoldable pub issue_refresh_token : ℕ → ℕ → ℕ → ℕ → Tokens → Tokens
issue_refresh_token max_age user_id token_hash now tokens =
    create token_hash (new_token max_age user_id now) tokens

abbrev pub revoke_at : ℕ → RefreshToken → RefreshToken
revoke_at now r = record r { revoked_at = some now }

abbrev pub is_live_of : ℕ → ℕ → RefreshToken → Bool
is_live_of user_id _ r = (r.user_id == user_id) && is_none r.revoked_at

abbrev pub is_live_token : ℕ → ℕ → RefreshToken → Bool
is_live_token token_hash k r = (k == token_hash) && is_none r.revoked_at

abbrev pub is_recent : ℕ → RefreshToken → Bool
is_recent now r = elim r.revoked_at [ none ↦ false | some t ↦ leb now (t + race_grace_ms) ]

abbrev pub is_replacement_live : ℕ → ℕ → Tokens → Bool
is_replacement_live token_hash now tokens = elim (find_unique token_hash tokens) [
  | none ↦ false
  | some r ↦ is_none r.revoked_at && ltb now r.expires_at
]

-- Was the token superseded a moment ago, by one that still lives?
unfoldable pub is_race : ℕ → ℕ → Tokens → Bool
is_race token_hash now tokens = elim (find_unique token_hash tokens) [
  | none ↦ false
  | some r ↦ elim r.replaced_by_token_hash [
    | none ↦ false
    | some next ↦ is_recent now r && is_replacement_live next now tokens
  ]
]

unfoldable pub decide_on_superseded_token : ℕ → ℕ → ℕ → Tokens → RotateResult × Tokens
decide_on_superseded_token token_hash user_id now tokens =
    if is_race token_hash now tokens
    then (raced user_id, tokens)
    else (refused reused, update_many (is_live_of user_id) (revoke_at now) tokens)

abbrev pub supersede : ℕ → ℕ → RefreshToken → RefreshToken
supersede now next r = record r { revoked_at = some now; replaced_by_token_hash = some next }

-- The transaction: the conditional revocation is the claim.
unfoldable pub claim_token : ℕ → ℕ → ℕ → ℕ → ℕ → Tokens → Bool × Tokens
claim_token max_age token_hash new_hash user_id now tokens =
    if count (is_live_token token_hash) tokens == 0 then (false, tokens) else (
      true,
      create new_hash (new_token max_age user_id now)
          (update_many (is_live_token token_hash) (supersede now new_hash) tokens),
    )

-- What follows the read of a live token.
unfoldable pub rotate_live : ℕ → ℕ → ℕ → ℕ → ℕ → Tokens → RotateResult × Tokens
unfolding claim_token decide_on_superseded_token
rotate_live max_age token_hash new_hash user_id now tokens =
    let (claimed, tokens') = claim_token max_age token_hash new_hash user_id now tokens in
    if claimed
    then (rotated user_id new_hash, tokens')
    else decide_on_superseded_token token_hash user_id now tokens'

-- The request after its read.
unfoldable pub rotate_after : Option RefreshToken → ℕ → ℕ → ℕ → ℕ → Tokens → RotateResult × Tokens
unfolding rotate_live decide_on_superseded_token
rotate_after none max_age token_hash new_hash now tokens = (refused not_found, tokens)
rotate_after (some r) max_age token_hash new_hash now tokens =
    if is_some r.revoked_at
    then decide_on_superseded_token token_hash r.user_id now tokens
    else (if ltb r.expires_at now
        then (refused expired, update token_hash (revoke_at now) tokens)
        else rotate_live max_age token_hash new_hash r.user_id now tokens)

-- A request that nothing interrupts.
unfoldable pub rotate_refresh_token : ℕ → ℕ → ℕ → ℕ → Tokens → RotateResult × Tokens
unfolding rotate_after
rotate_refresh_token max_age token_hash new_hash now tokens =
    rotate_after (find_unique token_hash tokens) max_age token_hash new_hash now tokens

abbrev pub is_revocable : ℕ → Option ℕ → ℕ → RefreshToken → Bool
is_revocable user_id except k r =
    is_live_of user_id k r && elim except [ none ↦ true | some h ↦ not (k == h) ]

unfoldable pub revoke_all_refresh_tokens : ℕ → Option ℕ → ℕ → Tokens → ℕ × Tokens
revoke_all_refresh_tokens user_id except now tokens = (
  count (is_revocable user_id except) tokens,
  update_many (is_revocable user_id except) (revoke_at now) tokens,
)

unfoldable pub revoke_refresh_token : ℕ → ℕ → Tokens → Tokens
revoke_refresh_token token_hash now tokens =
    update_many (is_live_token token_hash) (revoke_at now) tokens
