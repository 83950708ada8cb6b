-- ===== src/RefreshTokens/Sessions.antt =====
-- How many live refresh tokens a user has (backend/src/lib/refreshTokens.ts).
use kintsugi.Prelude.{
  ℕ, ◌+◌, ◌<◌, ◌≤◌, ◌≡◌, refl, inl, inr, Bool, true, ◌&&◌, some, [], ◌∷◌, ◌==◌, if◌then◌else◌,
  is_some, arith, Bool-cases,
}
use kintsugi.Prelude.Table.{update, update_many, create, count}
use kintsugi.RefreshTokens.{
  RefreshToken, Tokens, RotateResult, not_found, expired, reused, rotated, raced, refused,
  revoke_at, is_live_token, is_live_of, decide_on_superseded_token, claim_token, rotate_live,
  rotate_after, new_token, supersede,
}

-- The token is the user's wherever it stands.
unfoldable pub is_owned : ℕ → ℕ → Tokens → Bool
is_owned h user_id [] = true
is_owned h user_id ((k, r) ∷ t) =
    (if k == h then r.user_id == user_id else true) && is_owned h user_id t

sessions-update_many :
    (u : ℕ) (p : ℕ → RefreshToken → Bool) (f : RefreshToken → RefreshToken) (t : Tokens)
    → ((r : RefreshToken) → is_some (f r).revoked_at ≡ true)
    → count (is_live_of u) (update_many p f t) ≤ count (is_live_of u) t
unfolding count update_many
sessions-update_many u p f [] revoking = omega arith
sessions-update_many u p f ((k, r) ∷ t) revoking =
    ground (arith, sessions-update_many u p f t revoking, revoking r)

sessions-update :
    (u k now : ℕ) (t : Tokens)
    → count (is_live_of u) (update k (revoke_at now) t) ≤ count (is_live_of u) t
unfolding count update
sessions-update u k now [] = omega arith
sessions-update u k now ((j, r) ∷ t) = ground (arith, sessions-update u k now t)

sessions-create :
    (u k : ℕ) (r : RefreshToken) (t : Tokens)
    → count (is_live_of u) (create k r t)
      ≡ count (is_live_of u) t + (if is_live_of u k r then 1 else 0)
unfolding count create
sessions-create u k r [] = ground arith
sessions-create u k r ((j, s) ∷ t) = ground (arith, sessions-create u k r t)

sessions-revoke_all :
    (u now : ℕ) (t : Tokens)
    → count (is_live_of u) (update_many (is_live_of u) (revoke_at now) t) ≡ 0
unfolding count update_many
sessions-revoke_all u now [] = refl
sessions-revoke_all u now ((k, r) ∷ t) = ground (arith, sessions-revoke_all u now t)

-- What a claim revokes is what it creates.
sessions-supersede :
    (u h now next : ℕ) (t : Tokens)
    → is_owned h u t ≡ true
    → 0 < count (is_live_token h) t
    → count (is_live_of u) (update_many (is_live_token h) (supersede now next) t)
      < count (is_live_of u) t
unfolding count update_many is_owned
sessions-supersede u h now next [] owned live = absurd (omega (arith, live))
sessions-supersede u h now next ((k, r) ∷ t) owned live = elim (Bool-cases (is_live_token h k r)) [
  | inl here ↦ ground (
    arith,
    here,
    owned,
    sessions-update_many u (is_live_token h) (supersede now next) t (λ r. refl),
  )
  | inr away ↦ ground (
    arith,
    away,
    owned,
    live,
    sessions-supersede u h now next t (ground (arith, owned)) (ground (arith, away, live)),
  )
]

decide-sessions :
    (u token_hash user_id now : ℕ) (t : Tokens)
    → count (is_live_of u) (decide_on_superseded_token token_hash user_id now t).1
      ≤ count (is_live_of u) t
unfolding decide_on_superseded_token
decide-sessions u token_hash user_id now t =
    ground (arith, sessions-update_many u (is_live_of user_id) (revoke_at now) t (λ r. refl))

rotate_live-sessions :
    (max_age u h next user_id now : ℕ) (t : Tokens)
    → is_owned h user_id t ≡ true
    → count (is_live_of u) (rotate_live max_age h next user_id now t).1 ≤ count (is_live_of u) t
unfolding rotate_live claim_token
rotate_live-sessions max_age u h next user_id now t owned =
    let t' = update_many (is_live_token h) (supersede now next) t in
    elim (Bool-cases (count (is_live_token h) t == 0)) [
      | inl nothing ↦ ground (arith, nothing, decide-sessions u h user_id now t)
      | inr live ↦ elim (Bool-cases (user_id == u)) [
        | inl same ↦
            let is_u : user_id ≡ u = ground (arith, same) in
            ground (
              arith,
              live,
              same,
              is_u,
              sessions-create u next (new_token max_age user_id now) t',
              sessions-supersede u h now next t (ground (arith, is_u, owned))
                  (ground (arith, live)),
            )
        | inr other ↦ ground (
          arith,
          live,
          other,
          sessions-create u next (new_token max_age user_id now) t',
          sessions-update_many u (is_live_token h) (supersede now next) t (λ r. refl),
        )
      ]
    ]

-- How many live tokens the owner may have after an answer, of as many before.
unfoldable pub allowed : RotateResult → ℕ → ℕ
allowed (rotated _ _) n = n
allowed (raced _) n = n
allowed (refused not_found) n = n
allowed (refused expired) n = n
allowed (refused reused) n = 0

decide-allowed :
    (h user_id now : ℕ) (t : Tokens)
    → count (is_live_of user_id) (decide_on_superseded_token h user_id now t).1
      ≤ allowed (decide_on_superseded_token h user_id now t).0 (count (is_live_of user_id) t)
unfolding decide_on_superseded_token allowed
decide-allowed h user_id now t = ground (arith, sessions-revoke_all user_id now t)

rotate_live-allowed :
    (max_age h next user_id now : ℕ) (t : Tokens)
    → is_owned h user_id t ≡ true
    → count (is_live_of user_id) (rotate_live max_age h next user_id now t).1
      ≤ allowed (rotate_live max_age h next user_id now t).0 (count (is_live_of user_id) t)
unfolding rotate_live claim_token allowed
rotate_live-allowed max_age h next user_id now t owned =
    let ih = rotate_live-sessions max_age user_id h next user_id now t owned in
    elim (Bool-cases (count (is_live_token h) t == 0)) [
      | inl nothing ↦ ground (arith, nothing, decide-allowed h user_id now t)
      | inr live ↦ ground (arith, live, ih)
    ]

-- A rotation leaves the owner of the token with no more live refresh tokens than before, whether
-- it is the first, lost a race or comes late, whatever other requests did since it read its row,
-- and where it answers that the token was reused it leaves none. The row that was read names the
-- owner of the token.
pub rotate_after-allowed :
    (max_age h next now : ℕ) (r : RefreshToken) (t : Tokens)
    → is_owned h r.user_id t ≡ true
    → count (is_live_of r.user_id) (rotate_after (some r) max_age h next now t).1
      ≤ allowed (rotate_after (some r) max_age h next now t).0 (count (is_live_of r.user_id) t)
unfolding rotate_after allowed
rotate_after-allowed max_age h next now r t owned = ground (
  arith,
  decide-allowed h r.user_id now t,
  sessions-update r.user_id h now t,
  rotate_live-allowed max_age h next r.user_id now t owned,
)
