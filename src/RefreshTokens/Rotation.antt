-- ===== src/RefreshTokens/Rotation.antt =====
-- A refresh token is replaced once (backend/src/lib/refreshTokens.ts), whatever other requests do
-- between the read and the claim.
use kintsugi.Prelude.{
  ℕ, ◌+◌, ◌<◌, ◌≤◌, ◌≡◌, refl, inl, inr, Bool, true, false, ◌&&◌, Option, none, some, List, [], ◌∷◌,
  ltb, ◌==◌, if◌then◌else◌, is_some, arith, Bool-cases,
}
use kintsugi.Prelude.Table.{update, update_many, create, count}
use kintsugi.RefreshTokens.{
  RefreshToken, Tokens, RotateResult, rotated, raced, refused, issue_refresh_token, revoke_at,
  is_live_token, is_live_of, is_revocable, decide_on_superseded_token, claim_token, rotate_live,
  rotate_after, revoke_all_refresh_tokens, revoke_refresh_token, new_token, supersede,
}

-- What reaches the table; a rotation carries what it read, which may be out of date.
pub data Request : Type 0 where
  issues : (user_id new_hash now : ℕ) → Request
  rotates : Option RefreshToken → (token_hash new_hash now : ℕ) → Request
  revokes : (token_hash now : ℕ) → Request
  revokes_all : (user_id : ℕ) → Option ℕ → (now : ℕ) → Request

unfoldable pub serve : ℕ → Request → Tokens → Tokens
serve max_age (issues user_id new_hash now) tokens =
    issue_refresh_token max_age user_id new_hash now tokens
serve max_age (rotates read token_hash new_hash now) tokens =
    (rotate_after read max_age token_hash new_hash now tokens).1
serve max_age (revokes token_hash now) tokens = revoke_refresh_token token_hash now tokens
serve max_age (revokes_all user_id except now) tokens =
    (revoke_all_refresh_tokens user_id except now tokens).1

abbrev pub is_rotated : RotateResult → Bool
is_rotated (rotated _ _) = true
is_rotated (raced _) = false
is_rotated (refused _) = false

-- Does the request put a new token in the place of this one?
unfoldable pub replaces : ℕ → ℕ → Request → Tokens → Bool
replaces max_age h (issues _ _ _) tokens = false
replaces max_age h (rotates read token_hash new_hash now) tokens =
    (token_hash == h) && is_rotated (rotate_after read max_age token_hash new_hash now tokens).0
replaces max_age h (revokes _ _) tokens = false
replaces max_age h (revokes_all _ _ _) tokens = false

abbrev pub mints : ℕ → Request → Bool
mints h (issues _ new_hash _) = new_hash == h
mints h (rotates _ _ new_hash _) = new_hash == h
mints h (revokes _ _) = false
mints h (revokes_all _ _ _) = false

unfoldable pub replacements : ℕ → ℕ → List Request → Tokens → ℕ
unfolding replaces serve
replacements max_age h [] tokens = 0
replacements max_age h (request ∷ rest) tokens =
    (if replaces max_age h request tokens then 1 else 0)
    + replacements max_age h rest (serve max_age request tokens)

unfoldable pub mints_again : ℕ → List Request → Bool
mints_again h [] = false
mints_again h (request ∷ rest) = if mints h request then true else mints_again h rest

-- Writes that only revoke do not bring a token back.
live-update_many :
    (h : ℕ) (p : ℕ → RefreshToken → Bool) (f : RefreshToken → RefreshToken) (t : Tokens)
    → ((r : RefreshToken) → is_some (f r).revoked_at ≡ true)
    → count (is_live_token h) (update_many p f t) ≤ count (is_live_token h) t
unfolding count update_many
live-update_many h p f [] revoking = omega arith
live-update_many h p f ((k, r) ∷ t) revoking =
    ground (arith, live-update_many h p f t revoking, revoking r)

live-update :
    (h k now : ℕ) (t : Tokens)
    → count (is_live_token h) (update k (revoke_at now) t) ≤ count (is_live_token h) t
unfolding count update
live-update h k now [] = omega arith
live-update h k now ((j, r) ∷ t) = ground (arith, live-update h k now t)

live-create :
    (h k : ℕ) (r : RefreshToken) (t : Tokens)
    → (k == h) ≡ false
    → count (is_live_token h) (create k r t) ≡ count (is_live_token h) t
unfolding count create
live-create h k r [] e = ground (arith, e)
live-create h k r ((j, s) ∷ t) e = ground (arith, live-create h k r t e)

live-supersede :
    (h now next : ℕ) (t : Tokens)
    → count (is_live_token h) (update_many (is_live_token h) (supersede now next) t) ≡ 0
unfolding count update_many
live-supersede h now next [] = refl
live-supersede h now next ((k, r) ∷ t) = ground (arith, live-supersede h now next t)

decide-live :
    (h token_hash user_id now : ℕ) (t : Tokens)
    → count (is_live_token h) (decide_on_superseded_token token_hash user_id now t).1
      ≤ count (is_live_token h) t
unfolding decide_on_superseded_token
decide-live h token_hash user_id now t =
    ground (arith, live-update_many h (is_live_of user_id) (revoke_at now) t (λ r. refl))

claim-live :
    (max_age h token_hash next user_id now : ℕ) (t : Tokens)
    → (next == h) ≡ false
    → count (is_live_token h) (claim_token max_age token_hash next user_id now t).1
      ≤ count (is_live_token h) t
unfolding claim_token
claim-live max_age h token_hash next user_id now t e =
    let t' = update_many (is_live_token token_hash) (supersede now next) t in
    ground (
      arith,
      live-update_many h (is_live_token token_hash) (supersede now next) t (λ r. refl),
      live-create h next (new_token max_age user_id now) t' e,
    )

rotate_live-live :
    (max_age h token_hash next user_id now : ℕ) (t : Tokens)
    → (next == h) ≡ false
    → count (is_live_token h) (rotate_live max_age token_hash next user_id now t).1
      ≤ count (is_live_token h) t
unfolding rotate_live
rotate_live-live max_age h token_hash next user_id now t e =
    let t' = (claim_token max_age token_hash next user_id now t).1 in
    ground (
      arith,
      claim-live max_age h token_hash next user_id now t e,
      decide-live h token_hash user_id now t',
    )

serve-live :
    (max_age h : ℕ) (request : Request) (t : Tokens)
    → mints h request ≡ false
    → count (is_live_token h) (serve max_age request t) ≤ count (is_live_token h) t
unfolding serve issue_refresh_token rotate_after revoke_refresh_token revoke_all_refresh_tokens
serve-live max_age h (issues user_id next now) t e =
    ground (arith, live-create h next (new_token max_age user_id now) t e)
serve-live max_age h (rotates none token_hash next now) t e = omega arith
serve-live max_age h (rotates (some r) token_hash next now) t e = ground (
  arith,
  decide-live h token_hash r.user_id now t,
  rotate_live-live max_age h token_hash next r.user_id now t e,
  live-update h token_hash now t,
)
serve-live max_age h (revokes token_hash now) t e =
    live-update_many h (is_live_token token_hash) (revoke_at now) t (λ r. refl)
serve-live max_age h (revokes_all user_id except now) t e =
    live-update_many h (is_revocable user_id except) (revoke_at now) t (λ r. refl)

decide-is_rotated :
    (token_hash user_id now : ℕ) (t : Tokens)
    → is_rotated (decide_on_superseded_token token_hash user_id now t).0 ≡ false
unfolding decide_on_superseded_token
decide-is_rotated token_hash user_id now t = ground arith

-- A rotation that succeeds spends a live token.
rotate_live-spends :
    (max_age h next user_id now : ℕ) (t : Tokens)
    → (next == h) ≡ false
    → is_rotated (rotate_live max_age h next user_id now t).0 ≡ true
    → (0 < count (is_live_token h) t)
      × (count (is_live_token h) (rotate_live max_age h next user_id now t).1 ≡ 0)
unfolding rotate_live claim_token
rotate_live-spends max_age h next user_id now t e won =
    let t' = update_many (is_live_token h) (supersede now next) t in
    elim (Bool-cases (count (is_live_token h) t == 0)) [
      | inl nothing ↦ absurd (ground (arith, nothing, won, decide-is_rotated h user_id now t))
      | inr live ↦ (
        ground (arith, live),
        ground (
          arith,
          live,
          live-create h next (new_token max_age user_id now) t' e,
          live-supersede h now next t,
        ),
      )
    ]

replaces-spends :
    (max_age h : ℕ) (request : Request) (t : Tokens)
    → mints h request ≡ false
    → replaces max_age h request t ≡ true
    → (0 < count (is_live_token h) t) × (count (is_live_token h) (serve max_age request t) ≡ 0)
unfolding replaces serve rotate_after
replaces-spends max_age h (issues user_id next now) t e won = absurd (ground (arith, won))
replaces-spends max_age h (rotates none token_hash next now) t e won = absurd (ground (arith, won))
replaces-spends max_age h (rotates (some r) token_hash next now) t e won =
    elim (Bool-cases (is_some r.revoked_at)) [
      | inl gone ↦ absurd (ground (arith, gone, won, decide-is_rotated token_hash r.user_id now t))
      | inr held ↦ elim (Bool-cases (ltb r.expires_at now)) [
        | inl late ↦ absurd (ground (arith, held, late, won))
        | inr in_time ↦
            let same : token_hash ≡ h = ground (arith, won) in
            let spent =
              rotate_live-spends max_age h next r.user_id now t e
                (ground (arith, held, in_time, won, same)) in
            (ground (arith, spent.0), ground (arith, held, in_time, same, spent.1))
      ]
    ]
replaces-spends max_age h (revokes token_hash now) t e won = absurd (ground (arith, won))
replaces-spends max_age h (revokes_all user_id except now) t e won = absurd (ground (arith, won))

none_left :
    (max_age h : ℕ) (requests : List Request) (t : Tokens)
    → mints_again h requests ≡ false
    → count (is_live_token h) t ≡ 0
    → replacements max_age h requests t ≡ 0
unfolding replacements mints_again
none_left max_age h [] t e spent = refl
none_left max_age h (request ∷ rest) t e spent =
    let first : mints h request ≡ false = ground (arith, e) in
    let ih =
      none_left max_age h rest (serve max_age request t) (ground (arith, e))
        (ground (arith, serve-live max_age h request t first, spent)) in
    elim (Bool-cases (replaces max_age h request t)) [
      | inl won ↦ absurd (ground (arith, spent, (replaces-spends max_age h request t first won).0))
      | inr lost ↦ ground (arith, lost, ih)
    ]

-- A refresh token is replaced by a new one at most once, in any sequence of requests that issue,
-- rotate and revoke tokens, where a rotation may have read its row at any earlier time. No request
-- of the sequence mints a token with the same hash.
pub replacements-le-one :
    (max_age h : ℕ) (requests : List Request) (tokens : Tokens)
    → mints_again h requests ≡ false
    → replacements max_age h requests tokens ≤ 1
unfolding replacements mints_again
replacements-le-one max_age h [] t e = omega arith
replacements-le-one max_age h (request ∷ rest) t e =
    let first : mints h request ≡ false = ground (arith, e) in
    elim (Bool-cases (replaces max_age h request t)) [
      | inl won ↦ ground (
        arith,
        won,
        none_left max_age h rest (serve max_age request t) (ground (arith, e))
            (replaces-spends max_age h request t first won).1,
      )
      | inr lost ↦ ground (
        arith,
        lost,
        replacements-le-one max_age h rest (serve max_age request t) (ground (arith, e)),
      )
    ]
