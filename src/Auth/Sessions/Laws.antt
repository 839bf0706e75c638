-- ===== src/Auth/Sessions/Laws.antt =====
-- Rotation of refresh tokens, and the answer to a reused one.
use optra.Prelude.{
  ℕ, true, false, some, String, List, [], ◌∷◌, ◌++◌, ◌==◌, leb, first, update, is_some, All,
  eq_refl, ◌≡◌, refl, ap, arith, Bool-cases, Option-cases, inl, inr,
}
use optra.Http.{unauthorized, ok, fail}
use optra.Auth.Store.{User, RefreshToken, Env, Draw, Tokens}
use optra.Auth.Sessions.{
  Db, has_hash, has_user_id, is_session_of, revoked, token_row, issue_tokens, refresh,
}

-- No session of the user is left that is not revoked.
abbrev pub IsSignedOut : String → List RefreshToken → Type 0
IsSignedOut user_id tokens = All (λ t. is_session_of user_id t ≡ false) tokens

pub revoked-IsSignedOut :
    (now : ℕ) (user_id : String) (tokens : List RefreshToken)
    → IsSignedOut user_id (update (is_session_of user_id) (revoked now) tokens)
revoked-IsSignedOut now user_id [] = tt
revoked-IsSignedOut now user_id (t ∷ ts) = elim (Bool-cases (is_session_of user_id t)) [
  | inl y ↦ rw y ((ground arith), revoked-IsSignedOut now user_id ts)
  | inr n ↦ rw n (n, revoked-IsSignedOut now user_id ts)
]

pub first-revoked :
    (hash : String) (now : ℕ) (tokens : List RefreshToken) (more : List RefreshToken)
    (rt : RefreshToken)
    → first (has_hash hash) tokens ≡ some rt
    → first (has_hash hash) (update (λ t. t.id == rt.id) (revoked now) tokens ++ more)
      ≡ some (revoked now rt)
first-revoked hash now [] more rt h = cc
first-revoked hash now (t ∷ ts) more rt h = elim (Bool-cases (has_hash hash t)) [
  | inl y ↦
      let same : t ≡ rt = cc (rw y at h) in
      let own : (t.id == rt.id) ≡ true = rw same (eq_refl rt.id) in
      rw (own, y) (ap (λ x. some (revoked now x)) same)
  | inr n ↦
      let rest = first-revoked hash now ts more rt (rw n at h) in
      elim (Bool-cases (t.id == rt.id)) [ inl y ↦ rw (y, n) rest | inr m ↦ rw (m, n) rest ]
]

module _ (env : Env) where
  -- What a refresh does when it answers with tokens.
  pub refresh-ok :
      (draw : Draw) (raw : String) (store : Db env) (tokens : Tokens)
      → (refresh env draw raw store).1 ≡ ok tokens
      → (rt : RefreshToken) × (user : User) × (first
            (has_hash (env.sha256 raw))
            store.refresh_tokens
          ≡ some rt)
        × ((refresh env draw raw store).0.refresh_tokens
            ≡ update (λ t. t.id == rt.id) (revoked draw.now) store.refresh_tokens
              ++ token_row env draw user.id ∷ [])
  unfolding refresh issue_tokens
  refresh-ok draw raw store tokens h =
      elim (Option-cases (first (has_hash (env.sha256 raw)) store.refresh_tokens)) [
        | inl n ↦ cc (rw n at h)
        | inr (rt, s) ↦ elim (Bool-cases (is_some rt.revoked_at)) [
          | inl y ↦ cc (rw (s, y) at h)
          | inr n ↦ elim (Bool-cases (leb rt.expires_at draw.now)) [
            | inl y ↦ cc (rw (s, n, y) at h)
            | inr m ↦ elim (Option-cases (first (has_user_id rt.user_id) store.users)) [
              | inl o ↦ cc (rw (s, n, m, o) at h)
              | inr (user, u) ↦ (rt, user, s, rw (s, n, m, u) refl)
            ]
          ]
        ]
      ]

  -- When the row found for a token is revoked, the token is refused, and every session of the
  -- row's user is ended.
  pub refresh_reuse :
      (draw : Draw) (raw : String) (store : Db env) (rt : RefreshToken)
      → first (has_hash (env.sha256 raw)) store.refresh_tokens ≡ some rt
      → is_some rt.revoked_at ≡ true
      → ((refresh env draw raw store).1
          ≡ fail (unauthorized "Session revoked — please log in again"))
        × IsSignedOut rt.user_id (refresh env draw raw store).0.refresh_tokens
  unfolding refresh
  refresh_reuse draw raw store rt h r =
      rw (h, r) (refl, revoked-IsSignedOut draw.now rt.user_id store.refresh_tokens)
