-- ===== src/Auth/Sessions/Race.antt =====
-- Two refreshes of one token at the same time: both read before either writes.
use optra.Prelude.{
  ◌≤◌, false, some, String, leb, first, is_some, ◌≡◌, refl, arith, Bool-cases, Option-cases, inl,
  inr,
}
use optra.Http.{Result, ok}
use optra.Auth.Store.{User, RefreshToken, Env, Draw, Tokens}
use optra.Auth.Sessions.{Db, has_hash, has_user_id, issue_tokens, rotate, refresh}

module _ (env : Env) where
  -- The tokens that a request draws.
  abbrev pub drawn : Draw → User → Tokens
  drawn draw user = record {
    access_token = env.sign user.id user.email;
    refresh_token = draw.raw_token;
  }

  -- The transactions of two requests, after each of them has read the token and its user.
  unfoldable pub race : Draw → Draw → RefreshToken → User → Db env → Result Tokens × Result Tokens
  race one two rt user store =
      let (between, answer) = rotate env one rt (some user) store in
      (answer, (rotate env two rt (some user) between).1)

  -- A refresh token that one request can use is used by two whose reads both come before their
  -- writes, when the second is not later than the first: each of the two, alone, is the
  -- transaction of `rotate` for the same token and user, and the two transactions, one after the
  -- other, answer both requests with tokens.
  pub refresh-race :
      (one two : Draw) (raw : String) (store : Db env) (tokens : Tokens)
      → (refresh env one raw store).1 ≡ ok tokens
      → two.now ≤ one.now
      → (rt : RefreshToken) × (user : User) × (refresh env one raw store
          ≡ rotate env one rt (some user) store)
        × (refresh env two raw store ≡ rotate env two rt (some user) store)
        × (race one two rt user store ≡ (ok (drawn one user), ok (drawn two user)))
  unfolding refresh issue_tokens race
  refresh-race one two raw store tokens h early =
      elim (Option-cases (first (has_hash (env.sha256 raw)) store.refresh_tokens)) [
        | inl n ↦ cc (rw n at h)
        | inr (rt, s) ↦ elim (Bool-cases (is_some rt.revoked_at)) [
          | inl y ↦ cc (rw (s, y) at h)
          | inr n ↦ elim (Bool-cases (leb rt.expires_at one.now)) [
            | inl y ↦ cc (rw (s, n, y) at h)
            | inr m ↦ elim (Option-cases (first (has_user_id rt.user_id) store.users)) [
              | inl o ↦ cc (rw (s, n, m, o) at h)
              | inr (user, u) ↦
                  let live : leb rt.expires_at two.now ≡ false = ground arith in
                  (rt, user, rw (s, n, m, u) refl, rw (s, n, live, u) refl, refl)
            ]
          ]
        ]
      ]
