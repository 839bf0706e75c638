-- ===== src/Auth/Sessions.antt =====
-- Sessions (`login`, `refresh`, `logout`, `issueTokens` and `hashToken` of
-- apps/api/src/auth/auth.service.ts). What a request has written before it throws stays written,
-- except inside a transaction.
pub mod Laws
pub mod Keeps
pub mod Race
pub mod Spent
use optra.Prelude.{
  ℕ, ◌+◌, Bool, true, false, not, Option, none, some, List, [], ◌∷◌, ◌++◌, String, ◌==◌, ◌&&◌, leb,
  if◌then◌else◌, first, update, is_some,
}
use optra.Http.{HttpError, unauthorized, forbidden, not_found, too_many_requests, Result, ok, fail}
use optra.Auth.Store.{
  User, RefreshToken, Store, Env, Draw, Tokens, refresh_expiry_ms, normalize_email,
}
use optra.Auth.Limits.{take_login_attempt, clear_login_failures}

abbrev timing_hash : String
timing_hash = "$2b$12$Z4qJPy7F222SOXdBb0sDAujmpE8ObAqrWZxnwJDnId/uOsD6jzjiG"

abbrev pub has_email : String → User → Bool
has_email email u = u.email == email

abbrev pub has_user_id : String → User → Bool
has_user_id id u = u.id == id

abbrev pub has_hash : String → RefreshToken → Bool
has_hash hash t = t.token_hash == hash

-- The sessions of a user that are not revoked.
abbrev pub is_session_of : String → RefreshToken → Bool
is_session_of user_id t = t.user_id == user_id && not (is_some t.revoked_at)

abbrev pub revoked : ℕ → RefreshToken → RefreshToken
revoked now t = record t { revoked_at = some now }

module _ (env : Env) where
  abbrev pub Db : Type 0
  Db = Store env.Redis

  -- The row that issueTokens inserts.
  abbrev pub token_row : Draw → String → RefreshToken
  token_row draw user_id = record {
    id = draw.token_id;
    user_id = user_id;
    token_hash = env.sha256 draw.raw_token;
    expires_at = draw.now + refresh_expiry_ms;
    revoked_at = none;
  }

  -- issueTokens
  unfoldable pub issue_tokens : Draw → String → String → Db → Db × Result Tokens
  issue_tokens draw user_id email store = (
    record store { refresh_tokens = store.refresh_tokens ++ token_row draw user_id ∷ [] },
    ok (record { access_token = env.sign user_id email; refresh_token = draw.raw_token }),
  )

  abbrev login_verified : Draw → User → Db → Db × Result Tokens
  login_verified draw user store =
      if user.is_verified
      then issue_tokens draw user.id user.email store
      else (store, fail (forbidden "Email not verified. Check your inbox for a verification code."))

  abbrev login_user : Draw → String → String → Option User → Db → Db × Result Tokens
  login_user draw email password none store = (store, fail (unauthorized "Invalid credentials"))
  login_user draw email password (some user) store =
      if env.bcrypt_compare password user.password_hash
      then login_verified draw user
          (record store { redis = clear_login_failures env email store.redis })
      else (store, fail (unauthorized "Invalid credentials"))

  -- login
  unfoldable pub login : Draw → String → String → Db → Db × Result Tokens
  login draw given_email password store =
      let email = normalize_email env given_email in
      let (allowed, redis) = take_login_attempt env email store.redis in
      let counted : Db = record store { redis = redis } in
      if allowed
      then login_user draw email password (first (has_email email) store.users) counted
      else (
        counted,
        fail (too_many_requests "Too many sign-in attempts for this account. Try again later."),
      )

  abbrev revoke : (RefreshToken → Bool) → ℕ → Db → Db
  revoke p now store = record store { refresh_tokens = update p (revoked now) store.refresh_tokens }

  abbrev pub rotate : Draw → RefreshToken → Option User → Db → Db × Result Tokens
  rotate draw rt none store = (store, fail (not_found "User not found"))
  rotate draw rt (some user) store =
      issue_tokens draw user.id user.email (revoke (λ t. t.id == rt.id) draw.now store)

  abbrev refresh_live : Draw → RefreshToken → Db → Db × Result Tokens
  refresh_live draw rt store =
      if leb rt.expires_at draw.now
      then (store, fail (unauthorized "Invalid or expired refresh token"))
      else rotate draw rt (first (has_user_id rt.user_id) store.users) store

  abbrev pub refresh_found : Draw → Option RefreshToken → Db → Db × Result Tokens
  refresh_found draw none store = (store, fail (unauthorized "Invalid or expired refresh token"))
  refresh_found draw (some rt) store =
      if is_some rt.revoked_at
      then (
        revoke (is_session_of rt.user_id) draw.now store,
        fail (unauthorized "Session revoked — please log in again"),
      )
      else refresh_live draw rt store

  -- refresh
  unfoldable pub refresh : Draw → String → Db → Db × Result Tokens
  refresh draw raw_token store =
      refresh_found draw (first (has_hash (env.sha256 raw_token)) store.refresh_tokens) store

  -- logout
  unfoldable pub logout : Draw → String → Db → Db × Result String
  logout draw raw_token store =
      (revoke (has_hash (env.sha256 raw_token)) draw.now store, ok "Logged out")
