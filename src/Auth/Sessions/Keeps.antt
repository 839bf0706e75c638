-- ===== src/Auth/Sessions/Keeps.antt =====
-- What signing in, refreshing and signing out never touch.
use optra.Prelude.{
  Option, none, some, String, is_some, leb, first, ◌≡◌, refl, Bool-cases, Option-cases, inl, inr,
}
use optra.Auth.Store.{User, RefreshToken, Env, Draw, normalize_email}
use optra.Auth.Limits.{take_login_attempt}
use optra.Auth.Sessions.{
  Db, has_email, has_user_id, has_hash, issue_tokens, login_user, login, refresh_live,
  refresh_found, refresh, logout,
}

module _ (env : Env) where
  -- The accounts, the workspaces and the verification codes are the same.
  abbrev pub IsKept : Db env → Db env → Type 0
  IsKept before after =
      (after.users ≡ before.users)
      × (after.workspaces ≡ before.workspaces)
      × (after.otps ≡ before.otps)

  login_user-IsKept :
      (draw : Draw) (email password : String) (user : Option User) (store : Db env)
      → IsKept store (login_user env draw email password user store).0
  unfolding issue_tokens
  login_user-IsKept draw email password none store = (refl, refl, refl)
  login_user-IsKept draw email password (some user) store =
      elim (Bool-cases (env.bcrypt_compare password user.password_hash)) [
        | inr n ↦ rw n (refl, refl, refl)
        | inl t ↦ elim (Bool-cases user.is_verified) [
          | inl v ↦ rw (t, v) (refl, refl, refl)
          | inr v ↦ rw (t, v) (refl, refl, refl)
        ]
      ]

  pub login-IsKept :
      (draw : Draw) (email password : String) (store : Db env)
      → IsKept store (login env draw email password store).0
  unfolding login
  login-IsKept draw email password store =
      let name = normalize_email env email in
      let taken = take_login_attempt env name store.redis in
      elim (Bool-cases taken.0) [
        | inr n ↦ rw n (refl, refl, refl)
        | inl t ↦ rw t (
            login_user-IsKept draw name password (first (has_email name) store.users)
              (record store { redis = taken.1 }))
      ]

  refresh_live-IsKept :
      (draw : Draw) (rt : RefreshToken) (store : Db env)
      → IsKept store (refresh_live env draw rt store).0
  unfolding issue_tokens
  refresh_live-IsKept draw rt store = elim (Bool-cases (leb rt.expires_at draw.now)) [
    | inl t ↦ rw t (refl, refl, refl)
    | inr n ↦ elim (Option-cases (first (has_user_id rt.user_id) store.users)) [
      | inl o ↦ rw (n, o) (refl, refl, refl)
      | inr (u, s) ↦ rw (n, s) (refl, refl, refl)
    ]
  ]

  refresh_found-IsKept :
      (draw : Draw) (rt : Option RefreshToken) (store : Db env)
      → IsKept store (refresh_found env draw rt store).0
  refresh_found-IsKept draw none store = (refl, refl, refl)
  refresh_found-IsKept draw (some rt) store = elim (Bool-cases (is_some rt.revoked_at)) [
    | inl t ↦ rw t (refl, refl, refl)
    | inr n ↦ rw n (refresh_live-IsKept draw rt store)
  ]

  pub refresh-IsKept :
      (draw : Draw) (raw : String) (store : Db env) → IsKept store (refresh env draw raw store).0
  unfolding refresh
  refresh-IsKept draw raw store =
      refresh_found-IsKept draw (first (has_hash (env.sha256 raw)) store.refresh_tokens) store

  pub logout-IsKept :
      (draw : Draw) (raw : String) (store : Db env) → IsKept store (logout env draw raw store).0
  unfolding logout
  logout-IsKept draw raw store = (refl, refl, refl)
