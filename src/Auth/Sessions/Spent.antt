-- ===== src/Auth/Sessions/Spent.antt =====
-- A refresh token that has been rotated stays spent, whatever requests for sessions follow.
use optra.Prelude.{
  ℕ, Bool, true, Option, none, some, String, List, [], ◌∷◌, ◌++◌, leb, first, update, is_some, ◌≡◌,
  refl, Bool-cases, Option-cases, inl, inr,
}
use optra.Http.{unauthorized, ok, fail}
use optra.Auth.Store.{User, RefreshToken, Env, Draw, Tokens, normalize_email}
use optra.Auth.Limits.{take_login_attempt}
use optra.Auth.Sessions.{
  Db, has_email, has_hash, has_user_id, revoked, issue_tokens, login_user, login, refresh_live,
  refresh_found, refresh, logout,
}
use optra.Auth.Sessions.Laws.{IsSignedOut, refresh-ok, refresh_reuse, first-revoked}

-- The first row of a token's hash is one of this user's, and is revoked.
abbrev pub IsSpent : String → String → List RefreshToken → Type 0
IsSpent hash user_id tokens =
    (rt : RefreshToken) × (first (has_hash hash) tokens ≡ some rt)
    × (is_some rt.revoked_at ≡ true)
    × (rt.user_id ≡ user_id)

first-append :
    (hash : String) (tokens more : List RefreshToken) (rt : RefreshToken)
    → first (has_hash hash) tokens ≡ some rt
    → first (has_hash hash) (tokens ++ more) ≡ some rt
first-append hash [] more rt h = cc
first-append hash (t ∷ ts) more rt h = elim (Bool-cases (has_hash hash t)) [
  | inl y ↦ rw y (rw y at h)
  | inr n ↦ rw n (first-append hash ts more rt (rw n at h))
]

IsSpent-append :
    (hash user_id : String) (tokens more : List RefreshToken)
    → IsSpent hash user_id tokens
    → IsSpent hash user_id (tokens ++ more)
IsSpent-append hash user_id tokens more (rt, found, spent, own) =
    (rt, first-append hash tokens more rt found, spent, own)

IsSpent-update :
    (hash user_id : String) (p : RefreshToken → Bool) (now : ℕ) (tokens : List RefreshToken)
    → IsSpent hash user_id tokens
    → IsSpent hash user_id (update p (revoked now) tokens)
IsSpent-update hash user_id p now [] (rt, found, spent, own) = cc
IsSpent-update hash user_id p now (t ∷ ts) (rt, found, spent, own) =
    elim (Bool-cases (has_hash hash t)) [
      | inr n ↦
          let (later, still, gone, his) =
            IsSpent-update hash user_id p now ts (rt, (rw n at found), spent, own) in
          elim (Bool-cases (p t)) [
            | inl y ↦ rw (y, n) (later, still, gone, his)
            | inr m ↦ rw (m, n) (later, still, gone, his)
          ]
      | inl y ↦
          let same : t ≡ rt = cc (rw y at found) in
          elim (Bool-cases (p t)) [
            | inl z ↦ rw (z, y) (revoked now t, refl, refl, rw same own)
            | inr m ↦ rw (m, y) (t, refl, rw same spent, rw same own)
          ]
    ]

-- A request about a session.
pub data SessionRequest : Type 0 where
  signs_in : Draw → String → String → SessionRequest
  refreshes : Draw → String → SessionRequest
  signs_out : Draw → String → SessionRequest

module _ (env : Env) where
  unfoldable pub serve_session : SessionRequest → Db env → Db env
  serve_session (signs_in draw email password) store = (login env draw email password store).0
  serve_session (refreshes draw raw) store = (refresh env draw raw store).0
  serve_session (signs_out draw raw) store = (logout env draw raw store).0

  unfoldable pub serve_sessions : List SessionRequest → Db env → Db env
  unfolding serve_session
  serve_sessions [] store = store
  serve_sessions (r ∷ rest) store = serve_sessions rest (serve_session r store)

  module _ (hash user_id : String) where
    abbrev Spent : Db env → Type 0
    Spent store = IsSpent hash user_id store.refresh_tokens

    login_user-Spent :
        (draw : Draw) (email password : String) (user : Option User) (store : Db env)
        → Spent store
        → Spent (login_user env draw email password user store).0
    unfolding issue_tokens
    login_user-Spent draw email password none store h = h
    login_user-Spent draw email password (some user) store h =
        elim (Bool-cases (env.bcrypt_compare password user.password_hash)) [
          | inr n ↦ rw n h
          | inl t ↦ elim (Bool-cases user.is_verified) [
            | inl v ↦ rw (t, v) (IsSpent-append hash user_id store.refresh_tokens _ h)
            | inr v ↦ rw (t, v) h
          ]
        ]

    login-Spent :
        (draw : Draw) (email password : String) (store : Db env)
        → Spent store
        → Spent (login env draw email password store).0
    unfolding login
    login-Spent draw email password store h =
        let name = normalize_email env email in
        let taken = take_login_attempt env name store.redis in
        elim (Bool-cases taken.0) [
          | inr n ↦ rw n h
          | inl t ↦ rw t (
              login_user-Spent draw name password (first (has_email name) store.users)
                (record store { redis = taken.1 }) h)
        ]

    refresh_live-Spent :
        (draw : Draw) (rt : RefreshToken) (store : Db env)
        → Spent store
        → Spent (refresh_live env draw rt store).0
    unfolding issue_tokens
    refresh_live-Spent draw rt store h = elim (Bool-cases (leb rt.expires_at draw.now)) [
      | inl t ↦ rw t h
      | inr n ↦ elim (Option-cases (first (has_user_id rt.user_id) store.users)) [
        | inl o ↦ rw (n, o) h
        | inr (u, s) ↦
            rw (n, s)
              (IsSpent-append hash user_id _ _
                (IsSpent-update hash user_id _ draw.now store.refresh_tokens h))
      ]
    ]

    refresh_found-Spent :
        (draw : Draw) (found : Option RefreshToken) (store : Db env)
        → Spent store
        → Spent (refresh_found env draw found store).0
    refresh_found-Spent draw none store h = h
    refresh_found-Spent draw (some rt) store h = elim (Bool-cases (is_some rt.revoked_at)) [
      | inl y ↦ rw y (IsSpent-update hash user_id _ draw.now store.refresh_tokens h)
      | inr n ↦ rw n (refresh_live-Spent draw rt store h)
    ]

    serve_session-Spent :
        (r : SessionRequest) (store : Db env) → Spent store → Spent (serve_session r store)
    unfolding serve_session refresh logout
    serve_session-Spent (signs_in draw email password) store h =
        login-Spent draw email password store h
    serve_session-Spent (refreshes draw raw) store h = refresh_found-Spent draw _ store h
    serve_session-Spent (signs_out draw raw) store h =
        IsSpent-update hash user_id _ draw.now store.refresh_tokens h

    serve_sessions-Spent :
        (rs : List SessionRequest) (store : Db env) → Spent store → Spent (serve_sessions rs store)
    unfolding serve_sessions
    serve_sessions-Spent [] store h = h
    serve_sessions-Spent (r ∷ rest) store h =
        serve_sessions-Spent rest (serve_session r store) (serve_session-Spent r store h)

  -- For requests that are served one after the other: when a refresh has answered with tokens, and
  -- any sign-ins, refreshes and sign-outs have followed, of any users, the same token sent again is
  -- refused, and every session of the user of the token's row is ended. Two refreshes whose reads
  -- both come before their writes are not served so.
  pub refresh_twice :
      (draw later : Draw) (raw : String) (between : List SessionRequest) (store : Db env)
      (tokens : Tokens)
      → (refresh env draw raw store).1 ≡ ok tokens
      → let after = serve_sessions between (refresh env draw raw store).0 in
        (rt : RefreshToken) × (first (has_hash (env.sha256 raw)) store.refresh_tokens ≡ some rt)
        × ((refresh env later raw after).1
            ≡ fail (unauthorized "Session revoked — please log in again"))
        × IsSignedOut rt.user_id (refresh env later raw after).0.refresh_tokens
  refresh_twice draw later raw between store tokens h =
      let (rt, user, found, written) = refresh-ok env draw raw store tokens h in
      let spent : IsSpent (env.sha256 raw) rt.user_id
          (refresh env draw raw store).0.refresh_tokens =
        (
          revoked draw.now rt,
          rw written (first-revoked (env.sha256 raw) draw.now store.refresh_tokens _ rt found),
          refl,
          refl,
        ) in
      let (last, again, is_revoked, own) =
        serve_sessions-Spent (env.sha256 raw) rt.user_id between (refresh env draw raw store).0
          spent in
      let (refused, ended) =
        refresh_reuse env later raw (serve_sessions between (refresh env draw raw store).0) last
          again is_revoked in
      (rt, found, refused, rw own at ended)
