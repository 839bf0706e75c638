-- ===== src/Auth/Accounts/Trials.antt =====
-- A trial starts once for an account.
use optra.Prelude.{
  ℕ, ◌+◌, ◌≤◌, true, false, Option, none, some, List, [], ◌∷◌, String, ◌==◌, ◌&&◌, first, any,
  update, is_some, sum_where, sum_where-append, eq_iff, eq_refl, ◌≡◌, refl, arith, Bool-cases,
  Option-cases, inl, inr,
}
use Prim.Native.String
use optra.Auth.Store.{User, Otp, Workspace, trial_ms, Env, Draw, normalize_email}
use optra.Auth.Limits.{take_otp_resend}
use optra.Auth.Sessions.{Db, has_email, has_user_id, issue_tokens, login, refresh, logout}
use optra.Auth.Sessions.Keeps.{IsKept, login-IsKept, refresh-IsKept, logout-IsKept}
use optra.Auth.Accounts.{
  is_unverified, verified, reserve_attempt, register, verify_user, verify_otp, compare_code, claim,
  resend_otp, resend_user, change_password,
}
use optra.Auth.Accounts.Requests.{
  Request, sign_up, verify, resend, sign_in, rotate, sign_out, new_password, serve, serve_all,
}

-- The verified account rows with an id (one at most, for the id is the primary key).
abbrev pub verified_accounts : String → List User → ℕ
verified_accounts id users = sum_where (λ u. u.id == id && u.is_verified) (λ _. 1) users

-- The workspaces of a user that were given a trial.
abbrev pub trials : String → List Workspace → ℕ
trials id rows = sum_where (λ w. w.owner_id == id && is_some w.trial_ends_at) (λ _. 1) rows

verified_accounts-claim :
    (id other : String) (users : List User)
    → verified_accounts id users
      ≤ verified_accounts id (update (is_unverified other) verified users)
verified_accounts-claim id other [] = omega arith
verified_accounts-claim id other (u ∷ us) = ground (arith, verified_accounts-claim id other us)

verified_accounts-claimed :
    (id : String) (users : List User)
    → any (is_unverified id) users ≡ true
    → verified_accounts id users + 1
      ≤ verified_accounts id (update (is_unverified id) verified users)
verified_accounts-claimed id [] h = cc
verified_accounts-claimed id (u ∷ us) h = elim (Bool-cases (is_unverified id u)) [
  | inl t ↦ let more = verified_accounts-claim id id us in ground (arith)
  | inr n ↦ let more = verified_accounts-claimed id us (rw n at h) in ground (arith)
]

verified_accounts-password :
    (id other hash : String) (users : List User)
    → verified_accounts id
        (update (has_user_id other) (λ u. record u { password_hash = hash }) users)
      ≡ verified_accounts id users
verified_accounts-password id other hash [] = refl
verified_accounts-password id other hash (u ∷ us) =
    ground (arith, verified_accounts-password id other hash us)

module _ (env : Env) (id : String) where
  -- A step starts no more trials for the account than it verifies rows of it.
  abbrev pub IsFair : Db env → Db env → Type 0
  IsFair before after =
      trials id after.workspaces + verified_accounts id before.users
      ≤ trials id before.workspaces + verified_accounts id after.users

  kept-IsFair : (before after : Db env) → IsKept env before after → IsFair before after
  kept-IsFair before after (u, w, _) = rw (u, w) (omega arith)

  claim-IsFair :
      (draw : Draw) (user : User) (otp : Otp) (store : Db env)
      → IsFair store (claim env draw user otp store).0
  unfolding issue_tokens
  claim-IsFair draw user otp store = elim (Bool-cases (any (is_unverified user.id) store.users)) [
    | inr n ↦ rw n (omega arith)
    | inl t ↦
        let row : Workspace = record {
          id = draw.workspace_id;
          name = String.◌++◌ user.email "'s workspace";
          owner_id = user.id;
          trial_ends_at = some (draw.now + trial_ms);
        } in
        let added =
          sum_where-append (λ (w : Workspace). w.owner_id == id && is_some w.trial_ends_at) (λ _. 1)
            store.workspaces (row ∷ []) in
        elim (Bool-cases (user.id == id)) [
          | inl own ↦
              let same : user.id ≡ id = (eq_iff user.id id).0 own in
              let more = verified_accounts-claimed id store.users (rw same at t) in
              rw t (rw (added, same, eq_refl id) (omega (arith, more)))
          | inr other ↦
              let more = verified_accounts-claim id user.id store.users in
              rw t (rw (added, other) (omega (arith, more)))
        ]
  ]

  code-IsFair :
      (draw : Draw) (user : User) (code : String) (otp : Option Otp) (store : Db env)
      → IsFair store (compare_code env draw user code otp store).0
  code-IsFair draw user code none store = omega arith
  code-IsFair draw user code (some otp) store = elim (Bool-cases (otp.code == code)) [
    | inl t ↦ rw t (claim-IsFair draw user otp store)
    | inr n ↦ rw n (omega arith)
  ]

  user-IsFair :
      (draw : Draw) (code : String) (user : Option User) (store : Db env)
      → IsFair store (verify_user env draw code user store).0
  user-IsFair draw code none store = omega arith
  user-IsFair draw code (some user) store = elim (Bool-cases user.is_verified) [
    | inl t ↦ rw t (omega arith)
    | inr n ↦
        let attempt = reserve_attempt draw.now user.id store.otps in
        rw n (code-IsFair draw user code attempt.0 (record store { otps = attempt.1 }))
  ]

  verify-IsFair :
      (draw : Draw) (email code : String) (store : Db env)
      → IsFair store (verify_otp env draw email code store).0
  unfolding verify_otp
  verify-IsFair draw email code store =
      user-IsFair draw code (first (has_email (normalize_email env email)) store.users) store

  register-IsFair :
      (draw : Draw) (email password : String) (store : Db env)
      → IsFair store (register env draw email password store).0
  unfolding register
  register-IsFair draw email password store =
      elim (Bool-cases (any (has_email (normalize_email env email)) store.users)) [
        | inl t ↦ rw t (omega arith)
        | inr n ↦
            let row : User = record {
              id = draw.row_id;
              email = normalize_email env email;
              password_hash = env.bcrypt_hash draw.salt password;
              is_verified = false;
            } in
            let added =
              sum_where-append (λ (u : User). u.id == id && u.is_verified) (λ _. 1) store.users
                (row ∷ []) in
            rw n (rw added (ground arith))
      ]

  resend_user-IsFair :
      (draw : Draw) (email : String) (user : Option User) (store : Db env)
      → IsFair store (resend_user env draw email user store).0
  resend_user-IsFair draw email none store = omega arith
  resend_user-IsFair draw email (some user) store = elim (Bool-cases user.is_verified) [
    | inl t ↦ rw t (omega arith)
    | inr n ↦ elim (Bool-cases (take_otp_resend env email store.redis).0) [
      | inr m ↦ rw (n, m) (omega arith)
      | inl a ↦ elim (Bool-cases draw.sent) [
        | inl s ↦ rw (n, a, s) (omega arith)
        | inr s ↦ rw (n, a, s) (omega arith)
      ]
    ]
  ]

  resend-IsFair :
      (draw : Draw) (email : String) (store : Db env)
      → IsFair store (resend_otp env draw email store).0
  unfolding resend_otp
  resend-IsFair draw email store =
      let name = normalize_email env email in
      resend_user-IsFair draw name (first (has_email name) store.users) store

  password-IsFair :
      (draw : Draw) (user_id current next : String) (store : Db env)
      → IsFair store (change_password env draw user_id current next store).0
  unfolding change_password
  password-IsFair draw user_id current next store =
      elim (Option-cases (first (has_user_id user_id) store.users)) [
        | inl n ↦ rw n (omega arith)
        | inr (user, s) ↦ elim (Bool-cases (env.bcrypt_compare current user.password_hash)) [
          | inr m ↦ rw (s, m) (omega arith)
          | inl t ↦
              rw (s, t)
                (rw
                  (verified_accounts-password id user_id (env.bcrypt_hash draw.salt next)
                    store.users)
                  (omega arith))
        ]
      ]

  serve-IsFair : (r : Request) (store : Db env) → IsFair store (serve env r store)
  unfolding serve
  serve-IsFair (sign_up draw email password) store = register-IsFair draw email password store
  serve-IsFair (verify draw email code) store = verify-IsFair draw email code store
  serve-IsFair (resend draw email) store = resend-IsFair draw email store
  serve-IsFair (sign_in draw email password) store =
      kept-IsFair store (login env draw email password store).0
        (login-IsKept env draw email password store)
  serve-IsFair (rotate draw raw) store =
      kept-IsFair store (refresh env draw raw store).0 (refresh-IsKept env draw raw store)
  serve-IsFair (sign_out draw raw) store =
      kept-IsFair store (logout env draw raw store).0 (logout-IsKept env draw raw store)
  serve-IsFair (new_password draw user_id current next) store =
      password-IsFair draw user_id current next store

  -- Whatever requests arrive, in whatever order, the trials that an account has been given are no
  -- more than its verified rows (one row at most, for the id is the primary key), if that held
  -- before. So an account that is not verified has no trial, and one that is verified has at most
  -- one.
  pub serve_all-trials :
      (requests : List Request) (store : Db env)
      → trials id store.workspaces ≤ verified_accounts id store.users
      → trials id (serve_all env requests store).workspaces
        ≤ verified_accounts id (serve_all env requests store).users
  unfolding serve_all
  serve_all-trials [] store h = h
  serve_all-trials (r ∷ rs) store h =
      serve_all-trials rs (serve env r store) (omega (arith, serve-IsFair r store, h))
