-- ===== src/Auth/Accounts.antt =====
-- Accounts (`register`, `verifyOtp`, `resendOtp`, `changePassword` and `codesMatch` of
-- apps/api/src/auth/auth.service.ts). What a request has written before it throws stays written,
-- except inside a transaction.
pub mod Requests
pub mod Attempts
pub mod Trials
use optra.Prelude.{
  ℕ, ◌+◌, Bool, true, false, not, Option, none, some, List, [], ◌∷◌, ◌++◌, String, ◌==◌, ◌&&◌, leb,
  ltb, if◌then◌else◌, first, any, select, update, is_some,
}
use Prim.Native.String
use optra.Http.{HttpError, unauthorized, not_found, conflict, internal, Result, ok, fail}
use optra.Auth.Store.{
  User, Otp, Workspace, Member, Store, Env, Draw, Tokens, max_otp_attempts, otp_expiry_ms, trial_ms,
  normalize_email,
}
use optra.Auth.Limits.{take_otp_resend}
use optra.Auth.Sessions.{Db, has_email, has_user_id, is_session_of, revoked, issue_tokens}

abbrev pub invalid_code : HttpError
invalid_code = unauthorized "Invalid or expired code"

-- expires_at > now and used_at is null
abbrev pub is_live : ℕ → String → Otp → Bool
is_live now user_id o = o.user_id == user_id && ltb now o.expires_at && not (is_some o.used_at)

-- order by created_at desc limit 1
unfoldable pub newest : Option Otp → List Otp → Option Otp
newest best [] = best
newest none (o ∷ os) = newest (some o) os
newest (some b) (o ∷ os) = newest (some (if ltb b.created_at o.created_at then o else b)) os

abbrev pub spent : Otp → Otp
spent o = record o { failed_attempts = o.failed_attempts + 1 }

abbrev pub is_attempt_on : String → Otp → Bool
is_attempt_on id o = o.id == id && ltb o.failed_attempts max_otp_attempts

abbrev pub reserve_on : List Otp → Option Otp → Option Otp × List Otp
reserve_on otps none = (none, otps)
reserve_on otps (some o) =
    if ltb o.failed_attempts max_otp_attempts
    then (some (spent o), update (is_attempt_on o.id) spent otps)
    else (none, otps)

-- The one statement that reserves an attempt on the newest live code: the row that it returns, and
-- the table after it.
unfoldable pub reserve_attempt : ℕ → String → List Otp → Option Otp × List Otp
reserve_attempt now user_id otps = reserve_on otps (newest none (select (is_live now user_id) otps))

-- The claim: an account that is not verified yet.
abbrev pub is_unverified : String → User → Bool
is_unverified id u = u.id == id && not u.is_verified

abbrev pub verified : User → User
verified u = record u { is_verified = true }

module _ (env : Env) where
  abbrev new_otp : Draw → String → Otp
  new_otp draw user_id = record {
    id = draw.otp_id;
    user_id = user_id;
    code = draw.otp_code;
    expires_at = draw.now + otp_expiry_ms;
    used_at = none;
    failed_attempts = 0;
    created_at = draw.now;
  }

  -- register
  unfoldable pub register : Draw → String → String → Db env → Db env × Result String
  register draw given_email password store =
      let email = normalize_email env given_email in
      if any (has_email email) store.users
      then (store, fail (conflict "Email already registered"))
      else (
        record store {
          users =
              store.users
              ++ record {
                id = draw.row_id;
                email = email;
                password_hash = env.bcrypt_hash draw.salt password;
                is_verified = false;
              }
                ∷ [];
          otps = store.otps ++ new_otp draw draw.row_id ∷ [];
        },
        if draw.sent
            then ok "Check your email for the verification code"
            else fail (internal "the code could not be sent"),
      )

  -- The transaction of a right code.
  abbrev claim : Draw → User → Otp → Db env → Db env × Result Tokens
  claim draw user otp store =
      if any (is_unverified user.id) store.users
      then issue_tokens env draw user.id user.email (record store {
        users = update (is_unverified user.id) verified store.users;
        otps = update (λ o. o.id == otp.id) (λ o. record o { used_at = some draw.now }) store.otps;
        workspaces =
            store.workspaces
            ++ record {
              id = draw.workspace_id;
              name = String.◌++◌ user.email "'s workspace";
              owner_id = user.id;
              trial_ends_at = some (draw.now + trial_ms);
            }
              ∷ [];
        members =
            store.members
            ++ record {
              id = draw.row_id;
              workspace_id = draw.workspace_id;
              user_id = user.id;
              role = "owner";
            }
              ∷ [];
      })
      else (store, fail invalid_code)

  abbrev compare_code : Draw → User → String → Option Otp → Db env → Db env × Result Tokens
  compare_code draw user code none store = (store, fail invalid_code)
  compare_code draw user code (some otp) store =
      if otp.code == code then claim draw user otp store else (
        store,
        fail (
            if leb max_otp_attempts otp.failed_attempts
            then unauthorized "Too many wrong codes. Request a new code."
            else invalid_code),
      )

  abbrev verify_user : Draw → String → Option User → Db env → Db env × Result Tokens
  verify_user draw code none store = (store, fail invalid_code)
  verify_user draw code (some user) store =
      if user.is_verified
      then (store, fail invalid_code)
      else let (otp, otps) = reserve_attempt draw.now user.id store.otps in
        compare_code draw user code otp (record store { otps = otps })

  -- verifyOtp
  unfoldable pub verify_otp : Draw → String → String → Db env → Db env × Result Tokens
  verify_otp draw email code store =
      verify_user draw code (first (has_email (normalize_email env email)) store.users) store

  abbrev resend_answer : String
  resend_answer = "If that account is waiting for verification, a new code is on its way."

  abbrev pub expired_at : ℕ → Otp → Otp
  expired_at now o = record o { expires_at = now }

  -- The new code is inserted; a failed send ends it, and a sent one ends the older codes.
  abbrev send_code : Draw → User → Db env → Db env × Result String
  send_code draw user store =
      let otps = store.otps ++ new_otp draw user.id ∷ [] in
      if draw.sent
      then (
        record store {
          otps =
              update (λ o. is_live draw.now user.id o && not (o.id == draw.otp_id))
                (expired_at draw.now) otps;
        },
        ok resend_answer,
      )
      else (
        record store { otps = update (λ o. o.id == draw.otp_id) (expired_at draw.now) otps },
        fail (internal "the code could not be sent"),
      )

  abbrev resend_limited : Draw → String → User → Db env → Db env × Result String
  resend_limited draw email user store =
      let (allowed, redis) = take_otp_resend env email store.redis in
      let counted : Db env = record store { redis = redis } in
      if allowed then send_code draw user counted else (counted, ok resend_answer)

  abbrev resend_user : Draw → String → Option User → Db env → Db env × Result String
  resend_user draw email none store = (store, ok resend_answer)
  resend_user draw email (some user) store =
      if user.is_verified then (store, ok resend_answer) else resend_limited draw email user store

  -- resendOtp
  unfoldable pub resend_otp : Draw → String → Db env → Db env × Result String
  resend_otp draw given_email store =
      let email = normalize_email env given_email in
      resend_user draw email (first (has_email email) store.users) store

  abbrev change_for :
      Draw → String → String → String → Option User → Db env → Db env × Result String
  change_for draw user_id current new_password none store =
      (store, fail (not_found "User not found"))
  change_for draw user_id current new_password (some user) store =
      if env.bcrypt_compare current user.password_hash
      then (
        record store {
          users =
              update (has_user_id user_id)
                (λ u. record u { password_hash = env.bcrypt_hash draw.salt new_password })
                store.users;
          refresh_tokens = update (is_session_of user_id) (revoked draw.now) store.refresh_tokens;
        },
        ok "Password changed. Please log in again.",
      )
      else (store, fail (unauthorized "Current password is incorrect"))

  -- changePassword
  unfoldable pub change_password : Draw → String → String → String → Db env → Db env × Result String
  change_password draw user_id current new_password store =
      change_for draw user_id current new_password (first (has_user_id user_id) store.users) store
