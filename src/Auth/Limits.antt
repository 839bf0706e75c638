-- ===== src/Auth/Limits.antt =====
-- The limits of one account (apps/api/src/auth/auth-limits.service.ts). With Redis unreachable every
-- request passes.
use optra.Prelude.{ℕ, Bool, true, Option, none, some, String, leb}
use Prim.Native.String
use optra.Auth.Store.{Env}

abbrev pub max_login_failures : ℕ
max_login_failures = 20

abbrev pub max_otp_resends : ℕ
max_otp_resends = 3

abbrev pub window_seconds : ℕ
window_seconds = 3600

abbrev login_key : Env → String → String
login_key env email = String.◌++◌ "auth:login-failures:" (env.sha256 email)

abbrev resend_key : Env → String → String
resend_key env email = String.◌++◌ "auth:otp-resends:" (env.sha256 email)

abbrev within : ℕ → Option ℕ → Bool
within limit none = true
within limit (some count) = leb count limit

-- takeLoginAttempt: whether the attempt may go on, and the counters after it
unfoldable pub take_login_attempt : (env : Env) → String → env.Redis → Bool × env.Redis
take_login_attempt env email redis =
    let (count, after) = env.bump (login_key env email) window_seconds redis in
    (within max_login_failures count, after)

-- clearLoginFailures
abbrev pub clear_login_failures : (env : Env) → String → env.Redis → env.Redis
clear_login_failures env email redis = env.del (login_key env email) redis

-- takeOtpResend
unfoldable pub take_otp_resend : (env : Env) → String → env.Redis → Bool × env.Redis
take_otp_resend env email redis =
    let (count, after) = env.bump (resend_key env email) window_seconds redis in
    (within max_otp_resends count, after)
