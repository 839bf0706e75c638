-- ===== src/Auth/Store.antt =====
-- The tables that authentication reads and writes, and what it takes from outside
-- (apps/api/src/auth/auth.service.ts). Times are epoch milliseconds.
use optra.Prelude.{ℕ, ◌*◌, Bool, Option, List, String, trim}
use optra.Billing.Plans.{trial_days}

pub record User : Type 0 where
  pub id : String
  pub email : String
  pub password_hash : String
  pub is_verified : Bool

pub record Otp : Type 0 where
  pub id : String
  pub user_id : String
  pub code : String
  pub expires_at : ℕ
  pub used_at : Option ℕ
  pub failed_attempts : ℕ
  pub created_at : ℕ

pub record RefreshToken : Type 0 where
  pub id : String
  pub user_id : String
  pub token_hash : String
  pub expires_at : ℕ
  pub revoked_at : Option ℕ

pub record Workspace : Type 0 where
  pub id : String
  pub name : String
  pub owner_id : String
  pub trial_ends_at : Option ℕ

pub record Member : Type 0 where
  pub id : String
  pub workspace_id : String
  pub user_id : String
  pub role : String

-- The database, and the counters in Redis.
pub record Store (Redis : Type 0) : Type 0 where
  pub users : List User
  pub otps : List Otp
  pub refresh_tokens : List RefreshToken
  pub workspaces : List Workspace
  pub members : List Member
  pub redis : Redis

-- bcrypt (whose hash takes a salt), SHA-256, the signing of access tokens, lower-casing, and Redis:
-- `bump` is the MULTI of SET NX EX and INCR, with the count that it returns, or none for an error.
pub record Env : Type 1 where
  pub Redis : Type 0
  pub bcrypt_hash : String → String → String
  pub bcrypt_compare : String → String → Bool
  pub sha256 : String → String
  pub sign : String → String → String
  pub lower : String → String
  pub bump : String → ℕ → Redis → Option ℕ × Redis
  pub del : String → Redis → Redis

-- What a request draws: ids from the database, random bytes and digits, the salt, whether the
-- notification was sent, and the time.
pub record Draw : Type 0 where
  pub now : ℕ
  pub row_id : String
  pub otp_id : String
  pub workspace_id : String
  pub token_id : String
  pub otp_code : String
  pub raw_token : String
  pub salt : String
  pub sent : Bool

pub record Tokens : Type 0 where
  pub access_token : String
  pub refresh_token : String

abbrev pub max_otp_attempts : ℕ
max_otp_attempts = 5

abbrev pub otp_expiry_ms : ℕ
otp_expiry_ms = 10 * 60 * 1000

abbrev pub refresh_expiry_ms : ℕ
refresh_expiry_ms = 7 * 24 * 60 * 60 * 1000

abbrev pub trial_ms : ℕ
trial_ms = trial_days * 24 * 60 * 60 * 1000

-- normalizeEmail
abbrev pub normalize_email : Env → String → String
normalize_email env email = env.lower (trim email)
