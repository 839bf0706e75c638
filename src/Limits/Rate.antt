-- ===== src/Limits/Rate.antt =====
-- Requests for a chat per minute and refine requests per day
-- (apps/api/src/limits/rate-limit.service.ts). Redis is its counters; for one call of the service it
-- answers all commands or rejects the first. A key names its minute or its day, so the expiry of a
-- counter is left out. A limit is nothing when its setting is no number.
pub mod Laws
use optra.Prelude.{
  ℕ, suc, ◌+◌, ◌-◌, ◌/◌, ◌||◌, Bool, true, false, Option, none, some, List, [], ◌∷◌, String, ◌==◌,
  ltb, if◌then◌else◌,
}
use Prim.Native.String
use optra.Http.{HttpError, too_many_requests, Result, ok, fail}

pub record Counter : Type 0 where
  pub key : String
  pub count : ℕ

-- get, where a key that is not stored counts 0
unfoldable pub get : String → List Counter → ℕ
get key [] = 0
get key (c ∷ cs) = let rest = get key cs in if c.key == key then c.count else rest

-- incr
unfoldable pub incr : String → List Counter → List Counter
incr key [] = record { key = key; count = 1 } ∷ []
incr key (c ∷ cs) =
    let rest = incr key cs in
    if c.key == key then record c { count = suc c.count } ∷ cs else c ∷ rest

-- count > limit, which is false when the limit is NaN
abbrev pub exceeds : ℕ → Option ℕ → Bool
exceeds count none = false
exceeds count (some limit) = ltb limit count

module _ (digits : ℕ → String) where
  abbrev join : String → String → String
  join a b = String.◌++◌ a (String.◌++◌ ":" b)

  -- Math.floor(Date.now() / 60_000)
  abbrev pub minute_bucket : ℕ → String
  minute_bucket now = digits (now / 60000)

  abbrev pub user_key : String → ℕ → String
  user_key user_id now = join (String.◌++◌ "rl:user:" user_id) (minute_bucket now)

  abbrev pub workspace_key : String → ℕ → String
  workspace_key workspace_id now = join (String.◌++◌ "rl:ws:" workspace_id) (minute_bucket now)

  abbrev counted : Option ℕ → Option ℕ → ℕ → ℕ → List Counter → Result (Unit {0}) × List Counter
  counted per_user per_workspace u w redis =
      if exceeds u per_user || exceeds w per_workspace
      then (fail (too_many_requests "Rate limit exceeded"), redis)
      else (ok tt, redis)

  -- check. While Redis rejects, every request passes.
  unfoldable pub check :
      Option ℕ
      → Option ℕ
      → Bool
      → String
      → String
      → ℕ
      → List Counter
      → Result (Unit {0}) × List Counter
  unfolding get incr
  check per_user per_workspace false user_id workspace_id now redis = (ok tt, redis)
  check per_user per_workspace true user_id workspace_id now redis =
      let one = incr (user_key user_id now) redis in
      let two = incr (workspace_key workspace_id now) one in
      counted per_user per_workspace (get (user_key user_id now) one)
        (get (workspace_key workspace_id now) two) two

  -- The day is a text, as utcDateBucket writes it.
  abbrev pub refine_key : String → String → String
  refine_key user_id day = join (String.◌++◌ "rl:refine:" user_id) day

  abbrev refine_counted : Option ℕ → ℕ → List Counter → Result (Unit {0}) × List Counter
  refine_counted limit n redis =
      if exceeds n limit
      then (fail (too_many_requests "Daily refine limit reached"), redis)
      else (ok tt, redis)

  -- checkRefineDaily
  unfoldable pub check_refine_daily :
      Option ℕ → Bool → String → String → List Counter → Result (Unit {0}) × List Counter
  unfolding get incr
  check_refine_daily limit false user_id day redis = (ok tt, redis)
  check_refine_daily limit true user_id day redis =
      let counters = incr (refine_key user_id day) redis in
      refine_counted limit (get (refine_key user_id day) counters) counters

  pub record RefineStatus : Type 0 where
    pub used : ℕ
    pub limit : ℕ
    pub remaining : ℕ

  -- getRefineStatus, for a limit that is a number
  unfoldable pub refine_status : ℕ → Bool → String → String → List Counter → RefineStatus
  unfolding get
  refine_status limit false user_id day redis = record {
    used = 0;
    limit = limit;
    remaining = limit;
  }
  refine_status limit true user_id day redis =
      let used = get (refine_key user_id day) redis in
      record { used = used; limit = limit; remaining = limit - used }
