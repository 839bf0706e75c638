-- ===== src/Limits/Usage.antt =====
-- The token budget of a workspace and the charging of model calls
-- (apps/api/src/limits/usage.service.ts), over the billing gate and the ledger. Redis is its
-- counters; at one moment it answers or rejects. A key names its month, so its expiry is left out.
pub mod Laws
pub mod InFlight
use optra.Prelude.{
  ℕ, ◌+◌, Bool, true, false, Option, none, some, List, [], ◌∷◌, String, ◌==◌, eqb, leb,
  if◌then◌else◌,
}
use Prim.Native.String
use optra.Numbers.{Numbers}
use optra.Http.{
  HttpError, Result, ok, fail, ◌>>=◌, ◌>>◌, billing_stop, ai_budget_exceeded, BillingStop,
  payment_required, status_of,
}
use optra.Billing.Plans.{EnvReader}
use optra.Billing.Ledger.{LlmInput}
use optra.Billing.Ledger
use optra.Billing.Store.{Store}
use optra.Billing.Entitlement.{enforcement_on}
use optra.Billing.Gate.{assert_ai_budget, record_cost}
use optra.Ai.Tokens.{TokenMeter, input_tokens, output_tokens, cost_micro_usd, dominant_model}
use optra.Limits.Rate.{Counter, get}

-- isBudgetExceeded
unfoldable pub is_budget_exceeded : HttpError → Bool
unfolding status_of
is_budget_exceeded e = eqb (status_of e) 402

-- incrby
unfoldable pub incr_by : String → ℕ → List Counter → List Counter
incr_by key n [] = record { key = key; count = n } ∷ []
incr_by key n (c ∷ cs) =
    let rest = incr_by key n cs in
    if c.key == key then record c { count = c.count + n } ∷ cs else c ∷ rest

pub record State : Type 0 where
  pub redis : List Counter
  pub store : Store

-- monthKey, with the month as its text
abbrev pub month_key : String → String → String
month_key workspace_id month =
    String.◌++◌ "usage:tok:" (String.◌++◌ workspace_id (String.◌++◌ ":" month))

-- addUsage
unfoldable pub add_usage : Bool → String → String → ℕ → List Counter → List Counter
unfolding incr_by
add_usage false workspace_id month tokens redis = redis
add_usage true workspace_id month tokens redis = incr_by (month_key workspace_id month) tokens redis

-- used >= budget, which is false when the setting is no number
abbrev reached : ℕ → Option ℕ → Bool
reached used none = false
reached used (some budget) = leb budget used

abbrev over_budget : Bool → HttpError
over_budget true = billing_stop ai_budget_exceeded
over_budget false = payment_required "Workspace monthly token budget reached"

abbrev within_tokens : Bool → Option ℕ → ℕ → Result (Unit {0})
within_tokens enforced budget used =
    if reached used budget then fail (over_budget enforced) else ok tt

-- What the meter says, as the ledger takes it.
abbrev pub summary : (String → ℕ → ℕ → ℕ) → TokenMeter → Ledger.TokenMeter
summary cost m = record {
  total = m.used;
  cost_micro_usd = cost_micro_usd cost m.by_model;
  input_tokens = input_tokens m.by_model;
  output_tokens = output_tokens m.by_model;
  dominant_model = dominant_model cost m;
}

-- What the service reads of its surroundings: the month's text, the time, whether Redis answers, and
-- the uuid of a ledger row.
pub record Moment : Type 0 where
  pub month : String
  pub now : ℕ
  pub redis_up : Bool
  pub uuid : String

-- A workspace at a moment of its call.
pub record Call : Type 0 where
  pub workspace_id : String
  pub at : Moment

module _ (js : Numbers) (env : EnvReader) (budget : Option ℕ) (cost : String → ℕ → ℕ → ℕ) where
  -- The Redis half of assertWithinBudget: a rejection lets the call pass.
  unfoldable pub assert_tokens : Call → State → Result (Unit {0})
  unfolding get
  assert_tokens call s =
      if call.at.redis_up
      then within_tokens (enforcement_on env) budget
          (get (month_key call.workspace_id call.at.month) s.redis)
      else ok tt

  -- assertWithinBudget. The gate asks nothing unless billing is enforced.
  unfoldable pub assert_within_budget : Call → State → Result (Unit {0})
  unfolding assert_tokens
  assert_within_budget call s =
      assert_ai_budget js env call.workspace_id call.at.now s.store >> assert_tokens call s

  -- recordLedger
  unfoldable pub record_ledger : Call → TokenMeter → State → State
  record_ledger call m s = record s {
    store = record s.store {
      usage_events =
          record_cost
            (record {
              workspace_id = call.workspace_id;
              meter = summary cost m;
              now = call.at.now;
              uuid = call.at.uuid;
            })
            s.store.usage_events;
    };
  }

  -- The `finally` of metered.
  unfoldable pub charge : Bool → Call → TokenMeter → State → State
  unfolding add_usage record_ledger
  charge ledger_only call m s =
      if eqb m.used 0
      then s
      else record_ledger call m (
          if ledger_only then s else record s {
            redis = add_usage call.at.redis_up call.workspace_id call.at.month m.used s.redis;
          })

  abbrev pub admitted : Bool → Call → State → Result (Unit {0})
  admitted true call s = assert_ai_budget js env call.workspace_id call.at.now s.store
  admitted false call s = assert_within_budget call s

  -- The end of metered for a call that was let through or not, in the state that the others have
  -- left when it ends.
  abbrev pub after_check :
      {A : Type 0}
      → Bool
      → Call
      → Result A × TokenMeter
      → State
      → State
      → Result (Unit {0})
      → Result A × State
  after_check ledger_only ended ran s later (fail e) = (fail e, s)
  after_check ledger_only ended (outcome, m) s later (ok _) =
      (outcome, charge ledger_only ended m later)

  -- metered: `ran` is what the call returns or throws, with its meter. While it is awaited, other
  -- requests do `meanwhile` to the state, and when it ends the moment is `later`.
  unfoldable pub metered :
      {A : Type 0}
      → Bool
      → Call
      → Moment
      → (State → State)
      → Result A × TokenMeter
      → State
      → Result A × State
  unfolding assert_within_budget charge
  metered ledger_only call later meanwhile ran s =
      after_check ledger_only (record call { at = later }) ran s (meanwhile s)
        (admitted ledger_only call s)
