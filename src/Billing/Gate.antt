-- ===== src/Billing/Gate.antt =====
-- The gate before every metered path (apps/api/src/billing/billing-gate.service.ts).
pub mod Laws
pub mod Passed
use optra.Prelude.{
  Bool, true, false, Option, none, some, String, ℕ, if◌then◌else◌, leb, and_then, or_else,
}
use Prim.Native.String
use optra.Numbers.{Numbers}
use optra.Http.{
  Result, ok, fail, HttpError, billing_stop, BillingStop, subscription_required, ai_budget_exceeded,
  quota_exceeded, ◌>>=◌, BillingQuota, matched_lines, photo_checks,
}
use optra.Billing.Calendar.{Window, current_month_period, iso_day}
use optra.Billing.Plans.{EnvReader}
use optra.Billing.Ledger.{
  ReserveResult, charged, duplicate, over, Ledger, ReserveInput, reserve, PairInput,
  reserve_pair_lines, photo_check, LlmInput, record_llm_cost, TokenMeter,
}
use optra.Billing.Store.{Store}
use optra.Billing.Entitlement.{
  BillingState, exempt, subscribed, trialing, no_plan, BillingSummary, AiBudget, BillingQuotas,
  enforcement_on, window_of, load,
}

-- cmp:{po}:{invoice}:{period start date}
unfoldable pub pair_key_prefix : String → String → ℕ → String
unfolding iso_day
pair_key_prefix po invoice period_start =
    let rest = String.◌++◌ invoice (String.◌++◌ ":" (iso_day period_start)) in
    String.◌++◌ "cmp:" (String.◌++◌ po (String.◌++◌ ":" rest))

-- if (summary.state === 'none') throw billingStop('SUBSCRIPTION_REQUIRED')
abbrev pub has_plan : BillingState → Result (Unit {0})
has_plan no_plan = fail (billing_stop subscription_required)
has_plan _ = ok tt

-- if (ai.usedMicroUsd >= ai.capMicroUsd) throw billingStop('AI_BUDGET_EXCEEDED')
abbrev pub within_cap : AiBudget → Result (Unit {0})
within_cap ai =
    if leb ai.cap_micro_usd ai.used_micro_usd then fail (billing_stop ai_budget_exceeded) else ok tt

-- if (result === 'over') throw billingStop('QUOTA_EXCEEDED', quota)
abbrev pub not_over : BillingQuota → ReserveResult → Result (Unit {0})
not_over quota over = fail (billing_stop (quota_exceeded quota))
not_over quota _ = ok tt

-- The arguments of assertMatchedLines; `uuid` is the value of randomUUID.
pub record PairCheck : Type 0 where
  pub workspace_id : String
  pub purchase_order_id : String
  pub invoice_id : String
  pub line_count : ℕ
  pub now : ℕ
  pub uuid : String

abbrev pub pair_input : PairCheck → Option ℕ → Window → PairInput
pair_input c limit w = record {
  workspace_id = c.workspace_id;
  key_prefix = pair_key_prefix c.purchase_order_id c.invoice_id w.start;
  line_count = c.line_count;
  limit = limit;
  window = w;
  now = c.now;
  uuid = c.uuid;
}

abbrev pub photo_input : String → String → Option ℕ → Window → ℕ → ReserveInput
photo_input workspace_id uuid limit w now = record {
  workspace_id = workspace_id;
  kind = photo_check;
  idempotency_key = String.◌++◌ "photo:" uuid;
  quantity = 1;
  limit = limit;
  window = w;
  now = now;
}

-- A refusal, with the ledger that it leaves, or the next step.
abbrev pub or_refuse :
    Result (Unit {0}) → Ledger → Result (Unit {0}) × Ledger → Result (Unit {0}) × Ledger
or_refuse (fail e) rows next = (fail e, rows)
or_refuse (ok _) rows next = next

abbrev pub charge : BillingQuota → ReserveResult × Ledger → Result (Unit {0}) × Ledger
charge quota (r, rows) = (not_over quota r, rows)

module _ (js : Numbers) (env : EnvReader) where
  abbrev budget_of : Result (BillingSummary × AiBudget) → Result (Unit {0})
  budget_of (fail e) = fail e
  budget_of (ok (s, ai)) = has_plan s.state >>= λ _. within_cap ai

  unfoldable pub assert_ai_budget : String → ℕ → Store → Result (Unit {0})
  assert_ai_budget workspace_id now store =
      if enforcement_on env then budget_of (load js env workspace_id now store) else ok tt

  abbrev pub enforced_lines :
      PairCheck → Ledger → Result (BillingSummary × AiBudget) → Result (Unit {0}) × Ledger
  enforced_lines c rows (fail e) = (fail e, rows)
  enforced_lines c rows (ok (s, _)) = or_refuse (has_plan s.state) rows (
      charge matched_lines (
        reserve_pair_lines
          (pair_input c (and_then s.quotas (λ q. q.matched_lines)) (window_of s.period c.now))
          rows))

  -- With enforcement off the write is recorded and nothing is refused.
  unfoldable pub assert_matched_lines : PairCheck → Store → Result (Unit {0}) × Ledger
  assert_matched_lines c store =
      if enforcement_on env
      then enforced_lines c store.usage_events (load js env c.workspace_id c.now store)
      else (
        ok tt,
        (reserve_pair_lines (pair_input c none (current_month_period c.now)) store.usage_events).1,
      )

  abbrev pub enforced_photo :
      String → String → ℕ → Ledger → Result (BillingSummary × AiBudget) → Result (Unit {0}) × Ledger
  enforced_photo workspace_id uuid now rows (fail e) = (fail e, rows)
  enforced_photo workspace_id uuid now rows (ok (s, ai)) =
      or_refuse (has_plan s.state >>= λ _. within_cap ai) rows (
        charge photo_checks (
          reserve
            (photo_input workspace_id uuid (and_then s.quotas (λ q. q.photo_checks))
              (window_of s.period now) now)
            rows))

  unfoldable pub assert_photo_check : String → String → ℕ → Store → Result (Unit {0}) × Ledger
  assert_photo_check workspace_id uuid now store =
      if enforcement_on env
      then enforced_photo workspace_id uuid now store.usage_events
          (load js env workspace_id now store)
      else (
        ok tt,
        (reserve (photo_input workspace_id uuid none (current_month_period now) now)
            store.usage_events).1,
      )

-- recordLlmCost: a failed write is logged, and one call is under-counted.
unfoldable pub record_cost : LlmInput → Ledger → Ledger
record_cost i rows = or_else (record_llm_cost i rows) rows
