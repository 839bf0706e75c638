-- ===== src/Billing/Entitlement.antt =====
-- What a workspace is entitled to now (apps/api/src/billing/entitlement.service.ts). The instants of
-- a summary are kept as milliseconds; on the wire they are ISO texts.
pub mod Laws
use optra.Prelude.{
  ℕ, zero, suc, ◌-◌, ◌*◌, ◌/◌, Bool, true, false, Option, none, some, String, ◌==◌, if◌then◌else◌,
  ltb, min, first, and_then,
}
use mathlib.Core.Option
use optra.Numbers.{Numbers}
use optra.Http.{Result, ok, fail, not_found}
use optra.Billing.Calendar.{day_ms, Window, current_month_period}
use optra.Billing.Plans.{
  BillingPlan, PlanQuota, quotas_for, EnvReader, is_entitled_status, ai_cap_micro_usd, cap_kind,
  AiCapKind, trial_days,
}
use optra.Billing.Ledger.{Sums, sums_by_kind}
use optra.Billing.Store.{Workspace, Subscription, Store, is_workspace, is_subscription_of}

-- `no_plan` is the source's 'none'.
pub data BillingState : Type 0 where
  exempt subscribed trialing no_plan : BillingState

-- A null quota is unlimited.
pub record BillingQuotas : Type 0 where
  pub matched_lines : Option ℕ
  pub photo_checks : Option ℕ

pub record BillingUsed : Type 0 where
  pub matched_lines : ℕ
  pub photo_checks : ℕ
  pub ai_budget_percent : ℕ

pub record BillingSummary : Type 0 where
  pub enforced : Bool
  pub plan : Option BillingPlan
  pub seats : Option ℕ
  pub subscription_status : Option String
  pub trial_ends_at : Option ℕ
  pub renews_at : Option ℕ
  pub ends_at : Option ℕ
  pub state : BillingState
  pub period : Option Window
  pub quotas : Option BillingQuotas
  pub used : BillingUsed

pub record AiBudget : Type 0 where
  pub used_micro_usd : ℕ
  pub cap_micro_usd : ℕ

-- The variables that the branches of `load` assign.
pub record Terms : Type 0 where
  pub state : BillingState
  pub period : Option Window
  pub quotas : Option BillingQuotas
  pub cap_micro_usd : ℕ
  pub plan : Option BillingPlan

abbrev limited : PlanQuota → BillingQuotas
limited q = record { matched_lines = some q.matched_lines; photo_checks = some q.photo_checks }

abbrev entitled_subscription : Option Subscription → ℕ → Option Subscription
entitled_subscription none now = none
entitled_subscription (some s) now =
    if is_entitled_status s.status s.ends_at now then some s else none

abbrev live_trial : Option ℕ → ℕ → Option ℕ
live_trial none now = none
live_trial (some ends) now = if ltb now ends then some ends else none

abbrev is_on : Option String → Bool
is_on none = false
is_on (some v) = v == "on"

-- config.get('BILLING_ENFORCEMENT') === 'on'
unfoldable pub enforcement_on : EnvReader → Bool
enforcement_on env = is_on (env "BILLING_ENFORCEMENT")

-- The window whose usage is metered: that of the quota, else the calendar month.
unfoldable pub window_of : Option Window → ℕ → Window
window_of none now = current_month_period now
window_of (some w) now = w

unfoldable pub budget_percent : ℕ → ℕ → ℕ
budget_percent spent zero = 0
budget_percent spent (suc cap) = min 100 (100 * spent / suc cap)

module _ (js : Numbers) (env : EnvReader) where
  abbrev no_terms : Option BillingPlan → Terms
  no_terms plan = record {
    state = no_plan;
    period = none;
    quotas = none;
    cap_micro_usd = 0;
    plan = plan;
  }

  abbrev trial_terms : Option ℕ → Option BillingPlan → Terms
  trial_terms none plan = no_terms plan
  trial_terms (some ends) plan = record {
    state = trialing;
    period = some (record { start = ends - trial_days * day_ms; end = ends });
    quotas = some (limited (quotas_for BillingPlan.solo 1));
    cap_micro_usd = ai_cap_micro_usd js AiCapKind.trial 1 env;
    plan = none;
  }

  abbrev paid_terms : Option Subscription → Workspace → Option BillingPlan → ℕ → Terms
  paid_terms none w plan now = trial_terms (live_trial w.trial_ends_at now) plan
  paid_terms (some s) w plan now = record {
    state = subscribed;
    period = some (current_month_period now);
    quotas = some (limited (quotas_for s.plan s.seats));
    cap_micro_usd = ai_cap_micro_usd js (cap_kind s.plan) s.seats env;
    plan = plan;
  }

  -- exempt, then subscribed, then trialing, then none
  unfoldable pub terms_for : Workspace → Option Subscription → ℕ → Terms
  terms_for w sub now =
      let plan = Option.map (λ s. s.plan) sub in
      if w.billing_exempt
      then record {
        state = exempt;
        period = none;
        quotas = some (record { matched_lines = none; photo_checks = none });
        cap_micro_usd = ai_cap_micro_usd js AiCapKind.exempt 1 env;
        plan = plan;
      }
      else paid_terms (entitled_subscription sub now) w plan now

  unfoldable pub summarize :
      Workspace → Option Subscription → Terms → Sums → BillingSummary × AiBudget
  summarize w sub terms sums = (
    record {
      enforced = enforcement_on env;
      plan = terms.plan;
      seats = Option.map (λ s. s.seats) sub;
      subscription_status = Option.map (λ s. s.status) sub;
      trial_ends_at = w.trial_ends_at;
      renews_at = and_then sub (λ s. s.renews_at);
      ends_at = and_then sub (λ s. s.ends_at);
      state = terms.state;
      period = terms.period;
      quotas = terms.quotas;
      used = record {
        matched_lines = sums.matched_lines;
        photo_checks = sums.photo_checks;
        ai_budget_percent = budget_percent sums.llm_cost_micro_usd terms.cap_micro_usd;
      };
    },
    record { used_micro_usd = sums.llm_cost_micro_usd; cap_micro_usd = terms.cap_micro_usd },
  )

  abbrev pub summarize_found : String → ℕ → Store → Workspace → BillingSummary × AiBudget
  summarize_found id now store w =
      let sub = first (is_subscription_of id) store.subscriptions in
      let terms = terms_for w sub now in
      summarize w sub terms (sums_by_kind id (window_of terms.period now) store.usage_events)

  abbrev found : Option Workspace → String → ℕ → Store → Result (BillingSummary × AiBudget)
  found none id now store = fail (not_found "Workspace not found")
  found (some w) id now store = ok (summarize_found id now store w)

  -- resolveWithAiBudget; `resolve` is its first part.
  unfoldable pub load : String → ℕ → Store → Result (BillingSummary × AiBudget)
  load id now store = found (first (is_workspace id) store.workspaces) id now store
