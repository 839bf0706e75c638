-- ===== src/Billing/Plans.antt =====
-- Plans, quotas, LS statuses and AI caps (apps/api/src/billing/plans.ts).
use optra.Prelude.{
  ℕ, ◌*◌, Bool, false, ◌&&◌, ◌||◌, Option, none, some, String, ◌==◌, trim, non_empty, if◌then◌else◌,
  ltb, and_then, or_else,
}
use optra.Numbers.{Numbers}

abbrev pub trial_days : ℕ
trial_days = 14

abbrev pub seats_min : ℕ
seats_min = 1

abbrev pub seats_max : ℕ
seats_max = 25

pub data BillingPlan : Type 0 where
  solo team : BillingPlan

pub record PlanQuota : Type 0 where
  pub matched_lines : ℕ
  pub photo_checks : ℕ

unfoldable pub quotas_for : BillingPlan → ℕ → PlanQuota
quotas_for team seats = record { matched_lines = 2000 * seats; photo_checks = 300 * seats }
quotas_for solo seats = record { matched_lines = 400; photo_checks = 100 }

-- `env.get(key)`; undefined is `none`.
abbrev pub EnvReader : Type 0
EnvReader = String → Option String

abbrev variant_env : BillingPlan → String
variant_env solo = "LEMONSQUEEZY_VARIANT_SOLO"
variant_env team = "LEMONSQUEEZY_VARIANT_TEAM"

unfoldable pub variant_id_for : BillingPlan → EnvReader → Option String
unfolding trim
variant_id_for plan env = and_then (env (variant_env plan)) (λ value. non_empty (trim value))

abbrev is_text : Option String → String → Bool
is_text none id = false
is_text (some v) id = v == id

-- The argument is the text of the variant id, `none` for null or undefined.
unfoldable pub plan_for_variant : Option String → EnvReader → Option BillingPlan
plan_for_variant variant env = and_then (and_then variant non_empty) (λ id.
    if is_text (variant_id_for solo env) id
    then some solo
    else if is_text (variant_id_for team env) id
    then some team
    else none)

abbrev entitled_status : String → Bool
entitled_status status = status == "active" || status == "past_due" || status == "on_trial"

abbrev before : ℕ → Option ℕ → Bool
before now none = false
before now (some ends) = ltb now ends

-- past_due stays entitled; cancelled is a grace period until `ends_at`.
unfoldable pub is_entitled_status : String → Option ℕ → ℕ → Bool
is_entitled_status status ends_at now =
    entitled_status status || (status == "cancelled" && before now ends_at)

pub data AiCapKind : Type 0 where
  trial solo team exempt : AiCapKind

abbrev ai_cap_default_usd : AiCapKind → ℕ
ai_cap_default_usd AiCapKind.trial = 4
ai_cap_default_usd AiCapKind.solo = 6
ai_cap_default_usd AiCapKind.team = 15
ai_cap_default_usd AiCapKind.exempt = 25

abbrev ai_cap_env : AiCapKind → String
ai_cap_env AiCapKind.trial = "BILLING_AI_CAP_TRIAL_USD"
ai_cap_env AiCapKind.solo = "BILLING_AI_CAP_SOLO_USD"
ai_cap_env AiCapKind.team = "BILLING_AI_CAP_TEAM_SEAT_USD"
ai_cap_env AiCapKind.exempt = "BILLING_AI_CAP_EXEMPT_USD"

abbrev per_seat : AiCapKind → ℕ → ℕ
per_seat AiCapKind.team seats = seats
per_seat _ seats = 1

abbrev pub cap_kind : BillingPlan → AiCapKind
cap_kind BillingPlan.solo = AiCapKind.solo
cap_kind BillingPlan.team = AiCapKind.team

module _ (js : Numbers) where
  open js use {Double, number, is_finite, is_positive, micros}

  -- `Math.round(usd * 1_000_000)` of a stated cap; a blank, zero, negative or non-numeric value is
  -- no stated cap.
  abbrev stated_micros : Option String → Option ℕ
  stated_micros none = none
  stated_micros (some text) =
      let raw = number (trim text) in
      if is_finite raw && is_positive raw then some (micros raw) else none

  -- The monthly AI cost cap in micro-USD.
  unfoldable pub ai_cap_micro_usd : AiCapKind → ℕ → EnvReader → ℕ
  ai_cap_micro_usd kind seats env =
      or_else (stated_micros (env (ai_cap_env kind))) (ai_cap_default_usd kind * 1_000_000)
      * per_seat kind seats
