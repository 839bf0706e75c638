-- ===== src/Tests/Billing.antt =====
-- The entitlement and the gate of a workspace with a solo plan.
use optra.Prelude.{
  ℕ, Bool, ◌≤◌, ◌<◌, ◌≡◌, ◌≢◌, ◌⊎◌, refl, none, some, true, false, List, [], ◌∷◌, ◌==◌,
  if◌then◌else◌, and_then, any, arith,
}
use optra.Numbers.{Numbers}
use optra.Http.{ok, fail, billing_stop, subscription_required}
use optra.Billing.Plans.{EnvReader, solo, is_entitled_status, quotas_for, ai_cap_micro_usd}
use optra.Billing.Ledger.{
  PairInput, has_key, pair_key, counted_lines, UsageEvent, llm_cost, matched_line, used, reserve,
  reserve_pair_lines, insert_event, sums_by_kind,
}
use optra.Billing.Store.{Workspace, Subscription, Store}
use optra.Billing.Entitlement.{
  no_plan, BillingSummary, AiBudget, enforcement_on, window_of, load, summarize_found, summarize,
  terms_for,
}
use optra.Billing.Gate.{
  PairCheck, pair_input, pair_key_prefix, assert_matched_lines, assert_photo_check,
}
use optra.Billing.Gate.Passed.{IsWithin, passed_lines-counted}

-- Numbers as natural numbers: every text is the number 2.
abbrev js : Numbers
js = record {
  Double = ℕ;
  number = λ _. 2;
  is_finite = λ _. true;
  is_positive = λ _. true;
  micros = λ n. n;
}

abbrev env : EnvReader
env key = if key == "BILLING_ENFORCEMENT" then some "on" else none

abbrev now : ℕ
now = 1700000000000

abbrev spend : UsageEvent
spend = record {
  workspace_id = "w";
  kind = llm_cost;
  quantity = 6000000;
  input_tokens = none;
  output_tokens = none;
  model = none;
  idempotency_key = "llm:1";
  occurred_at = 1700000000000;
}

abbrev solo_row : Subscription
solo_row = record {
  workspace_id = "w";
  ls_subscription_id = "s1";
  ls_customer_id = "c1";
  ls_variant_id = "v1";
  plan = solo;
  status = "active";
  seats = 1;
  renews_at = none;
  ends_at = none;
  ls_updated_at = 5;
  updated_at = 5;
}

abbrev with_row : Bool → List UsageEvent → Store
with_row is_exempt events = record {
  workspaces = record { id = "w"; trial_ends_at = none; billing_exempt = is_exempt } ∷ [];
  subscriptions = solo_row ∷ [];
  usage_events = events;
  billing_events = [];
}

abbrev spent_store : Store
spent_store = with_row false (spend ∷ [])

abbrev paid_store : Store
paid_store = with_row false []

abbrev exempt_store : Store
exempt_store = with_row true []

abbrev no_store : Store
no_store = record {
  workspaces = record { id = "w"; trial_ends_at = none; billing_exempt = false } ∷ [];
  subscriptions = [];
  usage_events = [];
  billing_events = [];
}

abbrev workspace : Bool → Workspace
workspace is_exempt = record { id = "w"; trial_ends_at = none; billing_exempt = is_exempt }

abbrev spent : BillingSummary × AiBudget
spent = summarize_found js env "w" now spent_store (workspace false)

abbrev paid : BillingSummary × AiBudget
paid = summarize_found js env "w" now paid_store (workspace false)

abbrev exempted : BillingSummary × AiBudget
exempted = summarize_found js env "w" now exempt_store (workspace true)

spent_loaded : load js env "w" now spent_store ≡ ok (spent.0, spent.1)
unfolding load
spent_loaded = refl

paid_loaded : load js env "w" now paid_store ≡ ok (paid.0, paid.1)
unfolding load
paid_loaded = refl

exempt_loaded : load js env "w" now exempt_store ≡ ok (exempted.0, exempted.1)
unfolding load
exempt_loaded = refl

enforced : enforcement_on env ≡ true
unfolding enforcement_on
enforced = refl

spent_planned : spent.0.state ≢ no_plan
unfolding summarize terms_for is_entitled_status
spent_planned = λ e. cc e

spent_cap : 0 < spent.1.cap_micro_usd
unfolding summarize terms_for is_entitled_status ai_cap_micro_usd
spent_cap = omega arith

abbrev check : PairCheck
check = record {
  workspace_id = "w";
  purchase_order_id = "po";
  invoice_id = "inv";
  line_count = 40;
  now = 1700000000000;
  uuid = "u1";
}

paid_lines : and_then paid.0.quotas (λ q. q.matched_lines) ≡ some 400
unfolding summarize terms_for is_entitled_status quotas_for
paid_lines = refl

paid_photos : and_then paid.0.quotas (λ q. q.photo_checks) ≡ some 100
unfolding summarize terms_for is_entitled_status quotas_for
paid_photos = refl

lines_passed : (assert_matched_lines js env check paid_store).0 ≡ ok tt
unfolding assert_matched_lines enforcement_on load summarize terms_for is_entitled_status quotas_for
    window_of reserve_pair_lines insert_event pair_key_prefix
lines_passed = refl

photo_passed : (assert_photo_check js env "w" "u1" now paid_store).0 ≡ ok tt
unfolding assert_photo_check enforcement_on load summarize terms_for is_entitled_status quotas_for
    window_of reserve insert_event ai_cap_micro_usd sums_by_kind
photo_passed = refl

abbrev paid_input : PairInput
paid_input = pair_input check (some 400) (window_of paid.0.period now)

new_pair :
    any (has_key (pair_key paid_input paid_store.usage_events)) paid_store.usage_events ≡ false
unfolding window_of pair_key_prefix
new_pair = refl

passed_lines-counted_example :
    (paid.0.state ≢ no_plan)
    × (40
        ≤ counted_lines "w" paid_input.key_prefix (assert_matched_lines js env check paid_store).1)
    × (((assert_matched_lines js env check paid_store).1 ≡ [])
        ⊎ IsWithin (and_then paid.0.quotas (λ q. q.matched_lines)) (
            used "w" matched_line
              (window_of paid.0.period now)
              (assert_matched_lines js env check paid_store).1))
passed_lines-counted_example =
    passed_lines-counted js env check paid_store paid.0 paid.1 enforced paid_loaded new_pair
      lines_passed

lines_refused :
    (assert_matched_lines js env check no_store).0 ≡ fail (billing_stop subscription_required)
unfolding assert_matched_lines enforcement_on load summarize terms_for
lines_refused = refl
