-- ===== src/Billing/Entitlement/Laws.antt =====
-- Properties of the entitlement decision and of its meters.
use native.Mathlib.Nat.{le-div_iff_mul-le}
use mathlib.Core.Path.{subst}
use optra.Prelude.{
  ℕ, zero, suc, ◌*◌, ◌≤◌, ◌<◌, ◌≡◌, ◌↔◌, ◌⊎◌, inl, inr, Option, none, some, String, arith,
  Option-cases, first,
}
use optra.Numbers.{Numbers}
use optra.Http.{ok}
use optra.Billing.Calendar.{current_month_period-contains}
use optra.Billing.Plans.{EnvReader}
use optra.Billing.Store.{is_workspace, is_subscription_of, Workspace, Subscription, Store}
use optra.Billing.Entitlement.{
  exempt, trialing, no_plan, BillingSummary, AiBudget, terms_for, window_of, budget_percent,
  summarize, summarize_found, load,
}

-- The percentage of the AI allowance is at most 100, and 100 exactly at or over the cap.
percent_bounds :
    (spent cap : ℕ)
    → 0 < cap
    → (budget_percent spent cap ≤ 100) × ((budget_percent spent cap ≡ 100) ↔ (cap ≤ spent))
unfolding budget_percent
percent_bounds spent zero h = absurd (omega arith)
percent_bounds spent (suc most) h =
    let iff = le-div_iff_mul-le {k = suc most} {x = 100} {y = 100 * spent} (omega arith) in
    (
      omega arith,
      ((λ e. omega (arith, iff.0 (omega arith))), (λ le. omega (arith, iff.1 (omega arith)))),
    )

module _ (js : Numbers) (env : EnvReader) where
  load_inv :
      (id : String) (now : ℕ) (store : Store) (r : BillingSummary × AiBudget)
      → load js env id now store ≡ ok r
      → (w : Workspace) × (first (is_workspace id) store.workspaces ≡ some w)
        × (summarize_found js env id now store w ≡ r)
  unfolding load
  load_inv id now store r h = elim (Option-cases (first (is_workspace id) store.workspaces)) [
    | inl missing ↦ cc (rw missing at h)
    | inr (w, here) ↦ (w, here, cc (rw here at h))
  ]

  terms_for-end :
      (w : Workspace) (sub : Option Subscription) (now : ℕ)
      → now < (window_of (terms_for js env w sub now).period now).end
  unfolding terms_for window_of
  terms_for-end w sub now = ground (arith, current_month_period-contains now)

  terms_for-start :
      (w : Workspace) (sub : Option Subscription) (now : ℕ)
      → ((terms_for js env w sub now).state ≡ trialing)
        ⊎ ((window_of (terms_for js env w sub now).period now).start ≤ now)
  unfolding terms_for window_of
  terms_for-start w sub now = ground (arith, current_month_period-contains now)

  terms_for_shape :
      (w : Workspace) (sub : Option Subscription) (now : ℕ)
      → let t = terms_for js env w sub now in
        ((t.quotas ≡ none) ↔ (t.state ≡ no_plan))
        × ((t.period ≡ none) ↔ ((t.state ≡ exempt) ⊎ (t.state ≡ no_plan)))
  unfolding terms_for
  terms_for_shape w sub now = ground arith

  module _ (id : String) (now : ℕ) (store : Store) (s : BillingSummary) (ai : AiBudget)
      (loaded : load js env id now store ≡ ok (s, ai)) where
    -- In the summary of a workspace, the window that is metered ends after the instant, and starts
    -- at or before it unless the workspace is on trial.
    load-window :
        (now < (window_of s.period now).end)
        × ((s.state ≡ trialing) ⊎ ((window_of s.period now).start ≤ now))
    unfolding summarize
    load-window =
        let (w, _, e) = load_inv id now store (s, ai) loaded in
        let sub = first (is_subscription_of id) store.subscriptions in
        subst
          (λ r.
            (now < (window_of r.0.period now).end)
            × ((r.0.state ≡ trialing) ⊎ ((window_of r.0.period now).start ≤ now)))
          e (terms_for-end w sub now, terms_for-start w sub now)

    -- In the summary of a workspace, the quotas are null exactly in the state with no plan, and
    -- the period is null exactly in that state and for an exempt workspace.
    load_shape :
        ((s.quotas ≡ none) ↔ (s.state ≡ no_plan))
        × ((s.period ≡ none) ↔ ((s.state ≡ exempt) ⊎ (s.state ≡ no_plan)))
    unfolding summarize
    load_shape =
        let (w, _, e) = load_inv id now store (s, ai) loaded in
        let sub = first (is_subscription_of id) store.subscriptions in
        subst
          (λ r.
            ((r.0.quotas ≡ none) ↔ (r.0.state ≡ no_plan))
            × ((r.0.period ≡ none) ↔ ((r.0.state ≡ exempt) ⊎ (r.0.state ≡ no_plan))))
          e (terms_for_shape w sub now)

    -- In the summary of a workspace with a positive cap, the reported percentage is at most 100,
    -- and is 100 exactly when the spend has reached the cap.
    pub load-percent :
        0 < ai.cap_micro_usd
        → (s.used.ai_budget_percent ≤ 100)
          × ((s.used.ai_budget_percent ≡ 100) ↔ (ai.cap_micro_usd ≤ ai.used_micro_usd))
    unfolding summarize
    load-percent positive =
        let (w, _, e) = load_inv id now store (s, ai) loaded in
        let sub = first (is_subscription_of id) store.subscriptions in
        subst
          (λ r.
            0 < r.1.cap_micro_usd
            → (r.0.used.ai_budget_percent ≤ 100)
              × ((r.0.used.ai_budget_percent ≡ 100) ↔ (r.1.cap_micro_usd ≤ r.1.used_micro_usd)))
          e (percent_bounds _ _) positive
