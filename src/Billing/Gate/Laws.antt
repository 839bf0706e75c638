-- ===== src/Billing/Gate/Laws.antt =====
-- What passing the gate, or being refused by it, guarantees.
use optra.Prelude.{
  ℕ, ◌≤◌, ◌<◌, ◌↔◌, ◌≡◌, refl, ◌≢◌, ◌⊎◌, inl, inr, true, false, some, String, arith, leb,
  Bool-cases, and_then,
}
use optra.Numbers.{Numbers}
use optra.Http.{
  ◌>>=◌, BillingQuota, photo_checks, Result, ok, fail, HttpError, billing_stop, ai_budget_exceeded,
}
use optra.Billing.Plans.{EnvReader}
use optra.Billing.Ledger.{ReserveResult, photo_check, used, Ledger, reserve}
use optra.Billing.Ledger.Laws.{reserve-within, reserve_pair_lines_unchanged}
use optra.Billing.Store.{Store}
use optra.Billing.Entitlement.{
  BillingState, exempt, subscribed, trialing, no_plan, BillingSummary, AiBudget, enforcement_on,
  window_of, load,
}
use optra.Billing.Entitlement.Laws.{load-percent}
use optra.Billing.Gate.{
  PairCheck, pair_input, photo_input, enforced_lines, or_refuse, charge, has_plan, within_cap,
  assert_ai_budget, assert_matched_lines, assert_photo_check,
}

module _ (js : Numbers) (env : EnvReader) where
  -- With enforcement off nothing is refused.
  pub off-never_refuses :
      (c : PairCheck) (workspace_id uuid : String) (now : ℕ) (store : Store)
      → enforcement_on env ≡ false
      → (assert_ai_budget js env workspace_id now store ≡ ok tt)
        × ((assert_matched_lines js env c store).0 ≡ ok tt)
        × ((assert_photo_check js env workspace_id uuid now store).0 ≡ ok tt)
  unfolding assert_ai_budget assert_matched_lines assert_photo_check
  off-never_refuses c workspace_id uuid now store off = rw off (refl, refl, refl)

  lines_refused :
      (c : PairCheck) (rows : Ledger) (l : Result (BillingSummary × AiBudget)) (e : HttpError)
      → (enforced_lines js env c rows l).0 ≡ fail e
      → (enforced_lines js env c rows l).1 ≡ rows
  lines_refused c rows (fail _) e h = refl
  lines_refused c rows (ok (s, ai)) e h = ground (
    arith,
    reserve_pair_lines_unchanged
        (pair_input c (and_then s.quotas (λ q. q.matched_lines)) (window_of s.period c.now)) rows,
  )

  -- A request for matched lines that is refused leaves the ledger as it was.
  pub refused_lines-unchanged :
      (c : PairCheck) (store : Store) (e : HttpError)
      → (assert_matched_lines js env c store).0 ≡ fail e
      → (assert_matched_lines js env c store).1 ≡ store.usage_events
  unfolding assert_matched_lines
  refused_lines-unchanged c store e h = elim (Bool-cases (enforcement_on env)) [
    | inl on ↦
        rw on (
          lines_refused c store.usage_events (load js env c.workspace_id c.now store) e
            (rw on at h))
    | inr off ↦ cc (rw off at h)
  ]

  capped_step :
      (ai : AiBudget) (rows : Ledger) (q : BillingQuota) (r : ReserveResult × Ledger)
      (P : Ledger → Type 0)
      → P r.1
      → (or_refuse (within_cap ai) rows (charge q r)).0 ≡ ok tt
      → (ai.used_micro_usd < ai.cap_micro_usd) × P (or_refuse (within_cap ai) rows (charge q r)).1
  capped_step ai rows q r P p h = elim (Bool-cases (leb ai.cap_micro_usd ai.used_micro_usd)) [
    | inl spent ↦ cc (rw spent at h)
    | inr room ↦ rw room (ground arith, p)
  ]

  photo_step :
      (st : BillingState) (ai : AiBudget) (rows : Ledger) (q : BillingQuota)
      (r : ReserveResult × Ledger) (P : Ledger → Type 0)
      → P r.1
      → (or_refuse (has_plan st >>= λ _. within_cap ai) rows (charge q r)).0 ≡ ok tt
      → (st ≢ no_plan)
        × (ai.used_micro_usd < ai.cap_micro_usd)
        × P (or_refuse (has_plan st >>= λ _. within_cap ai) rows (charge q r)).1
  photo_step no_plan ai rows q r P p h = cc
  photo_step exempt ai rows q r P p h =
      let (room, done) = capped_step ai rows q r P p h in ((λ e. cc), room, done)
  photo_step subscribed ai rows q r P p h =
      let (room, done) = capped_step ai rows q r P p h in ((λ e. cc), room, done)
  photo_step trialing ai rows q r P p h =
      let (room, done) = capped_step ai rows q r P p h in ((λ e. cc), room, done)

  -- Under enforcement and a quota, a passed photo check comes from a workspace with a plan that
  -- has spent less than its AI cap, and either it wrote nothing or the photo checks that it leaves
  -- are within the quota.
  passed_photo-le :
      (workspace_id uuid : String) (now : ℕ) (store : Store) (s : BillingSummary) (ai : AiBudget)
      (limit : ℕ)
      → enforcement_on env ≡ true
      → load js env workspace_id now store ≡ ok (s, ai)
      → and_then s.quotas (λ q. q.photo_checks) ≡ some limit
      → (assert_photo_check js env workspace_id uuid now store).0 ≡ ok tt
      → (s.state ≢ no_plan)
        × (ai.used_micro_usd < ai.cap_micro_usd)
        × (((assert_photo_check js env workspace_id uuid now store).1 ≡ store.usage_events)
            ⊎ (used workspace_id photo_check
                  (window_of s.period now)
                  (assert_photo_check js env workspace_id uuid now store).1
                ≤ limit))
  unfolding assert_photo_check
  passed_photo-le workspace_id uuid now store s ai limit on loaded quota passed =
      let input =
        photo_input workspace_id uuid (and_then s.quotas (λ q. q.photo_checks))
          (window_of s.period now) now in
      rw (on, loaded)
        (photo_step s.state ai store.usage_events photo_checks (reserve input store.usage_events)
          (λ rows.
            (rows ≡ store.usage_events)
            ⊎ (used workspace_id photo_check (window_of s.period now) rows ≤ limit))
          (reserve-within input store.usage_events limit quota) (rw (on, loaded) at passed))

  -- Under enforcement and with a positive cap, the AI gate refuses for the budget exactly when the
  -- summary of a workspace with a plan reports 100 percent.
  assert_ai_budget-percent :
      (workspace_id : String) (now : ℕ) (store : Store) (s : BillingSummary) (ai : AiBudget)
      → enforcement_on env ≡ true
      → load js env workspace_id now store ≡ ok (s, ai)
      → s.state ≢ no_plan
      → 0 < ai.cap_micro_usd
      → (assert_ai_budget js env workspace_id now store ≡ fail (billing_stop ai_budget_exceeded))
        ↔ (s.used.ai_budget_percent ≡ 100)
  unfolding assert_ai_budget
  assert_ai_budget-percent workspace_id now store s ai on loaded planned positive =
      let (_, iff) = load-percent js env workspace_id now store s ai loaded positive in
      rw (on, loaded) (ground (arith, iff))
