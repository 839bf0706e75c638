-- ===== src/Billing/Gate/Passed.antt =====
-- What a request for matched lines that the gate lets through has paid (`assertMatchedLines` of
-- apps/api/src/billing/billing-gate.service.ts).
use optra.Prelude.{
  ℕ, ◌+◌, ◌-◌, ◌≤◌, ◌≡◌, refl, ◌≢◌, ◌⊎◌, inl, inr, true, false, Option, none, some, any, arith, leb,
  Bool-cases, and_then,
}
use optra.Numbers.{Numbers}
use optra.Http.{BillingQuota, matched_lines, ok}
use optra.Billing.Plans.{EnvReader}
use optra.Billing.Ledger.{
  ReserveResult, charged, over, matched_line, used, has_key, pair_key, PairInput, Ledger, passes,
  insert_event, counted_lines, reserve_pair_lines,
}
use optra.Billing.Ledger.Laws.{reserve_pair_lines-settles, reserve_pair_lines-within}
use optra.Billing.Store.{Store}
use optra.Billing.Entitlement.{
  BillingState, exempt, subscribed, trialing, no_plan, BillingSummary, AiBudget, enforcement_on,
  window_of, load,
}
use optra.Billing.Gate.{PairCheck, pair_input, or_refuse, charge, has_plan, assert_matched_lines}

-- A pair that is not refused, and whose row would have a new key, is counted for all its lines.
reserve_pair_lines-counted :
    (i : PairInput) (rows : Ledger)
    → any (has_key (pair_key i rows)) rows ≡ false
    → ((reserve_pair_lines i rows).0 ≡ over → ⊥)
    → i.line_count ≤ counted_lines i.workspace_id i.key_prefix (reserve_pair_lines i rows).1
unfolding reserve_pair_lines insert_event
reserve_pair_lines-counted i rows fresh h =
    let counted = counted_lines i.workspace_id i.key_prefix rows in
    elim (Bool-cases (leb i.line_count counted)) [
      | inl y ↦ rw y (ground arith)
      | inr n ↦
          elim (Bool-cases (
            passes i.limit
              (used i.workspace_id matched_line i.window rows + (i.line_count - counted)))) [
                | inl p ↦ elim (h (rw (n, p) refl)) [ ]
                | inr f ↦
                    let done : (reserve_pair_lines i rows).0 ≡ charged = rw (n, f, fresh) refl in
                    omega (arith, (reserve_pair_lines-settles i rows i.window done).0)
              ]
    ]

-- A quota, when there is one.
abbrev pub IsWithin : Option ℕ → ℕ → Type 0
IsWithin none n = Unit
IsWithin (some limit) n = n ≤ limit

IsWithin-limit :
    (i : PairInput) (rows : Ledger) (limit : Option ℕ)
    → i.limit ≡ limit
    → ((reserve_pair_lines i rows).1 ≡ rows)
      ⊎ IsWithin limit (used i.workspace_id matched_line i.window (reserve_pair_lines i rows).1)
IsWithin-limit i rows none _ = inr tt
IsWithin-limit i rows (some limit) h = reserve_pair_lines-within i rows limit h

-- What is let through has a plan, was not over its quota, and left the ledger that the charge left.
passed_step :
    (st : BillingState) (rows : Ledger) (q : BillingQuota) (r : ReserveResult) (after : Ledger)
    → (or_refuse (has_plan st) rows (charge q (r, after))).0 ≡ ok tt
    → (st ≢ no_plan)
      × (r ≡ over → ⊥)
      × ((or_refuse (has_plan st) rows (charge q (r, after))).1 ≡ after)
passed_step no_plan rows q r after h = cc
passed_step exempt rows q r after h = ((λ e. cc), (λ e. cc (rw e at h)), refl)
passed_step subscribed rows q r after h = ((λ e. cc), (λ e. cc (rw e at h)), refl)
passed_step trialing rows q r after h = ((λ e. cc), (λ e. cc (rw e at h)), refl)

module _ (js : Numbers) (env : EnvReader) where
  -- Under enforcement, when the row that a request for matched lines would write has a new key, a
  -- request that passes comes from a workspace with a plan, its pair is then counted for at least
  -- all the lines that it has, and either they were counted before and nothing was written, or the
  -- usage that it leaves is within the quota, if there is one.
  pub passed_lines-counted :
      (c : PairCheck) (store : Store) (s : BillingSummary) (ai : AiBudget)
      → enforcement_on env ≡ true
      → load js env c.workspace_id c.now store ≡ ok (s, ai)
      → let input =
          pair_input c (and_then s.quotas (λ q. q.matched_lines)) (window_of s.period c.now) in
        any (has_key (pair_key input store.usage_events)) store.usage_events ≡ false
        → (assert_matched_lines js env c store).0 ≡ ok tt
        → (s.state ≢ no_plan)
          × (c.line_count
              ≤ counted_lines c.workspace_id input.key_prefix
                  (assert_matched_lines js env c store).1)
          × (((assert_matched_lines js env c store).1 ≡ store.usage_events)
              ⊎ IsWithin (and_then s.quotas (λ q. q.matched_lines)) (
                  used c.workspace_id matched_line
                    (window_of s.period c.now)
                    (assert_matched_lines js env c store).1))
  unfolding assert_matched_lines
  passed_lines-counted c store s ai on loaded fresh passed =
      let input =
        pair_input c (and_then s.quotas (λ q. q.matched_lines)) (window_of s.period c.now) in
      let (r, after) = reserve_pair_lines input store.usage_events in
      let (planned, fits, same) =
        passed_step s.state store.usage_events matched_lines r after (rw (on, loaded) at passed) in
      rw (on, loaded, same)
        (
          planned,
          reserve_pair_lines-counted input store.usage_events fresh fits,
          IsWithin-limit input store.usage_events input.limit refl,
        )
