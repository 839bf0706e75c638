-- ===== src/Procurement/Compare/Laws.antt =====
-- What a comparison leaves behind, by how it ends.
use optra.Prelude.{
  ℕ, Bool, true, false, List, [], ◌∷◌, ◌++◌, String, ◌==◌, eq_refl, ◌&&◌, eqb, any, update, length,
  ◌≡◌, refl, ap, arith, Option,
}
use optra.Numbers.{Numbers}
use optra.Http.{HttpError, Result, ok, fail}
use optra.Billing.Plans.{EnvReader}
use optra.Billing.Ledger.{Ledger}
use optra.Billing.Gate.{assert_matched_lines}
use optra.Billing.Gate.Laws.{refused_lines-unchanged}
use optra.Procurement.Engine.{Engine}
use optra.Procurement.Contract.{ContractFlag, contract_price_flags}
use optra.Procurement.Compare.{
  Documents, Prepared, Run, succeeded, failed, State, Outcome, refused, broken, finished, prepare,
  run_engine, gated, check_of, after_prepare, order_of, compare, findings, new_run, has_run_id,
}

abbrev is_failed : Run → Bool
is_failed r = elim r.status [ failed ↦ true | _ ↦ false ]

abbrev is_succeeded : Run → Bool
is_succeeded r = elim r.status [ succeeded ↦ true | _ ↦ false ]

-- What the state after a comparison is against the one before, by the outcome.
abbrev pub IsConsistent : String → State → State → Outcome → Type 0
IsConsistent run_id before after (refused err) =
    (after.runs ≡ before.runs)
    × (after.flags ≡ before.flags)
    × (after.billing.usage_events ≡ before.billing.usage_events)
IsConsistent run_id before after broken =
    (after.flags ≡ before.flags) × (any (λ r. r.id == run_id && is_failed r) after.runs ≡ true)
IsConsistent run_id before after (finished found) =
    (after.flags ≡ before.flags ++ found)
    × (any (λ r. r.id == run_id && is_succeeded r && eqb r.flag_count (length found)) after.runs
        ≡ true)

any-update_last :
    (p q : Run → Bool) (f : Run → Run) (rows : List Run) (x : Run)
    → q x ≡ true
    → p (f x) ≡ true
    → any p (update q f (rows ++ x ∷ [])) ≡ true
any-update_last p q f [] x picked holds = rw (picked, holds) refl
any-update_last p q f (r ∷ rs) x picked holds =
    let rest = any-update_last p q f rs x picked holds in ground (arith, rest)

module _ (e : Engine) (workspace_id run_id : String) where
  run_engine-IsConsistent :
      (engine_works : Bool) (p : Prepared) (c : List ContractFlag × Option ℕ) (before state : State)
      → state.flags ≡ before.flags
      → IsConsistent run_id before
          (run_engine e workspace_id run_id engine_works p c state).0
          (run_engine e workspace_id run_id engine_works p c state).1
  run_engine-IsConsistent false p c before state same = (
    same,
    any-update_last (λ r. r.id == run_id && is_failed r) (has_run_id e workspace_id run_id)
        (λ r. record r { status = failed }) state.runs (new_run e workspace_id run_id p c.1)
        (eq_refl run_id) (rw (eq_refl run_id) refl),
  )
  run_engine-IsConsistent true p c before state same =
      let found = findings e workspace_id run_id p c.0 in
      (
        ap (λ fs. fs ++ found) same,
        any-update_last (λ r. r.id == run_id && is_succeeded r && eqb r.flag_count (length found))
            (has_run_id e workspace_id run_id)
            (λ r. record r { status = succeeded; flag_count = length found }) state.runs
            (new_run e workspace_id run_id p c.1) (eq_refl run_id)
            (rw (eq_refl run_id) (ground arith)),
      )

  gated-IsConsistent :
      (engine_works : Bool) (p : Prepared) (c : List ContractFlag × Option ℕ) (state : State)
      (r : Result (Unit {0})) (ledger : Ledger)
      → ((err : HttpError) → r ≡ fail err → ledger ≡ state.billing.usage_events)
      → IsConsistent run_id state
          (gated e workspace_id run_id engine_works p c state (r, ledger)).0
          (gated e workspace_id run_id engine_works p c state (r, ledger)).1
  gated-IsConsistent engine_works p c state (fail err) ledger kept = (refl, refl, kept err refl)
  gated-IsConsistent engine_works p c state (ok u) ledger kept =
      run_engine-IsConsistent engine_works p c state
        (record state { billing = record state.billing { usage_events = ledger } }) refl

  module _ (js : Numbers) (env : EnvReader) (now : ℕ) (uuid : String) (engine_works : Bool) where
    prepared-IsConsistent :
        (docs : Documents) (state : State) (r : Result Prepared)
        → IsConsistent run_id state
            (after_prepare e workspace_id run_id js env now uuid engine_works docs state r).0
            (after_prepare e workspace_id run_id js env now uuid engine_works docs state r).1
    prepared-IsConsistent docs state (fail err) = (refl, refl, refl)
    prepared-IsConsistent docs state (ok p) =
        let c = check_of e workspace_id run_id now uuid p in
        let answer = assert_matched_lines js env c state.billing in
        gated-IsConsistent engine_works p
          (contract_price_flags e workspace_id (order_of e workspace_id run_id p.po) p.po_items
            docs.terms)
          state answer.0 answer.1 (λ err h. refused_lines-unchanged js env c state.billing err h)

    -- A comparison that is refused, by a check of the documents or by the billing gate, records no
    -- run, writes no flag and charges nothing. One whose engine fails leaves the flags as they were
    -- and its run marked failed. One that finishes adds its findings after the flags that were there,
    -- removes none, and leaves its run marked succeeded with the number of its findings.
    pub compare-IsConsistent :
        (po_id invoice_id : String) (docs : Documents) (state : State)
        → IsConsistent run_id state
            (compare e workspace_id run_id js env now uuid engine_works po_id invoice_id docs
              state).0
            (compare e workspace_id run_id js env now uuid engine_works po_id invoice_id docs
              state).1
    unfolding compare
    compare-IsConsistent po_id invoice_id docs state =
        prepared-IsConsistent docs state (prepare workspace_id po_id invoice_id docs)
