-- ===== src/Limits/Usage/InFlight/Bound.antt =====
-- How far the model calls that overlap (`metered` of apps/api/src/limits/usage.service.ts) get past
-- the token budget.
use optra.Prelude.{
  ℕ, zero, suc, ◌+◌, ◌*◌, ◌≤◌, ◌≡◌, inl, inr, refl, sym, Bool, true, false, Option, none, some,
  List, [], ◌∷◌, String, ◌==◌, eq_iff, All, eqb, leb, Bool-cases, Option-cases, if◌then◌else◌,
  arith,
}
use native.Mathlib.Nat.{mul-le-mul_right}
use optra.Numbers.{Numbers}
use optra.Http.{Result, ok, fail, Result-cases}
use optra.Billing.Plans.{EnvReader}
use optra.Billing.Gate.{assert_ai_budget}
use optra.Ai.Tokens.{TokenMeter}
use optra.Limits.Rate.{get}
use optra.Limits.Usage.{
  Moment, Call, State, month_key, assert_tokens, assert_within_budget, record_ledger, charge,
  admitted,
}
use optra.Limits.Usage.Laws.{get-incr_by}
use optra.Limits.Usage.InFlight.{
  Running, Service, Event, begins, ends, take_out, let_through, end_taken, step, run, is_under,
  in_flight, peak, IsModest,
}

module _ (js : Numbers) (env : EnvReader) (b : ℕ) (cost : String → ℕ → ℕ → ℕ) where
  -- What is let through has not reached the budget.
  admitted-below :
      (call : Call) (s : State)
      → call.at.redis_up ≡ true
      → admitted js env (some b) cost false call s ≡ ok tt
      → suc (get (month_key call.workspace_id call.at.month) s.redis) ≤ b
  unfolding assert_within_budget assert_tokens
  admitted-below call s up h =
      elim (Result-cases (assert_ai_budget js env call.workspace_id call.at.now s.store)) [
        | inl (e, f) ↦ cc (rw f at h)
        | inr (u, o) ↦
            elim (Bool-cases (leb b (get (month_key call.workspace_id call.at.month) s.redis))) [
              | inl y ↦ cc (rw (o, up, y) at h)
              | inr n ↦ ground arith
            ]
      ]

  in_flight-take_out :
      (key month : String) (place : ℕ) (running rest : List Running) (r : Running)
      → take_out place running ≡ some (r, rest)
      → in_flight key month running
        ≡ (if is_under key month r then 1 else 0) + in_flight key month rest
  unfolding take_out in_flight
  in_flight-take_out key month place [] rest r h = cc
  in_flight-take_out key month zero (q ∷ qs) rest r h = ground arith
  in_flight-take_out key month (suc n) (q ∷ qs) rest r h = elim (Option-cases (take_out n qs)) [
    | inl e ↦ cc (rw e at h)
    | inr ((taken, others), e) ↦
        let ih = in_flight-take_out key month n qs others taken e in
        let stepped : some (taken, q ∷ others) ≡ some (r, rest) = rw e at h in
        let own : taken ≡ r = cc stepped in
        let left : q ∷ others ≡ rest = cc stepped in rw (sym own, sym left) (omega (arith, ih))
  ]

  -- A charge adds at most its tokens, and only to the key of its workspace and month.
  charge-le :
      (key month : String) (r : Running) (at : Moment) (m : TokenMeter) (s : State) (most : ℕ)
      → at.month ≡ month
      → m.used ≤ most
      → get key
          (charge js env
            (some b)
            cost
            r.ledger_only
            (record { workspace_id = r.workspace_id; at = at })
            m
            s).redis
        ≤ get key s.redis + (if is_under key month r then 1 else 0) * most
  unfolding charge record_ledger
  charge-le key month r at m s most same modest = elim (Bool-cases (eqb m.used 0)) [
    | inl y ↦ rw y (omega arith)
    | inr n ↦ elim (Bool-cases r.ledger_only) [
      | inl only ↦ rw (n, only) (omega arith)
      | inr both ↦ elim (Bool-cases at.redis_up) [
        | inr down ↦ rw (n, both, down) (omega arith)
        | inl up ↦
            let grown = get-incr_by key (month_key r.workspace_id month) m.used s.redis in
            elim (Bool-cases (month_key r.workspace_id month == key)) [
              | inl own ↦ rw (n, both, up, same, own) (omega (arith, rw own at grown))
              | inr other ↦ rw (n, both, up, same, other) (omega (arith, rw other at grown))
            ]
      ]
    ]
  ]

  IsWithin : String → String → ℕ → ℕ → Service → Type 0
  IsWithin key month k most s =
      get key s.state.redis + in_flight key month s.running * most ≤ b + k * most

  let_through-IsWithin :
      (key month : String) (k most : ℕ) (ledger_only : Bool) (call : Call) (s : Service)
      (a : Result (Unit {0}))
      → admitted js env (some b) cost ledger_only call s.state ≡ a
      → call.at.month ≡ month
      → call.at.redis_up ≡ true
      → in_flight key month (let_through ledger_only call s a).running ≤ k
      → IsWithin key month k most s
      → IsWithin key month k most (let_through ledger_only call s a)
  unfolding IsWithin in_flight
  let_through-IsWithin key month k most ledger_only call s (fail e) _ same up room h = h
  let_through-IsWithin key month k most true call s (ok u) _ same up room h = omega (arith, h)
  let_through-IsWithin key month k most false call s (ok u) o same up room h =
      let below = admitted-below call s.state up o in
      elim (Bool-cases (month_key call.workspace_id month == key)) [
        | inr other ↦ rw other (omega (arith, h))
        | inl own ↦
            let fuller =
              mul-le-mul_right {m = 1 + in_flight key month s.running} {n = k} most
                (rw own at room) in
            let less : suc (get key s.state.redis) ≤ b =
              rw ((eq_iff _ key).0 own) at (rw same at below) in
            rw own (omega (arith, fuller, less))
      ]

  end_taken-IsWithin :
      (key month : String) (k most : ℕ) (at : Moment) (m : TokenMeter) (s : Service)
      (o : Option (Running × List Running)) (place : ℕ)
      → take_out place s.running ≡ o
      → at.month ≡ month
      → m.used ≤ most
      → IsWithin key month k most s
      → IsWithin key month k most (end_taken js env b cost at m s o)
  unfolding IsWithin
  end_taken-IsWithin key month k most at m s none place _ same modest h = h
  end_taken-IsWithin key month k most at m s (some (r, rest)) place e same modest h =
      let split = in_flight-take_out key month place s.running rest r e in
      let added = charge-le key month r at m s.state most same modest in
      omega (arith, added, rw split at h)

  step-IsWithin :
      (key month : String) (k most : ℕ) (e : Event) (s : Service)
      → IsModest month most e
      → in_flight key month (step js env b cost e s).running ≤ k
      → IsWithin key month k most s
      → IsWithin key month k most (step js env b cost e s)
  unfolding step
  step-IsWithin key month k most (begins ledger_only call) s (same, up) room h =
      let_through-IsWithin key month k most ledger_only call s _ refl same up room h
  step-IsWithin key month k most (ends place at m) s (same, modest) room h =
      end_taken-IsWithin key month k most at m s _ place refl same modest h

  in_flight-peak :
      (key month : String) (events : List Event) (s : Service)
      → in_flight key month s.running ≤ peak js env b cost key month events s
  unfolding peak
  in_flight-peak key month [] s = omega arith
  in_flight-peak key month (e ∷ rest) s = omega arith

  run-IsWithin :
      (key month : String) (k most : ℕ) (events : List Event) (s : Service)
      → All (IsModest month most) events
      → peak js env b cost key month events s ≤ k
      → IsWithin key month k most s
      → IsWithin key month k most (run js env b cost events s)
  unfolding run peak
  run-IsWithin key month k most [] s _ _ h = h
  run-IsWithin key month k most (e ∷ rest) s (modest, more) room h =
      run-IsWithin key month k most rest (step js env b cost e s) more (omega arith) (
        step-IsWithin key month k most e s modest
          (omega (arith, in_flight-peak key month rest (step js env b cost e s))) h)

  -- However metered calls overlap within a month, of any workspaces, whether they return or throw,
  -- and whichever began before it: when Redis answers their checks and no call spends more than
  -- `most` tokens, the tokens that a workspace is charged in the month pass its budget by at most
  -- `most` for each of its calls that run at once at the peak, if they did not pass it before.
  pub run-le :
      (key month : String) (most : ℕ) (events : List Event) (s : Service)
      → All (IsModest month most) events
      → get key s.state.redis ≤ b
      → get key (run js env b cost events s).state.redis
        ≤ b + peak js env b cost key month events s * most
  unfolding IsWithin
  run-le key month most events s modest h = omega (
    arith,
    run-IsWithin key month (peak js env b cost key month events s) most events s modest
        (omega arith)
        (omega (
          arith,
          mul-le-mul_right {m = in_flight key month s.running}
              {n = peak js env b cost key month events s} most (in_flight-peak key month events s),
        )),
  )
