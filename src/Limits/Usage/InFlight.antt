-- ===== src/Limits/Usage/InFlight.antt =====
-- Model calls that overlap (`metered` of apps/api/src/limits/usage.service.ts): each is checked when
-- it begins and charged when it ends, and others begin and end in between. A check is one step, and so
-- are the two writes of a charge: only its increment touches the counters, and only the check reads
-- them.
pub mod Bound
use optra.Prelude.{
  ℕ, zero, suc, ◌+◌, ◌*◌, ◌≤◌, ◌≡◌, max, inl, inr, refl, sym, Bool, true, false, not, ◌&&◌, Option,
  none, some, List, [], ◌∷◌, String, ◌==◌, eq_iff, All, eqb, leb, Bool-cases, Option-cases,
  if◌then◌else◌, arith,
}
use native.Mathlib.Nat.{mul-le-mul_right}
use optra.Numbers.{Numbers}
use optra.Http.{Result, ok, fail, Result-cases}
use optra.Billing.Plans.{EnvReader}
use optra.Billing.Gate.{assert_ai_budget}
use optra.Ai.Tokens.{TokenMeter}
use optra.Limits.Rate.{get}
use optra.Limits.Usage.{
  Moment, Call, State, month_key, assert_tokens, assert_within_budget, record_ledger, charge,
  admitted,
}
use optra.Limits.Usage.Laws.{get-incr_by}

-- A call that was let through and has not ended.
pub record Running : Type 0 where
  pub ledger_only : Bool
  pub workspace_id : String

pub record Service : Type 0 where
  pub state : State
  pub running : List Running

-- A call begins; or the running call at this place ends at this moment, with this meter.
pub data Event : Type 0 where
  begins : Bool → Call → Event
  ends : ℕ → Moment → TokenMeter → Event

-- The running call at a place, and the others.
unfoldable pub take_out : ℕ → List Running → Option (Running × List Running)
take_out n [] = none
take_out zero (r ∷ rs) = some (r, rs)
take_out (suc n) (r ∷ rs) = elim (take_out n rs) [
  | none ↦ none
  | some (taken, rest) ↦ some (taken, r ∷ rest)
]

abbrev pub let_through : Bool → Call → Service → Result (Unit {0}) → Service
let_through ledger_only call s (fail e) = s
let_through ledger_only call s (ok _) = record s {
  running = record { ledger_only = ledger_only; workspace_id = call.workspace_id } ∷ s.running;
}

-- A running call that will be charged under this key in this month.
abbrev pub is_under : String → String → Running → Bool
is_under key month r = not r.ledger_only && (month_key r.workspace_id month == key)

unfoldable pub in_flight : String → String → List Running → ℕ
in_flight key month [] = 0
in_flight key month (r ∷ rs) = (if is_under key month r then 1 else 0) + in_flight key month rs

-- What happens in this month, while Redis answers the checks; no call spends more than `most`.
abbrev pub IsModest : String → ℕ → Event → Type 0
IsModest month most (begins ledger_only call) = (call.at.month ≡ month) × (call.at.redis_up ≡ true)
IsModest month most (ends place at m) = (at.month ≡ month) × (m.used ≤ most)

module _ (js : Numbers) (env : EnvReader) (b : ℕ) (cost : String → ℕ → ℕ → ℕ) where
  abbrev pub end_taken : Moment → TokenMeter → Service → Option (Running × List Running) → Service
  end_taken at m s none = s
  end_taken at m s (some (r, rest)) = record {
    state =
        charge js env (some b) cost r.ledger_only
          (record { workspace_id = r.workspace_id; at = at }) m s.state;
    running = rest;
  }

  unfoldable pub step : Event → Service → Service
  unfolding take_out charge assert_within_budget
  step (begins ledger_only call) s =
      let_through ledger_only call s (admitted js env (some b) cost ledger_only call s.state)
  step (ends place at m) s = end_taken at m s (take_out place s.running)

  unfoldable pub run : List Event → Service → Service
  unfolding step
  run [] s = s
  run (e ∷ rest) s = run rest (step e s)

  -- The most calls that run at once, of those that are charged under a key.
  unfoldable pub peak : String → String → List Event → Service → ℕ
  unfolding in_flight step
  peak key month [] s = in_flight key month s.running
  peak key month (e ∷ rest) s = max (in_flight key month s.running) (peak key month rest (step e s))
