-- ===== src/Tests/Limits.antt =====
-- A user with a limit of two, and a model call of thirty tokens.
use optra.Prelude.{
  ℕ, ◌+◌, ◌*◌, ◌≤◌, ◌≡◌, ◌↔◌, inl, inr, refl, true, false, suc, String, Option, none, some, List,
  [], ◌∷◌, All, any, arith,
}
use optra.Http.{Result, ok}
use optra.Numbers.{Numbers}
use optra.Billing.Plans.{EnvReader}
use optra.Billing.Ledger.{llm_event, has_key}
use optra.Billing.Gate.{assert_ai_budget}
use optra.Billing.Entitlement.{enforcement_on}
use optra.Ai.Tokens.{Report, TokenMeter, new_meter, record_all, input_tokens, output_tokens}
use optra.Ai.Tokens.Totals.{IsCoherent, record_all-balanced}
use optra.Limits.Rate.{Counter, get, check_refine_daily, refine_status}
use optra.Limits.Rate.Laws.{Request, passed, passed-le, passes, refine_status-agrees}
use optra.Limits.Usage.{Moment, Call, State, month_key, metered, admitted, assert_within_budget}
use optra.Limits.Usage.Laws.{row_of, metered-charges}
use optra.Limits.Usage.InFlight.{
  Service, Event, begins, ends, run, step, take_out, in_flight, peak, IsModest,
}
use optra.Limits.Usage.InFlight.Bound.{run-le}

abbrev digits : ℕ → String
digits n = "1"

abbrev ask : Request
ask = record { user_id = "u"; workspace_id = "w"; now = 60000 }

passed-le_example : passed digits 2 (some 9) "rl:user:u:1" (ask ∷ ask ∷ ask ∷ []) [] ≤ 2
passed-le_example = passed-le digits 2 (some 9) "rl:user:u:1" (ask ∷ ask ∷ ask ∷ []) []

abbrev refine_once : Result (Unit {0}) × List Counter
refine_once = check_refine_daily digits (some 1) true "u" "20261126" []

refine_status-agrees_example :
    ((passes refine_once.0 ≡ true)
      ↔ (1 ≤ (refine_status digits 1 true "u" "20261126" []).remaining))
    × ((refine_status digits 1 true "u" "20261126" refine_once.1).used
        ≡ suc (refine_status digits 1 true "u" "20261126" []).used)
refine_status-agrees_example = refine_status-agrees digits 1 "u" "20261126" []

abbrev report : ℕ → ℕ → ℕ → Report
report i o t = record {
  input_tokens = i;
  output_tokens = o;
  total_tokens = t;
  model_name = none;
  model = none;
}

abbrev reports : List (Report × Option String)
reports = (report 20 10 30, some "gpt-4o") ∷ (report 0 0 5, none) ∷ []

reports-IsCoherent : All IsCoherent reports
reports-IsCoherent = (inr (inr refl), (inr (inl refl), tt))

record_all-balanced_example :
    (record_all reports new_meter).used
    ≡ input_tokens (record_all reports new_meter).by_model
      + output_tokens (record_all reports new_meter).by_model
unfolding input_tokens output_tokens
record_all-balanced_example = record_all-balanced reports new_meter reports-IsCoherent refl

abbrev js : Numbers
js = record {
  Double = ℕ;
  number = λ _. 2;
  is_finite = λ _. true;
  is_positive = λ _. true;
  micros = λ n. n;
}

abbrev env : EnvReader
env key = none

abbrev state : State
state = record {
  redis = record { key = "usage:tok:w:202611"; count = 90 } ∷ [];
  store = record { workspaces = []; subscriptions = []; usage_events = []; billing_events = [] };
}

abbrev moment : Moment
moment = record { month = "202611"; now = 1000; redis_up = true; uuid = "x" }

abbrev call : Call
call = record { workspace_id = "w"; at = moment }

-- The next month, in which the call ends.
abbrev later : Moment
later = record { month = "202612"; now = 2000; redis_up = true; uuid = "y" }

abbrev ended : Call
ended = record { workspace_id = "w"; at = later }

abbrev counted : State → State
counted s = record s { redis = record { key = "usage:tok:w:202612"; count = 7 } ∷ s.redis }

abbrev spent : TokenMeter
spent = record { used = 30; by_model = record { name = "gpt-4o"; input = 20; output = 10 } ∷ [] }

abbrev cost : String → ℕ → ℕ → ℕ
cost name i o = i + o

no_rows :
    any (has_key (llm_event (row_of js env (some 100) cost ended spent)).idempotency_key) [] ≡ false
no_rows = refl

admitted_now : admitted js env (some 100) cost false call state ≡ ok tt
unfolding assert_within_budget assert_ai_budget enforcement_on
admitted_now = refl

metered-charges_example :
    ((metered js env (some 100) cost false call later counted (ok tt, spent) state).0 ≡ ok tt)
    × (get
          (month_key "w" "202612")
          (metered js env (some 100) cost false call later counted (ok tt, spent) state).1.redis
        ≡ get (month_key "w" "202612") (counted state).redis + 30)
    × ((metered js env
          (some 100)
          cost
          false
          call
          later
          counted
          (ok tt, spent)
          state).1.store.usage_events
        ≡ llm_event (row_of js env (some 100) cost ended spent) ∷ [])
metered-charges_example =
    metered-charges js env (some 100) cost false call later counted (ok tt) spent state refl no_rows
      admitted_now

-- Two calls that overlap.
abbrev events : List Event
events =
    begins false call
    ∷ begins false call
    ∷ ends 1 moment spent
    ∷ ends 0 moment spent
    ∷ begins false call
    ∷ []

abbrev service : Service
service = record { state = state; running = [] }

events-IsModest : All (IsModest "202611" 30) events
events-IsModest =
    ((refl, refl), ((refl, refl), ((refl, omega arith), ((refl, omega arith), ((refl, refl), tt)))))

two_at_once : peak js env 100 cost "usage:tok:w:202611" "202611" events service ≡ 2
unfolding peak step in_flight take_out assert_within_budget assert_ai_budget enforcement_on
two_at_once = refl

-- The budget of 100 is passed by more than one call's tokens.
overshoot : get "usage:tok:w:202611" (run js env 100 cost events service).state.redis ≡ 150
unfolding run step take_out assert_within_budget assert_ai_budget enforcement_on get
overshoot = refl

ninety-le : get "usage:tok:w:202611" state.redis ≤ 100
unfolding get
ninety-le = omega arith

run-le_example :
    get "usage:tok:w:202611" (run js env 100 cost events service).state.redis
    ≤ 100 + peak js env 100 cost "usage:tok:w:202611" "202611" events service * 30
run-le_example =
    run-le js env 100 cost "usage:tok:w:202611" "202611" 30 events service events-IsModest ninety-le
