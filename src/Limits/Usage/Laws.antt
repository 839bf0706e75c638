-- ===== src/Limits/Usage/Laws.antt =====
-- What a model call is charged.
use optra.Prelude.{
  ℕ, ◌+◌, ◌≡◌, inl, inr, refl, Bool, true, false, Option, List, [], ◌∷◌, ◌++◌, String, ◌==◌, eq_iff,
  eq_refl, any, eqb, Bool-cases, if◌then◌else◌, arith,
}
use optra.Numbers.{Numbers}
use optra.Http.{Result, ok}
use optra.Billing.Plans.{EnvReader}
use optra.Billing.Gate.{record_cost}
use optra.Billing.Ledger.{LlmInput, llm_event, has_key, record_llm_cost}
use optra.Ai.Tokens.{TokenMeter}
use optra.Limits.Rate.{Counter, get}
use optra.Limits.Usage.{
  Moment, Call, State, incr_by, month_key, summary, record_ledger, charge, admitted, metered,
}

pub get-incr_by :
    (key other : String) (n : ℕ) (redis : List Counter)
    → get key (incr_by other n redis) ≡ get key redis + (if other == key then n else 0)
unfolding get incr_by
get-incr_by key other n [] = ground arith
get-incr_by key other n (c ∷ cs) = elim (Bool-cases (c.key == other)) [
  | inr m ↦ elim (Bool-cases (c.key == key)) [
    | inl y ↦
        let differ : (other == key) ≡ false = other-key c.key key other y m in
        rw (m, y, differ) (omega arith)
    | inr o ↦ rw (m, o) (get-incr_by key other n cs)
  ]
  | inl y ↦ elim (Bool-cases (other == key)) [
    | inl e ↦
        let same = (eq_iff c.key other).0 y in
        let found : (c.key == key) ≡ true = rw same e in rw (y, found, e) refl
    | inr d ↦
        let same = (eq_iff c.key other).0 y in
        let lost : (c.key == key) ≡ false = rw same d in rw (y, lost, d) (omega arith)
  ]
]
  where
    other-key : (a b c : String) → (a == b) ≡ true → (a == c) ≡ false → (c == b) ≡ false
    other-key a b c h k = elim (Bool-cases (c == b)) [
      | inr n ↦ n
      | inl y ↦
          let ab = (eq_iff a b).0 h in let cb = (eq_iff c b).0 y in cc (rw (ab, cb, eq_refl b) at k)
    ]

module _ (js : Numbers) (env : EnvReader) (budget : Option ℕ) (cost : String → ℕ → ℕ → ℕ) where
  abbrev tokens_of : Call → State → ℕ
  tokens_of call s = get (month_key call.workspace_id call.at.month) s.redis

  abbrev pub row_of : Call → TokenMeter → LlmInput
  row_of call m = record {
    workspace_id = call.workspace_id;
    meter = summary cost m;
    now = call.at.now;
    uuid = call.at.uuid;
  }

  -- An admitted call is charged what its meter says, whether it returns or throws and whatever
  -- others did while it ran: when at its end Redis answers and the uuid of the row is new, the
  -- counter of the month in which it ends grows by the meter's tokens, unless the call is charged to
  -- the ledger only, the ledger gets one row with the meter's cost, unless the meter is empty, and
  -- the call's own outcome is passed on.
  pub metered-charges :
      {A : Type 0} (ledger_only : Bool) (call : Call) (later : Moment) (meanwhile : State → State)
      (outcome : Result A) (m : TokenMeter) (s : State)
      → later.redis_up ≡ true
      → any
          (has_key (llm_event (row_of (record call { at = later }) m)).idempotency_key)
          (meanwhile s).store.usage_events
        ≡ false
      → admitted js env budget cost ledger_only call s ≡ ok tt
      → let (result, after) =
          metered js env budget cost ledger_only call later meanwhile (outcome, m) s in
        (result ≡ outcome)
        × (tokens_of (record call { at = later }) after
            ≡ tokens_of (record call { at = later }) (meanwhile s)
              + (if ledger_only then 0 else m.used))
        × (after.store.usage_events ≡ (
            if eqb m.used 0
            then (meanwhile s).store.usage_events
            else (meanwhile s).store.usage_events
              ++ llm_event (row_of (record call { at = later }) m) ∷ []))
  unfolding metered charge record_ledger record_cost record_llm_cost
  metered-charges true call later meanwhile outcome m s up fresh passed =
      elim (Bool-cases (eqb m.used 0)) [
        | inl y ↦ rw (passed, y) (refl, omega arith, refl)
        | inr n ↦ rw (passed, n, fresh) (refl, omega arith, refl)
      ]
  metered-charges false call later meanwhile outcome m s up fresh passed =
      elim (Bool-cases (eqb m.used 0)) [
        | inl y ↦ rw (passed, y) (refl, ground arith, refl)
        | inr n ↦
            let key = month_key call.workspace_id later.month in
            let redis = (meanwhile s).redis in
            let grown : get key (incr_by key m.used redis) ≡ get key redis + m.used =
              rw (eq_refl key) at (get-incr_by key key m.used redis) in
            rw (passed, n, fresh, up) (refl, grown, refl)
      ]
