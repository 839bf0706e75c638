-- ===== src/Ai/Tokens/Totals.antt =====
-- What the meter adds up.
use optra.Prelude.{
  ℕ, ◌+◌, ◌≤◌, ◌≡◌, ◌⊎◌, inl, inr, refl, Option, some, List, [], ◌∷◌, String, eqb, ltb, All,
  Bool-cases, arith,
}
use optra.Ai.Tokens.{
  Report, ModelUsage, TokenMeter, add_usage, total_of, output_of, name_of, record_usage, record_all,
  input_tokens, output_tokens, cost_of, dearest_from,
}

input-add_usage :
    (name : String) (i o : ℕ) (us : List ModelUsage)
    → input_tokens (add_usage name i o us) ≡ input_tokens us + i
unfolding input_tokens add_usage
input-add_usage name i o [] = omega arith
input-add_usage name i o (u ∷ us) = ground (arith, input-add_usage name i o us)

output-add_usage :
    (name : String) (i o : ℕ) (us : List ModelUsage)
    → output_tokens (add_usage name i o us) ≡ output_tokens us + o
unfolding output_tokens add_usage
output-add_usage name i o [] = omega arith
output-add_usage name i o (u ∷ us) = ground (arith, output-add_usage name i o us)

-- A report whose total is absent, is the only count, or is the sum of the others.
abbrev pub IsCoherent : Report × Option String → Type 0
IsCoherent (r, _) =
    (r.total_tokens ≡ 0)
    ⊎ (r.input_tokens + r.output_tokens ≡ 0)
    ⊎ (r.total_tokens ≡ r.input_tokens + r.output_tokens)

abbrev IsBalanced : TokenMeter → Type 0
IsBalanced m = m.used ≡ input_tokens m.by_model + output_tokens m.by_model

total-coherent :
    (r : Report) (model : Option String)
    → IsCoherent (r, model)
    → total_of r ≡ r.input_tokens + output_of r
total-coherent r model (inl e) = ground arith
total-coherent r model (inr (inl e)) = ground arith
total-coherent r model (inr (inr e)) = ground arith

record_usage-IsBalanced :
    (r : Report) (model : Option String) (m : TokenMeter)
    → IsCoherent (r, model)
    → IsBalanced m
    → IsBalanced (record_usage r model m)
unfolding record_usage
record_usage-IsBalanced r model m c b = elim (Bool-cases (eqb (total_of r) 0)) [
  | inl y ↦ rw y b
  | inr n ↦ rw n (
      omega (
        arith,
        total-coherent r model c,
        input-add_usage (name_of model r) r.input_tokens (output_of r) m.by_model,
        output-add_usage (name_of model r) r.input_tokens (output_of r) m.by_model,
      ))
]

-- However many calls are recorded, in any order and for any models: when the total of every report
-- is absent, is its only count, or is the sum of its counts, the tokens of a meter are its input
-- tokens and its output tokens together.
pub record_all-balanced :
    (reports : List (Report × Option String)) (m : TokenMeter)
    → All IsCoherent reports
    → m.used ≡ input_tokens m.by_model + output_tokens m.by_model
    → let n = record_all reports m in n.used ≡ input_tokens n.by_model + output_tokens n.by_model
unfolding record_all
record_all-balanced [] m _ b = b
record_all-balanced ((r, model) ∷ rest) m (c, cs) b =
    record_all-balanced rest (record_usage r model m) cs (record_usage-IsBalanced r model m c b)

-- The model that was kept is at least as dear as the best before it and as every other one.
dearest_from-max :
    (cost : String → ℕ → ℕ → ℕ) (b : ModelUsage) (us : List ModelUsage)
    → (d : ModelUsage) × (dearest_from cost (some b) us ≡ some d)
      × (cost_of cost b ≤ cost_of cost d)
      × All (λ u. cost_of cost u ≤ cost_of cost d) us
unfolding dearest_from
dearest_from-max cost b [] = (b, refl, omega arith, tt)
dearest_from-max cost b (u ∷ us) = elim (Bool-cases (ltb (cost_of cost b) (cost_of cost u))) [
  | inl y ↦
      let (d, e, le, rest) = dearest_from-max cost u us in (d, rw y e, ground arith, (le, rest))
  | inr n ↦
      let (d, e, le, rest) = dearest_from-max cost b us in (d, rw n e, le, (ground arith, rest))
]
