-- ===== src/Ai/Tokens.antt =====
-- The meter of a model call (packages/ai/src/tokens.ts). The numbers that a provider reports are
-- natural numbers here: `positive` makes 0 of everything else. The price of a model
-- (packages/ai/src/pricing.ts) is an argument.
pub mod Totals
use optra.Prelude.{
  ℕ, ◌+◌, Bool, true, false, Option, none, some, List, [], ◌∷◌, String, ◌==◌, eqb, ltb,
  if◌then◌else◌, trim, truthy, or_else,
}

-- usage_metadata and response_metadata; 0 stands for an absent count.
pub record Report : Type 0 where
  pub input_tokens : ℕ
  pub output_tokens : ℕ
  pub total_tokens : ℕ
  pub model_name : Option String
  pub model : Option String

pub record ModelUsage : Type 0 where
  pub name : String
  pub input : ℕ
  pub output : ℕ

-- The map by model, in the order of insertion.
pub record TokenMeter : Type 0 where
  pub used : ℕ
  pub by_model : List ModelUsage

abbrev pub new_meter : TokenMeter
new_meter = record { used = 0; by_model = [] }

unfoldable pub add_usage : String → ℕ → ℕ → List ModelUsage → List ModelUsage
add_usage name input output [] = record { name = name; input = input; output = output } ∷ []
add_usage name input output (u ∷ us) =
    let rest = add_usage name input output us in
    if u.name == name
    then record u { input = u.input + input; output = u.output + output } ∷ us
    else u ∷ rest

-- `a || b`
abbrev or_number : ℕ → ℕ → ℕ
or_number a b = if eqb a 0 then b else a

abbrev or_text : String → String → String
or_text a b = if truthy a then a else b

abbrev pub name_of : Option String → Report → String
name_of model r =
    trim
      (or_text (trim (or_else model "")) (or_text (or_else r.model_name "") (or_else r.model "")))

-- The tokens that a report counts for, in all and of the output.
abbrev pub total_of : Report → ℕ
total_of r = or_number r.total_tokens (r.input_tokens + r.output_tokens)

abbrev pub output_of : Report → ℕ
output_of r = if eqb (r.input_tokens + r.output_tokens) 0 then total_of r else r.output_tokens

-- record(response, model)
unfoldable pub record_usage : Report → Option String → TokenMeter → TokenMeter
unfolding add_usage
record_usage r model m = if eqb (total_of r) 0 then m else record {
  used = m.used + total_of r;
  by_model = add_usage (name_of model r) r.input_tokens (output_of r) m.by_model;
}

unfoldable pub record_all : List (Report × Option String) → TokenMeter → TokenMeter
unfolding record_usage
record_all [] m = m
record_all ((r, model) ∷ rest) m = record_all rest (record_usage r model m)

-- inputTokens and outputTokens
unfoldable pub input_tokens : List ModelUsage → ℕ
input_tokens [] = 0
input_tokens (u ∷ us) = u.input + input_tokens us

unfoldable pub output_tokens : List ModelUsage → ℕ
output_tokens [] = 0
output_tokens (u ∷ us) = u.output + output_tokens us

module _ (cost : String → ℕ → ℕ → ℕ) where
  abbrev pub cost_of : ModelUsage → ℕ
  cost_of u = cost u.name u.input u.output

  -- costMicroUsd
  unfoldable pub cost_micro_usd : List ModelUsage → ℕ
  cost_micro_usd [] = 0
  cost_micro_usd (u ∷ us) = cost_of u + cost_micro_usd us

  -- The loop of dominantModel, from the dearest so far.
  unfoldable pub dearest_from : Option ModelUsage → List ModelUsage → Option ModelUsage
  dearest_from best [] = best
  dearest_from none (u ∷ us) = dearest_from (some u) us
  dearest_from (some b) (u ∷ us) =
      dearest_from (some (if ltb (cost_of b) (cost_of u) then u else b)) us

  abbrev named : Option ModelUsage → Option String
  named none = none
  named (some u) = if truthy u.name then some u.name else none

  unfoldable pub dominant_model : TokenMeter → Option String
  unfolding dearest_from
  dominant_model m = named (dearest_from none m.by_model)
