-- ===== src/Ai/Pricing/Laws.antt =====
-- The bounds on a price (packages/ai/src/pricing.ts).
use optra.Prelude.{
  arith, ℕ, ◌≤◌, ◌≡◌, refl, inl, inr, true, Option, none, String, first, Bool-cases, Option-cases,
  All, All-first,
}
use optra.Ai.Pricing.{
  Doubles, ModelPrice, fallback_price, keys_longest_first, is_named, name_of, price_for, tokens,
  cost_micro_usd,
}

-- The order of the numbers from zero on, infinity included: rounding keeps it.
pub record Rounding (d : Doubles) : Type 1 where
  pub le : d.Num → d.Num → Type 0
  pub cents_le : {m n : ℕ} → m ≤ n → le (d.cents m) (d.cents n)
  pub times_le : {n a b : d.Num} → d.is_usable n ≡ true → le a b → le (d.times n a) (d.times n b)
  pub times_nought : (m : ℕ) → d.times (d.cents 0) (d.cents m) ≡ d.cents 0
  pub plus_le : {a b x y : d.Num} → le a b → le x y → le (d.plus a x) (d.plus b y)
  pub ceil_le : {a b : d.Num} → le a b → le (d.ceil a) (d.ceil b)

IsBelow : ModelPrice → Type 0
IsBelow row =
    (row.input_per_mtok ≤ fallback_price.input_per_mtok)
    × (row.output_per_mtok ≤ fallback_price.output_per_mtok)

keys-IsBelow : All IsBelow keys_longest_first
unfolding keys_longest_first IsBelow
keys-IsBelow = (
  (omega arith, omega arith),
  ((omega arith, omega arith), ((omega arith, omega arith), ((omega arith, omega arith), tt))),
)

price_for-IsBelow :
    (lower : String → String) (model : Option String) → IsBelow (price_for lower model)
unfolding price_for IsBelow
price_for-IsBelow lower model =
    elim (Option-cases (first (is_named (name_of lower model)) keys_longest_first)) [
      | inl n ↦ rw n (omega arith, omega arith)
      | inr (row, e) ↦
          rw e
            (All-first IsBelow (is_named (name_of lower model)) keys_longest_first keys-IsBelow e)
    ]

price_for_unknown :
    (lower : String → String) (model : Option String)
    → first (is_named (name_of lower model)) keys_longest_first ≡ none
    → price_for lower model ≡ fallback_price
unfolding price_for
price_for_unknown lower model h = rw h refl

module _ (lower : String → String) (d : Doubles) (r : Rounding d) where
  times-le :
      (value : d.Num) {m n : ℕ}
      → m ≤ n
      → r.le
          (d.times (tokens lower d value) (d.cents m))
          (d.times (tokens lower d value) (d.cents n))
  times-le value {m} {n} h = elim (Bool-cases (d.is_usable value)) [
    | inl t ↦ rw t (r.times_le t (r.cents_le h))
    | inr f ↦ rw (f, r.times_nought m, r.times_nought n) (r.cents_le (omega arith))
  ]

  -- A call of any model costs at most what the same call of the fallback model costs, to which an
  -- unknown name is billed.
  pub cost_micro_usd-le :
      (model other : Option String) (input_tokens output_tokens : d.Num)
      → first (is_named (name_of lower other)) keys_longest_first ≡ none
      → r.le
          (cost_micro_usd lower d model input_tokens output_tokens)
          (cost_micro_usd lower d other input_tokens output_tokens)
  unfolding cost_micro_usd IsBelow
  cost_micro_usd-le model other input_tokens output_tokens unknown =
      let below = price_for-IsBelow lower model in
      rw (price_for_unknown lower other unknown, cost_micro_usd)
        (r.ceil_le (r.plus_le (times-le input_tokens below.0) (times-le output_tokens below.1)))
