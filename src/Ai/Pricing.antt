-- ===== src/Ai/Pricing.antt =====
-- What a model call costs (packages/ai/src/pricing.ts). JavaScript's numbers are a parameter; so is
-- toLowerCase. A model name that was warned of is kept, as in the set `warned`.
pub mod Laws
use optra.Prelude.{
  ℕ, Bool, true, false, ◌||◌, Option, none, some, List, [], ◌∷◌, String, ◌==◌, starts_with, first,
  any, leb, if◌then◌else◌, trim, or_else,
}
use Prim.Native.String
use Prim.Native.String.{count}

-- What the source uses of numbers. `cents n` is the literal n/100; `is_usable` is
-- Number.isFinite(x) && x > 0.
pub record Doubles : Type 1 where
  pub Num : Type 0
  pub cents : ℕ → Num
  pub times : Num → Num → Num
  pub plus : Num → Num → Num
  pub ceil : Num → Num
  pub is_usable : Num → Bool

-- A row of MODEL_PRICES: a model's name and its ModelPrice, in hundredths of a US dollar for a
-- million tokens.
pub record ModelPrice : Type 0 where
  pub model : String
  pub input_per_mtok : ℕ
  pub output_per_mtok : ℕ

abbrev pub fallback_price : ModelPrice
fallback_price = record { model = "gpt-4-turbo"; input_per_mtok = 1000; output_per_mtok = 3000 }

abbrev pub model_prices : List ModelPrice
model_prices =
    record { model = "gpt-4o"; input_per_mtok = 250; output_per_mtok = 1000 }
    ∷ record { model = "gpt-4o-mini"; input_per_mtok = 15; output_per_mtok = 60 }
    ∷ fallback_price
    ∷ record { model = "text-embedding-3-small"; input_per_mtok = 2; output_per_mtok = 0 }
    ∷ []

insert_longest : ModelPrice → List ModelPrice → List ModelPrice
insert_longest row [] = row ∷ []
insert_longest row (other ∷ rest) =
    let later = insert_longest row rest in
    if leb (count other.model) (count row.model) then row ∷ other ∷ rest else other ∷ later

longest_first : List ModelPrice → List ModelPrice
unfolding insert_longest
longest_first [] = []
longest_first (row ∷ rest) = insert_longest row (longest_first rest)

-- KEYS_LONGEST_FIRST, each key with its row
unfoldable pub keys_longest_first : List ModelPrice
unfolding longest_first
keys_longest_first = longest_first model_prices

abbrev pub is_named : String → ModelPrice → Bool
is_named name row = (name == row.model) || starts_with name (String.◌++◌ row.model "-")

module _ (lower : String → String) where
  abbrev pub name_of : Option String → String
  name_of model = lower (trim (or_else model ""))

  abbrev row_or : Option ModelPrice → ModelPrice
  row_or none = fallback_price
  row_or (some row) = row

  -- priceFor
  unfoldable pub price_for : Option String → ModelPrice
  price_for model = row_or (first (is_named (name_of model)) keys_longest_first)

  abbrev warned_of : Option ModelPrice → String → List String → List String
  warned_of none name warned = if any (λ w. w == name) warned then warned else name ∷ warned
  warned_of (some _) name warned = warned

  -- The names that priceFor has warned of, after it ran.
  unfoldable pub warned_after : Option String → List String → List String
  warned_after model warned =
      warned_of (first (is_named (name_of model)) keys_longest_first) (name_of model) warned

  module _ (d : Doubles) where
    open d use {Num, cents, times, plus, ceil, is_usable}

    abbrev pub tokens : Num → Num
    tokens value = if is_usable value then value else cents 0

    -- costMicroUsd
    unfoldable pub cost_micro_usd : Option String → Num → Num → Num
    cost_micro_usd model input_tokens output_tokens =
        let price = price_for model in
        ceil (
          plus (times (tokens input_tokens) (cents price.input_per_mtok))
            (times (tokens output_tokens) (cents price.output_per_mtok)))
