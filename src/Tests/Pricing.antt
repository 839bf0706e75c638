-- ===== src/Tests/Pricing.antt =====
-- Prices over whole numbers of hundredths, for calls of whole numbers of tokens.
use native.Mathlib.Nat.{mul-le-mul_left}
use optra.Prelude.{ℕ, ◌+◌, ◌*◌, ◌/◌, ◌≤◌, ◌≡◌, refl, arith, ltb, none, some, first, trim}
use optra.Ai.Pricing.{Doubles, keys_longest_first, is_named, name_of, price_for, cost_micro_usd}
use optra.Ai.Pricing.Laws.{Rounding, cost_micro_usd-le}

abbrev whole : Doubles
whole = record {
  Num = ℕ;
  cents = λ n. n;
  times = λ a b. a * b;
  plus = λ a b. a + b;
  ceil = λ a. (a + 99) / 100;
  is_usable = λ n. ltb 0 n;
}

abbrev whole_order : Rounding whole
whole_order = record {
  le = λ a b. a ≤ b;
  cents_le = λ h. h;
  times_le = λ {n = n} {a = a} {b = b} _ h. mul-le-mul_left n h;
  times_nought = λ m. omega arith;
  plus_le = λ h k. omega arith;
  ceil_le = λ h. omega arith;
}

-- A dated snapshot has the price of its own row, not that of a shorter name.
snapshot : (price_for (λ s. s) (some "gpt-4o-mini-2024-07-18")).output_per_mtok ≡ 60
unfolding price_for keys_longest_first trim
snapshot = refl

unknown : first (is_named (name_of (λ s. s) (some "o9"))) keys_longest_first ≡ none
unfolding keys_longest_first trim
unknown = refl

cost_micro_usd-le_example :
    cost_micro_usd (λ s. s) whole (some "gpt-4o") 700 30
    ≤ cost_micro_usd (λ s. s) whole (some "o9") 700 30
cost_micro_usd-le_example =
    cost_micro_usd-le (λ s. s) whole whole_order (some "gpt-4o") (some "o9") 700 30 unknown
