-- ===== src/Numbers.antt =====
-- JavaScript's numbers, which are IEEE doubles. They enter every definition as this record: the
-- operations that the source applies to them, with no law assumed.
use optra.Prelude.{ℕ, Bool, String}

pub record Numbers : Type 1 where
  pub Double : Type 0
  -- Number(text)
  pub number : String → Double
  -- Number.isFinite(x)
  pub is_finite : Double → Bool
  -- x > 0
  pub is_positive : Double → Bool
  -- Math.round(x * 1_000_000), for a positive x
  pub micros : Double → ℕ
