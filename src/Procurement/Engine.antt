-- ===== src/Procurement/Engine.antt =====
-- What the comparison takes from JavaScript and from DuckDB: doubles and lower-casing. A record, with
-- no law assumed.
use optra.Prelude.{ℕ, Bool, Option, List, String}

pub record Engine : Type 1 where
  pub Num : Type 0
  -- TRY_CAST(cell AS DOUBLE) of a cell that is not empty
  pub try_cast : String → Option Num
  -- Number(text), and the same when it is finite
  pub number : String → Num
  pub finite_number : String → Option Num
  -- ROUND(SUM(...), 6), MIN and MAX of a column
  pub total : List Num → Num
  pub least : List Num → Num
  pub greatest : List Num → Num
  -- a > b and a = b
  pub greater : Num → Num → Bool
  pub same : Num → Num → Bool
  -- String(value), and of a count
  pub show : Num → String
  pub count_text : ℕ → String
  -- decimalDifference for two finite numbers, none when one is not finite
  pub difference : Num → Num → Option String
  pub nought : Num
  -- s.toLowerCase() and s.toUpperCase()
  pub lower : String → String
  pub upper : String → String
