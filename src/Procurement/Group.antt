-- ===== src/Procurement/Group.antt =====
-- The three common table expressions of COMPARISON_SQL: the lines of one document, grouped by key.
use optra.Prelude.{
  ℕ, Bool, Option, none, some, List, [], ◌∷◌, String, ◌==◌, ltb, if◌then◌else◌, select, any, length,
}
use optra.Procurement.Engine.{Engine}
use optra.Procurement.Lines.{Cells}

-- One group: the columns of a row of `po`, `inv` or `grn`. For a receipt, `quantity` is
-- grn_accepted_qty.
pub record Group (Num : Type 0) : Type 0 where
  pub line_item_id : String
  pub lines : ℕ
  pub quantity : Option Num
  pub price_min : Option Num
  pub price_max : Option Num
  pub uom_count : ℕ
  pub uom : Option String

abbrev pub has_mk : String → Cells → Bool
has_mk mk row = row.mk == mk

-- arg_min(id, line_number): the first row with the least line number
unfoldable pub arg_min : Cells → List Cells → Cells
arg_min best [] = best
arg_min best (row ∷ rows) =
    arg_min (if ltb row.line_number best.line_number then row else best) rows

abbrev pub with_number : {Num : Type 0} → Option Num → Option (List Num) → Option (List Num)
with_number (some n) (some ns) = some (n ∷ ns)
with_number _ _ = none

module _ (e : Engine) where
  abbrev pub cast : Option String → Option e.Num
  cast none = none
  cast (some s) = e.try_cast s

  -- The numbers of a column when every row has one: COUNT(*) = COUNT(TRY_CAST(c AS DOUBLE)).
  abbrev pub numbers : (Cells → Option String) → List Cells → Option (List e.Num)
  numbers column [] = some []
  numbers column (row ∷ rows) = with_number (cast (column row)) (numbers column rows)

abbrev pub aggregate : {A B : Type 0} → (A → B) → Option A → Option B
aggregate f none = none
aggregate f (some x) = some (f x)

-- The distinct units that are stated.
abbrev pub add_unit : Option String → List String → List String
add_unit none seen = seen
add_unit (some u) seen = if any (λ s. s == u) seen then seen else u ∷ seen

unfoldable pub units : List Cells → List String
units [] = []
units (row ∷ rows) = add_unit row.uom (units rows)

abbrev pub single : List String → Option String
single (u ∷ []) = some u
single _ = none

module _ (e : Engine) where
  unfoldable pub grouped : List Cells → Option (Group e.Num)
  grouped [] = none
  grouped (row ∷ rows) =
      let all_rows = row ∷ rows in
      let prices = numbers e (λ (r : Cells). r.unit_price) all_rows in
      some (record {
        line_item_id = (arg_min row rows).id;
        lines = length all_rows;
        quantity = aggregate e.total (numbers e (λ (r : Cells). r.quantity) all_rows);
        price_min = aggregate e.least prices;
        price_max = aggregate e.greatest prices;
        uom_count = length (units all_rows);
        uom = single (units all_rows);
      })

  -- The group of a key, or NULLs when the document has no line with the key.
  unfoldable pub group_of : String → List Cells → Option (Group e.Num)
  group_of mk rows = grouped (select (has_mk mk) rows)
