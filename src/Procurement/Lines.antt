-- ===== src/Procurement/Lines.antt =====
-- The lines of the three documents, the key by which they are matched, and the rows that the engine
-- reads (`matchKey`, `normalizeUom` and the two `serialize` functions of comparison.service.ts).
pub mod Keys
use optra.Prelude.{ℕ, Option, none, some, String, or_else, trim, non_empty}
use Prim.Native.String
use optra.Procurement.Engine.{Engine}

-- A line of a purchase order or of an invoice.
pub record LineItem : Type 0 where
  pub id : String
  pub line_number : ℕ
  pub sku : Option String
  pub description : Option String
  pub quantity : Option String
  pub unit_price : Option String
  pub uom : Option String

pub record ReceiptLine : Type 0 where
  pub id : String
  pub line_number : Option ℕ
  pub sku : Option String
  pub description : Option String
  pub quantity_accepted : Option String
  pub uom : Option String

-- A row of one of the three tables. An empty cell is read back as NULL.
pub record Cells : Type 0 where
  pub id : String
  pub line_number : ℕ
  pub mk : String
  pub quantity : Option String
  pub unit_price : Option String
  pub uom : Option String

-- text?.trim().toLowerCase(), none when that is absent or empty
unfoldable pub folded : Engine → Option String → Option String
folded e none = none
folded e (some s) = non_empty (e.lower (trim s))

abbrev pub key_from : Option String → Option String → Option String
key_from (some s) d = some (String.◌++◌ "sku::" s)
key_from none (some d) = some (String.◌++◌ "desc::" d)
key_from none none = none

abbrev pub match_key : Engine → Option String → Option String → Option String
match_key e sku description = key_from (folded e sku) (folded e description)

abbrev pub row_key : Engine → String → Option String → Option String → String
row_key e id sku description = or_else (match_key e sku description) (String.◌++◌ "unkeyed::" id)

abbrev pub cell : Option String → Option String
cell none = none
cell (some s) = non_empty s

-- serializeForCsv
abbrev pub cells_of : Engine → LineItem → Cells
cells_of e item = record {
  id = item.id;
  line_number = item.line_number;
  mk = row_key e item.id item.sku item.description;
  quantity = cell item.quantity;
  unit_price = cell item.unit_price;
  uom = folded e item.uom;
}

-- serializeGoodsReceiptForCsv, whose quantity is the accepted one
abbrev pub receipt_cells_of : Engine → ReceiptLine → Cells
receipt_cells_of e item = record {
  id = item.id;
  line_number = or_else item.line_number 0;
  mk = row_key e item.id item.sku item.description;
  quantity = cell item.quantity_accepted;
  unit_price = none;
  uom = folded e item.uom;
}
