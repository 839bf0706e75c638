-- ===== src/Procurement/Columns.antt =====
-- The columns of an uploaded file (apps/api/src/procurement/column-mapping.ts). A row is its cells
-- with their headers, in the order of
-- Object.entries; toLowerCase is a parameter.
pub mod Decimal
pub mod Laws
use optra.Prelude.{
  ℕ, ◌+◌, Bool, true, false, not, ◌&&◌, Option, none, some, List, [], ◌∷◌, String, ◌==◌, first, any,
  leb, utf16_length, if◌then◌else◌, trim, is_some, truthy,
}
use Prim.Native.Char.{code}
use Prim.Native.String
use Prim.Native.String.{[], ◌∷◌}
use Decimal.{is_decimal}

pub record Cell : Type 0 where
  pub header : String
  pub value : String

pub record MappedLineItem : Type 0 where
  pub sku : Option String
  pub description : Option String
  pub quantity : Option String
  pub unit_price : Option String
  pub line_total : Option String
  pub uom : Option String
  pub quantity_received : Option String
  pub quantity_accepted : Option String
  pub quantity_rejected : Option String

abbrev pub sku_aliases : List String
sku_aliases = "sku" ∷ "item" ∷ "item code" ∷ "itemcode" ∷ "product code" ∷ "productcode" ∷ []

abbrev pub description_aliases : List String
description_aliases = "description" ∷ "desc" ∷ "item name" ∷ "itemname" ∷ "name" ∷ []

abbrev pub quantity_aliases : List String
quantity_aliases = "qty" ∷ "quantity" ∷ "units" ∷ []

abbrev pub unit_price_aliases : List String
unit_price_aliases = "unit price" ∷ "unitprice" ∷ "price" ∷ "unit cost" ∷ "unitcost" ∷ "rate" ∷ []

abbrev pub line_total_aliases : List String
line_total_aliases = "total" ∷ "line total" ∷ "linetotal" ∷ "amount" ∷ []

abbrev pub uom_aliases : List String
uom_aliases = "uom" ∷ "u/m" ∷ "u.o.m." ∷ "unit of measure" ∷ "units of measure" ∷ "measure" ∷ []

abbrev pub received_aliases : List String
received_aliases =
    "qty received" ∷ "received qty" ∷ "received quantity" ∷ "quantity received" ∷ "qty rcvd"
    ∷ "received" ∷ []

abbrev pub accepted_aliases : List String
accepted_aliases =
    "qty accepted" ∷ "accepted qty" ∷ "accepted quantity" ∷ "quantity accepted" ∷ "accepted" ∷ []

abbrev pub rejected_aliases : List String
rejected_aliases =
    "qty rejected" ∷ "rejected qty" ∷ "rejected quantity" ∷ "quantity rejected" ∷ "rejected" ∷ []

module _ (lower : String → String) where
  -- normalizeHeader
  abbrev pub normalize_header : String → String
  normalize_header header = lower (trim header)

  abbrev pub is_under : String → Cell → Bool
  is_under alias cell = normalize_header cell.header == alias

  abbrev cell_or : Option Cell → Option String → Option String
  cell_or none rest = rest
  cell_or (some cell) rest = if trim cell.value == "" then rest else some (trim cell.value)

  -- findValue
  unfoldable pub find_value : List Cell → List String → Option String
  find_value row [] = none
  find_value row (alias ∷ rest) = cell_or (first (is_under alias) row) (find_value row rest)

  -- mapRowToLineItem
  unfoldable pub map_row_to_line_item : List Cell → MappedLineItem
  unfolding find_value
  map_row_to_line_item row = record {
    sku = find_value row sku_aliases;
    description = find_value row description_aliases;
    quantity = find_value row quantity_aliases;
    unit_price = find_value row unit_price_aliases;
    line_total = find_value row line_total_aliases;
    uom = find_value row uom_aliases;
    quantity_received = find_value row received_aliases;
    quantity_accepted = find_value row accepted_aliases;
    quantity_rejected = find_value row rejected_aliases;
  }

abbrev max_sku_length : ℕ
max_sku_length = 200

abbrev max_uom_length : ℕ
max_uom_length = 20

abbrev pub keep_if : (String → Bool) → Option String → Option String
keep_if p none = none
keep_if p (some value) = if p value then some value else none

-- numericOrNull
unfoldable pub numeric_or_null : Option String → Option String
numeric_or_null value = keep_if is_decimal value

unfoldable pub is_sku : String → Bool
unfolding utf16_length
is_sku sku = leb (utf16_length sku) max_sku_length

unfoldable pub is_uom : String → Bool
unfolding utf16_length
is_uom uom = truthy uom && leb (utf16_length uom) max_uom_length

-- validateLineItem
unfoldable pub validate_line_item : MappedLineItem → MappedLineItem
unfolding numeric_or_null is_sku is_uom
validate_line_item item = record {
  sku = keep_if is_sku item.sku;
  description = item.description;
  quantity = numeric_or_null item.quantity;
  unit_price = numeric_or_null item.unit_price;
  line_total = numeric_or_null item.line_total;
  uom = keep_if is_uom item.uom;
  quantity_received = numeric_or_null item.quantity_received;
  quantity_accepted = numeric_or_null item.quantity_accepted;
  quantity_rejected = numeric_or_null item.quantity_rejected;
}

-- receivedQuantity
abbrev pub received_quantity : MappedLineItem → Option String
received_quantity item =
    if is_some item.quantity_received then item.quantity_received else item.quantity

-- isEmptyLineItem
unfoldable pub is_empty_line_item : MappedLineItem → Bool
is_empty_line_item item =
    not (is_some item.sku)
    && not (is_some item.description)
    && not (is_some item.quantity)
    && not (is_some item.unit_price)
    && not (is_some item.line_total)
    && not (is_some item.quantity_received)
    && not (is_some item.quantity_accepted)
    && not (is_some item.quantity_rejected)
