-- ===== src/Procurement/PriceGroups.antt =====
-- The lines of an order grouped by SKU, for the check against the agreed prices (the first loop of
-- `contractPriceFlags`, apps/api/src/procurement/comparison.service.ts).
use optra.Prelude.{
  Bool, Option, none, some, List, [], ◌∷◌, ◌++◌, String, ◌==◌, if◌then◌else◌, any, and_then,
  or_else, trim,
}
use optra.Procurement.Engine.{Engine}
use optra.Procurement.Lines.{LineItem, folded}

-- The lines of the order with one SKU key: `prices` and `uoms` are sets.
pub record PriceGroup (Num : Type 0) : Type 0 where
  pub key : String
  pub sku : String
  pub line_ids : List String
  pub prices : List Num
  pub uoms : List String

module _ (e : Engine) where
  abbrev with_price : Option e.Num → List e.Num → List e.Num
  with_price none prices = prices
  with_price (some p) prices = if any (λ q. e.same q p) prices then prices else prices ++ p ∷ []

  abbrev with_uom : Option String → List String → List String
  with_uom none uoms = uoms
  with_uom (some u) uoms = if any (λ v. v == u) uoms then uoms else uoms ++ u ∷ []

  abbrev with_line : LineItem → PriceGroup e.Num → PriceGroup e.Num
  with_line item group = record group {
    line_ids = group.line_ids ++ item.id ∷ [];
    prices = with_price (and_then item.unit_price e.finite_number) group.prices;
    uoms = with_uom (folded e item.uom) group.uoms;
  }

  abbrev has_key : String → PriceGroup e.Num → Bool
  has_key key group = group.key == key

  -- groups.set(key, ...): in place, or at the end of the Map
  abbrev put_line : String → LineItem → List (PriceGroup e.Num) → List (PriceGroup e.Num)
  put_line key item [] =
      with_line item (record {
        key = key;
        sku = trim (or_else item.sku "");
        line_ids = [];
        prices = [];
        uoms = [];
      })
      ∷ []
  put_line key item (group ∷ groups) =
      let rest = put_line key item groups in
      if has_key key group then with_line item group ∷ groups else group ∷ rest

  abbrev put_keyed : Option String → LineItem → List (PriceGroup e.Num) → List (PriceGroup e.Num)
  put_keyed none item groups = groups
  put_keyed (some key) item groups = put_line key item groups

  -- The loop over the order's lines. Lines without a SKU are never checked.
  unfoldable pub price_groups : List LineItem → List (PriceGroup e.Num) → List (PriceGroup e.Num)
  price_groups [] groups = groups
  price_groups (item ∷ items) groups =
      price_groups items (put_keyed (folded e item.sku) item groups)
