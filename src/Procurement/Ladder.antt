-- ===== src/Procurement/Ladder.antt =====
-- The join and the CASE of COMPARISON_SQL: which finding, if any, a key of the three documents gets.
-- SQL's NULL is none; a comparison with NULL is not true.
pub mod Laws
pub mod Agreed
pub mod Units
pub mod Conservation
use optra.Prelude.{
  ℕ, Bool, true, false, not, Option, none, some, List, [], ◌∷◌, ◌++◌, String, ◌==◌, ◌||◌, ltb,
  if◌then◌else◌, any, map, and_then, is_some,
}
use optra.Procurement.Engine.{Engine}
use optra.Procurement.Lines.{Cells}
use optra.Procurement.Group.{Group, group_of}

-- What the CASE returns besides 'match', which is none.
pub data FlagType : Type 0 where
  quantity_mismatch price_mismatch missing_on_invoice missing_on_po short_receipt
        invoice_exceeds_received uom_mismatch :
      FlagType

abbrev pub has_many_units : {Num : Type 0} → Option (Group Num) → Bool
has_many_units none = false
has_many_units (some g) = ltb 1 g.uom_count

abbrev pub unit_of : {Num : Type 0} → Option (Group Num) → Option String
unit_of none = none
unit_of (some g) = g.uom

-- a IS NOT NULL AND b IS NOT NULL AND a <> b
abbrev pub units_differ : Option String → Option String → Bool
units_differ (some a) (some b) = not (a == b)
units_differ _ _ = false

abbrev pub uom_conflict :
    {Num : Type 0} → Option (Group Num) → Option (Group Num) → Option (Group Num) → Bool
uom_conflict p i g =
    has_many_units p
    || has_many_units i
    || has_many_units g
    || units_differ (unit_of p) (unit_of i)
    || units_differ (unit_of p) (unit_of g)
    || units_differ (unit_of i) (unit_of g)

-- The keys that the full outer joins meet, each once.
abbrev pub known : String → List String → Bool
known mk keys = any (λ k. mk == k) keys

unfoldable pub add_key : String → List String → List String
add_key mk keys = if known mk keys then keys else mk ∷ keys

unfoldable pub keys_of : List Cells → List String → List String
keys_of [] keys = keys
keys_of (row ∷ rows) keys = add_key row.mk (keys_of rows keys)

module _ (e : Engine) where
  -- a IS DISTINCT FROM b
  abbrev pub distinct : Option e.Num → Option e.Num → Bool
  distinct none none = false
  distinct (some a) (some b) = not (e.same a b)
  distinct _ _ = true

  -- a > b
  abbrev pub exceeds : Option e.Num → Option e.Num → Bool
  exceeds (some a) (some b) = e.greater a b
  exceeds _ _ = false

  abbrev pub prices_differ : Group e.Num → Group e.Num → Bool
  prices_differ p i =
      distinct p.price_min p.price_max
      || distinct i.price_min i.price_max
      || distinct p.price_min i.price_min

  -- The branches after the units, on a line that both documents have.
  abbrev pub numeric : Group e.Num → Group e.Num → Option e.Num → Option FlagType
  numeric p i accepted =
      if exceeds i.quantity accepted
      then some invoice_exceeds_received
      else if exceeds p.quantity accepted
      then some short_receipt
      else if distinct p.quantity i.quantity
      then some quantity_mismatch
      else if prices_differ p i
      then some price_mismatch
      else none

  abbrev pub accepted_of : Option (Group e.Num) → Option e.Num
  accepted_of none = none
  accepted_of (some g) = g.quantity

  -- The CASE.
  unfoldable pub classify :
      Option (Group e.Num) → Option (Group e.Num) → Option (Group e.Num) → Option FlagType
  classify none i g = some missing_on_po
  classify (some p) none g = some missing_on_invoice
  classify (some p) (some i) g =
      if uom_conflict (some p) (some i) g then some uom_mismatch else numeric p i (accepted_of g)

  -- A row of the result.
  pub record Joined : Type 0 where
    pub po : Option (Group e.Num)
    pub invoice : Option (Group e.Num)
    pub receipt : Option (Group e.Num)

  abbrev pub join_at : List Cells → List Cells → List Cells → String → Joined
  join_at po inv grn mk = record {
    po = group_of e mk po;
    invoice = group_of e mk inv;
    receipt = group_of e mk grn;
  }

  -- joined
  unfoldable pub joined : List Cells → List Cells → List Cells → List Joined
  joined po inv grn = map (join_at po inv grn) (keys_of po (keys_of inv (keys_of grn [])))
