-- ===== src/Procurement/Reason.antt =====
-- The sentence of a finding (`buildReason` of
-- apps/api/src/procurement/comparison.service.ts).
use optra.Prelude.{
  Option, none, some, List, [], ◌∷◌, String, ltb, if◌then◌else◌, and_then, or_else, is_some, trim,
  non_empty,
}
use Prim.Native.String
use Prim.Native.String.{count}
use mathlib.Core.Option
use optra.Procurement.Engine.{Engine}
use optra.Procurement.Lines.{LineItem, ReceiptLine, match_key}
use optra.Procurement.Group.{Group}
use optra.Procurement.Ladder.{
  FlagType, quantity_mismatch, price_mismatch, missing_on_invoice, missing_on_po, short_receipt,
  invoice_exceeds_received, uom_mismatch, Joined, distinct, unit_of,
}
use optra.Procurement.Wording.{
  text, kept, joined_by, line_name, group_quantity, price_min_of, price_max_of, or_unknown, or_null,
  summed_note, masked_price_note,
}

abbrev many_units : {Num : Type 0} → Option (Group Num) → String → Option String
many_units none what = none
many_units (some g) what = if ltb 1 g.uom_count then some what else none

-- `${side}=${line?.uom?.trim() || row.uom}` for a side that states a unit
abbrev stated_unit : String → Option String → Option String → Option String
stated_unit side written none = none
stated_unit side written (some u) =
    Option.map (λ v. String.◌++◌ side (or_else (and_then written (λ s. non_empty (trim s))) v))
      (non_empty u)

abbrev units_reason : String → String → List String → String → String
units_reason sku summed [] stated = text (
    "Unit of measure mismatch for " ∷ sku ∷ ": " ∷ stated
    ∷ ". Units are captured, never converted, so no quantity difference is reported" ∷ summed ∷ [])
units_reason sku summed (side ∷ sides) stated = text (
    "Unit of measure mismatch for "
    ∷ sku
    ∷ ": "
    ∷ joined_by " and " (side ∷ sides)
    ∷ " lists more than one unit for this item, so its quantities cannot be added together"
    ∷ [])

abbrev mixed_prices : (e : Engine) → String → Option (Group e.Num) → Option String
mixed_prices e side g =
    if distinct e (price_min_of e g) (price_max_of e g)
    then some (
        text (
          side
          ∷ " ("
          ∷ or_null e (price_min_of e g)
          ∷ "–"
          ∷ or_null e (price_max_of e g)
          ∷ ")"
          ∷ []))
    else none

abbrev prices_reason : (e : Engine) → Joined e → String → String → List String → String
prices_reason e row sku summed [] = text (
    "Unit price mismatch for "
    ∷ sku
    ∷ ": PO="
    ∷ or_unknown e (price_min_of e row.po)
    ∷ " Invoice="
    ∷ or_unknown e (price_min_of e row.invoice)
    ∷ summed
    ∷ [])
prices_reason e row sku summed (side ∷ sides) = text (
    "Unit price mismatch for "
    ∷ sku
    ∷ ": multiple unit prices on "
    ∷ joined_by " and " (side ∷ sides)
    ∷ summed
    ∷ [])

abbrev missing_reason : Engine → Option LineItem → String → String → String → String
missing_reason e none side other otherwise = otherwise
missing_reason e (some line) side other otherwise =
    if is_some (match_key e line.sku line.description)
    then otherwise
    else text (
        side
        ∷ " line "
        ∷ e.count_text line.line_number
        ∷ " has no SKU or description, so it cannot be matched to the "
        ∷ other
        ∷ [])

abbrev pub uom_of : Option LineItem → Option String
uom_of none = none
uom_of (some line) = line.uom

abbrev pub receipt_uom_of : Option ReceiptLine → Option String
receipt_uom_of none = none
receipt_uom_of (some line) = line.uom

-- buildReason
unfoldable pub build_reason :
    (e : Engine)
    → FlagType
    → Joined e
    → Option LineItem
    → Option LineItem
    → Option ReceiptLine
    → String
build_reason e flag_type row po_line invoice_line receipt_line =
    let sku = or_else (line_name po_line) (or_else (line_name invoice_line) "(unknown)") in
    let summed = summed_note e row in
    let ordered = or_unknown e (group_quantity e row.po) in
    let billed = or_unknown e (group_quantity e row.invoice) in
    let accepted = or_unknown e (group_quantity e row.receipt) in
    elim flag_type [
      | missing_on_po ↦ missing_reason e invoice_line "Invoice" "purchase order" (
          text
            ("Item " ∷ sku ∷ " appears on the invoice but not on the purchase order" ∷ summed ∷ []))
      | missing_on_invoice ↦ missing_reason e po_line "Purchase order" "invoice" (
          text
            ("Item " ∷ sku ∷ " appears on the purchase order but not on the invoice" ∷ summed ∷ []))
      | quantity_mismatch ↦ text (
          "Quantity mismatch for "
          ∷ sku
          ∷ ": PO="
          ∷ ordered
          ∷ " Invoice="
          ∷ billed
          ∷ summed
          ∷ masked_price_note e row
          ∷ [])
      | short_receipt ↦ text (
          "Short receipt for "
          ∷ sku
          ∷ ": ordered "
          ∷ ordered
          ∷ ", accepted "
          ∷ accepted
          ∷ summed
          ∷ masked_price_note e row
          ∷ [])
      | invoice_exceeds_received ↦ text (
          "Invoice bills more than was accepted for "
          ∷ sku
          ∷ ": accepted "
          ∷ accepted
          ∷ ", invoiced "
          ∷ billed
          ∷ summed
          ∷ masked_price_note e row
          ∷ [])
      | uom_mismatch ↦
          units_reason sku summed
            (kept (
              many_units row.po "the purchase order"
              ∷ many_units row.invoice "the invoice"
              ∷ many_units row.receipt "the goods receipt"
              ∷ []))
            (joined_by " " (
              kept (
                stated_unit "PO=" (uom_of po_line) (unit_of row.po)
                ∷ stated_unit "Received=" (receipt_uom_of receipt_line) (unit_of row.receipt)
                ∷ stated_unit "Invoice=" (uom_of invoice_line) (unit_of row.invoice)
                ∷ [])))
      | price_mismatch ↦ prices_reason e row sku summed (
          kept (
            mixed_prices e "the purchase order" row.po
            ∷ mixed_prices e "the invoice" row.invoice
            ∷ []))
    ]
