-- ===== src/Procurement/Flags.antt =====
-- The rows of discrepancy_flags that a comparison writes (`toFlagValues`, `currencyMismatchFlag`,
-- `diff` and `numToStr` of apps/api/src/procurement/comparison.service.ts).
use optra.Prelude.{
  Option, none, some, List, [], ◌∷◌, String, ◌==◌, if◌then◌else◌, and_then, trim, non_empty,
}
use Prim.Native.String
use mathlib.Core.Option
use optra.Procurement.Engine.{Engine}
use optra.Procurement.Lines.{LineItem, ReceiptLine}
use optra.Procurement.Group.{Group}
use optra.Procurement.Ladder.{
  FlagType, quantity_mismatch, price_mismatch, missing_on_invoice, missing_on_po, short_receipt,
  invoice_exceeds_received, uom_mismatch, Joined, classify,
}
use optra.Procurement.Wording.{group_price, group_quantity}
use optra.Procurement.Reason.{build_reason, uom_of, receipt_uom_of}

-- The enumeration discrepancy_flag_type.
pub data FindingType : Type 0 where
  line : FlagType → FindingType
  currency_mismatch contract_price_variance contract_price_unavailable : FindingType

pub record FlagValues : Type 0 where
  pub workspace_id : String
  pub purchase_order_id : String
  pub invoice_id : String
  pub po_line_item_id : Option String
  pub invoice_line_item_id : Option String
  pub goods_receipt_line_item_id : Option String
  pub sku : Option String
  pub flag_type : FindingType
  pub po_value : Option String
  pub received_value : Option String
  pub invoice_value : Option String
  pub po_unit_price : Option String
  pub invoice_unit_price : Option String
  pub delta : Option String
  pub reason : String

-- ComparedLines: the lines of the three documents by id.
pub record ComparedLines : Type 0 where
  pub po : String → Option LineItem
  pub invoice : String → Option LineItem
  pub goods_receipt : String → Option ReceiptLine

abbrev line_item_id_of : {Num : Type 0} → Option (Group Num) → Option String
line_item_id_of none = none
line_item_id_of (some g) = some g.line_item_id

abbrev sku_of : Option LineItem → Option String
sku_of none = none
sku_of (some item) = item.sku

abbrev or_null : {A : Type 0} → Option A → Option A → Option A
or_null none d = d
or_null (some a) d = some a

module _ (e : Engine) where
  -- numToStr
  abbrev pub num_to_str : Option e.Num → Option String
  num_to_str n = Option.map e.show n

  -- diff
  abbrev pub diff : Option e.Num → Option e.Num → Option String
  diff (some a) (some b) = e.difference a b
  diff _ _ = none

  abbrev po_value_of : FlagType → Joined e → Option LineItem → Option String
  po_value_of flag_type row po_line = elim flag_type [
    | quantity_mismatch ↦ num_to_str (group_quantity e row.po)
    | missing_on_invoice ↦ num_to_str (group_quantity e row.po)
    | short_receipt ↦ num_to_str (group_quantity e row.po)
    | invoice_exceeds_received ↦ num_to_str (group_quantity e row.po)
    | price_mismatch ↦ num_to_str (group_price e row.po)
    | uom_mismatch ↦ uom_of po_line
    | missing_on_po ↦ none
  ]

  abbrev invoice_value_of : FlagType → Joined e → Option LineItem → Option String
  invoice_value_of flag_type row invoice_line = elim flag_type [
    | quantity_mismatch ↦ num_to_str (group_quantity e row.invoice)
    | missing_on_po ↦ num_to_str (group_quantity e row.invoice)
    | short_receipt ↦ num_to_str (group_quantity e row.invoice)
    | invoice_exceeds_received ↦ num_to_str (group_quantity e row.invoice)
    | price_mismatch ↦ num_to_str (group_price e row.invoice)
    | uom_mismatch ↦ uom_of invoice_line
    | missing_on_invoice ↦ none
  ]

  abbrev received_value_of : FlagType → Joined e → Option ReceiptLine → Option String
  received_value_of flag_type row receipt_line = elim flag_type [
    | short_receipt ↦ num_to_str (group_quantity e row.receipt)
    | invoice_exceeds_received ↦ num_to_str (group_quantity e row.receipt)
    | uom_mismatch ↦ receipt_uom_of receipt_line
    | _ ↦ none
  ]

  abbrev delta_of : FlagType → Joined e → Option String
  delta_of flag_type row = elim flag_type [
    | quantity_mismatch ↦ diff (group_quantity e row.invoice) (group_quantity e row.po)
    | price_mismatch ↦ diff (group_price e row.invoice) (group_price e row.po)
    | missing_on_invoice ↦ diff (some e.nought) (group_quantity e row.po)
    | missing_on_po ↦ diff (group_quantity e row.invoice) (some e.nought)
    | short_receipt ↦ diff (group_quantity e row.receipt) (group_quantity e row.po)
    | invoice_exceeds_received ↦ diff (group_quantity e row.invoice) (group_quantity e row.receipt)
    | uom_mismatch ↦ none
  ]

  -- toFlagValues
  unfoldable pub to_flag_values :
      String → String → String → FlagType → Joined e → ComparedLines → FlagValues
  to_flag_values workspace_id purchase_order_id invoice_id flag_type row lines =
      let po_line = and_then (line_item_id_of row.po) lines.po in
      let invoice_line = and_then (line_item_id_of row.invoice) lines.invoice in
      let receipt_line = and_then (line_item_id_of row.receipt) lines.goods_receipt in
      record {
        workspace_id = workspace_id;
        purchase_order_id = purchase_order_id;
        invoice_id = invoice_id;
        po_line_item_id = line_item_id_of row.po;
        invoice_line_item_id = line_item_id_of row.invoice;
        goods_receipt_line_item_id = line_item_id_of row.receipt;
        sku = or_null (sku_of po_line) (sku_of invoice_line);
        flag_type = line flag_type;
        po_value = po_value_of flag_type row po_line;
        received_value = received_value_of flag_type row receipt_line;
        invoice_value = invoice_value_of flag_type row invoice_line;
        po_unit_price = num_to_str (group_price e row.po);
        invoice_unit_price = num_to_str (group_price e row.invoice);
        delta = delta_of flag_type row;
        reason = build_reason e flag_type row po_line invoice_line receipt_line;
      }

  abbrev with_flag :
      (FlagType → Joined e → FlagValues)
      → Option FlagType
      → Joined e
      → List FlagValues
      → List FlagValues
  with_flag to none row flags = flags
  with_flag to (some t) row flags = to t row ∷ flags

  -- The findings of a run: SELECT * FROM joined WHERE flag_type <> 'match', one flag for each row.
  unfoldable pub line_flags : (FlagType → Joined e → FlagValues) → List (Joined e) → List FlagValues
  line_flags to [] = []
  line_flags to (row ∷ rows) =
      with_flag to (classify e row.po row.invoice row.receipt) row (line_flags to rows)

  -- currency?.trim().toUpperCase(), none when that is absent or empty
  abbrev pub currency_code : Option String → Option String
  currency_code none = none
  currency_code (some s) = non_empty (e.upper (trim s))

  abbrev currency_flag :
      String → String → String → Option String → Option String → String → String → FlagValues
  currency_flag workspace_id po_id invoice_id po_currency invoice_currency a b = record {
    workspace_id = workspace_id;
    purchase_order_id = po_id;
    invoice_id = invoice_id;
    po_line_item_id = none;
    invoice_line_item_id = none;
    goods_receipt_line_item_id = none;
    sku = none;
    flag_type = currency_mismatch;
    po_value = po_currency;
    received_value = none;
    invoice_value = invoice_currency;
    po_unit_price = none;
    invoice_unit_price = none;
    delta = none;
    reason = String.◌++◌ "Currency mismatch: the purchase order is in " (
        String.◌++◌ a (
          String.◌++◌ " but the invoice is in " (
            String.◌++◌ b
              ". Amounts are not comparable and no conversion is applied, so this needs review")));
  }

  abbrev currency_flag_for :
      (String → String → FlagValues) → Option String → Option String → Option FlagValues
  currency_flag_for flag (some a) (some b) = if a == b then none else some (flag a b)
  currency_flag_for flag _ _ = none

  -- currencyMismatchFlag
  unfoldable pub currency_mismatch_flag :
      String → String → Option String → String → Option String → Option FlagValues
  currency_mismatch_flag workspace_id po_id po_currency invoice_id invoice_currency =
      currency_flag_for (currency_flag workspace_id po_id invoice_id po_currency invoice_currency)
        (currency_code po_currency) (currency_code invoice_currency)
