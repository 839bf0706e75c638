-- ===== src/Procurement/Contract.antt =====
-- Was the order placed at the agreed price? (`contractPriceFlags` of
-- apps/api/src/procurement/comparison.service.ts)
pub mod Laws
use optra.Prelude.{
  ℕ, Bool, true, false, not, Option, none, some, List, [], ◌∷◌, ◌++◌, map, String, ◌==◌, ◌&&◌, ltb,
  leb, if◌then◌else◌, any, select, length, and_then, or_else, trim, non_empty,
}
use Prim.Native.String
use mathlib.Core.Option
use optra.Billing.Calendar.{iso_day}
use optra.Procurement.Engine.{Engine}
use optra.Procurement.Lines.{LineItem, folded}
use optra.Procurement.PriceGroups.{PriceGroup, price_groups}
use optra.Procurement.Wording.{text, joined_by}
use optra.Procurement.Flags.{
  FindingType, contract_price_variance, contract_price_unavailable, num_to_str, diff, currency_code,
}

-- A row of vendor_price_terms. Times are epoch milliseconds.
pub record PriceTerm : Type 0 where
  pub id : String
  pub workspace_id : String
  pub vendor_id : String
  pub sku_key : String
  pub unit_price : String
  pub currency : String
  pub uom : Option String
  pub effective_from : ℕ
  pub effective_to : Option ℕ
  pub source_reference : Option String

pub record Order : Type 0 where
  pub vendor_id : Option String
  pub currency : Option String
  pub ordered_at : Option ℕ
  pub created_at : ℕ

pub record ContractFlag : Type 0 where
  pub workspace_id : String
  pub po_line_item_id : Option String
  pub sku : String
  pub flag_type : FindingType
  pub po_value : Option String
  pub po_unit_price : Option String
  pub contract_unit_price : Option String
  pub contract_term_id : Option String
  pub delta : Option String
  pub reason : String

-- Half-open [from, to)
unfoldable pub is_live : ℕ → PriceTerm → Bool
is_live at_time term =
    leb term.effective_from at_time
    && elim term.effective_to [ none ↦ true | some to ↦ ltb at_time to ]

module _ (e : Engine) where
  abbrev placed_at : Order → ℕ
  placed_at po = or_else po.ordered_at po.created_at

  abbrev dated : Order → String
  dated po = elim po.ordered_at [
    | some _ ↦ String.◌++◌ "ordered " (iso_day (placed_at po))
    | none ↦
        text ("dated " ∷ iso_day (placed_at po) ∷ ", the day this order was recorded in Optra" ∷ [])
  ]

  abbrev window_text : PriceTerm → String
  window_text term = text (
      iso_day term.effective_from
      ∷ " to "
      ∷ elim term.effective_to [ none ↦ "open" | some to ↦ iso_day to ]
      ∷ [])

  -- The only element of a set, or null.
  abbrev pub only : {A : Type 0} → List A → Option A
  only (a ∷ []) = some a
  only _ = none

  abbrev base : String → PriceGroup e.Num → FindingType → String → ContractFlag
  base workspace_id group flag_type reason = record {
    workspace_id = workspace_id;
    po_line_item_id = only group.line_ids;
    sku = group.sku;
    flag_type = flag_type;
    po_value = num_to_str e (only group.prices);
    po_unit_price = num_to_str e (only group.prices);
    contract_unit_price = none;
    contract_term_id = none;
    delta = none;
    reason = reason;
  }

  abbrev unavailable : String → PriceGroup e.Num → List String → Option ContractFlag
  unavailable workspace_id group reason =
      some (base workspace_id group contract_price_unavailable (text reason))

  abbrev reference : Option String → String
  reference source = elim (and_then source non_empty) [ none ↦ "" | some r ↦ String.◌++◌ ", " r ]

  abbrev variance : String → Order → PriceGroup e.Num → PriceTerm → e.Num → e.Num → ContractFlag
  variance workspace_id po group term ordered agreed =
      record (base workspace_id group contract_price_variance (
        text (
          group.sku
          ∷ " was ordered at "
          ∷ e.show ordered
          ∷ " but the agreed price is "
          ∷ e.show agreed
          ∷ " ("
          ∷ dated po
          ∷ reference term.source_reference
          ∷ ")"
          ∷ []))) {
            contract_unit_price = some term.unit_price;
            contract_term_id = some term.id;
            delta = diff e (some ordered) (some agreed);
          }

  -- The units of the order against the unit of the term: none when they can be compared.
  abbrev pub unit_fault : PriceGroup e.Num → PriceTerm → Option (List String)
  unit_fault group term =
      if ltb 1 (length group.uoms)
      then some (
          "The purchase order lists more than one unit for " ∷ group.sku
          ∷ ", so there is no single price to compare against the contract" ∷ [])
      else elim (folded e term.uom) [
        | none ↦ none
        | some term_uom ↦ elim (only group.uoms) [
          | none ↦ none
          | some order_uom ↦
              if term_uom == order_uom
              then none
              else some (
                  "The agreed price for "
                  ∷ group.sku
                  ∷ " is per "
                  ∷ or_else term.uom "null"
                  ∷ " but the order is per "
                  ∷ order_uom
                  ∷ ". Units are captured, never converted, so no comparison is made"
                  ∷ [])
        ]
      ]

  abbrev pub in_currency : Order → PriceTerm → Bool
  in_currency po term = elim (currency_code e po.currency) [
    | none ↦ false
    | some c ↦ term.currency == c
  ]

  abbrev pub judge_price :
      String → Order → PriceGroup e.Num → PriceTerm → Option e.Num → Option ContractFlag
  judge_price workspace_id po group term none = unavailable workspace_id group (
      "The purchase order states more than one unit price for " ∷ group.sku
      ∷ ", so there is no single price to compare against the contract" ∷ [])
  judge_price workspace_id po group term (some ordered) =
      if e.same ordered (e.number term.unit_price)
      then none
      else some (variance workspace_id po group term ordered (e.number term.unit_price))

  abbrev or_fault :
      String → PriceGroup e.Num → Option (List String) → Option ContractFlag → Option ContractFlag
  or_fault workspace_id group none verdict = verdict
  or_fault workspace_id group (some reason) verdict = unavailable workspace_id group reason

  -- The one live term against the group.
  unfoldable pub judge_term : String → Order → PriceGroup e.Num → PriceTerm → Option ContractFlag
  judge_term workspace_id po group term =
      if in_currency po term
      then or_fault workspace_id group (unit_fault group term)
          (judge_price workspace_id po group term (only group.prices))
      else unavailable workspace_id group (
          "The agreed price for "
          ∷ group.sku
          ∷ " is in "
          ∷ term.currency
          ∷ " but the purchase order is in "
          ∷ or_else (Option.map (λ s. e.upper (trim s)) po.currency) "no stated currency"
          ∷ ". No conversion is applied, so this needs review"
          ∷ [])

  abbrev judge_live :
      String → Order → PriceGroup e.Num → List PriceTerm → List PriceTerm → Option ContractFlag
  judge_live workspace_id po group for_sku [] = unavailable workspace_id group (
      "No agreed price covers this order for "
      ∷ group.sku
      ∷ ": the contract ran "
      ∷ joined_by ", " (map window_text for_sku)
      ∷ ", and this order is "
      ∷ dated po
      ∷ [])
  judge_live workspace_id po group for_sku (term ∷ []) = judge_term workspace_id po group term
  judge_live workspace_id po group for_sku (term ∷ other ∷ more) = unavailable workspace_id group (
      e.count_text (length (term ∷ other ∷ more))
      ∷ " agreed prices cover this order for "
      ∷ group.sku
      ∷ " ("
      ∷ dated po
      ∷ "); the system will not choose between them"
      ∷ [])

  -- The body of the loop over the groups: at most one flag. No term for the SKU is no finding.
  unfoldable pub judge : String → Order → List PriceTerm → PriceGroup e.Num → Option ContractFlag
  judge workspace_id po terms group =
      let for_sku = select (λ (t : PriceTerm). t.sku_key == group.key) terms in
      elim for_sku [
        | [] ↦ none
        | t ∷ ts ↦
            judge_live workspace_id po group (t ∷ ts) (select (is_live (placed_at po)) (t ∷ ts))
      ]

  abbrev with_flag : Option ContractFlag → List ContractFlag → List ContractFlag
  with_flag none flags = flags
  with_flag (some f) flags = f ∷ flags

  abbrev judge_all : String → Order → List PriceTerm → List (PriceGroup e.Num) → List ContractFlag
  judge_all workspace_id po terms [] = []
  judge_all workspace_id po terms (group ∷ groups) =
      with_flag (judge workspace_id po terms group) (judge_all workspace_id po terms groups)

  -- The terms of the order's vendor for the SKUs of the order.
  abbrev terms_for : String → String → List (PriceGroup e.Num) → List PriceTerm → List PriceTerm
  terms_for workspace_id vendor_id groups terms =
      select
        (λ (t : PriceTerm).
          t.workspace_id == workspace_id
          && t.vendor_id == vendor_id
          && any (λ (g : PriceGroup e.Num). g.key == t.sku_key) groups)
        terms

  abbrev flags_from :
      String → Order → List (PriceGroup e.Num) → List PriceTerm → List ContractFlag × Option ℕ
  flags_from workspace_id po groups [] = ([], none)
  flags_from workspace_id po groups (t ∷ ts) =
      (judge_all workspace_id po (t ∷ ts) groups, some (length (t ∷ ts)))

  -- contractPriceFlags: the flags, and how many terms were looked at
  unfoldable pub contract_price_flags :
      String → Order → List LineItem → List PriceTerm → List ContractFlag × Option ℕ
  contract_price_flags workspace_id po items terms = elim po.vendor_id [
    | none ↦ ([], none)
    | some vendor_id ↦
        let groups = price_groups e items [] in
        flags_from workspace_id po groups (terms_for workspace_id vendor_id groups terms)
  ]
