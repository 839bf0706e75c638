-- ===== src/Tests/Procurement.antt =====
-- An order of ten, an invoice for ten and a receipt of seven, with numbers as natural numbers.
use optra.Prelude.{
  arith, ℕ, ◌+◌, ◌≤◌, ◌≡◌, ◌↔◌, inl, inr, refl, none, some, String, List, [], ◌∷◌, ◌==◌, eqb, ltb,
  if◌then◌else◌, trim, first,
}
use optra.Billing.Calendar.{iso_day}
use optra.Procurement.Engine.{Engine}
use optra.Procurement.Lines.{Cells, folded, row_key}
use optra.Procurement.Lines.Keys.{identity, row_key-identity}
use optra.Procurement.Group.{Group, grouped, group_of, units}
use optra.Procurement.Ladder.{uom_conflict, Joined, classify, joined}
use optra.Procurement.Ladder.Laws.{two_way, classify-two_way}
use optra.Procurement.Ladder.Agreed.{IsAgreed, classify-none}
use optra.Procurement.Ladder.Units.{classify-one_unit}
use optra.Procurement.Ladder.Conservation.{sum_of, lines_of, joined-conserved}
use optra.Procurement.Wording.{text}
use optra.Procurement.Flags.{contract_price_variance, ComparedLines}
use optra.Procurement.PriceGroups.{PriceGroup}
use optra.Procurement.Contract.{PriceTerm, Order, ContractFlag, is_live, judge, judge_term}
use optra.Procurement.Contract.Laws.{IsOffContract, live_terms, judge-IsOffContract}
use optra.Procurement.Decisions.{Flag, open_flag, dismissed, Store}
use optra.Procurement.Decisions.Laws.{
  Action, dismiss, decide, act_all, IsExtension, act_all-IsExtension, has_flag_id,
  act_all-keeps_dismissed,
}

abbrev sum : List ℕ → ℕ
sum [] = 0
sum (n ∷ ns) = n + sum ns

abbrev head_or_zero : List ℕ → ℕ
head_or_zero [] = 0
head_or_zero (n ∷ ns) = n

abbrev number_of : String → ℕ
number_of s = if s == "10" then 10 else if s == "7" then 7 else 3

abbrev engine : Engine
engine = record {
  Num = ℕ;
  try_cast = λ s. if s == "unknown" then none else some (number_of s);
  number = number_of;
  finite_number = λ s. some (number_of s);
  total = sum;
  least = head_or_zero;
  greatest = head_or_zero;
  greater = λ a b. ltb b a;
  same = eqb;
  show = λ _. "n";
  count_text = λ _. "n";
  difference = λ _ _. some "d";
  nought = 0;
  lower = λ s. s;
  upper = λ s. s;
}

abbrev row : String → String → Cells
row id quantity = record {
  id = id;
  line_number = 1;
  mk = "sku::a";
  quantity = some quantity;
  unit_price = some "3";
  uom = none;
}

abbrev ten : Group ℕ
ten = record {
  line_item_id = "p1";
  lines = 1;
  quantity = some 10;
  price_min = some 3;
  price_max = some 3;
  uom_count = 0;
  uom = none;
}

abbrev seven : Group ℕ
seven = record ten { line_item_id = "g1"; quantity = some 7 }

abbrev no_cells : List Cells
no_cells = []

joined-conserved_example :
    (sum_of
        (λ (j : Joined engine). lines_of j.po)
        (joined engine (row "p1" "10" ∷ row "p2" "7" ∷ []) (row "i1" "10" ∷ []) [])
      ≡ 2)
    × (sum_of
          (λ (j : Joined engine). lines_of j.invoice)
          (joined engine (row "p1" "10" ∷ row "p2" "7" ∷ []) (row "i1" "10" ∷ []) [])
        ≡ 1)
    × (sum_of
          (λ (j : Joined engine). lines_of j.receipt)
          (joined engine (row "p1" "10" ∷ row "p2" "7" ∷ []) (row "i1" "10" ∷ []) [])
        ≡ 0)
joined-conserved_example =
    joined-conserved engine (row "p1" "10" ∷ row "p2" "7" ∷ []) (row "i1" "10" ∷ []) []

classify-none_example :
    (classify engine (some ten) (some ten) (some seven) ≡ none)
    ↔ IsAgreed engine (some ten) (some ten) (some seven)
classify-none_example = classify-none engine (some ten) (some ten) (some seven)

same_units :
    uom_conflict (some ten) (some seven) (group_of engine "sku::a" (row "g1" "unknown" ∷ []))
    ≡ uom_conflict (some ten) (some seven) none
unfolding group_of grouped units
same_units = refl

classify-two_way_example :
    classify engine (some ten) (some seven) (group_of engine "sku::a" (row "g1" "unknown" ∷ []))
    ≡ two_way engine ten seven
classify-two_way_example =
    classify-two_way engine ten seven "sku::a" (row "g1" "unknown" ∷ []) (inl refl) same_units

row_key-identity_example :
    (row_key engine "1" (some " a ") none ≡ row_key engine "2" (some "a") (some "b"))
    ↔ (identity engine "1" (some " a ") none ≡ identity engine "2" (some "a") (some "b"))
row_key-identity_example = row_key-identity engine "1" "2" (some " a ") none (some "a") (some "b")

abbrev no_lines : ComparedLines
no_lines = record { po = λ _. none; invoice = λ _. none; goods_receipt = λ _. none }

abbrev first_term : PriceTerm
first_term = record {
  id = "t1";
  workspace_id = "w";
  vendor_id = "v";
  sku_key = "a";
  unit_price = "7";
  currency = "EUR";
  uom = none;
  effective_from = 0;
  effective_to = some 100;
  source_reference = none;
}

abbrev next_term : PriceTerm
next_term = record first_term { id = "t2"; effective_from = 100; effective_to = none }

zero-le : 0 ≤ 100
zero-le = omega arith

abbrev order : Order
order = record {
  vendor_id = some "v";
  currency = some "EUR";
  ordered_at = some 50;
  created_at = 60;
}

abbrev group : PriceGroup ℕ
group = record { key = "a"; sku = "A"; line_ids = "p1" ∷ []; prices = 10 ∷ []; uoms = [] }

abbrev terms : List PriceTerm
terms = first_term ∷ next_term ∷ []

abbrev variance : ContractFlag
variance = record {
  workspace_id = "w";
  po_line_item_id = some "p1";
  sku = "A";
  flag_type = contract_price_variance;
  po_value = some "n";
  po_unit_price = some "n";
  contract_unit_price = some "7";
  contract_term_id = some "t1";
  delta = some "d";
  reason = text (
      "A" ∷ " was ordered at " ∷ "n" ∷ " but the agreed price is " ∷ "n" ∷ " ("
      ∷ "ordered 1970-01-01" ∷ "" ∷ ")" ∷ []);
}

varies : judge engine "w" order terms group ≡ some variance
unfolding judge judge_term is_live folded iso_day trim
varies = refl

judge-IsOffContract_example :
    IsOffContract engine "w" order group (live_terms engine "w" order group terms)
judge-IsOffContract_example = judge-IsOffContract engine "w" order group terms variance varies refl

abbrev closed_flag : Flag
closed_flag = record {
  id = "f1";
  workspace_id = "w";
  purchase_order_id = "po";
  invoice_id = "inv";
  comparison_run_id = some "r1";
  status = dismissed;
  dismissed_at = some 5;
  dismissed_by = some "ann";
}

abbrev open_one : Flag
open_one = record closed_flag {
  id = "f2";
  status = open_flag;
  dismissed_at = none;
  dismissed_by = none;
}

abbrev decisions_store : Store
decisions_store = record { flags = closed_flag ∷ open_one ∷ []; decisions = []; members = [] }

abbrev actions : List Action
actions = dismiss 9 "w" "f1" "bob" ∷ decide 10 "w" "f2" "bob" "accepted" (some " fine ") ∷ []

act_all-IsExtension_example :
    IsExtension decisions_store.decisions (act_all actions decisions_store).decisions
act_all-IsExtension_example = act_all-IsExtension actions decisions_store

act_all-keeps_dismissed_example :
    first (has_flag_id "f1") (act_all actions decisions_store).flags ≡ some closed_flag
act_all-keeps_dismissed_example =
    act_all-keeps_dismissed actions decisions_store "f1" closed_flag refl refl

abbrev boxed : String → List Cells
boxed id = record (row id "10") { uom = some "BOX" } ∷ row id "10" ∷ []

boxes_match :
    classify engine
      (group_of engine "sku::a" (boxed "p"))
      (group_of engine "sku::a" (boxed "i"))
      (group_of engine "sku::a" [])
    ≡ none
unfolding classify group_of grouped units
boxes_match = refl

abbrev order_unit : String
order_unit = "BOX"

abbrev invoice_unit : String
invoice_unit = "BOX"

classify-one_unit_example : order_unit ≡ invoice_unit
classify-one_unit_example =
    classify-one_unit engine "sku::a" order_unit invoice_unit (boxed "p") (boxed "i") [] boxes_match
      (inl refl) (inr (inl refl))
