-- ===== src/Tests/Compare.antt =====
-- An order and an invoice that differ in one quantity, compared without enforcement.
use optra.Prelude.{ℕ, true, false, none, some, String, [], ◌∷◌}
use optra.Numbers.{Numbers}
use optra.Billing.Plans.{EnvReader}
use optra.Procurement.Engine.{Engine}
use optra.Procurement.Lines.{LineItem}
use optra.Procurement.Compare.{Document, Row, Documents, State, compare}
use optra.Procurement.Compare.Laws.{IsConsistent, compare-IsConsistent}

abbrev js : Numbers
js = record {
  Double = ℕ;
  number = λ _. 2;
  is_finite = λ _. true;
  is_positive = λ _. true;
  micros = λ n. n;
}

abbrev off : EnvReader
off _ = none

abbrev texts : Engine
texts = record {
  Num = String;
  try_cast = λ s. some s;
  number = λ s. s;
  finite_number = λ s. some s;
  total = λ _. "10";
  least = λ _. "3";
  greatest = λ _. "3";
  greater = λ _ _. false;
  same = λ _ _. false;
  show = λ s. s;
  count_text = λ _. "n";
  difference = λ _ _. none;
  nought = "0";
  lower = λ s. s;
  upper = λ s. s;
}

abbrev document : String → Document
document id = record {
  id = id;
  workspace_id = "w";
  purchase_order_id = none;
  is_done = true;
  review_required = false;
  reviewed_at = none;
  currency = none;
  vendor_id = none;
  ordered_at = none;
  created_at = 0;
}

abbrev line_of : String → String → Row LineItem
line_of document_id id = record {
  workspace_id = "w";
  document_id = document_id;
  item = record {
    id = id;
    line_number = 1;
    sku = some "a";
    description = none;
    quantity = some "10";
    unit_price = some "3";
    uom = none;
  };
}

abbrev documents : Documents
documents = record {
  purchase_orders = document "po" ∷ [];
  invoices = document "inv" ∷ [];
  receipts = [];
  po_lines = line_of "po" "p1" ∷ [];
  invoice_lines = line_of "inv" "i1" ∷ [];
  receipt_lines = [];
  terms = [];
}

abbrev state : State
state = record {
  runs = [];
  flags = [];
  billing = record { workspaces = []; subscriptions = []; usage_events = []; billing_events = [] };
}

compare-IsConsistent_example :
    IsConsistent "r1" state
      (compare texts "w" "r1" js off 1700000000000 "u1" true "po" "inv" documents state).0
      (compare texts "w" "r1" js off 1700000000000 "u1" true "po" "inv" documents state).1
compare-IsConsistent_example =
    compare-IsConsistent texts "w" "r1" js off 1700000000000 "u1" true "po" "inv" documents state
