-- ===== src/Tests/Intake.antt =====
-- An order that was read from a photo: its review, and the comparison that follows.
use optra.Prelude.{
  ℕ, ◌≤◌, ◌≡◌, ◌⊎◌, inr, refl, Bool, true, false, String, ◌==◌, Option, none, some, [], ◌∷◌, All,
  any, select, length, trim,
}
use optra.Http.{ok}
use optra.Procurement.Documents.{
  purchase_order, done, Header, Line, Documents, FieldKey, Values, quantity, is_document,
  is_line_of,
}
use optra.Procurement.Review.{
  Given, omitted, given, Request, attempt, review_transaction, reviewed_lines,
}
use optra.Procurement.Review.Once.{confirmations, confirmations-le}
use optra.Procurement.Review.Originals.{HasOriginal, reviewed_lines-HasOriginal}
use optra.Procurement.Review.Numbering.{HasKey}
use optra.Procurement.Review.Counting.{review-counts}
use optra.Procurement.Columns.{Cell, map_row_to_line_item}
use optra.Procurement.Columns.Laws.{filled, fields, map_row_to_line_item-filled}
use optra.Procurement.Queue.{
  PairJob, Run, newest, running, succeeded, reconcile, is_stale, enqueue_for_document,
}
use optra.Procurement.Queue.Ready.{IsReadyPair, enqueue_for_document-IsReadyPair}
use optra.Procurement.Queue.Worker.{is_up_to_date}
use optra.Procurement.Queue.Fresh.{RunIn, IsFresh, is_up_to_date-IsFresh, reconcile-swept}

abbrev head : String → Option String → Bool → Header
head id order needs_review = record {
  id = id;
  workspace_id = "w";
  purchase_order_id = order;
  status = done;
  review_required = needs_review;
  reviewed_at = none;
  reviewed_by = none;
  row_count = some 2;
  updated_at = 10;
}

abbrev read_values : Values
read_values = λ f. some "7"

abbrev read_line : String → ℕ → Line
read_line id n = record {
  id = id;
  workspace_id = "w";
  document_id = "po";
  line_number = some n;
  values = read_values;
  source_kind = "image-extraction";
  edited_at = none;
  edited_by = none;
  extracted_values = some read_values;
}

abbrev documents : Documents
documents = record {
  purchase_orders = head "po" none true ∷ [];
  invoices = head "inv" (some "po") false ∷ [];
  receipts = [];
  po_lines = read_line "a" 1 ∷ read_line "b" 2 ∷ [];
  invoice_lines = [];
  receipt_lines = [];
}

-- Line b is kept with another quantity, line a is deleted, and two lines are new.
abbrev edits : FieldKey → Given
edits quantity = given (some "8")
edits _ = omitted

abbrev request : Request
request = record {
  kind = purchase_order;
  workspace_id = "w";
  id = "po";
  user_id = "u";
  now = 20;
  lines =
      record { id = some "b"; field = edits }
      ∷ record { id = none; field = edits }
      ∷ record { id = none; field = edits }
      ∷ [];
  new_id = λ n. "new";
}

abbrev same_number : String → String → Bool
same_number a b = a == b

confirmations-le_example :
    confirmations same_number purchase_order "w" "po" (request ∷ request ∷ []) documents ≤ 1
confirmations-le_example =
    confirmations-le same_number purchase_order "w" "po" (request ∷ request ∷ []) documents

new-fresh : (n : ℕ) → (request.new_id n == "b") ≡ false
new-fresh n = refl

read-HasOriginal : All (HasOriginal "b" read_values) documents.po_lines
read-HasOriginal = (inr refl, (inr refl, tt))

reviewed_lines-HasOriginal_example : All (HasOriginal "b" read_values) (
    reviewed_lines same_number request.new_id purchase_order "w" "po" "u" 20 request.lines
      documents.po_lines)
reviewed_lines-HasOriginal_example =
    reviewed_lines-HasOriginal same_number "b" read_values request.new_id purchase_order "w" "po"
      "u" 20 request.lines documents.po_lines new-fresh read-HasOriginal

lines-HasKey : HasKey documents.po_lines
lines-HasKey = (refl, (refl, tt))

abbrev reviewed : Documents
reviewed = record documents {
  purchase_orders =
      record (head "po" none true) {
        reviewed_at = some 20;
        reviewed_by = some "u";
        row_count = some 3;
        updated_at = 20;
      }
      ∷ [];
  po_lines =
      reviewed_lines same_number request.new_id purchase_order "w" "po" "u" 20 request.lines
        documents.po_lines;
}

succeeds : attempt same_number request documents ≡ ok reviewed
unfolding review_transaction
succeeds = refl

review-counts_example :
    (length (select (is_line_of "w" "po") reviewed.po_lines) ≡ 3)
    × All (λ h. (is_document "w" "po" h ≡ false) ⊎ (h.row_count ≡ some 3)) reviewed.purchase_orders
review-counts_example = review-counts same_number request documents reviewed lines-HasKey succeeds

enqueue_for_document-IsReadyPair_example :
    All (IsReadyPair reviewed) (enqueue_for_document true purchase_order "po" reviewed)
enqueue_for_document-IsReadyPair_example =
    enqueue_for_document-IsReadyPair reviewed true purchase_order "po"

abbrev job : PairJob
job = record { workspace_id = "w"; purchase_order_id = "po"; invoice_id = "inv" }

abbrev run_at : ℕ → Run
run_at n = record {
  id = "r";
  workspace_id = "w";
  purchase_order_id = "po";
  invoice_id = "inv";
  status = succeeded;
  initiated_by = none;
  strategy_version = "3";
  started_at = n;
  finished_at = some n;
  last_error = none;
}

abbrev hanging : Run
hanging = record (run_at 30) { status = running; finished_at = none }

abbrev above : String → String → Bool
above a b = false

unchanged : is_up_to_date above job reviewed (run_at 15 ∷ run_at 25 ∷ []) ≡ true
unfolding is_up_to_date newest
unchanged = refl

is_up_to_date-IsFresh_example : IsFresh job reviewed (run_at 15 ∷ run_at 25 ∷ [])
is_up_to_date-IsFresh_example =
    is_up_to_date-IsFresh above job reviewed (run_at 15 ∷ run_at 25 ∷ []) unchanged

abbrev message : String → String
message id = "Comparison did not finish."

reconcile-swept_example :
    (any (is_stale 700000) (reconcile message 700000 (hanging ∷ run_at 25 ∷ [])) ≡ false)
    × All
        (λ r.
          (is_stale 700000 r ≡ true)
          ⊎ RunIn r (reconcile message 700000 (hanging ∷ run_at 25 ∷ [])))
        (hanging ∷ run_at 25 ∷ [])
reconcile-swept_example = reconcile-swept message 700000 (hanging ∷ run_at 25 ∷ [])

abbrev ten_units : Cell
ten_units = record { header = " units "; value = "10 " }

-- The column is one of the nine: the quantity is read from it.
read_once : (map_row_to_line_item (λ s. s) (ten_units ∷ [])).quantity ≡ some "10"
unfolding map_row_to_line_item trim
read_once = refl

map_row_to_line_item-filled_example :
    filled (fields (map_row_to_line_item (λ s. s) (ten_units ∷ []))) ≤ 1
map_row_to_line_item-filled_example = map_row_to_line_item-filled (λ s. s) ten_units
