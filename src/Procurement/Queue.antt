-- ===== src/Procurement/Queue.antt =====
-- Which comparisons a document that has been parsed or reviewed asks for, and the recovery of runs
-- that a dead process left behind (apps/api/src/procurement/procurement-compare.service.ts). A time
-- is in milliseconds. Bull's queue is the log of the calls of `add`.
pub mod Ready
pub mod Worker
pub mod Fresh
use optra.Prelude.{
  ℕ, ◌-◌, Bool, true, false, not, ◌&&◌, Option, none, some, List, [], ◌∷◌, map, String, ◌==◌, any,
  first, select, update, if◌then◌else◌, ltb, max,
}
use optra.Procurement.Documents.{
  Kind, purchase_order, invoice, goods_receipt, Status, pending, processing, done, failed, is_done,
  Header, Documents, is_review_pending,
}

pub record PairJob : Type 0 where
  pub workspace_id : String
  pub purchase_order_id : String
  pub invoice_id : String

pub record ResolvedPair : Type 0 where
  pub job : PairJob
  pub input_version_ms : ℕ

-- Whether a receipt of the order may still change what a comparison says.
unfoldable pub is_unsettled : Header → Bool
is_unsettled h = elim h.status [
  | pending ↦ true
  | processing ↦ true
  | done ↦ is_review_pending h
  | failed ↦ false
]

abbrev pub is_id : String → Header → Bool
is_id id h = h.id == id

-- A receipt of the order, or an invoice linked to it.
abbrev pub answers : String → String → Header → Bool
answers workspace_id order_id h =
    (h.workspace_id == workspace_id)
    && (elim h.purchase_order_id [ none ↦ false | some o ↦ o == order_id ])

abbrev pub is_ready : Header → Bool
is_ready h = is_done h.status && not (is_review_pending h)

unfoldable pub newest : List Header → ℕ
newest [] = 0
newest (h ∷ hs) = max h.updated_at (newest hs)

-- receiptState: nothing when the comparison waits, or else the newest receipt that is done.
abbrev receipts_of : String → String → Documents → List Header
receipts_of workspace_id order_id s = select (answers workspace_id order_id) s.receipts

unfoldable pub receipt_state : String → String → Documents → Option ℕ
unfolding is_unsettled newest
receipt_state workspace_id order_id s =
    if any is_unsettled (receipts_of workspace_id order_id s)
    then none
    else some (newest (select (λ h. is_done h.status) (receipts_of workspace_id order_id s)))

abbrev pub pair_of : Header → Header → ℕ → ResolvedPair
pair_of po inv receipts_ms = record {
  job = record { workspace_id = po.workspace_id; purchase_order_id = po.id; invoice_id = inv.id };
  input_version_ms = max (max po.updated_at inv.updated_at) receipts_ms;
}

abbrev pairs_with : Header → List Header → Option ℕ → List ResolvedPair
pairs_with po invoices none = []
pairs_with po invoices (some receipts_ms) = map (λ inv. pair_of po inv receipts_ms) invoices

-- pairsForPurchaseOrder
unfoldable pub pairs_for_order : Option Header → Documents → List ResolvedPair
pairs_for_order none s = []
pairs_for_order (some po) s =
    if is_ready po
    then pairs_with po (select (λ h. answers po.workspace_id po.id h && is_ready h) s.invoices)
        (receipt_state po.workspace_id po.id s)
    else []

-- The invoice's order, in the invoice's workspace.
abbrev linked_order : Header → String → Documents → Option Header
linked_order inv order_id s =
    first (λ h. is_id order_id h && (h.workspace_id == inv.workspace_id) && is_ready h)
      s.purchase_orders

abbrev pair_with_order : Header → Option Header → Documents → List ResolvedPair
pair_with_order inv none s = []
pair_with_order inv (some po) s = pairs_with po (inv ∷ []) (receipt_state inv.workspace_id po.id s)

unfoldable pub pairs_for_invoice : Option Header → Documents → List ResolvedPair
pairs_for_invoice none s = []
pairs_for_invoice (some inv) s = elim inv.purchase_order_id [
  | none ↦ []
  | some order_id ↦ if is_ready inv then pair_with_order inv (linked_order inv order_id s) s else []
]

abbrev order_of_receipt : Option Header → Documents → Option Header
order_of_receipt none s = none
order_of_receipt (some receipt) s = elim receipt.purchase_order_id [
  | none ↦ none
  | some order_id ↦ first (is_id order_id) s.purchase_orders
]

-- pairsFor
unfoldable pub pairs_for : Kind → String → Documents → List ResolvedPair
unfolding pairs_for_order pairs_for_invoice
pairs_for purchase_order id s = pairs_for_order (first (is_id id) s.purchase_orders) s
pairs_for invoice id s = pairs_for_invoice (first (is_id id) s.invoices) s
pairs_for goods_receipt id s = pairs_for_order (order_of_receipt (first (is_id id) s.receipts) s) s

-- enqueueForDocument: the pairs that are added, while AUTO_COMPARE is on.
unfoldable pub enqueue_for_document : Bool → Kind → String → Documents → List ResolvedPair
unfolding pairs_for
enqueue_for_document enabled kind id s = if enabled then pairs_for kind id s else []

pub data RunStatus : Type 0 where
  running succeeded run_failed : RunStatus

abbrev pub is_running : RunStatus → Bool
is_running running = true
is_running _ = false

pub record Run : Type 0 where
  pub id : String
  pub workspace_id : String
  pub purchase_order_id : String
  pub invoice_id : String
  pub status : RunStatus
  pub initiated_by : Option String
  pub strategy_version : String
  pub started_at : ℕ
  pub finished_at : Option ℕ
  pub last_error : Option String

abbrev pub compare_run_stale_ms : ℕ
compare_run_stale_ms = 600000

abbrev pub is_stale : ℕ → Run → Bool
is_stale now run = is_running run.status && ltb run.started_at (now - compare_run_stale_ms)

unfoldable pub abandoned : (String → String) → ℕ → Run → Run
abandoned message now run = record run {
  status = run_failed;
  last_error = some (message run.id);
  finished_at = some now;
}

-- reconcile, with the message that carries a random reference.
unfoldable pub reconcile : (String → String) → ℕ → List Run → List Run
unfolding abandoned
reconcile message now = update (is_stale now) (abandoned message now)
