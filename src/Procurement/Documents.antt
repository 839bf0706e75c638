-- ===== src/Procurement/Documents.antt =====
-- The procurement documents and their lines, as the review and the queue of comparisons use them
-- (packages/db/src/schema: purchaseOrders.ts, invoices.ts, goodsReceipts.ts and their line tables;
-- apps/api/src/procurement: procurement-kind.ts, procurement-review.ts).
use optra.Prelude.{ℕ, Bool, true, false, not, ◌&&◌, Option, List, String, ◌==◌, is_some}

pub data Kind : Type 0 where
  purchase_order invoice goods_receipt : Kind

-- docLabel
unfoldable pub doc_label : Kind → String
doc_label purchase_order = "Purchase order"
doc_label invoice = "Invoice"
doc_label goods_receipt = "Goods receipt"

pub data Status : Type 0 where
  pending processing done failed : Status

abbrev pub is_done : Status → Bool
is_done done = true
is_done _ = false

-- The head of a document of any of the three kinds; an order has no link.
pub record Header : Type 0 where
  pub id : String
  pub workspace_id : String
  pub purchase_order_id : Option String
  pub status : Status
  pub review_required : Bool
  pub reviewed_at : Option ℕ
  pub reviewed_by : Option String
  pub row_count : Option ℕ
  pub updated_at : ℕ

-- The columns of a line that a reviewer may edit; no table has all of them.
pub data FieldKey : Type 0 where
  sku description uom quantity unit_price line_total : FieldKey
  quantity_received quantity_accepted quantity_rejected : FieldKey

pub data FieldType : Type 0 where
  text numeric : FieldType

abbrev pub Values : Type 0
Values = FieldKey → Option String

pub record Line : Type 0 where
  pub id : String
  pub workspace_id : String
  pub document_id : String
  pub line_number : Option ℕ
  pub values : Values
  pub source_kind : String
  pub edited_at : Option ℕ
  pub edited_by : Option String
  -- the first values that an edit replaced
  pub extracted_values : Option Values

pub record Documents : Type 0 where
  pub purchase_orders : List Header
  pub invoices : List Header
  pub receipts : List Header
  pub po_lines : List Line
  pub invoice_lines : List Line
  pub receipt_lines : List Line

abbrev pub headers_of : Kind → Documents → List Header
headers_of purchase_order s = s.purchase_orders
headers_of invoice s = s.invoices
headers_of goods_receipt s = s.receipts

abbrev pub lines_of : Kind → Documents → List Line
lines_of purchase_order s = s.po_lines
lines_of invoice s = s.invoice_lines
lines_of goods_receipt s = s.receipt_lines

abbrev pub with_headers : Kind → List Header → Documents → Documents
with_headers purchase_order hs s = record s { purchase_orders = hs }
with_headers invoice hs s = record s { invoices = hs }
with_headers goods_receipt hs s = record s { receipts = hs }

abbrev pub with_lines : Kind → List Line → Documents → Documents
with_lines purchase_order ls s = record s { po_lines = ls }
with_lines invoice ls s = record s { invoice_lines = ls }
with_lines goods_receipt ls s = record s { receipt_lines = ls }

abbrev pub is_document : String → String → Header → Bool
is_document workspace_id id h = (h.id == id) && (h.workspace_id == workspace_id)

abbrev pub is_line_of : String → String → Line → Bool
is_line_of workspace_id id l = (l.workspace_id == workspace_id) && (l.document_id == id)

-- isReviewPending, which `reviewCleared` negates
abbrev pub is_review_pending : Header → Bool
is_review_pending h = h.review_required && not (is_some h.reviewed_at)
