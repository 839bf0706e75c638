-- ===== src/Procurement/Compare.antt =====
-- One comparison of an order with an invoice (`compare`, `loadReadyPo` and `loadReadyInvoice` of
-- apps/api/src/procurement/comparison.service.ts, isReviewPending of procurement-review.ts). Whether
-- the engine or the last transaction fails is an argument. Of a run, who started it, the version of the
-- rules and the receipts that it read are left out.
pub mod Laws
use optra.Prelude.{
  ℕ, Bool, true, false, not, Option, none, some, List, [], ◌∷◌, ◌++◌, map, String, ◌==◌, ◌&&◌, ◌||◌,
  eqb, ltb, if◌then◌else◌, first, any, select, update, length, is_some,
}
use Prim.Native.String
use optra.Numbers.{Numbers}
use optra.Http.{HttpError, bad_request, not_found, Result, ok, fail, ◌>>=◌, ◌>>◌, guard}
use optra.Billing.Plans.{EnvReader}
use optra.Billing.Ledger.{Ledger}
use optra.Billing.Store
use optra.Billing.Gate.{PairCheck, assert_matched_lines}
use optra.Procurement.Engine.{Engine}
use optra.Procurement.Lines.{LineItem, ReceiptLine, cells_of, receipt_cells_of}
use optra.Procurement.Ladder.{FlagType, Joined, joined}
use optra.Procurement.Flags.{
  FlagValues, ComparedLines, to_flag_values, line_flags, currency_mismatch_flag,
}
use optra.Procurement.Contract.{Order, PriceTerm, ContractFlag, contract_price_flags}

-- A purchase order, an invoice or a goods receipt. `purchase_order_id` is the link of the last two.
pub record Document : Type 0 where
  pub id : String
  pub workspace_id : String
  pub purchase_order_id : Option String
  pub is_done : Bool
  pub review_required : Bool
  pub reviewed_at : Option ℕ
  pub currency : Option String
  pub vendor_id : Option String
  pub ordered_at : Option ℕ
  pub created_at : ℕ

-- A line with the document that it belongs to.
pub record Row (A : Type 0) : Type 0 where
  pub workspace_id : String
  pub document_id : String
  pub item : A

pub record Documents : Type 0 where
  pub purchase_orders : List Document
  pub invoices : List Document
  pub receipts : List Document
  pub po_lines : List (Row LineItem)
  pub invoice_lines : List (Row LineItem)
  pub receipt_lines : List (Row ReceiptLine)
  pub terms : List PriceTerm

-- isReviewPending
abbrev pub is_review_pending : Document → Bool
is_review_pending d = d.review_required && not (is_some d.reviewed_at)

abbrev pub found : Option Document → String → Result Document
found none name = fail (not_found (String.◌++◌ name " not found"))
found (some d) name = ok d

-- loadReadyPo and loadReadyInvoice
unfoldable pub load_ready : String → String → String → List Document → Result Document
load_ready name workspace_id id documents = do
  d ← found (first (λ d. d.id == id && d.workspace_id == workspace_id) documents) name
  guard d.is_done (bad_request (String.◌++◌ name " has not finished parsing yet"))
  guard (not (is_review_pending d))
      (bad_request (String.◌++◌ name " needs review before it can be compared"))
  ok d

abbrev items_of : {A : Type 0} → List (Row A) → List A
items_of [] = []
items_of (r ∷ rs) = r.item ∷ items_of rs

abbrev pub lines_of : {A : Type 0} → String → String → List (Row A) → List A
lines_of workspace_id document_id rows =
    items_of (select (λ r. r.workspace_id == workspace_id && r.document_id == document_id) rows)

abbrev is_linked : Document → Option String → Bool
is_linked po none = true
is_linked po (some id) = id == po.id

abbrev is_empty : {A : Type 0} → List A → Bool
is_empty [] = true
is_empty (_ ∷ _) = false

-- The finished receipts of the order.
abbrev pub receipts_of : String → Document → List Document → List Document
receipts_of workspace_id po receipts =
    select
      (λ r.
        r.workspace_id == workspace_id
        && is_some r.purchase_order_id
        && is_linked po r.purchase_order_id
        && r.is_done)
      receipts

-- What a comparison has read when it reaches the gate.
pub record Prepared : Type 0 where
  pub po : Document
  pub invoice : Document
  pub po_items : List LineItem
  pub invoice_items : List LineItem
  pub receipt_items : List ReceiptLine

abbrev receipt_items_of : String → List Document → List (Row ReceiptLine) → List ReceiptLine
receipt_items_of workspace_id receipts rows =
    items_of (
      select (λ r. r.workspace_id == workspace_id && any (λ d. d.id == r.document_id) receipts)
        rows)

-- Everything before the gate, with its refusals.
unfoldable pub prepare : String → String → String → Documents → Result Prepared
prepare workspace_id po_id invoice_id docs = do
  po ← load_ready "Purchase order" workspace_id po_id docs.purchase_orders
  invoice ← load_ready "Invoice" workspace_id invoice_id docs.invoices
  guard (is_linked po invoice.purchase_order_id)
      (bad_request "Invoice is linked to a different purchase order")
  guard
      (not (
        is_empty (lines_of workspace_id po.id docs.po_lines)
        || is_empty (lines_of workspace_id invoice.id docs.invoice_lines)))
      (bad_request "Both documents must have parsed line items to compare")
  guard (not (any is_review_pending (receipts_of workspace_id po docs.receipts)))
      (bad_request "A linked goods receipt needs review before comparing")
  ok (record {
    po = po;
    invoice = invoice;
    po_items = lines_of workspace_id po.id docs.po_lines;
    invoice_items = lines_of workspace_id invoice.id docs.invoice_lines;
    receipt_items =
        receipt_items_of workspace_id (receipts_of workspace_id po docs.receipts)
          docs.receipt_lines;
  })

pub data Status : Type 0 where
  running succeeded failed : Status

pub record Run : Type 0 where
  pub id : String
  pub purchase_order_id : String
  pub invoice_id : String
  pub is_three_way : Bool
  pub po_line_count : ℕ
  pub invoice_line_count : ℕ
  pub receipt_line_count : Option ℕ
  pub contract_term_count : Option ℕ
  pub flag_count : ℕ
  pub status : Status

-- A flag of a run, of the lines and headers or of the contract.
pub data RunFlag : Type 0 where
  compared : String → FlagValues → RunFlag
  contract : String → ContractFlag → RunFlag

pub record State : Type 0 where
  pub runs : List Run
  pub flags : List RunFlag
  pub billing : Store.Store

pub data Outcome : Type 0 where
  refused : HttpError → Outcome
  broken : Outcome
  finished : List RunFlag → Outcome

abbrev by_id : {A : Type 0} → (A → String) → List A → String → Option A
by_id id_of items id = first (λ i. id_of i == id) items

module _ (e : Engine) (workspace_id run_id : String) where
  abbrev tagged : (FlagValues → RunFlag) → List FlagValues → List RunFlag → List RunFlag
  tagged to [] more = more
  tagged to (f ∷ fs) more = to f ∷ tagged to fs more

  abbrev with_currency : Option FlagValues → List RunFlag → List RunFlag
  with_currency none more = more
  with_currency (some f) more = compared run_id f ∷ more

  abbrev with_contract : List ContractFlag → List RunFlag → List RunFlag
  with_contract [] more = more
  with_contract (f ∷ fs) more = contract run_id f ∷ with_contract fs more

  -- flagValues: the currency, the contract, then the lines
  unfoldable pub findings : Prepared → List ContractFlag → List RunFlag
  findings p contract_flags =
      let rows =
        joined e (map (cells_of e) p.po_items) (map (cells_of e) p.invoice_items)
          (map (receipt_cells_of e) p.receipt_items) in
      let lines : ComparedLines = record {
        po = by_id (λ (i : LineItem). i.id) p.po_items;
        invoice = by_id (λ (i : LineItem). i.id) p.invoice_items;
        goods_receipt = by_id (λ (i : ReceiptLine). i.id) p.receipt_items;
      } in
      with_currency
        (currency_mismatch_flag e workspace_id p.po.id p.po.currency p.invoice.id
          p.invoice.currency)
        (with_contract contract_flags (
          tagged (compared run_id)
            (line_flags e (λ t row. to_flag_values e workspace_id p.po.id p.invoice.id t row lines)
              rows)
            []))

  abbrev new_run : Prepared → Option ℕ → Run
  new_run p term_count = record {
    id = run_id;
    purchase_order_id = p.po.id;
    invoice_id = p.invoice.id;
    is_three_way = not (is_empty p.receipt_items);
    po_line_count = length p.po_items;
    invoice_line_count = length p.invoice_items;
    receipt_line_count = if is_empty p.receipt_items then none else some (length p.receipt_items);
    contract_term_count = term_count;
    flag_count = 0;
    status = running;
  }

  abbrev pub has_run_id : Run → Bool
  has_run_id r = r.id == run_id

  -- The run is recorded first; a failure marks it, a success adds the flags in the same transaction.
  abbrev pub run_engine : Bool → Prepared → List ContractFlag × Option ℕ → State → State × Outcome
  run_engine false p (contract_flags, term_count) state = (
    record state {
      runs =
          update has_run_id (λ r. record r { status = failed })
            (state.runs ++ new_run p term_count ∷ []);
    },
    broken,
  )
  run_engine true p (contract_flags, term_count) state =
      let found = findings p contract_flags in
      (
        record state {
          runs =
              update has_run_id (λ r. record r { status = succeeded; flag_count = length found })
                (state.runs ++ new_run p term_count ∷ []);
          flags = state.flags ++ found;
        },
        finished found,
      )

  abbrev order_of : Document → Order
  order_of po = record {
    vendor_id = po.vendor_id;
    currency = po.currency;
    ordered_at = po.ordered_at;
    created_at = po.created_at;
  }

  abbrev pub gated :
      Bool
      → Prepared
      → List ContractFlag × Option ℕ
      → State
      → Result (Unit {0}) × Ledger
      → State × Outcome
  gated engine_works p contract_result state (fail err, ledger) =
      (record state { billing = record state.billing { usage_events = ledger } }, refused err)
  gated engine_works p contract_result state (ok _, ledger) =
      run_engine engine_works p contract_result
        (record state { billing = record state.billing { usage_events = ledger } })

  -- The arguments of the gate.
  abbrev pub check_of : ℕ → String → Prepared → PairCheck
  check_of now uuid p = record {
    workspace_id = workspace_id;
    purchase_order_id = p.po.id;
    invoice_id = p.invoice.id;
    line_count = length p.po_items;
    now = now;
    uuid = uuid;
  }

  module _ (js : Numbers) (env : EnvReader) (now : ℕ) (uuid : String) (engine_works : Bool) where
    abbrev pub after_prepare : Documents → State → Result Prepared → State × Outcome
    after_prepare docs state (fail err) = (state, refused err)
    after_prepare docs state (ok p) =
        gated engine_works p
          (contract_price_flags e workspace_id (order_of p.po) p.po_items docs.terms) state
          (assert_matched_lines js env (check_of now uuid p) state.billing)

    -- compare
    unfoldable pub compare : String → String → Documents → State → State × Outcome
    compare po_id invoice_id docs state =
        after_prepare docs state (prepare workspace_id po_id invoice_id docs)
