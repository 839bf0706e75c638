-- ===== src/Procurement/Queue/Ready.antt =====
-- What every pair that is enqueued has: two documents that can be compared, and settled receipts.
use optra.Prelude.{
  ℕ, ◌≤◌, ◌≡◌, ◌⊎◌, inl, inr, refl, Bool, true, false, ◌&&◌, Option, none, some, List, [], ◌∷◌, map,
  String, any, first, select, All, Bool-cases, Option-cases, eq_iff, eq_refl, arith,
}
use mathlib.Core.Path.{subst}
use optra.Procurement.Documents.{
  Kind, purchase_order, invoice, goods_receipt, Header, Documents, is_done,
}
use optra.Procurement.Queue.{
  ResolvedPair, is_unsettled, is_id, answers, is_ready, newest, receipts_of, receipt_state, pair_of,
  pairs_with, linked_order, pair_with_order, pairs_for_order, pairs_for_invoice, pairs_for,
  order_of_receipt, enqueue_for_document,
}

abbrev pub In : Header → List Header → Type 0
In h [] = ⊥
In h (x ∷ xs) = (h ≡ x) ⊎ In h xs

-- A pair of an order and an invoice that answers it, both parsed and, where that is asked, reviewed;
-- no receipt of the order is still to come; and the version is that of the newest input.
pub record IsReadyPair (s : Documents) (p : ResolvedPair) : Type 0 where
  pub order : Header
  pub bill : Header
  pub order_in : In order s.purchase_orders
  pub bill_in : In bill s.invoices
  pub order_ready : is_ready order ≡ true
  pub bill_ready : is_ready bill ≡ true
  pub linked : answers order.workspace_id order.id bill ≡ true
  pub settled : any is_unsettled (receipts_of order.workspace_id order.id s) ≡ false
  pub workspace_of : p.job.workspace_id ≡ order.workspace_id
  pub order_of : p.job.purchase_order_id ≡ order.id
  pub bill_of : p.job.invoice_id ≡ bill.id
  pub order_le : order.updated_at ≤ p.input_version_ms
  pub bill_le : bill.updated_at ≤ p.input_version_ms
  pub receipts_le :
      All
        (λ h. h.updated_at ≤ p.input_version_ms)
        (select (λ h. is_done h.status) (receipts_of order.workspace_id order.id s))

first-In :
    (p : Header → Bool) (hs : List Header) {h : Header}
    → first p hs ≡ some h
    → In h hs × (p h ≡ true)
first-In p [] e = ground arith
first-In p (x ∷ xs) {h} e = elim (Bool-cases (p x)) [
  | inl y ↦ let same : h ≡ x = cc (rw y at e) in (inl same, rw same y)
  | inr n ↦ let (m, q) = first-In p xs (rw n at e) in (inr m, q)
]

select-In :
    (p : Header → Bool) (hs all : List Header)
    → ((h : Header) → In h hs → In h all)
    → All (λ h. In h all × (p h ≡ true)) (select p hs)
select-In p [] all within = tt
select-In p (x ∷ xs) all within =
    let rest = select-In p xs all (λ h m. within h (inr m)) in
    elim (Bool-cases (p x)) [ inl y ↦ rw y ((within x (inl refl), y), rest) | inr n ↦ rw n rest ]

newest-All : (hs : List Header) (n : ℕ) → newest hs ≤ n → All (λ h. h.updated_at ≤ n) hs
unfolding newest
newest-All [] n h = tt
newest-All (x ∷ xs) n h = (omega arith, newest-All xs n (omega arith))

module _ (s : Documents) where
  pair_of-IsReadyPair :
      (po inv : Header) (receipts_ms : ℕ)
      → In po s.purchase_orders
      → In inv s.invoices
      → is_ready po ≡ true
      → is_ready inv ≡ true
      → answers po.workspace_id po.id inv ≡ true
      → receipt_state po.workspace_id po.id s ≡ some receipts_ms
      → IsReadyPair s (pair_of po inv receipts_ms)
  unfolding receipt_state
  pair_of-IsReadyPair po inv receipts_ms mp mi rp ri link state =
      elim (Bool-cases (any is_unsettled (receipts_of po.workspace_id po.id s))) [
        | inl y ↦ cc (rw y at state)
        | inr n ↦
            let same : newest (select (λ h. is_done h.status) (receipts_of po.workspace_id po.id s))
                ≡ receipts_ms =
              cc (rw n at state) in
            record {
              order = po;
              bill = inv;
              order_in = mp;
              bill_in = mi;
              order_ready = rp;
              bill_ready = ri;
              linked = link;
              settled = n;
              workspace_of = refl;
              order_of = refl;
              bill_of = refl;
              order_le = omega arith;
              bill_le = omega arith;
              receipts_le = newest-All _ _ (omega (arith, same));
            }
      ]

  pairs_with-All :
      (po : Header) (invoices : List Header)
      → In po s.purchase_orders
      → is_ready po ≡ true
      → All
          (λ h. In h s.invoices × ((answers po.workspace_id po.id h && is_ready h) ≡ true))
          invoices
      → All (IsReadyPair s) (pairs_with po invoices (receipt_state po.workspace_id po.id s))
  pairs_with-All po invoices mp rp good =
      elim (Option-cases (receipt_state po.workspace_id po.id s)) [
        | inl n ↦ rw n tt
        | inr (ms, e) ↦ rw e (each ms e invoices good)
      ]
    where
      each :
          (ms : ℕ)
          → receipt_state po.workspace_id po.id s ≡ some ms
          → (invoices : List Header)
          → All
              (λ h. In h s.invoices × ((answers po.workspace_id po.id h && is_ready h) ≡ true))
              invoices
          → All (IsReadyPair s) (map (λ inv. pair_of po inv ms) invoices)
      each ms e [] _ = tt
      each ms e (inv ∷ rest) ((mi, ok), more) = (
        pair_of-IsReadyPair po inv ms mp mi rp (ground arith) (ground arith) e,
        each ms e rest more,
      )

  pairs_for_order-All :
      (po : Option Header)
      → (p : Header → Bool) → po ≡ first p s.purchase_orders
      → All (IsReadyPair s) (pairs_for_order po s)
  unfolding pairs_for_order
  pairs_for_order-All none p e = tt
  pairs_for_order-All (some po) p e = elim (Bool-cases (is_ready po)) [
    | inr n ↦ rw n tt
    | inl y ↦
        let (m, _) = first-In p s.purchase_orders (cc e) in
        rw y (
          pairs_with-All po _ m y (
            select-In (λ h. answers po.workspace_id po.id h && is_ready h) s.invoices s.invoices
              (λ h i. i)))
  ]

  linked_order-All :
      (inv : Header) (order_id : String) (po : Header)
      → In inv s.invoices
      → inv.purchase_order_id ≡ some order_id
      → is_ready inv ≡ true
      → linked_order inv order_id s ≡ some po
      → All (IsReadyPair s) (pair_with_order inv (some po) s)
  linked_order-All inv order_id po mi link ri e =
      let (m, found) = first-In _ s.purchase_orders e in
      let id_eq = (eq_iff po.id order_id).0 (ground arith) in
      let ws_eq = (eq_iff po.workspace_id inv.workspace_id).0 (ground arith) in
      let ready : is_ready po ≡ true = ground arith in
      let answered : answers po.workspace_id po.id inv ≡ true =
        rw (ws_eq, link, id_eq, eq_refl inv.workspace_id, eq_refl order_id) refl in
      subst (λ w. All (IsReadyPair s) (pairs_with po (inv ∷ []) (receipt_state w po.id s))) ws_eq
        (pairs_with-All po (inv ∷ []) m ready ((mi, rw (answered, ri) refl), tt))

  pairs_for_invoice-All :
      (inv : Option Header) (p : Header → Bool)
      → inv ≡ first p s.invoices
      → All (IsReadyPair s) (pairs_for_invoice inv s)
  unfolding pairs_for_invoice
  pairs_for_invoice-All none p e = tt
  pairs_for_invoice-All (some inv) p e = elim (Option-cases inv.purchase_order_id) [
    | inl n ↦ rw n tt
    | inr (order_id, link) ↦ elim (Bool-cases (is_ready inv)) [
      | inr n ↦ rw (link, n) tt
      | inl y ↦ elim (Option-cases (linked_order inv order_id s)) [
        | inl n ↦ rw (link, y, n) tt
        | inr (po, found) ↦
            let (m, _) = first-In p s.invoices (cc e) in
            rw (link, y, found) (linked_order-All inv order_id po m link y found)
      ]
    ]
  ]

  order_of_receipt-All :
      (receipt : Option Header)
      → All (IsReadyPair s) (pairs_for_order (order_of_receipt receipt s) s)
  unfolding pairs_for_order
  order_of_receipt-All none = tt
  order_of_receipt-All (some receipt) = elim (Option-cases receipt.purchase_order_id) [
    | inl n ↦ rw n tt
    | inr (order_id, link) ↦
        rw link
          (pairs_for_order-All (first (is_id order_id) s.purchase_orders) (is_id order_id) refl)
  ]

  -- Every pair that a document puts on the queue is an order and an invoice that is linked to it, of
  -- the same workspace, both parsed and, where they need a review, reviewed; no receipt of the order
  -- is pending, being parsed or waiting for its review; and the version of the pair is not older
  -- than the order, the invoice and every parsed receipt of the order.
  pub enqueue_for_document-IsReadyPair :
      (enabled : Bool) (kind : Kind) (id : String)
      → All (IsReadyPair s) (enqueue_for_document enabled kind id s)
  unfolding enqueue_for_document pairs_for
  enqueue_for_document-IsReadyPair false kind id = tt
  enqueue_for_document-IsReadyPair true purchase_order id =
      pairs_for_order-All (first (is_id id) s.purchase_orders) (is_id id) refl
  enqueue_for_document-IsReadyPair true invoice id =
      pairs_for_invoice-All (first (is_id id) s.invoices) (is_id id) refl
  enqueue_for_document-IsReadyPair true goods_receipt id =
      order_of_receipt-All (first (is_id id) s.receipts)
