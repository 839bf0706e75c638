-- ===== src/Procurement/Ladder/Laws.antt =====
-- What the CASE decides: the receiving side, and what each finding says of the three documents.
use optra.Prelude.{
  Bool, true, false, not, Option, none, some, List, [], ◌∷◌, String, ◌&&◌, if◌then◌else◌, any,
  is_some, select, ◌≡◌, ◌⊎◌, refl, ap, arith, Bool-cases, Option-cases, inl, inr,
}
use optra.Procurement.Engine.{Engine}
use optra.Procurement.Lines.{Cells}
use optra.Procurement.Group.{Group, has_mk, cast, numbers, with_number, grouped, group_of}
use optra.Procurement.Ladder.{
  FlagType, quantity_mismatch, price_mismatch, short_receipt, invoice_exceeds_received,
  uom_mismatch, uom_conflict, distinct, exceeds, prices_differ, numeric, accepted_of, classify,
}

module _ (e : Engine) where
  abbrev pub is_unstated : String → Cells → Bool
  is_unstated mk row = has_mk mk row && not (is_some (cast e row.quantity))

  with_none : (o : Option e.Num) → with_number o none ≡ none
  with_none none = refl
  with_none (some n) = refl

  numbers-unstated :
      (mk : String) (rows : List Cells)
      → any (is_unstated mk) rows ≡ true
      → numbers e (λ (r : Cells). r.quantity) (select (has_mk mk) rows) ≡ none
  numbers-unstated mk [] h = cc
  numbers-unstated mk (row ∷ rows) h = elim (Bool-cases (has_mk mk row)) [
    | inl t ↦ elim (Option-cases (cast e row.quantity)) [
      | inl n ↦ rw (t, n) refl
      | inr (a, s) ↦
          let rest = numbers-unstated mk rows (rw (t, s) at h) in
          rw (t, rest) (with_none (cast e row.quantity))
    ]
    | inr f ↦ rw f (numbers-unstated mk rows (rw f at h))
  ]

  accepted-grouped :
      (rows : List Cells)
      → numbers e (λ (r : Cells). r.quantity) rows ≡ none
      → accepted_of e (grouped e rows) ≡ none
  unfolding grouped
  accepted-grouped [] h = refl
  accepted-grouped (row ∷ rows) h = rw h refl

  accepted-unstated :
      (mk : String) (grn : List Cells)
      → any (is_unstated mk) grn ≡ true
      → accepted_of e (group_of e mk grn) ≡ none
  unfolding group_of
  accepted-unstated mk grn h = accepted-grouped (select (has_mk mk) grn) (numbers-unstated mk grn h)

  exceeds-none : (a : Option e.Num) → exceeds e a none ≡ false
  exceeds-none none = refl
  exceeds-none (some a) = refl

  -- The two-way comparison: an order line against an invoice line, without receipts.
  abbrev pub two_way : Group e.Num → Group e.Num → Option FlagType
  two_way p i =
      if uom_conflict (some p) (some i) none
      then some uom_mismatch
      else if distinct e p.quantity i.quantity
      then some quantity_mismatch
      else if prices_differ e p i
      then some price_mismatch
      else none

  -- When a receipt line of an item leaves the accepted quantity out, or states one that is not a
  -- number, and the receipts raise no conflict of units that the order and the invoice do not have,
  -- the item gets the finding of the two-way comparison: no receiving finding is made from a partial
  -- sum. The same holds for an item without a receipt line.
  pub classify-two_way :
      (p i : Group e.Num) (mk : String) (grn : List Cells)
      → (any (is_unstated mk) grn ≡ true) ⊎ (group_of e mk grn ≡ none)
      → uom_conflict (some p) (some i) (group_of e mk grn) ≡ uom_conflict (some p) (some i) none
      → classify e (some p) (some i) (group_of e mk grn) ≡ two_way p i
  unfolding classify
  classify-two_way p i mk grn h same =
      let unknown : accepted_of e (group_of e mk grn) ≡ none = elim h [
        | inl u ↦ accepted-unstated mk grn u
        | inr n ↦ ap (accepted_of e) n
      ] in
      rw (same, unknown, exceeds-none i.quantity, exceeds-none p.quantity) refl

  -- A receiving finding names a true disagreement: the line is on the order and the invoice, a
  -- receipt states what was accepted, and the order (for short_receipt) or the invoice (for
  -- invoice_exceeds_received) states a greater quantity.
  abbrev pub Receiving :
      (Group e.Num → Option e.Num) → Option (Group e.Num) → Option (Group e.Num) → Type 0
  Receiving side none g = ⊥
  Receiving side (some d) none = ⊥
  Receiving side (some d) (some g) =
      (claimed : e.Num) × (accepted : e.Num) × (side d ≡ some claimed)
      × (g.quantity ≡ some accepted)
      × (e.greater claimed accepted ≡ true)

  exceeds-true :
      (a b : Option e.Num)
      → exceeds e a b ≡ true
      → (x : e.Num) × (y : e.Num) × (a ≡ some x) × (b ≡ some y) × (e.greater x y ≡ true)
  exceeds-true none b h = cc
  exceeds-true (some x) none h = cc
  exceeds-true (some x) (some y) h = (x, y, refl, refl, h)

  exceeds-Receiving :
      (side : Group e.Num → Option e.Num) (d : Group e.Num) (g : Option (Group e.Num))
      → exceeds e (side d) (accepted_of e g) ≡ true
      → Receiving side (some d) g
  exceeds-Receiving side d none h = cc (rw (exceeds-none (side d)) at h)
  exceeds-Receiving side d (some g) h = exceeds-true (side d) g.quantity h

  numeric-short :
      (p i : Group e.Num) (accepted : Option e.Num)
      → numeric e p i accepted ≡ some short_receipt
      → exceeds e p.quantity accepted ≡ true
  numeric-short p i accepted h = ground arith

  numeric-over :
      (p i : Group e.Num) (accepted : Option e.Num)
      → numeric e p i accepted ≡ some invoice_exceeds_received
      → exceeds e i.quantity accepted ≡ true
  numeric-over p i accepted h = ground arith

  -- A short receipt is reported only when the order's quantity and the receipts' accepted quantity
  -- are both known, and the ordered quantity is greater than the accepted one.
  short_receipt-Receiving :
      (p i g : Option (Group e.Num))
      → classify e p i g ≡ some short_receipt
      → Receiving (λ d. d.quantity) p g
  unfolding classify
  short_receipt-Receiving none i g h = cc
  short_receipt-Receiving (some p) none g h = cc
  short_receipt-Receiving (some p) (some i) g h =
      elim (Bool-cases (uom_conflict (some p) (some i) g)) [
        | inl t ↦ cc (rw t at h)
        | inr f ↦
            exceeds-Receiving (λ d. d.quantity) p g
              (numeric-short p i (accepted_of e g) (rw f at h))
      ]

  -- An invoice is said to exceed the receipts only when its quantity and the receipts' accepted
  -- quantity are both known, and the billed quantity is greater than the accepted one.
  invoice_exceeds-Receiving :
      (p i g : Option (Group e.Num))
      → classify e p i g ≡ some invoice_exceeds_received
      → Receiving (λ d. d.quantity) i g
  unfolding classify
  invoice_exceeds-Receiving none i g h = cc
  invoice_exceeds-Receiving (some p) none g h = cc
  invoice_exceeds-Receiving (some p) (some i) g h =
      elim (Bool-cases (uom_conflict (some p) (some i) g)) [
        | inl t ↦ cc (rw t at h)
        | inr f ↦
            exceeds-Receiving (λ d. d.quantity) i g (numeric-over p i (accepted_of e g) (rw f at h))
      ]
