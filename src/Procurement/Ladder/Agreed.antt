-- ===== src/Procurement/Ladder/Agreed.antt =====
-- When the CASE reports nothing: what the three documents then agree on, described by the columns of
-- their groups.
use optra.Prelude.{
  ◌≤◌, true, false, Option, none, some, String, eq_iff, eq_refl, ◌≡◌, ◌↔◌, refl, arith,
}
use optra.Procurement.Engine.{Engine}
use optra.Procurement.Group.{Group}
use optra.Procurement.Ladder.{
  has_many_units, unit_of, units_differ, distinct, exceeds, accepted_of, classify,
}

-- At most one unit is stated.
abbrev pub HasOneUnit : {Num : Type 0} → Option (Group Num) → Type 0
HasOneUnit none = Unit
HasOneUnit (some g) = g.uom_count ≤ 1

-- Two units that are both stated are the same.
abbrev pub AreCompatible : Option String → Option String → Type 0
AreCompatible (some a) (some b) = a ≡ b
AreCompatible _ _ = Unit

has_many_units_lem :
    {Num : Type 0} (g : Option (Group Num)) → (has_many_units g ≡ false) ↔ HasOneUnit g
has_many_units_lem none = (λ _. tt, λ _. refl)
has_many_units_lem (some g) = (λ h. ground arith, λ h. ground arith)

units_differ_lem : (a b : Option String) → (units_differ a b ≡ false) ↔ AreCompatible a b
units_differ_lem none b = (λ _. tt, λ _. refl)
units_differ_lem (some a) none = (λ _. tt, λ _. refl)
units_differ_lem (some a) (some b) =
    (λ h. (eq_iff a b).0 (ground (arith, h)), λ h. rw (h, eq_refl b) refl)

module _ (e : Engine) where
  -- Neither is known, or both are and they are the same number.
  abbrev pub AreSame : Option e.Num → Option e.Num → Type 0
  AreSame none none = Unit
  AreSame (some a) (some b) = e.same a b ≡ true
  AreSame _ _ = ⊥

  -- Two known numbers, of which the first is not greater.
  abbrev pub IsCovered : Option e.Num → Option e.Num → Type 0
  IsCovered (some a) (some b) = e.greater a b ≡ false
  IsCovered _ _ = Unit

  distinct_lem : (a b : Option e.Num) → (distinct e a b ≡ false) ↔ AreSame a b
  distinct_lem none none = (λ _. tt, λ _. refl)
  distinct_lem none (some b) = (λ h. cc h, λ h. elim h [ ])
  distinct_lem (some a) none = (λ h. cc h, λ h. elim h [ ])
  distinct_lem (some a) (some b) = (λ h. ground arith, λ h. ground arith)

  exceeds_lem : (a b : Option e.Num) → (exceeds e a b ≡ false) ↔ IsCovered a b
  exceeds_lem none b = (λ _. tt, λ _. refl)
  exceeds_lem (some a) none = (λ _. tt, λ _. refl)
  exceeds_lem (some a) (some b) = (λ h. h, λ h. h)

  -- What the groups of an item agree on: each document states at most one unit for it, and those
  -- that are stated are the same; a known accepted quantity covers the billed one and the ordered
  -- one; the order and the invoice have the same quantity; each has one unit price, or none, and it
  -- is the same on both.
  pub record AgreesOn (p i : Group e.Num) (g : Option (Group e.Num)) : Type 0 where
    pub order_unit : p.uom_count ≤ 1
    pub invoice_unit : i.uom_count ≤ 1
    pub receipt_unit : HasOneUnit g
    pub order_invoice : AreCompatible p.uom i.uom
    pub order_receipt : AreCompatible p.uom (unit_of g)
    pub invoice_receipt : AreCompatible i.uom (unit_of g)
    pub billed : IsCovered i.quantity (accepted_of e g)
    pub ordered : IsCovered p.quantity (accepted_of e g)
    pub quantities : AreSame p.quantity i.quantity
    pub order_price : AreSame p.price_min p.price_max
    pub invoice_price : AreSame i.price_min i.price_max
    pub prices : AreSame p.price_min i.price_min

  -- The item is on the order and on the invoice, and its groups agree.
  abbrev pub IsAgreed : Option (Group e.Num) → Option (Group e.Num) → Option (Group e.Num) → Type 0
  IsAgreed (some p) (some i) g = AgreesOn p i g
  IsAgreed _ _ g = ⊥

  silent :
      (p i : Group e.Num) (g : Option (Group e.Num))
      → classify e (some p) (some i) g ≡ none
      → AgreesOn p i g
  unfolding classify
  silent p i g h = record {
    order_unit = (has_many_units_lem (some p)).0 (ground arith);
    invoice_unit = (has_many_units_lem (some i)).0 (ground arith);
    receipt_unit = (has_many_units_lem g).0 (ground arith);
    order_invoice = (units_differ_lem p.uom i.uom).0 (ground arith);
    order_receipt = (units_differ_lem p.uom (unit_of g)).0 (ground arith);
    invoice_receipt = (units_differ_lem i.uom (unit_of g)).0 (ground arith);
    billed = (exceeds_lem i.quantity (accepted_of e g)).0 (ground arith);
    ordered = (exceeds_lem p.quantity (accepted_of e g)).0 (ground arith);
    quantities = (distinct_lem p.quantity i.quantity).0 (ground arith);
    order_price = (distinct_lem p.price_min p.price_max).0 (ground arith);
    invoice_price = (distinct_lem i.price_min i.price_max).0 (ground arith);
    prices = (distinct_lem p.price_min i.price_min).0 (ground arith);
  }

  agreed :
      (p i : Group e.Num) (g : Option (Group e.Num))
      → AgreesOn p i g
      → classify e (some p) (some i) g ≡ none
  unfolding classify
  agreed p i g a =
      rw
        (
          (has_many_units_lem (some p)).1 a.order_unit,
          (has_many_units_lem (some i)).1 a.invoice_unit,
          (has_many_units_lem g).1 a.receipt_unit,
          (units_differ_lem p.uom i.uom).1 a.order_invoice,
          (units_differ_lem p.uom (unit_of g)).1 a.order_receipt,
          (units_differ_lem i.uom (unit_of g)).1 a.invoice_receipt,
          (exceeds_lem i.quantity (accepted_of e g)).1 a.billed,
          (exceeds_lem p.quantity (accepted_of e g)).1 a.ordered,
          (distinct_lem p.quantity i.quantity).1 a.quantities,
          (distinct_lem p.price_min p.price_max).1 a.order_price,
          (distinct_lem i.price_min i.price_max).1 a.invoice_price,
          (distinct_lem p.price_min i.price_min).1 a.prices,
        )
        refl

  -- A key is left out of the findings exactly if its item is on the order and on the invoice, each
  -- document states at most one unit for it and no two documents different ones, a known accepted
  -- quantity is neither less than the billed one nor less than the ordered one, the order and the
  -- invoice have the same quantity, known or unknown, and all their unit prices are the same one,
  -- as far as the least and the greatest tell, or all are unknown.
  pub classify-none : (p i g : Option (Group e.Num)) → (classify e p i g ≡ none) ↔ IsAgreed p i g
  unfolding classify
  classify-none none i g = (λ h. cc h, λ h. elim h [ ])
  classify-none (some p) none g = (λ h. cc h, λ h. elim h [ ])
  classify-none (some p) (some i) g = (silent p i g, agreed p i g)
