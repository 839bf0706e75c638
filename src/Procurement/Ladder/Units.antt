-- ===== src/Procurement/Ladder/Units.antt =====
-- The units of an item that the CASE reports nothing for, line by line.
use optra.Prelude.{
  ℕ, suc, ◌≤◌, Bool, true, false, Option, none, some, List, [], ◌∷◌, String, ◌==◌, eq_iff, ◌&&◌,
  ◌||◌, any, select, length, ◌≡◌, ◌⊎◌, refl, sym, arith, Bool-cases, inl, inr,
}
use optra.Procurement.Engine.{Engine}
use optra.Procurement.Lines.{Cells}
use optra.Procurement.Group.{Group, has_mk, add_unit, units, single, grouped, group_of}
use optra.Procurement.Ladder.{unit_of, classify}
use optra.Procurement.Ladder.Agreed.{HasOneUnit, AreCompatible, IsAgreed, classify-none}

abbrev is_unit : String → Option String → Bool
is_unit u none = false
is_unit u (some v) = v == u

-- Some line of this key states this unit.
abbrev pub is_stated : String → String → List Cells → Bool
is_stated mk u rows = any (λ r. has_mk mk r && is_unit u r.uom) rows

select-is_stated :
    (mk u : String) (rows : List Cells)
    → is_stated mk u rows ≡ true
    → any (λ (r : Cells). is_unit u r.uom) (select (has_mk mk) rows) ≡ true
select-is_stated mk u [] h = cc
select-is_stated mk u (row ∷ rows) h = elim (Bool-cases (has_mk mk row)) [
  | inr n ↦ rw n (select-is_stated mk u rows (rw n at h))
  | inl y ↦ rw y (ground (arith, select-is_stated mk u rows))
]

any-other :
    (u v : String) (seen : List String)
    → (v == u) ≡ true
    → any (λ s. s == v) seen ≡ true
    → any (λ s. s == u) seen ≡ true
any-other u v seen e h = rw ((eq_iff v u).0 e) at h

add_unit-any :
    (u : String) (o : Option String) (seen : List String)
    → (is_unit u o || any (λ s. s == u) seen) ≡ true
    → any (λ s. s == u) (add_unit o seen) ≡ true
add_unit-any u none seen h = h
add_unit-any u (some v) seen h = elim (Bool-cases (any (λ s. s == v) seen)) [
  | inr n ↦ rw n h
  | inl y ↦ rw y (elim (Bool-cases (v == u)) [
    | inl same ↦ any-other u v seen same y
    | inr differ ↦ rw differ at h
  ])
]

units-is_unit :
    (u : String) (rows : List Cells)
    → any (λ (r : Cells). is_unit u r.uom) rows ≡ true
    → any (λ s. s == u) (units rows) ≡ true
unfolding units
units-is_unit u [] h = cc
units-is_unit u (row ∷ rows) h =
    add_unit-any u row.uom (units rows) (elim (Bool-cases (is_unit u row.uom)) [
      | inl y ↦ rw y refl
      | inr n ↦ rw n (units-is_unit u rows (rw n at h))
    ])

single-any :
    (u : String) (seen : List String)
    → length seen ≤ 1
    → any (λ s. s == u) seen ≡ true
    → single seen ≡ some u
single-any u [] le h = cc
single-any u (s ∷ []) le h = rw ((eq_iff s u).0 (ground (arith, h))) refl
single-any u (s ∷ t ∷ seen) le h = elim (too_many (length seen) le) [ ]
  where
    too_many : (n : ℕ) → suc (suc n) ≤ 1 → ⊥
    too_many n h = omega (arith, h)

module _ (e : Engine) where
  grouped-unit :
      (u : String) (rows : List Cells)
      → any (λ (r : Cells). is_unit u r.uom) rows ≡ true
      → HasOneUnit (grouped e rows)
      → unit_of (grouped e rows) ≡ some u
  unfolding grouped
  grouped-unit u [] h one = cc
  grouped-unit u (row ∷ rows) h one =
      single-any u (units (row ∷ rows)) one (units-is_unit u (row ∷ rows) h)

  group_of-unit :
      (mk u : String) (rows : List Cells)
      → is_stated mk u rows ≡ true
      → HasOneUnit (group_of e mk rows)
      → unit_of (group_of e mk rows) ≡ some u
  unfolding group_of
  group_of-unit mk u rows h one =
      grouped-unit u (select (has_mk mk) rows) (select-is_stated mk u rows h) one

  record AgreeInUnits (x y z : Option (Group e.Num)) : Type 0 where
    order_unit : HasOneUnit x
    invoice_unit : HasOneUnit y
    receipt_unit : HasOneUnit z
    order_invoice : AreCompatible (unit_of x) (unit_of y)
    order_receipt : AreCompatible (unit_of x) (unit_of z)
    invoice_receipt : AreCompatible (unit_of y) (unit_of z)

  agreed-units : (x y z : Option (Group e.Num)) → IsAgreed e x y z → AgreeInUnits x y z
  agreed-units none y z a = elim a [ ]
  agreed-units (some x) none z a = elim a [ ]
  agreed-units (some x) (some y) z a = record {
    order_unit = a.order_unit;
    invoice_unit = a.invoice_unit;
    receipt_unit = a.receipt_unit;
    order_invoice = a.order_invoice;
    order_receipt = a.order_receipt;
    invoice_receipt = a.invoice_receipt;
  }

  compatible_eq :
      (a b : Option String) (u v : String) → a ≡ some u → b ≡ some v → AreCompatible a b → u ≡ v
  compatible_eq a b u v ha hb c = rw (ha, hb) at c

  same_eq : (a : Option String) (u v : String) → a ≡ some u → a ≡ some v → u ≡ v
  same_eq a u v h k = cc

  -- One of the three documents states this unit in a line of this key.
  abbrev pub IsStated : String → String → List Cells → List Cells → List Cells → Type 0
  IsStated mk u po inv grn =
      (is_stated mk u po ≡ true) ⊎ (is_stated mk u inv ≡ true) ⊎ (is_stated mk u grn ≡ true)

  -- When nothing is reported for an item, every unit that any of its lines states, on the order, on
  -- the invoice or on a receipt, is the same one.
  pub classify-one_unit :
      (mk u v : String) (po inv grn : List Cells)
      → classify e (group_of e mk po) (group_of e mk inv) (group_of e mk grn) ≡ none
      → IsStated mk u po inv grn
      → IsStated mk v po inv grn
      → u ≡ v
  classify-one_unit mk u v po inv grn h su sv =
      let a =
        agreed-units (group_of e mk po) (group_of e mk inv) (group_of e mk grn)
          ((classify-none e (group_of e mk po) (group_of e mk inv) (group_of e mk grn)).0 h) in
      elim su [
        | inl p ↦ elim sv [
          | inl q ↦
              same_eq _ u v (group_of-unit mk u po p a.order_unit)
                (group_of-unit mk v po q a.order_unit)
          | inr (inl q) ↦
              compatible_eq _ _ u v (group_of-unit mk u po p a.order_unit)
                (group_of-unit mk v inv q a.invoice_unit) a.order_invoice
          | inr (inr q) ↦
              compatible_eq _ _ u v (group_of-unit mk u po p a.order_unit)
                (group_of-unit mk v grn q a.receipt_unit) a.order_receipt
        ]
        | inr (inl p) ↦ elim sv [
          | inl q ↦ sym (
              compatible_eq _ _ v u (group_of-unit mk v po q a.order_unit)
                (group_of-unit mk u inv p a.invoice_unit) a.order_invoice)
          | inr (inl q) ↦
              same_eq _ u v (group_of-unit mk u inv p a.invoice_unit)
                (group_of-unit mk v inv q a.invoice_unit)
          | inr (inr q) ↦
              compatible_eq _ _ u v (group_of-unit mk u inv p a.invoice_unit)
                (group_of-unit mk v grn q a.receipt_unit) a.invoice_receipt
        ]
        | inr (inr p) ↦ elim sv [
          | inl q ↦ sym (
              compatible_eq _ _ v u (group_of-unit mk v po q a.order_unit)
                (group_of-unit mk u grn p a.receipt_unit) a.order_receipt)
          | inr (inl q) ↦ sym (
              compatible_eq _ _ v u (group_of-unit mk v inv q a.invoice_unit)
                (group_of-unit mk u grn p a.receipt_unit) a.invoice_receipt)
          | inr (inr q) ↦
              same_eq _ u v (group_of-unit mk u grn p a.receipt_unit)
                (group_of-unit mk v grn q a.receipt_unit)
        ]
      ]
