-- ===== src/Procurement/Contract/Laws.antt =====
-- When an order is said to be off contract.
use optra.Prelude.{
  ℕ, true, false, not, Option, none, some, List, [], ◌∷◌, String, ◌==◌, select, ◌≡◌, ◌≤◌, refl,
  arith, Bool-cases, Option-cases, inl, inr,
}
use optra.Procurement.Engine.{Engine}
use optra.Procurement.Flags.{contract_price_variance}
use optra.Procurement.PriceGroups.{PriceGroup}
use optra.Procurement.Contract.{
  PriceTerm, Order, ContractFlag, is_live, placed_at, only, unit_fault, in_currency, judge_price,
  judge_term, judge_live, judge,
}

-- When one agreed price ends at the instant at which the next begins, and the next has no end,
-- exactly one of the two is live at every instant from the start of the first.
is_live_handover :
    (old new : PriceTerm) (at_time : ℕ)
    → old.effective_to ≡ some new.effective_from
    → new.effective_to ≡ none
    → old.effective_from ≤ at_time
    → is_live at_time old ≡ not (is_live at_time new)
unfolding is_live
is_live_handover old new at_time ends open_end starts = rw (ends, open_end) (ground arith)

module _ (e : Engine) (workspace_id : String) (po : Order) (group : PriceGroup e.Num) where
  -- What stands behind a variance.
  abbrev pub IsOffContract : List PriceTerm → Type 0
  IsOffContract live =
      (term : PriceTerm) × (ordered : e.Num) × (live ≡ term ∷ [])
      × (in_currency e po term ≡ true)
      × (unit_fault e group term ≡ none)
      × (only e group.prices ≡ some ordered)
      × (e.same ordered (e.number term.unit_price) ≡ false)

  price-variance :
      (term : PriceTerm) (price : Option e.Num) (f : ContractFlag)
      → judge_price e workspace_id po group term price ≡ some f
      → f.flag_type ≡ contract_price_variance
      → (ordered : e.Num) × (price ≡ some ordered)
        × (e.same ordered (e.number term.unit_price) ≡ false)
  price-variance term none f h v = cc
  price-variance term (some ordered) f h v =
      elim (Bool-cases (e.same ordered (e.number term.unit_price))) [
        | inl t ↦ cc (rw t at h)
        | inr n ↦ (ordered, refl, n)
      ]

  term-variance :
      (term : PriceTerm) (f : ContractFlag)
      → judge_term e workspace_id po group term ≡ some f
      → f.flag_type ≡ contract_price_variance
      → IsOffContract (term ∷ [])
  unfolding judge_term
  term-variance term f h v = elim (Bool-cases (in_currency e po term)) [
    | inr n ↦ cc (rw n at h)
    | inl c ↦ elim (Option-cases (unit_fault e group term)) [
      | inr (r, bad) ↦ cc (rw (c, bad) at h)
      | inl fine ↦
          let (ordered, price, differs) =
            price-variance term (only e group.prices) f (rw (c, fine) at h) v in
          (term, ordered, refl, c, fine, price, differs)
    ]
  ]

  live-variance :
      (for_sku live : List PriceTerm) (f : ContractFlag)
      → judge_live e workspace_id po group for_sku live ≡ some f
      → f.flag_type ≡ contract_price_variance
      → IsOffContract live
  live-variance for_sku [] f h v = cc
  live-variance for_sku (term ∷ []) f h v = term-variance term f h v
  live-variance for_sku (term ∷ other ∷ more) f h v = cc

  abbrev pub live_terms : List PriceTerm → List PriceTerm
  live_terms terms =
      select (is_live (placed_at e po)) (select (λ (t : PriceTerm). t.sku_key == group.key) terms)

  judge_from :
      (for_sku : List PriceTerm) (f : ContractFlag)
      → (elim for_sku as (λ _. Option ContractFlag) [
        | [] ↦ none
        | t ∷ ts ↦
            judge_live e workspace_id po group (t ∷ ts) (select (is_live (placed_at e po)) (t ∷ ts))
      ])
        ≡ some f
      → f.flag_type ≡ contract_price_variance
      → IsOffContract (select (is_live (placed_at e po)) for_sku)
  judge_from [] f h v = cc
  judge_from (t ∷ ts) f h v =
      live-variance (t ∷ ts) (select (is_live (placed_at e po)) (t ∷ ts)) f h v

  -- An order is reported as off contract only when exactly one agreed price of its SKU is live at the
  -- moment it was placed, the term is in the order's currency, their units do not disagree, the order
  -- states a single unit price, and that price is not the agreed one.
  pub judge-IsOffContract :
      (terms : List PriceTerm) (f : ContractFlag)
      → judge e workspace_id po terms group ≡ some f
      → f.flag_type ≡ contract_price_variance
      → IsOffContract (live_terms terms)
  unfolding judge
  judge-IsOffContract terms f h v =
      judge_from (select (λ (t : PriceTerm). t.sku_key == group.key) terms) f h v
