-- ===== src/Procurement/Review/Once.antt =====
-- A document is confirmed once.
use optra.Prelude.{
  ℕ, ◌+◌, ◌≤◌, ◌≡◌, inl, inr, refl, Bool, true, false, ◌&&◌, List, [], ◌∷◌, String, ◌==◌,
  if◌then◌else◌, Bool-cases, eq_iff, arith,
}
use optra.Http.{Result, ok, fail, Result-cases}
use optra.Procurement.Documents.{Kind, purchase_order, invoice, goods_receipt, Documents}
use optra.Procurement.Review.{Request, Response, attempt, review}
use optra.Procurement.Review.Closed.{IsClosed, after-IsClosed, after-closes, IsClosed-fails}

abbrev same_kind : Kind → Kind → Bool
same_kind purchase_order purchase_order = true
same_kind invoice invoice = true
same_kind goods_receipt goods_receipt = true
same_kind _ _ = false

same_kind-eq : (k l : Kind) → same_kind k l ≡ true → k ≡ l
same_kind-eq purchase_order purchase_order h = refl
same_kind-eq invoice invoice h = refl
same_kind-eq goods_receipt goods_receipt h = refl
same_kind-eq purchase_order invoice h = cc
same_kind-eq purchase_order goods_receipt h = cc
same_kind-eq invoice purchase_order h = cc
same_kind-eq invoice goods_receipt h = cc
same_kind-eq goods_receipt purchase_order h = cc
same_kind-eq goods_receipt invoice h = cc

abbrev is_for : Kind → String → String → Request → Bool
is_for kind workspace_id id r =
    same_kind r.kind kind && (r.workspace_id == workspace_id) && (r.id == id)

abbrev succeeds : Result Response → Bool
succeeds (ok _) = true
succeeds (fail _) = false

-- How many of the requests confirm the document.
unfoldable pub confirmations :
    (String → String → Bool) → Kind → String → String → List Request → Documents → ℕ
confirmations same_number kind workspace_id id [] s = 0
confirmations same_number kind workspace_id id (r ∷ rs) s =
    let (response, t) = review same_number r s in
    (if is_for kind workspace_id id r && succeeds response then 1 else 0)
    + confirmations same_number kind workspace_id id rs t

module _ (same_number : String → String → Bool) (kind : Kind) (workspace_id id : String) where
  own-IsClosed :
      (r : Request) (s : Documents)
      → is_for kind workspace_id id r ≡ true
      → IsClosed kind workspace_id id s
      → IsClosed r.kind r.workspace_id r.id s
  own-IsClosed r s y h =
      let k = same_kind-eq r.kind kind (ground arith) in
      let w = (eq_iff r.workspace_id workspace_id).0 (ground arith) in
      let i = (eq_iff r.id id).0 (ground arith) in rw (k, w, i) h

  closed-none :
      (rs : List Request) (s : Documents)
      → IsClosed kind workspace_id id s
      → confirmations same_number kind workspace_id id rs s ≡ 0
  unfolding confirmations review
  closed-none [] s h = refl
  closed-none (r ∷ rs) s h = elim (Result-cases (attempt same_number r s)) [
    | inl (e, f) ↦ rw f (ground (arith, closed-none rs s h))
    | inr (t, o) ↦ elim (Bool-cases (is_for kind workspace_id id r)) [
      | inr n ↦
          rw (o, n)
            (omega
              (arith, closed-none rs t (after-IsClosed same_number r s t kind workspace_id id o h)))
      | inl y ↦ cc (IsClosed-fails same_number r s (own-IsClosed r s y h), o)
    ]
  ]

  -- However many requests come, in any order, for this and for other documents: at most one of them
  -- confirms the document.
  pub confirmations-le :
      (rs : List Request) (s : Documents) → confirmations same_number kind workspace_id id rs s ≤ 1
  unfolding confirmations review
  confirmations-le [] s = omega arith
  confirmations-le (r ∷ rs) s = elim (Result-cases (attempt same_number r s)) [
    | inl (e, f) ↦ rw f (ground (arith, confirmations-le rs s))
    | inr (t, o) ↦ elim (Bool-cases (is_for kind workspace_id id r)) [
      | inr n ↦ rw (o, n) (omega (arith, confirmations-le rs t))
      | inl y ↦
          let closed : IsClosed kind workspace_id id t =
            let k = same_kind-eq r.kind kind (ground arith) in
            let w = (eq_iff r.workspace_id workspace_id).0 (ground arith) in
            let i = (eq_iff r.id id).0 (ground arith) in
            rw (k, w, i) at (after-closes same_number r s t o) in
          rw (o, y) (omega (arith, closed-none rs t closed))
    ]
  ]
