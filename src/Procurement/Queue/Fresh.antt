-- ===== src/Procurement/Queue/Fresh.antt =====
-- When the worker skips a pair, and what becomes of runs that never ended.
use optra.Prelude.{
  ℕ, ◌<◌, ◌≡◌, ◌⊎◌, inl, inr, refl, Bool, true, false, some, List, [], ◌∷◌, String, any, first,
  select, update, All, Bool-cases, Option-cases, if◌then◌else◌, ltb→lt, arith,
}
use mathlib.Core.Path.{subst}
use optra.Procurement.Documents.{Header, Documents, is_done, is_document}
use optra.Procurement.Queue.{PairJob, Run, newest, receipts_of, reconcile, abandoned, is_stale}
use optra.Procurement.Queue.Worker.{is_current_success, latest_run, later, is_up_to_date}

abbrev pub RunIn : Run → List Run → Type 0
RunIn r [] = ⊥
RunIn r (x ∷ xs) = (r ≡ x) ⊎ RunIn r xs

latest_run-In :
    (above : String → String → Bool) (p : Run → Bool) (runs : List Run) {r : Run}
    → latest_run above p runs ≡ some r
    → RunIn r runs × (p r ≡ true)
unfolding latest_run
latest_run-In above p [] e = ground arith
latest_run-In above p (x ∷ xs) {r} e = elim (Bool-cases (p x)) [
  | inr n ↦ let (m, q) = latest_run-In above p xs (rw n at e) in (inr m, q)
  | inl y ↦ elim (Option-cases (latest_run above p xs)) [
    | inl n ↦ let same : r ≡ x = cc (rw (y, n) at e) in (inl same, rw same y)
    | inr (o, found) ↦
        let (m, q) = latest_run-In above p xs found in
        elim (Bool-cases (later above o x)) [
          | inl l ↦
              let same : o ≡ r = cc (rw (y, found, l) at e) in
              subst (λ w. RunIn w (x ∷ xs) × (p w ≡ true)) same (inr m, q)
          | inr l ↦ let same : r ≡ x = cc (rw (y, found, l) at e) in (inl same, rw same y)
        ]
  ]
]

newest-All_lt : (hs : List Header) (n : ℕ) → newest hs < n → All (λ h. h.updated_at < n) hs
unfolding newest
newest-All_lt [] n h = tt
newest-All_lt (x ∷ xs) n h = (omega arith, newest-All_lt xs n (omega arith))

-- A run of the pair that succeeded under the current rules, and that started after every document
-- that it read was last changed.
pub record IsFresh (job : PairJob) (s : Documents) (runs : List Run) : Type 0 where
  pub run : Run
  pub order : Header
  pub bill : Header
  pub stored : RunIn run runs
  pub success : is_current_success job run ≡ true
  pub order_of :
      first (is_document job.workspace_id job.purchase_order_id) s.purchase_orders ≡ some order
  pub bill_of : first (is_document job.workspace_id job.invoice_id) s.invoices ≡ some bill
  pub order_before : order.updated_at < run.started_at
  pub bill_before : bill.updated_at < run.started_at
  pub receipts_before :
      All
        (λ h. h.updated_at < run.started_at)
        (select (λ h. is_done h.status) (receipts_of job.workspace_id job.purchase_order_id s))

-- The worker takes a pair for unchanged only when a run of it is stored that succeeded under the
-- current version of the rules, and that started after the order, the invoice and every parsed
-- receipt of the order were last changed.
pub is_up_to_date-IsFresh :
    (above : String → String → Bool) (job : PairJob) (s : Documents) (runs : List Run)
    → is_up_to_date above job s runs ≡ true
    → IsFresh job s runs
unfolding is_up_to_date
is_up_to_date-IsFresh above job s runs h =
    elim (Option-cases (latest_run above (is_current_success job) runs)) [
      | inl n ↦ cc (rw n at h)
      | inr (r, found) ↦
          elim (Option-cases
            (first (is_document job.workspace_id job.purchase_order_id) s.purchase_orders)) [
              | inl n ↦ cc (rw (found, n) at h)
              | inr (po, p) ↦
                  elim (Option-cases
                    (first (is_document job.workspace_id job.invoice_id) s.invoices)) [
                      | inl n ↦ cc (rw (found, p, n) at h)
                      | inr (inv, i) ↦
                          let (m, q) = latest_run-In above (is_current_success job) runs found in
                          let started = ltb→lt _ r.started_at (rw (found, p, i) at h) in
                          record {
                            run = r;
                            order = po;
                            bill = inv;
                            stored = m;
                            success = q;
                            order_of = p;
                            bill_of = i;
                            order_before = omega (arith, started);
                            bill_before = omega (arith, started);
                            receipts_before = newest-All_lt _ _ (omega (arith, started));
                          }
                    ]
            ]
    ]

module _ (p : Run → Bool) (f : Run → Run) where
  wider :
      (x : Run) (ys runs : List Run)
      → All (λ r. (p r ≡ true) ⊎ RunIn r ys) runs
      → All (λ r. (p r ≡ true) ⊎ RunIn r (x ∷ ys)) runs
  wider x ys [] _ = tt
  wider x ys (s ∷ ss) (inl y, more) = (inl y, wider x ys ss more)
  wider x ys (s ∷ ss) (inr m, more) = (inr (inr m), wider x ys ss more)

  update-keeps : (runs : List Run) → All (λ r. (p r ≡ true) ⊎ RunIn r (update p f runs)) runs
  update-keeps [] = tt
  update-keeps (r ∷ rs) =
      let head : (p r ≡ true) ⊎ ((r ≡ (if p r then f r else r)) ⊎ RunIn r (update p f rs)) =
        elim (Bool-cases (p r)) [ inl y ↦ inl y | inr n ↦ inr (inl (rw n refl)) ] in
      (head, wider (if p r then f r else r) (update p f rs) rs (update-keeps rs))

reconcile-clean :
    (message : String → String) (now : ℕ) (runs : List Run)
    → any (is_stale now) (reconcile message now runs) ≡ false
unfolding reconcile abandoned
reconcile-clean message now [] = refl
reconcile-clean message now (r ∷ rs) = ground (arith, reconcile-clean message now rs)

-- After the sweep, no run that started more than ten minutes before it is still running, and every
-- run that was not such a run is still stored as it was.
pub reconcile-swept :
    (message : String → String) (now : ℕ) (runs : List Run)
    → (any (is_stale now) (reconcile message now runs) ≡ false)
      × All (λ r. (is_stale now r ≡ true) ⊎ RunIn r (reconcile message now runs)) runs
unfolding reconcile
reconcile-swept message now runs =
    (reconcile-clean message now runs, update-keeps (is_stale now) (abandoned message now) runs)
