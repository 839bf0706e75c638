-- ===== src/Billing/Upsert/Sound.antt =====
-- The invariant of workspace_subscriptions: one row for a workspace, one workspace for a
-- subscription, and seats that fit the plan.
use mathlib.Core.Path.{subst}
use optra.Json.{get}
use optra.Prelude.{
  ℕ, ◌≤◌, ◌≡◌, refl, ◌⊎◌, inl, inr, Bool, false, Option, none, some, String, List, [], ◌∷◌, ◌++◌,
  ◌==◌, first, any, update, arith, eq_iff, Bool-cases, Option-cases, All, All-concat, All-update,
  any-append_single,
}
use optra.Billing.Plans.{BillingPlan, solo, team}
use optra.Billing.Store.{Store, Subscription, is_subscription_of}
use optra.Billing.Upsert.{
  rejection_of, put_row, write_subscription, belongs_elsewhere, Attempt, done, failed, Failure,
  seats_of, checked_values, values_for, bound_workspace, quantity_of, to_date, Env, ParsedEvent,
}

-- Solo has one seat, team between 1 and 25.
abbrev pub FitsPlan : BillingPlan → ℕ → Type 0
FitsPlan solo seats = seats ≡ 1
FitsPlan team seats = (1 ≤ seats) × (seats ≤ 25)

abbrev has_ls_id : String → Subscription → Bool
has_ls_id id s = s.ls_subscription_id == id

abbrev pub HasUniqueIds : List Subscription → Type 0
HasUniqueIds [] = Unit
HasUniqueIds (r ∷ rows) =
    (any (is_subscription_of r.workspace_id) rows ≡ false)
    × (any (has_ls_id r.ls_subscription_id) rows ≡ false)
    × HasUniqueIds rows

pub record IsSound (rows : List Subscription) : Type 0 where
  pub seats : All (λ (s : Subscription). FitsPlan s.plan s.seats) rows
  pub unique : HasUniqueIds rows

pub seats_of-FitsPlan :
    (plan : BillingPlan) (quantity : Option ℕ) (n : ℕ)
    → seats_of plan quantity ≡ done n
    → FitsPlan plan n
unfolding seats_of
seats_of-FitsPlan solo quantity n h = cc
seats_of-FitsPlan team none n h = cc
seats_of-FitsPlan team (some k) n h = ground arith

Attempt-cases :
    {A : Type 0} (m : Attempt A) → ((a : A) × (m ≡ done a)) ⊎ ((e : Failure) × (m ≡ failed e))
Attempt-cases (done a) = inl (a, refl)
Attempt-cases (failed e) = inr (e, refl)

done-injective : {A : Type 0} {a b : A} → done a ≡ done b → a ≡ b
done-injective h = cc

values_for-fits :
    (env : Env) (now : ℕ) (event : ParsedEvent) (store : Store) (v : Subscription)
    (b : BillingPlan × String)
    → values_for env now event store b ≡ done v
    → FitsPlan v.plan v.seats
      × (any (belongs_elsewhere v.ls_subscription_id v.workspace_id) store.subscriptions ≡ false)
unfolding values_for
values_for-fits env now event store v (plan, workspace_id) h =
    elim (Bool-cases
      (any (belongs_elsewhere event.subscription_id workspace_id) store.subscriptions)) [
        | inl taken ↦ cc (rw taken at h)
        | inr own ↦ elim (Option-cases (to_date env (get "updated_at" event.attributes))) [
          | inl undated ↦ cc (rw (own, undated) at h)
          | inr (t, dated) ↦ elim (Attempt-cases (seats_of plan (quantity_of event))) [
            | inr (e, refused) ↦ cc (rw (own, dated, refused) at h)
            | inl (n, seated) ↦
                let fits = seats_of-FitsPlan plan (quantity_of event) n seated in
                let row = done-injective (rw (own, dated, seated) at h) in
                (
                  subst (λ (r : Subscription). FitsPlan r.plan r.seats) row fits,
                  subst
                      (λ (r : Subscription).
                        any (belongs_elsewhere r.ls_subscription_id r.workspace_id)
                          store.subscriptions
                        ≡ false)
                      row own,
                )
          ]
        ]
      ]

-- What the checks before the transaction establish of the row.
pub checked_values-fits :
    (env : Env) (now : ℕ) (event : ParsedEvent) (store : Store) (v : Subscription)
    → checked_values env now event store ≡ done v
    → FitsPlan v.plan v.seats
      × (any (belongs_elsewhere v.ls_subscription_id v.workspace_id) store.subscriptions ≡ false)
unfolding checked_values
checked_values-fits env now event store v h =
    elim (Attempt-cases (bound_workspace env event store)) [
      | inl (b, bound) ↦ values_for-fits env now event store v b (rw bound at h)
      | inr (e, refused) ↦ cc (rw refused at h)
    ]

module _ (v : Subscription) where
  abbrev put : List Subscription → List Subscription
  put = update (is_subscription_of v.workspace_id) (λ _. v)

  any_workspace-put :
      (x : String) (rows : List Subscription)
      → any (is_subscription_of x) (put rows) ≡ any (is_subscription_of x) rows
  any_workspace-put x [] = refl
  any_workspace-put x (r ∷ rows) = elim (Bool-cases (r.workspace_id == v.workspace_id)) [
    | inl same ↦
        rw (same, any_workspace-put x rows, (eq_iff r.workspace_id v.workspace_id).0 same) refl
    | inr different ↦ rw (different, any_workspace-put x rows) refl
  ]

  any_id-put :
      (x : String) (rows : List Subscription)
      → any (has_ls_id x) rows ≡ false
      → (v.ls_subscription_id == x) ≡ false
      → any (has_ls_id x) (put rows) ≡ false
  any_id-put x [] h k = refl
  any_id-put x (r ∷ rows) h k = elim (Bool-cases (r.workspace_id == v.workspace_id)) [
    | inl same ↦ rw (same, k) (any_id-put x rows (ground arith) k)
    | inr different ↦ rw different (ground (arith, any_id-put x rows))
  ]

  put-none :
      (rows : List Subscription)
      → any (is_subscription_of v.workspace_id) rows ≡ false
      → put rows ≡ rows
  put-none [] h = refl
  put-none (r ∷ rows) h = elim (Bool-cases (r.workspace_id == v.workspace_id)) [
    | inl same ↦ cc (rw same at h)
    | inr different ↦ rw (different, put-none rows (rw different at h)) refl
  ]

  not_elsewhere :
      (rows : List Subscription)
      → any (belongs_elsewhere v.ls_subscription_id v.workspace_id) rows ≡ false
      → any (is_subscription_of v.workspace_id) rows ≡ false
      → any (has_ls_id v.ls_subscription_id) rows ≡ false
  not_elsewhere [] h k = refl
  not_elsewhere (r ∷ rows) h k = ground (arith, not_elsewhere rows)

  put-HasUniqueIds :
      (rows : List Subscription)
      → any (belongs_elsewhere v.ls_subscription_id v.workspace_id) rows ≡ false
      → HasUniqueIds rows
      → HasUniqueIds (put rows)
  put-HasUniqueIds [] h _ = tt
  put-HasUniqueIds (r ∷ rows) h (alone, own, u) =
      elim (Bool-cases (r.workspace_id == v.workspace_id)) [
        | inl same ↦
            let none_left : any (is_subscription_of v.workspace_id) rows ≡ false =
              rw ((eq_iff r.workspace_id v.workspace_id).0 same) at alone in
            rw (same, put-none rows none_left)
              (none_left, not_elsewhere rows (ground arith) none_left, u)
        | inr different ↦ rw different (
          rw (any_workspace-put r.workspace_id rows) alone,
          any_id-put r.ls_subscription_id rows own (
              ground (
                arith,
                eq_iff r.ls_subscription_id v.ls_subscription_id,
                eq_iff v.ls_subscription_id r.ls_subscription_id,
              )),
          put-HasUniqueIds rows (ground arith) u,
        )
      ]

  concat-HasUniqueIds :
      (rows : List Subscription)
      → any (is_subscription_of v.workspace_id) rows ≡ false
      → any (has_ls_id v.ls_subscription_id) rows ≡ false
      → HasUniqueIds rows
      → HasUniqueIds (rows ++ v ∷ [])
  concat-HasUniqueIds [] _ _ _ = (refl, refl, tt)
  concat-HasUniqueIds (r ∷ rows) h k (alone, own, u) = (
    rw any-append_single (
        ground (arith, eq_iff r.workspace_id v.workspace_id, eq_iff v.workspace_id r.workspace_id)),
    rw any-append_single (
        ground (
          arith,
          eq_iff r.ls_subscription_id v.ls_subscription_id,
          eq_iff v.ls_subscription_id r.ls_subscription_id,
        )),
    concat-HasUniqueIds rows (ground arith) (ground arith) u,
  )

  put_row-IsSound :
      (rows : List Subscription)
      → FitsPlan v.plan v.seats
      → any (belongs_elsewhere v.ls_subscription_id v.workspace_id) rows ≡ false
      → IsSound rows
      → IsSound (put_row v rows)
  unfolding put_row
  put_row-IsSound rows fits h sound =
      elim (Bool-cases (any (is_subscription_of v.workspace_id) rows)) [
        | inl old ↦ rw old (record {
          seats =
              All-update _ (is_subscription_of v.workspace_id) (λ _. v) rows (λ _ _. fits)
                sound.seats;
          unique = put-HasUniqueIds rows h sound.unique;
        })
        | inr new ↦ rw new (record {
          seats = All-concat _ rows sound.seats fits;
          unique = concat-HasUniqueIds rows new (not_elsewhere rows h new) sound.unique;
        })
      ]

  -- The transaction keeps the table sound.
  pub write-IsSound :
      (now : ℕ) (rows : List Subscription)
      → FitsPlan v.plan v.seats
      → any (belongs_elsewhere v.ls_subscription_id v.workspace_id) rows ≡ false
      → IsSound rows
      → IsSound (write_subscription now v rows)
  unfolding write_subscription
  write-IsSound now rows fits h sound =
      elim (Option-cases (rejection_of now v (first (is_subscription_of v.workspace_id) rows))) [
        | inl accepted ↦ rw accepted (put_row-IsSound rows fits h sound)
        | inr (why, rejected) ↦ rw rejected sound
      ]
