-- ===== src/Billing/Upsert/Current.antt =====
-- A workspace's row over a sequence of deliveries.
use optra.Prelude.{
  ℕ, ◌≤◌, ◌≡◌, refl, ◌⊎◌, inl, inr, true, false, none, some, String, List, [], ◌∷◌, ◌++◌, ◌==◌,
  if◌then◌else◌, any, update, arith, eq_iff, eq_refl, Bool-cases, Option-cases,
}
use optra.Billing.Plans.{is_entitled_status}
use optra.Billing.Store.{Subscription, is_subscription_of}
use optra.Billing.Upsert.{rejection_of, put_row, current_of, write_subscription}

current-update_other :
    (v : Subscription) (w : String) (rows : List Subscription)
    → (v.workspace_id == w) ≡ false
    → current_of w (update (is_subscription_of v.workspace_id) (λ _. v) rows) ≡ current_of w rows
current-update_other v w [] h = refl
current-update_other v w (r ∷ rows) h = elim (Bool-cases (r.workspace_id == v.workspace_id)) [
  | inl same ↦
      let e = (eq_iff r.workspace_id v.workspace_id).0 same in
      rw (same, e, h) (current-update_other v w rows h)
  | inr different ↦ rw (different, current-update_other v w rows h) refl
]

current-update_self :
    (v : Subscription) (rows : List Subscription)
    → any (is_subscription_of v.workspace_id) rows ≡ true
    → current_of v.workspace_id (update (is_subscription_of v.workspace_id) (λ _. v) rows) ≡ some v
current-update_self v [] h = cc
current-update_self v (r ∷ rows) h = elim (Bool-cases (r.workspace_id == v.workspace_id)) [
  | inl same ↦ rw (same, eq_refl) refl
  | inr different ↦ rw (different, different) (current-update_self v rows (rw different at h))
]

current-append :
    (v : Subscription) (w : String) (rows : List Subscription)
    → any (is_subscription_of v.workspace_id) rows ≡ false
    → current_of w (rows ++ v ∷ []) ≡ (if v.workspace_id == w then some v else current_of w rows)
current-append v w [] h = refl
current-append v w (r ∷ rows) h = ground (
  arith,
  eq_iff v.workspace_id w,
  eq_iff r.workspace_id w,
  eq_iff r.workspace_id v.workspace_id,
  current-append v w rows,
)

-- The row of each workspace after a row is put in place.
pub current-put_row :
    (v : Subscription) (w : String) (rows : List Subscription)
    → current_of w (put_row v rows) ≡ (if v.workspace_id == w then some v else current_of w rows)
unfolding put_row
current-put_row v w rows = elim (Bool-cases (any (is_subscription_of v.workspace_id) rows)) [
  | inl old ↦ elim (Bool-cases (v.workspace_id == w)) [
    | inl same ↦
        rw (old, ← (eq_iff v.workspace_id w).0 same, eq_refl) (current-update_self v rows old)
    | inr other ↦ rw (old, other) (current-update_other v w rows other)
  ]
  | inr new ↦ rw new (current-append v w rows new)
]

-- The workspace's row c after one event: it is there, it is no older, and while it entitles the
-- workspace it belongs to the same subscription.
pub record IsLater (now : ℕ) (c c' : Subscription) : Type 0 where
  pub no_older : c.ls_updated_at ≤ c'.ls_updated_at
  pub kept :
      (c'.ls_subscription_id ≡ c.ls_subscription_id)
      ⊎ (is_entitled_status c.status c.ends_at now ≡ false)

not_rejected-IsLater :
    (now : ℕ) (v c : Subscription) → rejection_of now v (some c) ≡ none → IsLater now c v
unfolding rejection_of
not_rejected-IsLater now v c h = record {
  no_older = ground arith;
  kept = ground (arith, eq_iff c.ls_subscription_id v.ls_subscription_id);
}

pub IsLater-refl : (now : ℕ) (c : Subscription) → IsLater now c c
IsLater-refl now c = record { no_older = omega arith; kept = inl refl }

pub write-current :
    (now : ℕ) (v : Subscription) (w : String) (rows : List Subscription) (c : Subscription)
    → current_of w rows ≡ some c
    → (c' : Subscription) × (current_of w (write_subscription now v rows) ≡ some c')
      × IsLater now c c'
unfolding write_subscription
write-current now v w rows c h =
    elim (Option-cases (rejection_of now v (current_of v.workspace_id rows))) [
      | inr (why, rejected) ↦ (c, rw rejected h, IsLater-refl now c)
      | inl accepted ↦ elim (Bool-cases (v.workspace_id == w)) [
        | inl same ↦
            let e = (eq_iff v.workspace_id w).0 same in
            let h' : current_of v.workspace_id rows ≡ some c = rw e h in
            (
              v,
              rw (accepted, current-put_row v w rows, same) refl,
              not_rejected-IsLater now v c (rw h' at accepted),
            )
        | inr other ↦ (c, rw (accepted, current-put_row v w rows, other) h, IsLater-refl now c)
      ]
    ]
