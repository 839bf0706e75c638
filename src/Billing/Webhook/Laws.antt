-- ===== src/Billing/Webhook/Laws.antt =====
-- What holds of the billing tables over any sequence of deliveries.
use optra.Prelude.{
  ◌≤◌, ◌≡◌, refl, ap, inl, inr, Option, none, some, String, List, [], ◌∷◌, first, arith, Bool-cases,
  is_some, truthy,
}
use optra.Billing.Signature.{verify_signature}
use optra.Billing.Store.{Subscription, BillingEvent, Store}
use optra.Billing.Upsert.{
  Attempt, done, failed, terminal, retryable, other, ParsedEvent, Env, webhook_secret,
  checked_values, current_of, write_subscription,
}
use optra.Billing.Upsert.Sound.{IsSound, checked_values-fits, write-IsSound}
use optra.Billing.Upsert.Current.{IsLater, IsLater-refl, write-current}
use optra.Billing.Webhook.{
  is_subscription_event, has_body, processed, process, answer, Delivery, dispatch, received, handle,
  parse,
}

-- A delivery leaves the subscriptions alone, or makes one transaction on them for a row that passed
-- the checks.
data Effect (env : Env) (d : Delivery) (store : Store) : Store → Type 0 where
  untouched : {after : Store} → after.subscriptions ≡ store.subscriptions → Effect env d store after
  written :
      {after : Store} (event : ParsedEvent) (checked : Store) (v : Subscription)
      → checked.subscriptions ≡ store.subscriptions
      → checked_values env d.now event checked ≡ done v
      → after.subscriptions ≡ write_subscription d.now v store.subscriptions
      → Effect env d store after

process-Effect :
    (env : Env) (d : Delivery) (id : String) (event : ParsedEvent) (store checked : Store)
    → checked.subscriptions ≡ store.subscriptions
    → Effect env d store (answer id checked (process env id d.now event checked)).1
unfolding process
process-Effect env d id event store checked same =
    elim (Bool-cases (is_subscription_event event.event_name)) [
      | inr ignored ↦ rw ignored (untouched same)
      | inl ours ↦ rw ours (go (checked_values env d.now event checked) refl)
    ]
  where
    go :
        (a : Attempt Subscription)
        → checked_values env d.now event checked ≡ a
        → Effect env d store (answer id checked (processed id d.now a checked)).1
    go (done v) h = written event checked v same h (ap (write_subscription d.now v) same)
    go (failed (terminal m)) h = untouched same
    go (failed (retryable m)) h = untouched same
    go (failed (other m)) h = untouched same

dispatch-Effect :
    (env : Env) (d : Delivery) (event : ParsedEvent) (store : Store) (seen : Option BillingEvent)
    → Effect env d store (dispatch env d event store seen).1
dispatch-Effect env d event store none = process-Effect env d d.new_id event store _ refl
dispatch-Effect env d event store (some old) = elim (Bool-cases (is_some old.processed_at)) [
  | inl finished ↦ rw finished (untouched refl)
  | inr pending ↦ rw pending (process-Effect env d old.id event store store refl)
]

received-Effect :
    (env : Env) (d : Delivery) (store : Store) (event : Option ParsedEvent)
    → Effect env d store (received env d store event).1
received-Effect env d store none = untouched refl
received-Effect env d store (some event) =
    dispatch-Effect env d event store (first (has_body d.body_sha256) store.billing_events)

handle-Effect :
    (env : Env) (d : Delivery) (store : Store) → Effect env d store (handle env d store).1
unfolding handle
handle-Effect env d store = elim (Bool-cases (truthy (webhook_secret env))) [
  | inr unset ↦ rw unset (untouched refl)
  | inl set ↦
      elim (Bool-cases (verify_signature env.hmac d.raw_body d.signature (webhook_secret env))) [
        | inr forged ↦ rw (set, forged) (untouched refl)
        | inl genuine ↦ rw (set, genuine) (received-Effect env d store (parse d.json))
      ]
]

-- The store after a sequence of deliveries, in the order in which they are served.
unfoldable pub handle_all : Env → List Delivery → Store → Store
handle_all env [] store = store
handle_all env (d ∷ ds) store = handle_all env ds (handle env d store).1

handle-IsSound :
    (env : Env) (d : Delivery) (store : Store)
    → IsSound store.subscriptions
    → IsSound (handle env d store).1.subscriptions
handle-IsSound env d store sound = keep (handle-Effect env d store)
  where
    keep : {after : Store} → Effect env d store after → IsSound after.subscriptions
    keep (untouched same) = rw same sound
    keep (written event checked v same passed wrote) =
        let (fits, own) = checked_values-fits env d.now event checked v passed in
        rw wrote (write-IsSound v d.now store.subscriptions fits (rw same at own) sound)

-- Whatever is delivered, in whatever order, the subscriptions stay sound if they are sound at the
-- start: a workspace has one row, a Lemon Squeezy subscription belongs to one workspace, a solo
-- plan has one seat and a team plan between 1 and 25.
pub handle_all-IsSound :
    (env : Env) (ds : List Delivery) (store : Store)
    → IsSound store.subscriptions
    → IsSound (handle_all env ds store).subscriptions
unfolding handle_all
handle_all-IsSound env [] store sound = sound
handle_all-IsSound env (d ∷ ds) store sound =
    handle_all-IsSound env ds (handle env d store).1 (handle-IsSound env d store sound)

-- When a workspace has a subscription, one delivery never removes it, never puts an older state in
-- its place, and never another subscription while the stored one entitles the workspace.
handle-current :
    (env : Env) (d : Delivery) (store : Store) (workspace_id : String) (c : Subscription)
    → current_of workspace_id store.subscriptions ≡ some c
    → (c' : Subscription) × (current_of workspace_id (handle env d store).1.subscriptions ≡ some c')
      × IsLater d.now c c'
handle-current env d store workspace_id c h = keep (handle-Effect env d store)
  where
    keep :
        {after : Store}
        → Effect env d store after
        → (c' : Subscription) × (current_of workspace_id after.subscriptions ≡ some c')
          × IsLater d.now c c'
    keep (untouched same) = (c, rw same h, IsLater-refl d.now c)
    keep (written event checked v same passed wrote) =
        rw wrote (write-current d.now v workspace_id store.subscriptions c h)

-- Over any sequence of deliveries a workspace that has a subscription keeps one, and its Lemon
-- Squeezy timestamp never goes back.
handle_all-monotone :
    (env : Env) (ds : List Delivery) (store : Store) (workspace_id : String) (c : Subscription)
    → current_of workspace_id store.subscriptions ≡ some c
    → (c' : Subscription) × (current_of workspace_id (handle_all env ds store).subscriptions
        ≡ some c')
      × (c.ls_updated_at ≤ c'.ls_updated_at)
unfolding handle_all
handle_all-monotone env [] store workspace_id c h = (c, h, omega arith)
handle_all-monotone env (d ∷ ds) store workspace_id c h =
    let (mid, at_mid, later) = handle-current env d store workspace_id c h in
    let (last, at_last, le) =
      handle_all-monotone env ds (handle env d store).1 workspace_id mid at_mid in
    (last, at_last, omega arith)
