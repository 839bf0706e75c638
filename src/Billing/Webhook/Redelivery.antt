-- ===== src/Billing/Webhook/Redelivery.antt =====
-- Resending a body: an acknowledged delivery is processed once.

use optra.Prelude.{
  ℕ, ◌≡◌, refl, inl, inr, Bool, true, Option, none, some, String, List, [], ◌∷◌, ◌++◌, ◌==◌, first,
  update, eq_refl, Bool-cases, is_some, truthy,
}
use optra.Http.{ok}
use optra.Billing.Signature.{verify_signature}
use optra.Billing.Store.{Subscription, BillingEvent, Store}
use optra.Billing.Upsert.{
  Attempt, done, failed, terminal, retryable, other, ParsedEvent, Env, webhook_secret,
  checked_values,
}
use optra.Billing.Webhook.{
  is_subscription_event, has_body, has_id, mark_processed, processed, process, answer, Delivery,
  dispatch, received, handle, parse,
}

-- An update that keeps the test's value finds the same row, updated.
first-update :
    {A : Type 0} (p q : A → Bool) (f : A → A) (rows : List A) (a : A)
    → ((a : A) → p (f a) ≡ p a)
    → first p rows ≡ some a
    → q a ≡ true
    → first p (update q f rows) ≡ some (f a)
first-update p q f [] a keep h k = cc
first-update p q f (r ∷ rows) a keep h k = elim (Bool-cases (p r)) [
  | inl hit ↦ let same : r ≡ a = cc (rw hit at h) in rw (same, k, keep a, ← same, hit) refl
  | inr miss ↦ elim (Bool-cases (q r)) [
    | inl yes_q ↦ rw (yes_q, keep r, miss) (first-update p q f rows a keep (rw miss at h) k)
    | inr no_q ↦ rw (no_q, miss) (first-update p q f rows a keep (rw miss at h) k)
  ]
]

first-append :
    {A : Type 0} (p : A → Bool) (rows : List A) (a : A)
    → first p rows ≡ none
    → p a ≡ true
    → first p (rows ++ a ∷ []) ≡ some a
first-append p [] a h k = rw k refl
first-append p (r ∷ rows) a h k = elim (Bool-cases (p r)) [
  | inl hit ↦ cc (rw hit at h)
  | inr miss ↦ rw miss (first-append p rows a (rw miss at h) k)
]

-- A body is finished when its recorded event is marked as processed.
abbrev IsFinished : String → List BillingEvent → Type 0
IsFinished sha rows =
    (e : BillingEvent) × (first (has_body sha) rows ≡ some e) × (is_some e.processed_at ≡ true)

mark-IsFinished :
    (sha id : String) (now : ℕ) (err : Option String) (rows : List BillingEvent) (e : BillingEvent)
    → first (has_body sha) rows ≡ some e
    → (e.id == id) ≡ true
    → IsFinished sha (mark_processed id now err rows)
mark-IsFinished sha id now err rows e h own = (
  record e { processed_at = some now; last_error = err },
  first-update (has_body sha) (has_id id)
      (λ e. record e { processed_at = some now; last_error = err }) rows e (λ _. refl) h own,
  refl,
)

process-IsFinished :
    (env : Env) (d : Delivery) (id : String) (event : ParsedEvent) (store : Store)
    (e : BillingEvent)
    → first (has_body d.body_sha256) store.billing_events ≡ some e
    → (e.id == id) ≡ true
    → (answer id store (process env id d.now event store)).0 ≡ ok tt
    → IsFinished d.body_sha256 (answer id store (process env id d.now event store)).1.billing_events
unfolding process
process-IsFinished env d id event store e h own acked =
    elim (Bool-cases (is_subscription_event event.event_name)) [
      | inr ignored ↦
          rw ignored (mark-IsFinished d.body_sha256 id d.now none store.billing_events e h own)
      | inl ours ↦ rw ours (go (checked_values env d.now event store) (rw ours at acked))
    ]
  where
    go :
        (a : Attempt Subscription)
        → (answer id store (processed id d.now a store)).0 ≡ ok tt
        → IsFinished d.body_sha256 (answer id store (processed id d.now a store)).1.billing_events
    go (done v) k = mark-IsFinished d.body_sha256 id d.now _ store.billing_events e h own
    go (failed (terminal m)) k =
        mark-IsFinished d.body_sha256 id d.now (some m) store.billing_events e h own
    go (failed (retryable m)) k = cc
    go (failed (other m)) k = cc

dispatch-IsFinished :
    (env : Env) (d : Delivery) (event : ParsedEvent) (store : Store) (seen : Option BillingEvent)
    → first (has_body d.body_sha256) store.billing_events ≡ seen
    → (dispatch env d event store seen).0 ≡ ok tt
    → IsFinished d.body_sha256 (dispatch env d event store seen).1.billing_events
dispatch-IsFinished env d event store none h acked =
    process-IsFinished env d d.new_id event _ _
      (first-append (has_body d.body_sha256) store.billing_events _ h (eq_refl d.body_sha256))
      (eq_refl d.new_id) acked
dispatch-IsFinished env d event store (some old) h acked =
    elim (Bool-cases (is_some old.processed_at)) [
      | inl finished ↦ rw finished (old, h, finished)
      | inr pending ↦
          rw pending (
            process-IsFinished env d old.id event store old h (eq_refl old.id)
              (rw pending at acked))
    ]

dispatch_finished :
    (env : Env) (d : Delivery) (event : ParsedEvent) (store : Store)
    → IsFinished d.body_sha256 store.billing_events
    → received env d store (some event) ≡ (ok tt, store)
dispatch_finished env d event store (e, h, finished) = rw (h, finished) refl

received_again :
    (env : Env) (d : Delivery) (later : ℕ) (other_id : String) (store : Store)
    (event : Option ParsedEvent)
    → (received env d store event).0 ≡ ok tt
    → received env
        (record d { now = later; new_id = other_id })
        (received env d store event).1
        event
      ≡ (ok tt, (received env d store event).1)
received_again env d later other_id store none acked = cc
received_again env d later other_id store (some event) acked =
    dispatch_finished env (record d { now = later; new_id = other_id }) event _
      (dispatch-IsFinished env d event store _ refl acked)

-- A delivery that was acknowledged, sent again with the same body and signature at any later time,
-- is acknowledged again and changes nothing.
pub handle_again :
    (env : Env) (d : Delivery) (later : ℕ) (other_id : String) (store : Store)
    → (handle env d store).0 ≡ ok tt
    → handle env (record d { now = later; new_id = other_id }) (handle env d store).1
      ≡ (ok tt, (handle env d store).1)
unfolding handle
handle_again env d later other_id store acked = elim (Bool-cases (truthy (webhook_secret env))) [
  | inr unset ↦ cc (rw unset at acked)
  | inl set ↦
      elim (Bool-cases (verify_signature env.hmac d.raw_body d.signature (webhook_secret env))) [
        | inr forged ↦ cc (rw (set, forged) at acked)
        | inl genuine ↦
            rw (set, genuine)
              (received_again env d later other_id store (parse d.json)
                (rw (set, genuine) at acked))
      ]
]
