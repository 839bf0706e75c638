-- ===== src/Billing/Webhook.antt =====
-- One delivery of the Lemon Squeezy webhook (`handle`, `parse` and `process` of
-- apps/api/src/billing/billing-webhook.service.ts). A database error is not modelled; the errors are
-- those that the code itself throws.
pub mod Laws
pub mod Redelivery
use optra.Prelude.{
  ℕ, Bool, true, false, Option, none, some, String, List, [], ◌∷◌, ◌++◌, ◌==◌, ◌||◌, if◌then◌else◌,
  first, any, update, and_then, is_some, take_chars, truthy,
}
use Prim.Native.String
use optra.Json.{
  Json, null, number, string, object, Fields, get, as_string, as_object, object_or_empty,
}
use optra.Http.{
  Result, ok, fail, HttpError, bad_request, unauthorized, service_unavailable, internal,
}
use optra.Billing.Signature.{verify_signature}
use optra.Billing.Store.{Subscription, BillingEvent, Store}
use optra.Billing.Upsert.{
  Failure, terminal, retryable, other, Attempt, done, failed, ParsedEvent, Env, webhook_secret,
  checked_values, rejection_of, current_of, write_subscription,
}

abbrev pub is_subscription_event : String → Bool
is_subscription_event name =
    name == "subscription_created"
    || name == "subscription_updated"
    || name == "subscription_cancelled"
    || name == "subscription_resumed"
    || name == "subscription_expired"
    || name == "subscription_paused"
    || name == "subscription_unpaused"

-- `String(data.id)` of a string or a number
abbrev id_text : Option Json → Option String
id_text (some (string s)) = some s
id_text (some (number text _)) = some text
id_text _ = none

abbrev parsed : Option String → Fields → Option String → Option Fields → Option ParsedEvent
parsed (some name) custom (some id) (some attributes) = some (record {
  event_name = name;
  custom_data = custom;
  subscription_id = id;
  attributes = attributes;
})
parsed _ _ _ _ = none

infixl 5 ◌>>=◌
abbrev ◌>>=◌ : {A B : Type 0} → Option A → (A → Option B) → Option B
none >>= f = none
some a >>= f = f a

-- The shape that a body must have; `none` is the answer 400. The argument is what JSON.parse
-- returned, `none` where it threw.
unfoldable pub parse : Option Json → Option ParsedEvent
parse json = do
  body ← as_object json
  meta ← as_object (get "meta" body)
  info ← as_object (get "data" body)
  parsed (as_string (get "event_name" meta)) (object_or_empty (get "custom_data" meta))
      (id_text (get "id" info)) (as_object (get "attributes" info))

abbrev pub has_body : String → BillingEvent → Bool
has_body sha e = e.body_sha256 == sha

abbrev pub has_id : String → BillingEvent → Bool
has_id id e = e.id == id

-- update billing_events set processed_at = now, last_error where id
abbrev pub mark_processed : String → ℕ → Option String → List BillingEvent → List BillingEvent
mark_processed id now err rows =
    update (has_id id) (λ e. record e { processed_at = some now; last_error = err }) rows

-- update billing_events set last_error where id
abbrev pub stamp_error : String → String → List BillingEvent → List BillingEvent
stamp_error id message rows = update (has_id id) (λ e. record e { last_error = some message }) rows

abbrev message_of : Failure → String
message_of (terminal m) = m
message_of (retryable m) = m
message_of (other m) = m

-- describeError: only a RetryableFailure keeps its text.
abbrev pub describe_error : Failure → String
describe_error (retryable m) = m
describe_error (terminal _) = "Error: database or processing error (details withheld)"
describe_error (other _) = "Error: database or processing error (details withheld)"

-- The transaction: the row, and the event's mark.
abbrev pub commit : String → ℕ → Subscription → Store → Store
commit event_id now v store =
    let rejection = rejection_of now v (current_of v.workspace_id store.subscriptions) in
    record store {
      subscriptions = write_subscription now v store.subscriptions;
      billing_events = mark_processed event_id now rejection store.billing_events;
    }

abbrev pub processed : String → ℕ → Attempt Subscription → Store → Attempt Store
processed event_id now (done v) store = done (commit event_id now v store)
processed event_id now (failed (terminal m)) store =
    done
      (record store { billing_events = mark_processed event_id now (some m) store.billing_events })
processed event_id now (failed e) store = failed e

-- process: other events are only marked; a terminal rejection is marked and acknowledged.
unfoldable pub process : Env → String → ℕ → ParsedEvent → Store → Attempt Store
process env event_id now event store =
    if is_subscription_event event.event_name
    then processed event_id now (checked_values env now event store) store
    else done
        (record store { billing_events = mark_processed event_id now none store.billing_events })

-- The catch block of `handle`: 500, so that the sender tries again.
abbrev pub answer : String → Store → Attempt Store → Result (Unit {0}) × Store
answer event_id store (done store') = (ok tt, store')
answer event_id store (failed e) = (
  fail (internal "Webhook processing failed"),
  record store {
    billing_events = stamp_error event_id (take_chars 2000 (describe_error e)) store.billing_events;
  },
)

-- A request: the raw body, the signature header, what JSON.parse gives, the SHA-256 of the body,
-- the instant, and the id that the database would give to a new event.
pub record Delivery : Type 0 where
  pub raw_body : String
  pub signature : Option String
  pub json : Option Json
  pub body_sha256 : String
  pub now : ℕ
  pub new_id : String

abbrev new_event : Delivery → ParsedEvent → BillingEvent
new_event d event = record {
  id = d.new_id;
  event_name = take_chars 64 event.event_name;
  body_sha256 = d.body_sha256;
  processed_at = none;
  last_error = none;
}

-- A body that was seen before is processed again only if it never finished.
abbrev pub dispatch :
    Env → Delivery → ParsedEvent → Store → Option BillingEvent → Result (Unit {0}) × Store
dispatch env d event store none =
    let recorded = record store {
      billing_events = store.billing_events ++ new_event d event ∷ [];
    } in
    answer d.new_id recorded (process env d.new_id d.now event recorded)
dispatch env d event store (some old) =
    if is_some old.processed_at
    then (ok tt, store)
    else answer old.id store (process env old.id d.now event store)

abbrev pub received : Env → Delivery → Store → Option ParsedEvent → Result (Unit {0}) × Store
received env d store none = (fail (bad_request "Unexpected webhook body"), store)
received env d store (some event) =
    dispatch env d event store (first (has_body d.body_sha256) store.billing_events)

unfoldable pub handle : Env → Delivery → Store → Result (Unit {0}) × Store
handle env d store =
    if truthy (webhook_secret env)
    then (if verify_signature env.hmac d.raw_body d.signature (webhook_secret env)
        then received env d store (parse d.json)
        else (fail (unauthorized "Invalid signature"), store))
    else (fail (service_unavailable "Billing is not configured"), store)
