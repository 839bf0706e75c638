-- ===== src/Billing/Upsert.antt =====
-- Applying a subscription event (`upsert` and `hasValidBinding` of
-- apps/api/src/billing/billing-webhook.service.ts): the checks before the transaction, and the
-- transaction on workspace_subscriptions.
pub mod Sound
pub mod Current
use optra.Prelude.{
  ℕ, Bool, true, false, not, Option, none, some, String, List, [], ◌∷◌, ◌++◌, ◌==◌, ◌&&◌,
  if◌then◌else◌, ltb, leb, trim, non_empty, first, any, update, and_then, or_else, is_some,
}
use Prim.Native.String
use mathlib.Core.Option
use optra.Json.{Json, number, Fields, get, to_text, text_of, nullish, as_string, object_or_empty}
use optra.Billing.Plans.{
  BillingPlan, solo, team, EnvReader, variant_id_for, plan_for_variant, is_entitled_status,
  seats_min, seats_max,
}
use optra.Billing.Signature.{Hmac, verify_signature, is_uuid}
use optra.Billing.Store.{
  Workspace, Subscription, BillingEvent, Store, is_workspace, is_subscription_of,
}

-- TerminalRejection, RetryableFailure and any other Error.
pub data Failure : Type 0 where
  terminal retryable other : String → Failure

pub data Attempt (A : Type 0) : Type 0 where
  done : A → Attempt A
  failed : Failure → Attempt A

infixl 5 ◌>>=◌ ◌>>◌
abbrev pub ◌>>=◌ : {A B : Type 0} → Attempt A → (A → Attempt B) → Attempt B
done a >>= f = f a
failed e >>= f = failed e

abbrev pub ◌>>◌ : {B : Type 0} → Attempt (Unit {0}) → Attempt B → Attempt B
m >> k = m >>= λ _. k

-- if (!test) throw error
abbrev pub require : Bool → Failure → Attempt (Unit {0})
require true e = done tt
require false e = failed e

abbrev pub present : {A : Type 0} → Option A → Failure → Attempt A
present none e = failed e
present (some a) e = done a

pub record ParsedEvent : Type 0 where
  pub event_name : String
  pub custom_data : Fields
  pub subscription_id : String
  pub attributes : Fields

-- What the source takes from outside: the HMAC, `new Date(text).getTime()` (none for NaN), and the
-- configuration.
pub record Env : Type 0 where
  pub hmac : Hmac
  pub parse_date : String → Option ℕ
  pub config : EnvReader

abbrev pub webhook_secret : Env → String
webhook_secret env = or_else (env.config "LEMONSQUEEZY_WEBHOOK_SECRET") ""

-- toDate
abbrev to_date : Env → Option Json → Option ℕ
to_date env value = and_then (and_then (as_string value) non_empty) env.parse_date

abbrev signed : Env → String → Option String → Bool
signed env workspace_id none = false
signed env workspace_id (some sig) =
    verify_signature env.hmac workspace_id (some sig) (webhook_secret env)

abbrev workspace_id_of : ParsedEvent → Option String
workspace_id_of event =
    and_then (as_string (get "workspace_id" event.custom_data))
      (λ id. if is_uuid id then some id else none)

abbrev is_bound : Env → Option String → Option String → Bool
is_bound env none sig = false
is_bound env (some id) sig = signed env id sig

unfoldable pub has_valid_binding : Env → ParsedEvent → Bool
has_valid_binding env event =
    is_bound env (workspace_id_of event) (as_string (get "workspace_sig" event.custom_data))

abbrev plan_of : Env → ParsedEvent → Option BillingPlan
plan_of env event =
    plan_for_variant (Option.map to_text (nullish (get "variant_id" event.attributes))) env.config

abbrev foreign_message : ParsedEvent → String
foreign_message event =
    let variant =
      or_else (Option.map to_text (nullish (get "variant_id" event.attributes))) "none" in
    String.◌++◌ "foreign event: not an Optra subscription (variant " (String.◌++◌ variant ")")

abbrev is_foreign : Env → ParsedEvent → Bool
is_foreign env event =
    not (is_some (plan_of env event))
    && not (has_valid_binding env event)
    && is_some (variant_id_for solo env.config)
    && is_some (variant_id_for team env.config)

abbrev natural : Option Json → Option ℕ
natural (some (number _ value)) = value
natural _ = none

abbrev quantity_of : ParsedEvent → Option ℕ
quantity_of event =
    natural (get "quantity" (object_or_empty (get "first_subscription_item" event.attributes)))

-- The seats of the plan; the quantity of a team plan is an integer from 1 to 25.
unfoldable pub seats_of : BillingPlan → Option ℕ → Attempt ℕ
seats_of solo quantity = done 1
seats_of team none = failed (terminal "invalid quantity for the team plan")
seats_of team (some n) =
    if leb seats_min n && leb n seats_max
    then done n
    else failed (terminal "invalid quantity for the team plan")

abbrev pub belongs_elsewhere : String → String → Subscription → Bool
belongs_elsewhere subscription_id workspace_id s =
    s.ls_subscription_id == subscription_id && not (s.workspace_id == workspace_id)

-- The plan and the workspace of an event that is ours and names a workspace that exists.
unfoldable pub bound_workspace : Env → ParsedEvent → Store → Attempt (BillingPlan × String)
bound_workspace env event store = do
  expected_store ←
      present (and_then (env.config "LEMONSQUEEZY_STORE_ID") (λ v. non_empty (trim v)))
        (retryable "LEMONSQUEEZY_STORE_ID is not configured")
  require (text_of (get "store_id" event.attributes) == expected_store)
      (terminal "store_id mismatch")
  require (not (is_foreign env event)) (terminal (foreign_message event))
  plan ←
      present (plan_of env event)
        (retryable "unknown variant (not mapped to a plan; check LEMONSQUEEZY_VARIANT_* env)")
  workspace_id ← present (workspace_id_of event) (terminal "missing workspace_id in custom_data")
  require (signed env workspace_id (as_string (get "workspace_sig" event.custom_data)))
      (terminal "workspace binding signature missing or invalid")
  require (any (is_workspace workspace_id) store.workspaces) (terminal "unknown workspace")
  done (plan, workspace_id)

-- The rest of the checks, and the row that the event describes.
unfoldable pub values_for :
    Env → ℕ → ParsedEvent → Store → BillingPlan × String → Attempt Subscription
values_for env now event store (plan, workspace_id) = do
  require (not (any (belongs_elsewhere event.subscription_id workspace_id) store.subscriptions))
      (terminal "subscription belongs to another workspace")
  ls_updated_at ←
      present (to_date env (get "updated_at" event.attributes))
        (other "webhook attributes.updated_at is missing or invalid")
  seats ← seats_of plan (quantity_of event)
  done (record {
    workspace_id = workspace_id;
    ls_subscription_id = event.subscription_id;
    ls_customer_id = or_else (Option.map to_text (nullish (get "customer_id" event.attributes))) "";
    ls_variant_id = text_of (get "variant_id" event.attributes);
    plan = plan;
    status = or_else (Option.map to_text (nullish (get "status" event.attributes))) "";
    seats = seats;
    renews_at = to_date env (get "renews_at" event.attributes);
    ends_at = to_date env (get "ends_at" event.attributes);
    ls_updated_at = ls_updated_at;
    updated_at = now;
  })

-- Everything before the transaction.
unfoldable pub checked_values : Env → ℕ → ParsedEvent → Store → Attempt Subscription
checked_values env now event store =
    bound_workspace env event store >>= values_for env now event store

-- Why the transaction does not write the row, if it does not.
unfoldable pub rejection_of : ℕ → Subscription → Option Subscription → Option String
rejection_of now values none = none
rejection_of now values (some current) =
    if ltb values.ls_updated_at current.ls_updated_at
    then some "stale event: the workspace row is newer"
    else if not (current.ls_subscription_id == values.ls_subscription_id)
        && is_entitled_status current.status current.ends_at now
    then some "workspace already has an active subscription"
    else none

-- insert ... on conflict (workspace_id) do update
unfoldable pub put_row : Subscription → List Subscription → List Subscription
put_row values rows =
    if any (is_subscription_of values.workspace_id) rows
    then update (is_subscription_of values.workspace_id) (λ _. values) rows
    else rows ++ values ∷ []

abbrev pub unless_rejected : Option String → Subscription → List Subscription → List Subscription
unless_rejected none values rows = put_row values rows
unless_rejected (some _) values rows = rows

abbrev pub current_of : String → List Subscription → Option Subscription
current_of workspace_id rows = first (is_subscription_of workspace_id) rows

-- The subscriptions after the transaction.
unfoldable pub write_subscription : ℕ → Subscription → List Subscription → List Subscription
write_subscription now values rows =
    unless_rejected (rejection_of now values (current_of values.workspace_id rows)) values rows
