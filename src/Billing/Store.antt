-- ===== src/Billing/Store.antt =====
-- The billing tables: workspaces (the two billing columns), workspace_subscriptions, usage_events
-- and billing_events.
use optra.Prelude.{ℕ, Bool, Option, String, List, ◌==◌}
use optra.Billing.Plans.{BillingPlan}
use optra.Billing.Ledger.{Ledger}

pub record Workspace : Type 0 where
  pub id : String
  pub trial_ends_at : Option ℕ
  pub billing_exempt : Bool

pub record Subscription : Type 0 where
  pub workspace_id : String
  pub ls_subscription_id : String
  pub ls_customer_id : String
  pub ls_variant_id : String
  pub plan : BillingPlan
  pub status : String
  pub seats : ℕ
  pub renews_at : Option ℕ
  pub ends_at : Option ℕ
  pub ls_updated_at : ℕ
  pub updated_at : ℕ

pub record BillingEvent : Type 0 where
  pub id : String
  pub event_name : String
  pub body_sha256 : String
  pub processed_at : Option ℕ
  pub last_error : Option String

pub record Store : Type 0 where
  pub workspaces : List Workspace
  pub subscriptions : List Subscription
  pub usage_events : Ledger
  pub billing_events : List BillingEvent

abbrev pub is_workspace : String → Workspace → Bool
is_workspace id w = w.id == id

abbrev pub is_subscription_of : String → Subscription → Bool
is_subscription_of workspace_id s = s.workspace_id == workspace_id
