-- ===== src/Tests/Webhook.antt =====
-- A delivery that opens a team subscription of five seats for a workspace.
use optra.Prelude.{
  ◌≤◌, ◌≡◌, refl, Option, none, some, false, String, [], ◌∷◌, ◌==◌, if◌then◌else◌, arith, trim,
}
use optra.Http.{ok}
use optra.Json.{Json, string, number, object, Fields, end, field, get, to_text}
use optra.Billing.Plans.{team, variant_id_for, plan_for_variant, is_entitled_status}
use optra.Billing.Signature.{verify_signature, is_uuid}
use optra.Billing.Store.{Subscription, Store}
use optra.Billing.Upsert.{
  Env, has_valid_binding, seats_of, bound_workspace, values_for, checked_values, rejection_of,
  put_row, write_subscription,
}
use optra.Billing.Upsert.Sound.{IsSound}
use optra.Billing.Webhook.{Delivery, handle, parse, process}
use optra.Billing.Webhook.Laws.{handle_all, handle_all-IsSound}
use optra.Billing.Webhook.Redelivery.{handle_again}

abbrev workspace_id : String
workspace_id = "00000000-0000-4000-8000-000000000001"

abbrev config : String → Option String
config key =
    if key == "LEMONSQUEEZY_WEBHOOK_SECRET"
    then some "secret"
    else if key == "LEMONSQUEEZY_STORE_ID"
    then some "77"
    else if key == "LEMONSQUEEZY_VARIANT_TEAM"
    then some "12"
    else none

abbrev env : Env
env = record { hmac = λ _ _. "abc"; parse_date = λ _. some 9; config = config }

abbrev custom_data : Fields
custom_data = field "workspace_id" (string workspace_id) (field "workspace_sig" (string "abc") end)

abbrev attributes : Fields
attributes = field "store_id" (number "77" (some 77)) (
    field "variant_id" (number "12" (some 12)) (
      field "status" (string "active") (
        field "updated_at" (string "2024-01-01") (
          field "first_subscription_item" (object (field "quantity" (number "5" (some 5)) end))
            end))))

abbrev body : Json
body = object (
    field "meta"
      (object (
        field "event_name" (string "subscription_created")
          (field "custom_data" (object custom_data) end)))
      (field "data" (object (field "id" (string "s1") (field "attributes" (object attributes) end)))
        end))

abbrev delivery : Delivery
delivery = record {
  raw_body = "body";
  signature = some "abc";
  json = some body;
  body_sha256 = "hash";
  now = 1000;
  new_id = "e1";
}

abbrev old_row : Subscription
old_row = record {
  workspace_id = workspace_id;
  ls_subscription_id = "s1";
  ls_customer_id = "c1";
  ls_variant_id = "12";
  plan = team;
  status = "active";
  seats = 3;
  renews_at = none;
  ends_at = none;
  ls_updated_at = 4;
  updated_at = 4;
}

abbrev store : Store
store = record {
  workspaces = record { id = workspace_id; trial_ends_at = none; billing_exempt = false } ∷ [];
  subscriptions = old_row ∷ [];
  usage_events = [];
  billing_events = [];
}

three-le : (1 ≤ 3) × (3 ≤ 25)
three-le = (omega arith, omega arith)

store-IsSound : IsSound (old_row ∷ [])
store-IsSound = record { seats = (three-le, tt); unique = (refl, refl, tt) }

acknowledged : (handle env delivery store).0 ≡ ok tt
unfolding handle verify_signature parse process checked_values bound_workspace values_for seats_of
    get trim variant_id_for plan_for_variant is_uuid has_valid_binding to_text
acknowledged = refl

-- The delivery replaces the three seats by five.
five_seats :
    (handle env delivery store).1.subscriptions
    ≡ record old_row { ls_customer_id = ""; seats = 5; ls_updated_at = 9; updated_at = 1000 } ∷ []
unfolding handle verify_signature parse process checked_values bound_workspace values_for seats_of
    get trim variant_id_for plan_for_variant is_uuid has_valid_binding to_text write_subscription
    put_row rejection_of is_entitled_status
five_seats = refl

handle_again_example :
    handle env (record delivery { now = 2000; new_id = "e2" }) (handle env delivery store).1
    ≡ (ok tt, (handle env delivery store).1)
handle_again_example = handle_again env delivery 2000 "e2" store acknowledged

handle_all-IsSound_example : IsSound (handle_all env (delivery ∷ []) store).subscriptions
handle_all-IsSound_example = handle_all-IsSound env (delivery ∷ []) store store-IsSound
