-- ===== src/Tests/Billing.antt =====
-- Webhook events at concrete values (backend/geolytics/billing.py).
use geolytics.Prelude.{
  ℕ, String, pos, ◌≡◌, ◌≢◌, refl, true, Option, none, some, [], ◌∷◌, arith, eq_ℕ, eq_string,
}
use geolytics.Prelude.Text.{codes}
use geolytics.Json.{Json, null, text, num, obj, arr, nil, cons, end, entry, ok}
use geolytics.Models.{Organization}
use geolytics.Billing.Events.{SubscriptionState, Prices, parse_event, handled_events}
use geolytics.Billing.Events.Facts.{IsEntitlement, parse_event-IsEntitlement}
use geolytics.Billing.Apply.{Db, apply_subscription}
use geolytics.Billing.Apply.Ordering.{Delivery, current_after, deliver_swap}
use geolytics.Billing.Apply.Repeats.{undated_event_disarms}

abbrev pub prices : Prices
prices = ("starter", "price_1") ∷ ("growth", "price_2") ∷ []

-- A subscription that moved to the price `price_2`.
abbrev pub updated : Json
updated = obj (
    entry "type" (text "customer.subscription.updated") (
      entry "data"
        (obj (
          entry "object"
            (obj (
              entry "customer" (text "cus_1") (
                entry "id" (text "sub_1") (
                  entry "status" (text "active") (
                    entry "current_period_end" (num (pos 200)) (
                      entry "items"
                        (obj (
                          entry "data"
                            (arr (
                              cons (obj (entry "price" (obj (entry "id" (text "price_2") end)) end))
                                nil))
                            end))
                        end))))))
            end))
        end))

abbrev event_type : String
event_type = "customer.subscription.updated"

abbrev event : String → Option ℕ → SubscriptionState
event plan period_end = record {
  customer_id = "cus_1";
  subscription_id = text "sub_1";
  plan = plan;
  status = text "active";
  current_period_end = period_end;
}

parse_event-IsEntitlement_example : IsEntitlement prices updated (event "growth" (some 200))
unfolding parse_event geolytics.Json.get geolytics.Billing.Events.price_id
    geolytics.Billing.Events.plan_for_price geolytics.Tenancy.Plans.Catalogue.plans
    geolytics.Billing.Events.timestamp
parse_event-IsEntitlement_example =
    parse_event-IsEntitlement updated prices (event "growth" (some 200)) refl

abbrev acme : Organization
acme = record {
  id = 7;
  slug = codes "acme";
  name = codes "Acme";
  plan = "starter";
  status = "active";
  limit_overrides = [];
  billing_customer_id = some "cus_1";
  billing_subscription_id = null;
  current_period_end = some 150;
  deleted_at = none;
}

abbrev other : Organization
other = record acme { id = 8; billing_customer_id = some "cus_2" }

abbrev pub tables : Db
tables = record { orgs = other ∷ acme ∷ []; log = [] }

abbrev delivery : String → Option ℕ → Delivery
delivery plan period_end = record { event = event plan period_end; active = true }

abbrev customer : String
customer = "cus_1"

named : customer ≢ ""
named h = cc

deliver_swap_example :
    current_after "cus_1" none
      (delivery "growth" (some 200) ∷ delivery "free" (some 170) ∷ [])
      tables
    ≡ current_after "cus_1" none
        (delivery "free" (some 170) ∷ delivery "growth" (some 200) ∷ [])
        tables
unfolding geolytics.Billing.Events.is_active geolytics.Billing.Events.member
    geolytics.Billing.Apply.has_customer
deliver_swap_example =
    deliver_swap "cus_1" none (delivery "growth" (some 200)) (delivery "free" (some 170)) [] []
      tables acme 200 170 named ((refl, refl), ((refl, refl), tt)) refl refl refl
      (λ e. ground arith)

abbrev acme_after : Organization
acme_after = record acme {
  plan = "growth";
  billing_subscription_id = text "sub_1";
  current_period_end = some 200;
}

abbrev tables_after : Db
tables_after = record {
  orgs = other ∷ acme_after ∷ [];
  log =
      record {
        org_id = 7;
        actor = "stripe";
        action = "billing.subscription_updated";
        target = text "sub_1";
        plan = "growth";
        status = text "active";
      }
      ∷ [];
}

undated_event_disarms_example :
    (q : Organization) × (current_after "cus_1" none
        (delivery "growth" none ∷ delivery "free" (some 100) ∷ [])
        tables
      ≡ ok (some q))
    × (q.plan ≡ "free")
unfolding geolytics.Billing.Events.is_active geolytics.Billing.Events.member
    geolytics.Billing.Apply.has_customer geolytics.Billing.Apply.is_stale
undated_event_disarms_example =
    undated_event_disarms "cus_1" none (delivery "growth" none) (delivery "free" (some 100)) tables
      acme named ((refl, refl), ((refl, refl), tt)) refl refl refl
