-- ===== src/Billing/Events.antt =====
-- What a verified Stripe event says (`parse_event` and its helpers of
-- backend/geolytics/billing.py).
pub mod Facts
pub mod Named
use geolytics.Prelude.{
  ℕ, String, Bool, true, false, ◌&&◌, Option, none, some, List, [], ◌∷◌, if◌then◌else◌, ◌==◌, eq_ℕ,
  eq_string, ltb, contains, is_some, pos,
}
use geolytics.Json.{
  Json, bool, num, text, arr, obj, cons, Result, ok, err, type_error, key_error, value_error,
  attribute_error, ◌>>=◌, truthy, get, or_empty,
}
use geolytics.Tenancy.Plans.Catalogue.{plans}

abbrev pub handled_events : List String
handled_events =
    "checkout.session.completed" ∷ "customer.subscription.created" ∷ "customer.subscription.updated"
    ∷ "customer.subscription.deleted" ∷ "invoice.payment_failed" ∷ []

abbrev pub active_statuses : List String
active_statuses = "active" ∷ "trialing" ∷ "past_due" ∷ []

-- `subscription_id` and `status` are what the event holds there, whatever its type.
pub record SubscriptionState : Type 0 where
  pub customer_id : String
  pub subscription_id : Json
  pub plan : String
  pub status : Json
  pub current_period_end : Option ℕ

-- Membership in a frozenset of texts: a list or a dict is unhashable.
unfoldable pub member : List String → Json → Result Bool
member names (text s) = ok (contains names s)
member names (arr xs) = err type_error
member names (obj fs) = err type_error
member names _ = ok false

unfoldable pub is_active : SubscriptionState → Result Bool
is_active s = member active_statuses s.status

abbrev pub Prices : Type 0
Prices = List (String × String)

matching_plan : Prices → String → Option String
matching_plan [] price = none
matching_plan ((plan, configured) ∷ r) price =
    if configured == price && is_some (plans plan) then some plan else matching_plan r price

-- A price that is no text equals no configured price.
unfoldable pub plan_for_price : Prices → Json → Option String
unfolding matching_plan
plan_for_price prices (text price) = if price == "" then none else matching_plan prices price
plan_for_price prices _ = none

-- The last second of the year 9999; `datetime.fromtimestamp` refuses a later one.
abbrev last_second : ℕ
last_second = 253_402_300_799

-- `True` is the number 1.
unfoldable pub timestamp : Json → Result (Option ℕ)
timestamp (num (pos n)) =
    if n == 0 then ok none else if ltb last_second n then err value_error else ok (some n)
timestamp (bool true) = ok (some 1)
timestamp _ = ok none

-- `items[0].get("price")...` of a true value.
first_price : Json → Result Json
first_price (arr (cons x xs)) = do price ← get "price" x; get "id" (or_empty price)
first_price (obj fs) = err key_error
first_price (text s) = err attribute_error
first_price _ = err type_error

plan_price : Json → Result Json
plan_price o = do plan ← get "plan" o; if truthy plan then get "id" plan else get "price" o

unfoldable pub price_id : Json → Result Json
unfolding first_price plan_price
price_id o = do
  holder ← get "items" o
  items ← get "data" (or_empty holder)
  if truthy items then first_price items else plan_price o

deleted : String → Json → Result (Option SubscriptionState)
deleted customer o = do
  id ← get "id" o
  period_end ← get "current_period_end" o
  at ← timestamp period_end
  ok (
      some (record {
        customer_id = customer;
        subscription_id = id;
        plan = "free";
        status = text "canceled";
        current_period_end = at;
      }))

-- `a or b`.
abbrev pub or_else : Json → Json → Json
or_else a b = if truthy a then a else b

subscribed : String → Json → String → Result (Option SubscriptionState)
subscribed customer o plan = do
  subscription ← get "subscription" o
  id ← get "id" o
  status ← get "status" o
  period_end ← get "current_period_end" o
  at ← timestamp period_end
  ok (
      some (record {
        customer_id = customer;
        subscription_id = or_else subscription id;
        plan = plan;
        status = or_else status (text "active");
        current_period_end = at;
      }))

subscribe : String → Json → Option String → Result (Option SubscriptionState)
unfolding subscribed
subscribe customer o none = ok none
subscribe customer o (some plan) = subscribed customer o plan

priced : Prices → String → Json → Result (Option SubscriptionState)
unfolding subscribe
priced prices customer o = do price ← price_id o; subscribe customer o (plan_for_price prices price)

-- What an event of a handled type says about its customer.
read_event : Prices → String → Json → Json → Result (Option SubscriptionState)
unfolding deleted priced
read_event prices event_type o (text customer) =
    if customer == ""
    then ok none
    else if event_type == "customer.subscription.deleted"
    then deleted customer o
    else if event_type == "invoice.payment_failed"
    then ok none
    else priced prices customer o
read_event prices event_type o _ = ok none

handle : Prices → String → Json → Result (Option SubscriptionState)
unfolding read_event
handle prices event_type event = do
  holder ← get "data" event
  object ← get "object" (or_empty holder)
  customer ← get "customer" (or_empty object)
  read_event prices event_type (or_empty object) customer

dispatch : Prices → Json → Json → Result (Option SubscriptionState)
unfolding handle
dispatch prices (text event_type) event =
    if contains handled_events event_type then handle prices event_type event else ok none
dispatch prices (arr xs) event = err type_error
dispatch prices (obj fs) event = err type_error
dispatch prices _ event = ok none

-- An event without a type has the type "", which no handler takes.
unfoldable pub parse_event : Json → Prices → Result (Option SubscriptionState)
unfolding dispatch
parse_event event prices = do event_type ← get "type" event; dispatch prices event_type event
