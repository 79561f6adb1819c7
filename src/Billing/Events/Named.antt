-- ===== src/Billing/Events/Named.antt =====
-- An event that reports a subscription names a customer (`parse_event` of
-- backend/geolytics/billing.py).
use geolytics.Prelude.{String, ◌≡◌, ◌≢◌, Option, none, some, arith, eq_string, eq_iff}
use geolytics.Json.{Json, text, ok, get, or_empty, bind-eq-ok}
use geolytics.Billing.Events.{
  SubscriptionState, Prices, plan_for_price, price_id, deleted, subscribed, priced, read_event,
  handle, subscribe, dispatch, parse_event,
}

deleted-customer :
    (customer : String) (o : Json) (s : SubscriptionState)
    → deleted customer o ≡ ok (some s)
    → s.customer_id ≡ customer
unfolding deleted
deleted-customer customer o s h = ground arith

subscribed-customer :
    (customer plan : String) (o : Json) (s : SubscriptionState)
    → subscribed customer o plan ≡ ok (some s)
    → s.customer_id ≡ customer
unfolding subscribed
subscribed-customer customer plan o s h = ground arith

priced-customer :
    (prices : Prices) (customer : String) (o : Json) (s : SubscriptionState)
    → priced prices customer o ≡ ok (some s)
    → s.customer_id ≡ customer
unfolding priced subscribe
priced-customer prices customer o s h =
    let (price, _, sub) = bind-eq-ok (price_id o) _ h in by_plan (plan_for_price prices price) sub
  where
    by_plan : (p : Option String) → subscribe customer o p ≡ ok (some s) → s.customer_id ≡ customer
    by_plan none h = cc
    by_plan (some p) h = subscribed-customer customer p o s h

read_event-named :
    (prices : Prices) (event_type : String) (o customer : Json) (s : SubscriptionState)
    → read_event prices event_type o customer ≡ ok (some s)
    → s.customer_id ≢ ""
unfolding read_event
read_event-named prices event_type o (text customer) s h =
    ground (
      arith,
      deleted-customer customer o s,
      priced-customer prices customer o s,
      eq_iff customer "",
    )
read_event-named prices event_type o _ s h = cc

handle-named :
    (prices : Prices) (event_type : String) (event : Json) (s : SubscriptionState)
    → handle prices event_type event ≡ ok (some s)
    → s.customer_id ≢ ""
unfolding handle
handle-named prices event_type event s h =
    let (holder, _, rest) = bind-eq-ok (get "data" event) _ h in
    let (object, _, rest') = bind-eq-ok (get "object" (or_empty holder)) _ rest in
    let (customer, _, read) = bind-eq-ok (get "customer" (or_empty object)) _ rest' in
    read_event-named prices event_type (or_empty object) customer s read

dispatch-named :
    (prices : Prices) (event_type event : Json) (s : SubscriptionState)
    → dispatch prices event_type event ≡ ok (some s)
    → s.customer_id ≢ ""
unfolding dispatch
dispatch-named prices (text t) event s h = ground (arith, handle-named prices t event s)
dispatch-named prices _ event s h = cc

-- What an event reports, it reports of a customer.
pub parse_event-named :
    (event : Json) (prices : Prices) (s : SubscriptionState)
    → parse_event event prices ≡ ok (some s)
    → s.customer_id ≢ ""
unfolding parse_event
parse_event-named event prices s h =
    let (event_type, _, rest) = bind-eq-ok (get "type" event) _ h in
    dispatch-named prices event_type event s rest
