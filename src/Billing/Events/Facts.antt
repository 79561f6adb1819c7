-- ===== src/Billing/Events/Facts.antt =====
-- What `parse_event` can report, for any event body.
use geolytics.Prelude.{
  String, ◌≡◌, ◌≢◌, ◌⊎◌, inl, inr, refl, sym, ap, ◌∙◌, Bool, Bool-cases, if_true, if_false, In,
  ==→eq, ◌&&◌, true, false, Option, none, some, [], ◌∷◌, arith, if◌then◌else◌, ◌==◌, eq_string,
  eq_iff, is_some, contains,
}
use geolytics.Json.{Json, text, Result, ok, ◌>>=◌, get, or_empty, bind-eq-ok}
use geolytics.Tenancy.Plans.Catalogue.{plans}
use geolytics.Billing.Events.{
  SubscriptionState, Prices, matching_plan, plan_for_price, price_id, deleted, subscribed, priced,
  read_event, handle, subscribe, dispatch, handled_events, parse_event,
}

-- The price that an object asks for is one at which the price list sells a plan of the catalogue.
pub record IsSale (prices : Prices) (object : Json) (plan : String) : Type 0 where
  pub price : String
  pub asked : price_id object ≡ ok (text price)
  pub filled : price ≢ ""
  pub listed : In (plan, price) prices
  pub known : is_some (plans plan) ≡ true

matching_plan-listed :
    (prices : Prices) (price plan : String)
    → matching_plan prices price ≡ some plan
    → In (plan, price) prices × (is_some (plans plan) ≡ true)
unfolding matching_plan
matching_plan-listed [] price plan h = cc
matching_plan-listed ((p, configured) ∷ r) price plan h =
    elim (Bool-cases (configured == price && is_some (plans p))) [
      | inl e ↦
          let same : p ≡ plan = some_same (sym (if_true _ _ _ e) ∙ h) in
          let (priced_so, there) = both_hold _ _ e in
          (
            inl (
                ap (λ q. (q, configured)) same
                ∙ ap (λ c. (plan, c)) (==→eq configured price priced_so)),
            ap (λ q. is_some (plans q)) (sym same) ∙ there,
          )
      | inr e ↦
          let (later, there) = matching_plan-listed r price plan (sym (if_false _ _ _ e) ∙ h) in
          (inr later, there)
    ]
  where
    some_same : {a b : String} → some a ≡ some b → a ≡ b
    some_same e = cc

    both_hold : (b c : Bool) → b && c ≡ true → (b ≡ true) × (c ≡ true)
    both_hold b c h = (ground arith, ground arith)

plan_for_price-IsSale :
    (prices : Prices) (object price : Json) (plan : String)
    → price_id object ≡ ok price
    → plan_for_price prices price ≡ some plan
    → IsSale prices object plan
unfolding plan_for_price
plan_for_price-IsSale prices object (text price) plan asked h = elim (Bool-cases (price == "")) [
  | inl e ↦ absurd (nothing (sym (if_true _ _ _ e) ∙ h))
  | inr e ↦
      let (listed, known) = matching_plan-listed prices price plan (sym (if_false _ _ _ e) ∙ h) in
      record {
        price = price;
        asked = asked;
        filled = apart price e;
        listed = listed;
        known = known;
      }
]
  where
    nothing : none ≡ some plan → ⊥
    nothing e = cc

    apart : (p : String) → p == "" ≡ false → p ≢ ""
    apart p e same = ground (arith, eq_iff p "")
plan_for_price-IsSale prices object _ plan asked h = cc

-- The object that an event is about.
abbrev pub object_of : Json → Result Json
object_of event = do
  holder ← get "data" event
  object ← get "object" (or_empty holder)
  ok (or_empty object)

-- What an event entitles to: one that deletes a subscription cancels it onto the free plan, and any
-- other puts its customer on a plan that is sold at the price that it names.
abbrev pub IsEntitlement : Prices → Json → SubscriptionState → Type 0
IsEntitlement prices event s =
    ((get "type" event ≡ ok (text "customer.subscription.deleted"))
      × (s.plan ≡ "free")
      × (s.status ≡ text "canceled"))
    ⊎ ((object : Json) × (object_of event ≡ ok object) × IsSale prices object s.plan)

deleted-plan :
    (customer : String) (o : Json) (s : SubscriptionState)
    → deleted customer o ≡ ok (some s)
    → (s.plan ≡ "free") × (s.status ≡ text "canceled")
unfolding deleted
deleted-plan customer o s h = ground arith

subscribed-plan :
    (customer plan : String) (o : Json) (s : SubscriptionState)
    → subscribed customer o plan ≡ ok (some s)
    → s.plan ≡ plan
unfolding subscribed
subscribed-plan customer plan o s h = ground arith

subscribe-IsSale :
    (prices : Prices) (customer : String) (o : Json) (plan : Option String) (s : SubscriptionState)
    → ((p : String) → plan ≡ some p → IsSale prices o p)
    → subscribe customer o plan ≡ ok (some s)
    → IsSale prices o s.plan
unfolding subscribe
subscribe-IsSale prices customer o none s sale h = cc
subscribe-IsSale prices customer o (some p) s sale h =
    rw (subscribed-plan customer p o s h) (sale p refl)

priced-IsSale :
    (prices : Prices) (customer : String) (o : Json) (s : SubscriptionState)
    → priced prices customer o ≡ ok (some s)
    → IsSale prices o s.plan
unfolding priced
priced-IsSale prices customer o s h =
    let (price, asked, sub) = bind-eq-ok (price_id o) _ h in
    subscribe-IsSale prices customer o (plan_for_price prices price) s
      (λ p. plan_for_price-IsSale prices o price p asked) sub

-- The same for an event that has been taken apart.
abbrev Entitles : Prices → String → Json → SubscriptionState → Type 0
Entitles prices event_type o s =
    ((event_type ≡ "customer.subscription.deleted")
      × (s.plan ≡ "free")
      × (s.status ≡ text "canceled"))
    ⊎ IsSale prices o s.plan

by_type :
    (a b c : Bool) (prices : Prices) (event_type customer : String) (o : Json)
    (s : SubscriptionState)
    → (event_type == "customer.subscription.deleted") ≡ b
    → (if a
        then ok none
        else if b
        then deleted customer o
        else if c
        then ok none
        else priced prices customer o)
      ≡ ok (some s)
    → Entitles prices event_type o s
by_type true b c prices event_type customer o s e h = cc
by_type false true c prices event_type customer o s e h =
    let (free, ended) = deleted-plan customer o s h in
    inl (==→eq event_type "customer.subscription.deleted" e, free, ended)
by_type false false true prices event_type customer o s e h = cc
by_type false false false prices event_type customer o s e h =
    inr (priced-IsSale prices customer o s h)

read_event-Entitles :
    (prices : Prices) (event_type : String) (o customer : Json) (s : SubscriptionState)
    → read_event prices event_type o customer ≡ ok (some s)
    → Entitles prices event_type o s
unfolding read_event
read_event-Entitles prices event_type o (text customer) s h =
    by_type _ _ _ prices event_type customer o s refl h
read_event-Entitles prices event_type o _ s h = cc

handle-IsEntitlement :
    (prices : Prices) (event_type : String) (event : Json) (s : SubscriptionState)
    → get "type" event ≡ ok (text event_type)
    → handle prices event_type event ≡ ok (some s)
    → IsEntitlement prices event s
unfolding handle
handle-IsEntitlement prices event_type event s typed h =
    let (holder, held, rest) = bind-eq-ok (get "data" event) _ h in
    let (object, there, rest') = bind-eq-ok (get "object" (or_empty holder)) _ rest in
    let (customer, _, read) = bind-eq-ok (get "customer" (or_empty object)) _ rest' in
    elim (read_event-Entitles prices event_type (or_empty object) customer s read) [
      | inl (type_is, free, ended) ↦ inl (typed ∙ ap (λ t. ok (text t)) type_is, free, ended)
      | inr sale ↦ inr (or_empty object, rw (held, there) refl, sale)
    ]

dispatch-IsEntitlement :
    (prices : Prices) (event_type event : Json) (s : SubscriptionState)
    → get "type" event ≡ ok event_type
    → dispatch prices event_type event ≡ ok (some s)
    → IsEntitlement prices event s
unfolding dispatch
dispatch-IsEntitlement prices (text t) event s typed h = by_handled (contains handled_events t) h
  where
    by_handled :
        (b : Bool)
        → (if b then handle prices t event else ok none) ≡ ok (some s)
        → IsEntitlement prices event s
    by_handled true h = handle-IsEntitlement prices t event s typed h
    by_handled false h = cc
dispatch-IsEntitlement prices _ event s typed h = cc

-- Whatever the body of an event, if it reports a subscription then either the event is the deletion
-- of one, which it reports as a cancellation onto the free plan; or the object of the event names a
-- price that is not empty, and the plan that is reported is one of the catalogue which the price
-- list sells at just that price.
pub parse_event-IsEntitlement :
    (event : Json) (prices : Prices) (s : SubscriptionState)
    → parse_event event prices ≡ ok (some s)
    → IsEntitlement prices event s
unfolding parse_event
parse_event-IsEntitlement event prices s h =
    let (event_type, typed, rest) = bind-eq-ok (get "type" event) _ h in
    dispatch-IsEntitlement prices event_type event s typed rest

read_failed :
    (prices : Prices) (o customer : Json) (s : SubscriptionState)
    → read_event prices "invoice.payment_failed" o customer ≢ ok (some s)
unfolding read_event
read_failed prices o (text customer) s h = ground arith
read_failed prices o _ s h = cc

handle_failed :
    (prices : Prices) (event : Json) (s : SubscriptionState)
    → handle prices "invoice.payment_failed" event ≢ ok (some s)
unfolding handle
handle_failed prices event s h =
    let (holder, _, rest) = bind-eq-ok (get "data" event) _ h in
    let (object, _, rest') = bind-eq-ok (get "object" (or_empty holder)) _ rest in
    let (customer, _, read) = bind-eq-ok (get "customer" (or_empty object)) _ rest' in
    read_failed prices (or_empty object) customer s read

guarded :
    (b : Bool) (m : Result (Option SubscriptionState)) (s : SubscriptionState)
    → (if b then m else ok none) ≡ ok (some s)
    → (b ≡ true) × (m ≡ ok (some s))
guarded true m s h = (refl, h)
guarded false m s h = cc

-- An event with a text for its type reports a subscription only if the type is handled, and a
-- failed payment never does: it does not cut the customer off.
pub parse_event-type :
    (event : Json) (prices : Prices) (t : String) (s : SubscriptionState)
    → get "type" event ≡ ok (text t)
    → parse_event event prices ≡ ok (some s)
    → (contains handled_events t ≡ true) × (t ≢ "invoice.payment_failed")
unfolding parse_event dispatch
parse_event-type event prices t s e h =
    let (handled, read) = guarded _ (handle prices t event) s (rw (e, parse_event) at h) in
    (handled, λ failed. handle_failed prices event s (rw failed at read))
