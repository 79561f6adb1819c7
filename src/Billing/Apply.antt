-- ===== src/Billing/Apply.antt =====
-- `apply_subscription` (backend/geolytics/billing.py) over the organisations and the audit log.
pub mod Rows
pub mod Ordering
pub mod Repeats
use geolytics.Prelude.{
  ℕ, String, Bool, false, Option, none, some, List, [], ◌∷◌, if◌then◌else◌, ◌==◌, eq_ℕ, eq_string,
  ltb, find_first, map,
}
use geolytics.Json.{Json, Result, ok, ◌>>=◌}
use geolytics.Models.{Organization}
use geolytics.Billing.Events.{SubscriptionState, is_active}

pub record LogEntry : Type 0 where
  pub org_id : ℕ
  pub actor : String
  pub action : String
  pub target : Json
  pub plan : String
  pub status : Json

pub record Db : Type 0 where
  pub orgs : List Organization
  pub log : List LogEntry

-- Both period ends are known and the first is the earlier one.
unfoldable pub ends_before : Option ℕ → Option ℕ → Bool
ends_before (some reported) (some known) = ltb reported known
ends_before _ _ = false

unfoldable pub is_stale : SubscriptionState → Organization → Bool
unfolding ends_before
is_stale s o = ends_before s.current_period_end o.current_period_end

-- The assignments to an organisation that is not ahead of the event.
unfoldable pub overwrite : SubscriptionState → Bool → Organization → Organization
overwrite s active o = record o {
  billing_customer_id = some s.customer_id;
  billing_subscription_id = s.subscription_id;
  plan = if active then s.plan else "free";
  status = if active then "active" else "suspended";
  current_period_end = s.current_period_end;
}

unfoldable pub has_customer : String → Organization → Bool
has_customer customer o = elim o.billing_customer_id [ none ↦ false | some c ↦ c == customer ]

by_id : Option ℕ → List Organization → Option Organization
by_id none orgs = none
by_id (some id) orgs = find_first (λ o. o.id == id) orgs

-- By Stripe customer id, falling back to the id that the checkout session carried.
unfoldable pub find_org : SubscriptionState → Option ℕ → List Organization → Option Organization
unfolding has_customer by_id
find_org s org_id orgs =
    let by_customer =
      if s.customer_id == "" then none else find_first (has_customer s.customer_id) orgs in
    elim by_customer [ none ↦ by_id org_id orgs | some o ↦ some o ]

-- The row of the table with this primary key.
unfoldable pub store : Organization → List Organization → List Organization
store o orgs = map (λ r. if r.id == o.id then o else r) orgs

unfoldable pub log_entry : SubscriptionState → Organization → LogEntry
log_entry s o = record {
  org_id = o.id;
  actor = "stripe";
  action = "billing.subscription_updated";
  target = s.subscription_id;
  plan = o.plan;
  status = s.status;
}

settle : SubscriptionState → Organization → Db → Result (Option Organization × Db)
settle s o db = if is_stale s o then ok (some o, db) else (do
  active ← is_active s
  let o' = overwrite s active o
  ok (some o', record { orgs = store o' db.orgs; log = log_entry s o' ∷ db.log }))

unfoldable pub apply_subscription :
    SubscriptionState → Option ℕ → Db → Result (Option Organization × Db)
unfolding settle
apply_subscription s org_id db = elim (find_org s org_id db.orgs) [
  | none ↦ ok (none, db)
  | some o ↦ settle s o db
]

-- One webhook request after the other, each in its own transaction.
unfoldable pub deliver : Option ℕ → List SubscriptionState → Db → Result Db
deliver org_id [] db = ok db
deliver org_id (s ∷ events) db = do
  out ← apply_subscription s org_id db
  deliver org_id events out.1
