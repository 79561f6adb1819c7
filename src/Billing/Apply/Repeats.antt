-- ===== src/Billing/Apply/Repeats.antt =====
-- Repeated deliveries, events without a period end, and other tenants' rows.
use geolytics.Prelude.{
  ℕ, String, ◌≡◌, ◌≢◌, refl, ap, ◌∙◌, Bool, true, false, Option, none, some, List, [], ◌∷◌, All,
  arith, Option-cases, ◌⊎◌, inl, inr, if◌then◌else◌, ◌==◌, eq_ℕ, eq_string, eq_iff, find_first,
  find_first-holds,
}
use geolytics.Json.{ok, bind-eq-ok, ok-pair}
use geolytics.Models.{Organization}
use geolytics.Billing.Events.{SubscriptionState, is_active}
use geolytics.Billing.Apply.{
  Db, ends_before, is_stale, overwrite, has_customer, find_org, store, settle, log_entry,
  apply_subscription,
}
use geolytics.Billing.Apply.Ordering.{Delivery, IsAbout, current_after, deliver-settles}
use geolytics.Billing.Apply.Rows.{
  settled, current, has_customer-overwrite, find-store, find-store_new, store-store,
  overwrite-overwrite, fresh, id-overwrite,
}

find_org-again :
    (s : SubscriptionState) (org_id : Option ℕ) (o o' : Organization) (orgs : List Organization)
    → s.customer_id ≢ ""
    → find_org s org_id orgs ≡ some o
    → o'.id ≡ o.id
    → has_customer s.customer_id o' ≡ true
    → find_org s org_id (store o' orgs) ≡ some o'
unfolding find_org
find_org-again s none o o' orgs named found i k =
    ground (arith, eq_iff s.customer_id "", find-store s.customer_id o o' orgs)
find_org-again s (some n) o o' orgs named found i k = ground (
  arith,
  eq_iff s.customer_id "",
  find-store s.customer_id o o' orgs,
  find-store_new s.customer_id n o o' orgs,
  find_first-holds (λ (r : Organization). r.id == n) orgs o,
)

-- The ways in which `settle` returns.
abbrev Settles : SubscriptionState → Organization → Db → Option Organization → Db → Type 0
Settles s o db out db₁ =
    ((is_stale s o ≡ true) × (out ≡ some o) × (db₁ ≡ db))
    ⊎ ((a : Bool) × (is_active s ≡ ok a)
        × (out ≡ some (overwrite s a o))
        × (db₁.orgs ≡ store (overwrite s a o) db.orgs))

settle_cases :
    (s : SubscriptionState) (o : Organization) (db db₁ : Db) (out : Option Organization)
    (stale : Bool)
    → is_stale s o ≡ stale
    → settle s o db ≡ ok (out, db₁)
    → Settles s o db out db₁
unfolding settle
settle_cases s o db db₁ out true e h =
    let (same, unchanged) = ok-pair (rw (e, settle) at h) in inl (e, same, unchanged)
settle_cases s o db db₁ out false e h =
    let (a, active, rest) = bind-eq-ok (is_active s) _ (rw (e, settle) at h) in
    let (written, kept) = ok-pair rest in inr (a, active, written, ap (λ (d : Db). d.orgs) kept)

-- The delivery that follows one that settled `o`.
settle_again :
    (s : SubscriptionState) (org_id : Option ℕ) (db db₁ : Db) (o : Organization)
    (out : Option Organization)
    → s.customer_id ≢ ""
    → find_org s org_id db.orgs ≡ some o
    → settle s o db ≡ ok (out, db₁)
    → Settles s o db out db₁
    → (db₂ : Db) × (apply_subscription s org_id db₁ ≡ ok (out, db₂)) × (db₂.orgs ≡ db₁.orgs)
unfolding apply_subscription
settle_again s org_id db db₁ o out named found first (inl (stale, same, unchanged)) =
    (db₁, rw unchanged (rw (found, apply_subscription) (rw unchanged at first)), refl)
settle_again s org_id db db₁ o out named found first (inr (a, active, written, kept)) =
    let o' : Organization = overwrite s a o in
    let found' : find_org s org_id db₁.orgs ≡ some o' = rw kept (
      find_org-again s org_id o o' db.orgs named found (id-overwrite s a o)
        (has_customer-overwrite s.customer_id s a o refl)) in
    (
      record { orgs = store o' db₁.orgs; log = log_entry s o' ∷ db₁.log },
      rw (found', apply_subscription)
          (unfold settle in
            rw (fresh s a o, settle) (rw (active, written, overwrite-overwrite) refl)),
      rw kept (store-store o' db.orgs),
    )

-- Delivering a second time an event that names a customer and was applied changes no organisation,
-- whichever way the first delivery found its own, and returns the same one.
pub apply_subscription_twice :
    (s : SubscriptionState) (org_id : Option ℕ) (db db₁ : Db) (out : Option Organization)
    → s.customer_id ≢ ""
    → apply_subscription s org_id db ≡ ok (out, db₁)
    → (db₂ : Db) × (apply_subscription s org_id db₁ ≡ ok (out, db₂)) × (db₂.orgs ≡ db₁.orgs)
unfolding apply_subscription
apply_subscription_twice s org_id db db₁ out named h =
    elim (Option-cases (find_org s org_id db.orgs)) [
      | inl missing ↦
          let (gone, same) = ok-pair (rw (missing, apply_subscription) at h) in
          (db₁, rw same (rw (missing, apply_subscription) (rw gone refl)), refl)
      | inr (o, found) ↦
          let first = rw (found, apply_subscription) at h in
          settle_again s org_id db db₁ o out named found first
            (settle_cases s o db db₁ out (is_stale s o) refl first)
    ]

find-store_ne :
    (k : ℕ) (o : Organization) (orgs : List Organization)
    → o.id ≢ k
    → find_first (λ r. r.id == k) (store o orgs) ≡ find_first (λ r. r.id == k) orgs
unfolding store
find-store_ne k o [] ne = refl
find-store_ne k o (r ∷ orgs) ne = ground (arith, find-store_ne k o orgs ne)

some-eq : {q r : Organization} → some q ≡ some r → q ≡ r
some-eq h = cc

Settles-others :
    (k : ℕ) (s : SubscriptionState) (o q : Organization) (db db₁ : Db)
    → Settles s o db (some q) db₁
    → q.id ≢ k
    → find_first (λ r. r.id == k) db₁.orgs ≡ find_first (λ r. r.id == k) db.orgs
Settles-others k s o q db db₁ (inl (stale, same, unchanged)) ne = rw unchanged refl
Settles-others k s o q db db₁ (inr (a, active, written, kept)) ne = rw kept (
    find-store_ne k (overwrite s a o) db.orgs
      (λ e. ne (ap (λ (r : Organization). r.id) (some-eq written) ∙ e)))

-- An event reaches one tenant only: no organisation but the returned one changes.
pub apply_subscription_others :
    (k : ℕ) (s : SubscriptionState) (org_id : Option ℕ) (q : Organization) (db db₁ : Db)
    → apply_subscription s org_id db ≡ ok (some q, db₁)
    → q.id ≢ k
    → find_first (λ r. r.id == k) db₁.orgs ≡ find_first (λ r. r.id == k) db.orgs
unfolding apply_subscription
apply_subscription_others k s org_id q db db₁ h ne =
    elim (Option-cases (find_org s org_id db.orgs)) [
      | inl missing ↦ cc (rw (missing, apply_subscription) at h)
      | inr (o, found) ↦
          Settles-others k s o q db db₁
            (settle_cases s o db db₁ (some q) (is_stale s o) refl
              (rw (found, apply_subscription) at h))
            ne
    ]

undated :
    (s t : SubscriptionState) (a b : Bool) (o : Organization)
    → s.current_period_end ≡ none
    → settled t b (settled s a o) ≡ overwrite t b (overwrite s a o)
unfolding is_stale overwrite ends_before
undated s t a b o e = ground arith

-- After an event about a known customer without a period end the guard against stale events is
-- gone: the next event about that customer is applied, also one that was stale before, and it sets
-- the plan.
pub undated_event_disarms :
    (c : String) (org_id : Option ℕ) (s t : Delivery) (db : Db) (o : Organization)
    → c ≢ ""
    → All (IsAbout c) (s ∷ t ∷ [])
    → current c db ≡ some o
    → is_stale t.event o ≡ true
    → s.event.current_period_end ≡ none
    → (q : Organization) × (current_after c org_id (s ∷ t ∷ []) db ≡ ok (some q))
      × (q.plan ≡ (if t.active then t.event.plan else "free"))
unfolding overwrite
undated_event_disarms c org_id s t db o named about known stale none_known = (
  overwrite t.event t.active (overwrite s.event s.active o),
  deliver-settles c org_id (s ∷ t ∷ []) db o named about known
      ∙ ap (λ q. ok (some q)) (undated s.event t.event s.active t.active o none_known),
  refl,
)
