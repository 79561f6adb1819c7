-- ===== src/Billing/Apply/Ordering.antt =====
-- Deliveries that repeat or arrive out of order.
use geolytics.Prelude.{
  ℕ, String, ◌≡◌, ◌≢◌, refl, ap, ◌∙◌, Bool, true, false, Option, some, List, [], ◌∷◌, ◌++◌, All,
  sym, arith, eq_ℕ, eq_string, eq_iff, map,
}
use geolytics.Json.{Result, ok, ◌>>=◌}
use geolytics.Models.{Organization}
use geolytics.Billing.Events.{SubscriptionState, is_active}
use geolytics.Billing.Apply.{
  Db, is_stale, overwrite, find_org, store, settle, log_entry, deliver, apply_subscription,
}
use geolytics.Billing.Apply.Rows.{
  settled, current, has_customer-overwrite, find-store, id-overwrite,
}

-- Events with different known period ends settle an organisation alike in either order.
settled_comm :
    (s t : SubscriptionState) (a b : Bool) (m n : ℕ) (o : Organization)
    → s.current_period_end ≡ some m
    → t.current_period_end ≡ some n
    → s.customer_id ≡ t.customer_id
    → m ≢ n
    → settled s a (settled t b o) ≡ settled t b (settled s a o)
unfolding is_stale overwrite
settled_comm s t a b m n o h i c ne = ground arith

-- What the delivery of one event does to the organisation of a known customer.
module _ (c : String) (s : SubscriptionState) (org_id : Option ℕ) (db : Db) (o : Organization)
    (a : Bool) (named : c ≢ "") (about : s.customer_id ≡ c) (known : current c db ≡ some o)
    (status : is_active s ≡ ok a) where
  find_org-known : find_org s org_id db.orgs ≡ some o
  unfolding find_org
  find_org-known = ground (arith, eq_iff c "")

  settle-known :
      (stale : Bool)
      → is_stale s o ≡ stale
      → (db' : Db) × (settle s o db ≡ ok (some (settled s a o), db'))
        × (current c db' ≡ some (settled s a o))
  unfolding settle
  settle-known true e = (db, rw (e, settle) refl, rw e known)
  settle-known false e = (
    record { orgs = store (overwrite s a o) db.orgs; log = log_entry s (overwrite s a o) ∷ db.log },
    rw (e, settle, status) refl,
    rw e (
        find-store c o (overwrite s a o) db.orgs known (id-overwrite s a o)
          (has_customer-overwrite c s a o about)),
  )

  -- The event settles the organisation that has the customer, and the customer stays with it.
  pub apply-settles :
      (db' : Db) × (apply_subscription s org_id db ≡ ok (some (settled s a o), db'))
      × (current c db' ≡ some (settled s a o))
  unfolding apply_subscription
  apply-settles = rw (find_org-known, apply_subscription) (settle-known (is_stale s o) refl)

-- An event with whether its status keeps the service running.
pub record Delivery : Type 0 where
  pub event : SubscriptionState
  pub active : Bool

-- The deliveries are about the customer `c`, and their statuses are as marked.
abbrev pub IsAbout : String → Delivery → Type 0
IsAbout c d = (d.event.customer_id ≡ c) × (is_active d.event ≡ ok d.active)

abbrev pub settle_all : Organization → List Delivery → Organization
settle_all o [] = o
settle_all o (d ∷ ds) = settle_all (settled d.event d.active o) ds

abbrev pub current_after : String → Option ℕ → List Delivery → Db → Result (Option Organization)
current_after c org_id ds db = do
  db' ← deliver org_id (map (λ d. d.event) ds) db
  ok (current c db')

-- Deliveries about a known customer settle its organisation one after the other.
pub deliver-settles :
    (c : String) (org_id : Option ℕ) (ds : List Delivery) (db : Db) (o : Organization)
    → c ≢ ""
    → All (IsAbout c) ds
    → current c db ≡ some o
    → current_after c org_id ds db ≡ ok (some (settle_all o ds))
unfolding deliver
deliver-settles c org_id [] db o named about known = ap ok known
deliver-settles c org_id (d ∷ ds) db o named about known =
    let (db', applied, known') =
      apply-settles c d.event org_id db o d.active named about.0.0 known about.0.1 in
    rw applied (deliver-settles c org_id ds db' (settled d.event d.active o) named about.1 known')

settle_all-append :
    (o : Organization) (xs ys : List Delivery)
    → settle_all o (xs ++ ys) ≡ settle_all (settle_all o xs) ys
settle_all-append o [] ys = refl
settle_all-append o (d ∷ xs) ys = settle_all-append (settled d.event d.active o) xs ys

All-swap :
    (P : Delivery → Type 0) (s t : Delivery) (xs ys : List Delivery)
    → All P (xs ++ s ∷ t ∷ ys)
    → All P (xs ++ t ∷ s ∷ ys) × P s × P t
All-swap P s t [] ys h = ((h.1.0, (h.0, h.1.1)), h.0, h.1.0)
All-swap P s t (x ∷ xs) ys h =
    let (rest, at_s, at_t) = All-swap P s t xs ys h.1 in ((h.0, rest), at_s, at_t)

-- However many events about a known customer, with statuses that are texts, are delivered, two
-- neighbours with different known period ends can change places without a change to where its
-- organisation ends up.
pub deliver_swap :
    (c : String) (org_id : Option ℕ) (s t : Delivery) (xs ys : List Delivery) (db : Db)
    (o : Organization) (m n : ℕ)
    → c ≢ ""
    → All (IsAbout c) (xs ++ s ∷ t ∷ ys)
    → current c db ≡ some o
    → s.event.current_period_end ≡ some m
    → t.event.current_period_end ≡ some n
    → m ≢ n
    → current_after c org_id (xs ++ s ∷ t ∷ ys) db ≡ current_after c org_id (xs ++ t ∷ s ∷ ys) db
deliver_swap c org_id s t xs ys db o m n named about known h i ne =
    let (about', at_s, at_t) = All-swap (IsAbout c) s t xs ys about in
    deliver-settles c org_id (xs ++ s ∷ t ∷ ys) db o named about known
    ∙ ap (λ q. ok (some q))
        (settle_all-append o xs (s ∷ t ∷ ys)
          ∙ ap (λ q. settle_all q ys)
              (settled_comm t.event s.event t.active s.active n m (settle_all o xs) i h
                (at_t.0 ∙ sym at_s.0) (λ e. ne (sym e)))
          ∙ sym (settle_all-append o xs (t ∷ s ∷ ys)))
    ∙ sym (deliver-settles c org_id (xs ++ t ∷ s ∷ ys) db o named about' known)
