-- ===== src/Billing/Apply/Rows.antt =====
-- The table of organisations after one row is stored, and an organisation after an event.
use geolytics.Prelude.{
  ℕ, String, ◌≡◌, refl, Bool, true, false, Option, none, some, List, [], ◌∷◌, arith, if◌then◌else◌,
  ◌==◌, eq_ℕ, eq_string, eq_iff, find_first,
}
use geolytics.Models.{Organization}
use geolytics.Billing.Events.{SubscriptionState}
use geolytics.Billing.Apply.{Db, ends_before, is_stale, overwrite, has_customer, store}

-- An organisation after an event: as it was, if the event is stale.
abbrev pub settled : SubscriptionState → Bool → Organization → Organization
settled s active o = if is_stale s o then o else overwrite s active o

-- The organisation that has a Stripe customer.
abbrev pub current : String → Db → Option Organization
current customer db = find_first (has_customer customer) db.orgs

pub has_customer-overwrite :
    (c : String) (s : SubscriptionState) (active : Bool) (o : Organization)
    → s.customer_id ≡ c
    → has_customer c (overwrite s active o) ≡ true
unfolding has_customer overwrite
has_customer-overwrite c s active o e = (eq_iff s.customer_id c).1 e

pub find-store :
    (c : String) (o o' : Organization) (orgs : List Organization)
    → find_first (has_customer c) orgs ≡ some o
    → o'.id ≡ o.id
    → has_customer c o' ≡ true
    → find_first (has_customer c) (store o' orgs) ≡ some o'
unfolding store
find-store c o o' [] h i k = cc
find-store c o o' (r ∷ orgs) h i k = ground (arith, find-store c o o' orgs)

pub find-store_new :
    (c : String) (n : ℕ) (o o' : Organization) (orgs : List Organization)
    → find_first (has_customer c) orgs ≡ none
    → find_first (λ r. r.id == n) orgs ≡ some o
    → o'.id ≡ n
    → has_customer c o' ≡ true
    → find_first (has_customer c) (store o' orgs) ≡ some o'
unfolding store
find-store_new c n o o' [] h f i k = cc
find-store_new c n o o' (r ∷ orgs) h f i k = ground (arith, find-store_new c n o o' orgs)

pub store-store :
    (o : Organization) (orgs : List Organization) → store o (store o orgs) ≡ store o orgs
unfolding store
store-store o [] = refl
store-store o (r ∷ orgs) = ground (arith, store-store o orgs)

pub overwrite-overwrite :
    (s : SubscriptionState) (a : Bool) (o : Organization)
    → overwrite s a (overwrite s a o) ≡ overwrite s a o
unfolding overwrite
overwrite-overwrite s a o = refl

pub ends_before_irrefl : (p : Option ℕ) → ends_before p p ≡ false
unfolding ends_before
ends_before_irrefl none = refl
ends_before_irrefl (some n) = ground arith

-- An event is not stale for what it has just written.
pub fresh :
    (s : SubscriptionState) (a : Bool) (o : Organization) → is_stale s (overwrite s a o) ≡ false
unfolding is_stale overwrite
fresh s a o = ends_before_irrefl s.current_period_end

pub id-overwrite :
    (s : SubscriptionState) (a : Bool) (o : Organization) → (overwrite s a o).id ≡ o.id
unfolding overwrite
id-overwrite s a o = refl
