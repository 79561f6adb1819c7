-- ===== src/Api/Result.antt =====
-- Responses, the tables, and the audit log (backend/geolytics/api).
use geolytics.Prelude.{
  ℕ, String, Bool, true, false, Option, none, some, List, if◌then◌else◌, ◌≡◌, refl, ◌⊎◌, inl, inr,
}
use mathlib.Core.Path.{subst}
use geolytics.Models.{Organization, User, Membership, ApiKey}
use geolytics.Tenancy.Principal.{Principal, Kind, user, api_key}

-- `http` is an `HTTPException`, or the 500 that stands for any other exception.
pub data Result {ℓ} (A : Type ℓ) : Type ℓ where
  ok : A → Result A
  http : ℕ → Result A

infixl 5 ◌>>◌ ◌>>=◌
abbrev pub ◌>>=◌ {ℓ κ} : {A : Type ℓ} {B : Type κ} → Result A → (A → Result B) → Result B
ok a >>= f = f a
http c >>= f = http c

abbrev pub refuse_if : Bool → ℕ → Result (Unit {0})
refuse_if b c = if b then http c else ok tt

-- One step after another.
abbrev pub ◌>>◌ {ℓ} : {B : Type ℓ} → Result (Unit {0}) → Result B → Result B
m >> k = m >>= λ _. k

abbrev pub when : Bool → Result (Unit {0}) → Result (Unit {0})
when b m = if b then m else ok tt

abbrev pub or_refuse : {A : Type 0} → Option A → ℕ → Result A
or_refuse none c = http c
or_refuse (some a) c = ok a

-- `audit_actor`: the kind of the caller, with the number of its key or user.
pub record Actor : Type 0 where
  pub kind : Kind
  pub id : Option ℕ

number_of : Kind → Principal → Option ℕ
number_of api_key p = p.api_key_id
number_of user p = p.user_id

unfoldable pub audit_actor : Principal → Actor
unfolding number_of
audit_actor p = record { kind = p.kind; id = number_of p.kind p }

pub record LogEntry : Type 0 where
  pub org_id : ℕ
  pub action : String
  pub actor : Actor

pub record Db : Type 0 where
  pub orgs : List Organization
  pub users : List User
  pub memberships : List Membership
  pub api_keys : List ApiKey
  pub log : List LogEntry

pub ok-injective {ℓ} : {A : Type ℓ} {a b : A} → ok a ≡ ok b → a ≡ b
ok-injective h = cc

-- What holds of the result of a chain follows step by step from the steps that succeeded.
module _ {ℓ μ} {B : Type ℓ} (Q : B → Type μ) where
  pub after-bind {κ} :
      {A : Type κ} (m : Result A) (f : A → Result B)
      → ((a : A) → m ≡ ok a → (b : B) → f a ≡ ok b → Q b)
      → (b : B) → (m >>= f) ≡ ok b
      → Q b
  after-bind (ok a) f next b h = next a refl b h
  after-bind (http c) f next b h = cc

  pub after-done : (b : B) → Q b → (b' : B) → ok b ≡ ok b' → Q b'
  after-done b q b' h = subst Q (ok-injective h) q

pub refuse_if-ok : (b : Bool) (c : ℕ) (u : Unit {0}) → refuse_if b c ≡ ok u → b ≡ false
refuse_if-ok true c u h = cc
refuse_if-ok false c u h = refl

pub when-ok :
    (b : Bool) (m : Result (Unit {0})) (u : Unit {0})
    → when b m ≡ ok u
    → (b ≡ false) ⊎ ((b ≡ true) × (m ≡ ok u))
when-ok true m u h = inr (refl, h)
when-ok false m u h = inl refl

pub or_refuse-ok : {A : Type 0} (o : Option A) (c : ℕ) (a : A) → or_refuse o c ≡ ok a → o ≡ some a
or_refuse-ok none c a h = cc
or_refuse-ok (some b) c a h = cc

-- Two continuations that agree on what a step yields.
pub bind-cong {ℓ κ} :
    {A : Type ℓ} {B : Type κ} (m : Result A) (f g : A → Result B)
    → ((a : A) → m ≡ ok a → f a ≡ g a)
    → (m >>= f) ≡ (m >>= g)
bind-cong (ok a) f g h = h a refl
bind-cong (http c) f g h = refl

-- The first step of a chain that succeeds, and the rest of the chain.
pub first_step {ℓ κ} :
    {A : Type ℓ} {B : Type κ} (m : Result A) (f : A → Result B) (b : B)
    → (m >>= f) ≡ ok b
    → (a : A) × (m ≡ ok a) × (f a ≡ ok b)
first_step (ok a) f b h = (a, refl, h)
first_step (http c) f b h = cc
