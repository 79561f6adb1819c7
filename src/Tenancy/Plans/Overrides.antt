-- ===== src/Tenancy/Plans/Overrides.antt =====
-- What per-organisation overrides do to a plan.
use geolytics.Prelude.{
  ℕ, String, ◌≡◌, ◌≢◌, ◌↔◌, refl, sym, ap, ◌∙◌, Bool, true, false, Option, none, some, List, [],
  ◌∷◌, arith, contains, if◌then◌else◌, ◌==◌, eq_string, eq_iff, All, any, keep, is_some,
}
use geolytics.Tenancy.Plans.{
  Plan, num, type_error, Result, ok, err, Field, name, display_name, monthly_price_cents, max_sites,
  max_pages_per_audit, max_pages_per_month, max_audits_per_month, max_concurrent_audits,
  max_api_keys, max_members, retention_days, experiments_enabled, max_experiment_runs_per_month,
  support, Attribute, field, method, attribute, get, put, Overrides, as_int, read, assign, ◌>>=◌,
  methods, field_names, find_field, limit, replace, with_overrides,
}

get-put_self : (p : Plan) (f : Field) (v : ℕ) → get (put p f v) f ≡ num v
unfolding get put
get-put_self p f v = ground arith

get-put_ne : (p : Plan) (f g : Field) (v : ℕ) → f ≢ g → get (put p f v) g ≡ get p g
unfolding get put
get-put_ne p f g v h = ground arith

-- The name under which `getattr` finds a field.
name_of : Field → String
name_of name = "name"
name_of display_name = "display_name"
name_of monthly_price_cents = "monthly_price_cents"
name_of max_sites = "max_sites"
name_of max_pages_per_audit = "max_pages_per_audit"
name_of max_pages_per_month = "max_pages_per_month"
name_of max_audits_per_month = "max_audits_per_month"
name_of max_concurrent_audits = "max_concurrent_audits"
name_of max_api_keys = "max_api_keys"
name_of max_members = "max_members"
name_of retention_days = "retention_days"
name_of experiments_enabled = "experiments_enabled"
name_of max_experiment_runs_per_month = "max_experiment_runs_per_month"
name_of support = "support"

not-method-field :
    (f : Field) (b : Bool)
    → ◌≢◌ {A = Option Attribute} (if b then some method else none) (some (field f))
not-method-field f true h = cc
not-method-field f false h = cc

find_field-name :
    (k : String) (f : Field) (l : List (String × Field))
    → All (λ e. e.0 ≡ name_of e.1) l
    → find_field k l ≡ some (field f)
    → k ≡ name_of f
unfolding find_field
find_field-name k f [] a h = absurd (not-method-field f (contains methods k) h)
find_field-name k f ((j, g) ∷ l) a h = ground (arith, eq_iff j k, find_field-name k f l a.1)

attribute-name : (k : String) (f : Field) → attribute k ≡ some (field f) → k ≡ name_of f
unfolding attribute name_of
attribute-name k f h =
    find_field-name k f field_names
      (
        refl,
        (
          refl,
          (
            refl,
            (
              refl,
              (refl, (refl, (refl, (refl, (refl, (refl, (refl, (refl, (refl, (refl, tt)))))))))),
            ),
          ),
        ),
      )
      h

-- The last value that the overrides give a key, and the first value without one.
abbrev pub last_of : String → Overrides → Result ℕ → Result ℕ
last_of k [] r = r
last_of k ((j, v) ∷ o) r = last_of k o (if j == k then ok v else r)

abbrev pub is_method : Option Attribute → Bool
is_method (some method) = true
is_method _ = false

-- Two names that `getattr` finds the same field under are one name.
attribute-injective :
    (j k : String) (f : Field) → attribute j ≡ some (field f) → attribute k ≡ some (field f) → j ≡ k
attribute-injective j k f h i = cc (attribute-name j f h, attribute-name k f i)

Field-discrete : Discrete Field
Field-discrete = hlevel

read-put :
    (p : Plan) (j k : String) (f : Field) (v : ℕ) (a : Option Attribute)
    → attribute j ≡ some (field f)
    → attribute k ≡ a
    → read (put p f v) a ≡ (if j == k then ok v else read p a)
unfolding read as_int
read-put p j k f v none h i = ground (arith, eq_iff j k)
read-put p j k f v (some method) h i = ground (arith, eq_iff j k)
read-put p j k f v (some (field g)) h i = elim (Field-discrete f g) [
  | yes e ↦ rw ((eq_iff j k).1 (attribute-injective j k f h (rw e i)), ← e, get-put_self) refl
  | no ne ↦ ground (arith, eq_iff j k, get-put_ne p f g v ne)
]

ok-injective : {p q : Plan} → ok p ≡ ok q → p ≡ q
ok-injective h = cc

-- One override, as `limit` sees it.
limit-put :
    (p : Plan) (j k : String) (f : Field) (v : ℕ)
    → attribute j ≡ some (field f)
    → limit (put p f v) k ≡ (if j == k then ok v else limit p k)
unfolding limit
limit-put p j k f v h = read-put p j k f v (attribute k) h refl

bind-eq-ok :
    (m : Result Plan) (f : Plan → Result Plan) (q : Plan)
    → (m >>= f) ≡ ok q
    → (p : Plan) × (m ≡ ok p) × (f p ≡ ok q)
bind-eq-ok (ok p) f q h = (p, refl, h)
bind-eq-ok (err e) f q h = cc

limit-assign :
    (p q : Plan) (j k : String) (v : ℕ) (a : Option Attribute)
    → attribute j ≡ a
    → assign p a v ≡ ok q
    → limit q k ≡ (if j == k then ok v else limit p k)
unfolding assign
limit-assign p q j k v none i h = cc
limit-assign p q j k v (some (field f)) i h = ground (arith, limit-put p j k f v i)
limit-assign p q j k v (some method) i h = cc

limit-replace :
    (p q : Plan) (o : Overrides) (k : String)
    → replace p o ≡ ok q
    → limit q k ≡ last_of k o (limit p k)
unfolding replace
limit-replace p q [] k h = ap (λ r. limit r k) (sym (ok-injective h))
limit-replace p q ((j, v) ∷ o) k h =
    let (r, assigned, rest) = bind-eq-ok (assign p (attribute j) v) (λ r. replace r o) q h in
    limit-replace r q o k rest
    ∙ ap (last_of k o) (limit-assign p r j k v (attribute j) refl assigned)

-- Names that `getattr` does not find are dropped, and no others.
last_of-known :
    (k : String) (o : Overrides) (r : Result ℕ)
    → last_of k (keep (λ e. is_some (attribute e.0)) o) r
      ≡ (if is_some (attribute k) then last_of k o r else r)
last_of-known k [] r = ground arith
last_of-known k ((j, v) ∷ o) r =
    ground (arith, eq_iff j k, last_of-known k o r, last_of-known k o (ok v))

-- Where the overrides of a plan are applied, every attribute is the last value that they give its
-- name, or what the plan had without one; a name that the plan lacks stays unknown.
pub limit-with_overrides :
    (p q : Plan) (o : Overrides) (k : String)
    → with_overrides p o ≡ ok q
    → limit q k ≡ (if is_some (attribute k) then last_of k o (limit p k) else limit p k)
unfolding with_overrides
limit-with_overrides p q o k h =
    limit-replace p q (keep (λ e. is_some (attribute e.0)) o) k h ∙ last_of-known k o (limit p k)

type_error-cons :
    (p : Plan) (j : String) (v : ℕ) (o : Overrides) (a : Option Attribute)
    → attribute j ≡ a
    → ((q : Plan)
        → with_overrides q o ≡ err type_error ↔ any (λ e. is_method (attribute e.0)) o ≡ true)
    → with_overrides p ((j, v) ∷ o) ≡ err type_error
      ↔ any (λ e. is_method (attribute e.0)) ((j, v) ∷ o) ≡ true
unfolding with_overrides replace assign
type_error-cons p j v o none h ih = rw h (ih p)
type_error-cons p j v o (some (field f)) h ih = rw (h, h) (ih (put p f v))
type_error-cons p j v o (some method) h ih = rw (h, h) ((λ _. refl), (λ _. refl))

-- Overrides are refused, with a `TypeError`, exactly when one of them is named like a method.
pub with_overrides-type_error :
    (p : Plan) (o : Overrides)
    → with_overrides p o ≡ err type_error ↔ any (λ e. is_method (attribute e.0)) o ≡ true
unfolding with_overrides replace
with_overrides-type_error p [] = ((λ h. cc), (λ h. cc))
with_overrides-type_error p ((j, v) ∷ o) =
    type_error-cons p j v o (attribute j) refl (λ q. with_overrides-type_error q o)
