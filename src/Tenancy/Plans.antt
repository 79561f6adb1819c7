-- ===== src/Tenancy/Plans.antt =====
-- Subscription plans and their limits (backend/geolytics/tenancy/plans.py).
pub mod Catalogue
pub mod Overrides
use geolytics.Prelude.{
  ℕ, String, Option, none, some, List, [], ◌∷◌, if◌then◌else◌, ◌==◌, eq_string, contains, keep,
  is_some,
}

-- What a plan's attribute holds. `False` and `True` are the numbers 0 and 1, as in Python.
pub data Value : Type 0 where
  num : ℕ → Value
  text : String → Value

pub record Plan : Type 0 where
  pub name : Value
  pub display_name : Value
  pub monthly_price_cents : ℕ
  pub max_sites : ℕ
  pub max_pages_per_audit : ℕ
  pub max_pages_per_month : ℕ
  pub max_audits_per_month : ℕ
  pub max_concurrent_audits : ℕ
  pub max_api_keys : ℕ
  pub max_members : ℕ
  pub retention_days : ℕ
  pub experiments_enabled : ℕ
  pub max_experiment_runs_per_month : ℕ
  pub support : Value

-- `key_error` is `limit`'s own `KeyError`; the others come from `int(...)` and `replace`.
pub data Error : Type 0 where
  key_error value_error type_error : Error

pub data Result {ℓ} (A : Type ℓ) : Type ℓ where
  err : Error → Result A
  ok : A → Result A

-- Attributes of a `Plan` object that are no dataclass fields.
abbrev pub methods : List String
methods =
    "limit" ∷ "with_overrides" ∷ "__annotations__" ∷ "__class__" ∷ "__dataclass_fields__"
    ∷ "__dataclass_params__" ∷ "__delattr__" ∷ "__dir__" ∷ "__doc__" ∷ "__eq__" ∷ "__format__"
    ∷ "__ge__" ∷ "__getattribute__" ∷ "__getstate__" ∷ "__gt__" ∷ "__hash__" ∷ "__init__"
    ∷ "__init_subclass__" ∷ "__le__" ∷ "__lt__" ∷ "__match_args__" ∷ "__module__" ∷ "__ne__"
    ∷ "__new__" ∷ "__reduce__" ∷ "__reduce_ex__" ∷ "__repr__" ∷ "__setattr__" ∷ "__setstate__"
    ∷ "__sizeof__" ∷ "__slots__" ∷ "__str__" ∷ "__subclasshook__" ∷ []

pub data Field : Type 0 where
  name display_name monthly_price_cents max_sites max_pages_per_audit max_pages_per_month : Field
  max_audits_per_month max_concurrent_audits max_api_keys max_members retention_days : Field
  experiments_enabled max_experiment_runs_per_month support : Field

-- What `getattr` finds under a name.
pub data Attribute : Type 0 where
  field : Field → Attribute
  method : Attribute

abbrev field_names : List (String × Field)
field_names =
    ("name", name)
    ∷ ("display_name", display_name)
    ∷ ("monthly_price_cents", monthly_price_cents)
    ∷ ("max_sites", max_sites)
    ∷ ("max_pages_per_audit", max_pages_per_audit)
    ∷ ("max_pages_per_month", max_pages_per_month)
    ∷ ("max_audits_per_month", max_audits_per_month)
    ∷ ("max_concurrent_audits", max_concurrent_audits)
    ∷ ("max_api_keys", max_api_keys)
    ∷ ("max_members", max_members)
    ∷ ("retention_days", retention_days)
    ∷ ("experiments_enabled", experiments_enabled)
    ∷ ("max_experiment_runs_per_month", max_experiment_runs_per_month)
    ∷ ("support", support)
    ∷ []

find_field : String → List (String × Field) → Option Attribute
find_field k [] = if contains methods k then some method else none
find_field k ((j, f) ∷ r) = if j == k then some (field f) else find_field k r

unfoldable pub attribute : String → Option Attribute
unfolding find_field
attribute k = find_field k field_names

unfoldable pub get : Plan → Field → Value
get p name = p.name
get p display_name = p.display_name
get p monthly_price_cents = num p.monthly_price_cents
get p max_sites = num p.max_sites
get p max_pages_per_audit = num p.max_pages_per_audit
get p max_pages_per_month = num p.max_pages_per_month
get p max_audits_per_month = num p.max_audits_per_month
get p max_concurrent_audits = num p.max_concurrent_audits
get p max_api_keys = num p.max_api_keys
get p max_members = num p.max_members
get p retention_days = num p.retention_days
get p experiments_enabled = num p.experiments_enabled
get p max_experiment_runs_per_month = num p.max_experiment_runs_per_month
get p support = p.support

-- `setattr` on the copy that `dataclasses.replace` returns.
unfoldable pub put : Plan → Field → ℕ → Plan
put p name v = record p { name = num v }
put p display_name v = record p { display_name = num v }
put p monthly_price_cents v = record p { monthly_price_cents = v }
put p max_sites v = record p { max_sites = v }
put p max_pages_per_audit v = record p { max_pages_per_audit = v }
put p max_pages_per_month v = record p { max_pages_per_month = v }
put p max_audits_per_month v = record p { max_audits_per_month = v }
put p max_concurrent_audits v = record p { max_concurrent_audits = v }
put p max_api_keys v = record p { max_api_keys = v }
put p max_members v = record p { max_members = v }
put p retention_days v = record p { retention_days = v }
put p experiments_enabled v = record p { experiments_enabled = v }
put p max_experiment_runs_per_month v = record p { max_experiment_runs_per_month = v }
put p support v = record p { support = num v }

-- `int(...)` of a field's value. No text of the catalogue reads as a number.
unfoldable pub as_int : Value → Result ℕ
as_int (num n) = ok n
as_int (text s) = err value_error

-- Only the missing attribute is turned into a `KeyError`; `int` of a method is a `TypeError`.
unfoldable pub read : Plan → Option Attribute → Result ℕ
unfolding as_int get
read p none = err key_error
read p (some (field f)) = as_int (get p f)
read p (some method) = err type_error

unfoldable pub limit : Plan → String → Result ℕ
unfolding read
limit p key = read p (attribute key)

-- The overrides of an organisation that are natural numbers; its column could hold other values.
abbrev pub Overrides : Type 0
Overrides = List (String × ℕ)

infixl 5 ◌>>=◌
abbrev pub ◌>>=◌ {ℓ κ} : {A : Type ℓ} {B : Type κ} → Result A → (A → Result B) → Result B
err e >>= next = err e
ok a >>= next = next a

-- One keyword of `replace`: one that is no field is a `TypeError`.
unfoldable pub assign : Plan → Option Attribute → ℕ → Result Plan
unfolding put
assign p none v = err type_error
assign p (some (field f)) v = ok (put p f v)
assign p (some method) v = err type_error

-- `replace(self, **known)`.
unfoldable pub replace : Plan → Overrides → Result Plan
unfolding assign
replace p [] = ok p
replace p ((k, v) ∷ r) = do q ← assign p (attribute k) v; replace q r

unfoldable pub with_overrides : Plan → Overrides → Result Plan
unfolding replace
with_overrides p overrides = replace p (keep (λ o. is_some (attribute o.0)) overrides)
