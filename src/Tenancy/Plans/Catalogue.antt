-- ===== src/Tenancy/Plans/Catalogue.antt =====
-- The plan catalogue and `get_plan` (backend/geolytics/tenancy/plans.py).
use geolytics.Prelude.{
  ◌≤◌, String, ◌≡◌, refl, ap, Option, none, some, arith, if◌then◌else◌, ◌==◌, eq_string, eq_iff, [],
}
use mathlib.Core.Path.{subst}
use geolytics.Tenancy.Plans.{Plan, text, Overrides, Result, ok, with_overrides, replace}

abbrev pub free : Plan
free = record {
  name = text "free";
  display_name = text "Free";
  monthly_price_cents = 0;
  max_sites = 1;
  max_pages_per_audit = 25;
  max_pages_per_month = 100;
  max_audits_per_month = 5;
  max_concurrent_audits = 1;
  max_api_keys = 1;
  max_members = 1;
  retention_days = 30;
  experiments_enabled = 0;
  max_experiment_runs_per_month = 0;
  support = text "community";
}

abbrev pub starter : Plan
starter = record {
  name = text "starter";
  display_name = text "Starter";
  monthly_price_cents = 4900;
  max_sites = 5;
  max_pages_per_audit = 100;
  max_pages_per_month = 2_500;
  max_audits_per_month = 50;
  max_concurrent_audits = 2;
  max_api_keys = 5;
  max_members = 3;
  retention_days = 180;
  experiments_enabled = 0;
  max_experiment_runs_per_month = 0;
  support = text "email";
}

abbrev pub growth : Plan
growth = record {
  name = text "growth";
  display_name = text "Growth";
  monthly_price_cents = 19900;
  max_sites = 25;
  max_pages_per_audit = 500;
  max_pages_per_month = 25_000;
  max_audits_per_month = 500;
  max_concurrent_audits = 5;
  max_api_keys = 20;
  max_members = 10;
  retention_days = 365;
  experiments_enabled = 1;
  max_experiment_runs_per_month = 50;
  support = text "email";
}

abbrev pub enterprise : Plan
enterprise = record {
  name = text "enterprise";
  display_name = text "Enterprise";
  monthly_price_cents = 0;
  max_sites = 1_000;
  max_pages_per_audit = 5_000;
  max_pages_per_month = 500_000;
  max_audits_per_month = 10_000;
  max_concurrent_audits = 25;
  max_api_keys = 100;
  max_members = 250;
  retention_days = 1_095;
  experiments_enabled = 1;
  max_experiment_runs_per_month = 1_000;
  support = text "dedicated";
}

-- `PLANS.get(key)`.
unfoldable pub plans : String → Option Plan
plans key =
    if key == "free"
    then some free
    else if key == "starter"
    then some starter
    else if key == "growth"
    then some growth
    else if key == "enterprise"
    then some enterprise
    else none

abbrev pub default_plan : String
default_plan = "free"

-- `name or DEFAULT_PLAN`: the empty text counts as absent.
or_default : Option String → String
or_default none = default_plan
or_default (some n) = if n == "" then default_plan else n

or_free : Option Plan → Plan
or_free none = free
or_free (some p) = p

unfoldable pub get_plan : Option String → Overrides → Result Plan
unfolding or_default or_free plans with_overrides
get_plan name overrides = with_overrides (or_free (plans (or_default name))) overrides

-- `a` allows no more than `b` in any limit that costs money to serve.
pub record AtMost (a b : Plan) : Type 0 where
  pub sites : a.max_sites ≤ b.max_sites
  pub pages_per_audit : a.max_pages_per_audit ≤ b.max_pages_per_audit
  pub pages_per_month : a.max_pages_per_month ≤ b.max_pages_per_month
  pub audits_per_month : a.max_audits_per_month ≤ b.max_audits_per_month
  pub concurrent_audits : a.max_concurrent_audits ≤ b.max_concurrent_audits
  pub api_keys : a.max_api_keys ≤ b.max_api_keys
  pub members : a.max_members ≤ b.max_members
  pub retention : a.retention_days ≤ b.retention_days
  pub experiments : a.experiments_enabled ≤ b.experiments_enabled
  pub experiment_runs : a.max_experiment_runs_per_month ≤ b.max_experiment_runs_per_month

free-AtMost : (key : String) → AtMost free (or_free (plans key))
unfolding or_free plans
free-AtMost key =
    ground
      (arith, eq_iff key "free", eq_iff key "starter", eq_iff key "growth", eq_iff key "enterprise")

plans-default : plans default_plan ≡ some free
unfolding plans
plans-default = refl

resolve-unknown : (n : String) → plans n ≡ none → or_free (plans (or_default (some n))) ≡ free
unfolding or_default or_free
resolve-unknown n h = ground (arith, plans-default)

ok-injective : {p q : Plan} → ok p ≡ ok q → p ≡ q
ok-injective h = cc

-- Whatever name is stored, known or not, the plan resolved without overrides allows at least what
-- Free allows in every limit.
pub free-AtMost-get_plan : (n : Option String) (q : Plan) → get_plan n [] ≡ ok q → AtMost free q
unfolding get_plan replace
free-AtMost-get_plan n q h = subst (AtMost free) (ok-injective h) (free-AtMost (or_default n))

-- A name that the catalogue does not list resolves to Free, under whatever overrides: a bad plan
-- name never grants more than the organisation's own overrides do.
pub get_plan-unknown :
    (n : String) (o : Overrides) → plans n ≡ none → get_plan (some n) o ≡ with_overrides free o
unfolding get_plan
get_plan-unknown n o h = ap (λ p. with_overrides p o) (resolve-unknown n h)
