-- ===== src/Tenancy/Quotas.antt =====
-- Metered usage and the quota checks (backend/geolytics/tenancy/quotas.py) over the rows of the
-- tables that they read. An audit, a site and a counter keep the columns that a query here tests.
pub mod Counters
pub mod Checks
use geolytics.Prelude.{
  ℕ, ◌+◌, ℤ, pos, negsuc, ◌-◌, String, Bool, ◌&&◌, ◌||◌, Option, none, some, List, [], ◌∷◌,
  if◌then◌else◌, ◌==◌, eq_ℕ, eq_string, leb, contains, count_if, any,
}
use Prim.Native.Nat.{min, max}
use geolytics.Tenancy.Plans.{Plan, Overrides}
use geolytics.Models.{Organization}
use geolytics.Tenancy.Plans
use geolytics.Tenancy.Plans.Catalogue.{get_plan}

abbrev pub pages_crawled : String
pages_crawled = "pages_crawled"

abbrev pub audits_run : String
audits_run = "audits_run"

abbrev pub experiment_runs : String
experiment_runs = "experiment_runs"

abbrev pub metrics : List String
metrics = pages_crawled ∷ audits_run ∷ experiment_runs ∷ []

pub record UsageCounter : Type 0 where
  pub org_id : ℕ
  pub period : String
  pub metric : String
  pub value : ℕ

pub record Site : Type 0 where
  pub id : ℕ
  pub org_id : ℕ
  pub url : String

-- `max_pages` is that of the stored configuration.
pub record Audit : Type 0 where
  pub id : ℕ
  pub org_id : ℕ
  pub site_id : ℕ
  pub status : String
  pub max_pages : ℕ
  pub crawl_id : Option ℕ
  pub error : Option String

pub record Db : Type 0 where
  pub counters : List UsageCounter
  pub sites : List Site
  pub audits : List Audit

-- `quota` is `QuotaExceeded(limit_name, limit, used, requested)`.
pub data Error : Type 0 where
  unknown_metric negative_amount integrity : Error
  plan_error : Plans.Error → Error
  quota : String → ℕ → ℕ → ℕ → Error

pub data Result {ℓ} (A : Type ℓ) : Type ℓ where
  err : Error → Result A
  ok : A → Result A

infixl 5 ◌>>◌ ◌>>=◌
abbrev pub ◌>>=◌ {ℓ κ} : {A : Type ℓ} {B : Type κ} → Result A → (A → Result B) → Result B
err e >>= next = err e
ok a >>= next = next a

abbrev pub refuse_if : Bool → Error → Result (Unit {0})
refuse_if b e = if b then err e else ok tt

-- One step after another.
abbrev pub ◌>>◌ {ℓ} : {B : Type ℓ} → Result (Unit {0}) → Result B → Result B
m >> k = m >>= λ _. k

abbrev lift : Plans.Result Plan → Result Plan
lift (Plans.ok p) = ok p
lift (Plans.err e) = err (plan_error e)

-- The columns of the unique constraint `uq_usage_org_period_metric`.
pub record Key : Type 0 where
  pub org_id : ℕ
  pub period : String
  pub metric : String

unfoldable pub is_row : Key → UsageCounter → Bool
is_row k r = r.org_id == k.org_id && (r.period == k.period && r.metric == k.metric)

-- `get_usage(...)[metric]`: 0 where no row counts the metric, else the value of the last such row.
unfoldable pub usage : Key → List UsageCounter → ℕ
usage k [] = 0
usage k (r ∷ rows) =
    let rest = usage k rows in
    if is_row k r then (if any (is_row k) rows then rest else r.value) else rest

-- `UPDATE ... SET value = value + amount ... RETURNING value`, with the first row returned.
unfoldable pub bump : Key → ℕ → List UsageCounter → Option ℕ × List UsageCounter
bump k amount [] = (none, [])
bump k amount (r ∷ rows) =
    let (total, rows') = bump k amount rows in
    if is_row k r
    then (some (r.value + amount), record r { value = r.value + amount } ∷ rows')
    else (total, r ∷ rows')

-- `INSERT`, refused by the unique constraint if the key has a row.
unfoldable pub insert : Key → ℕ → List UsageCounter → Option (List UsageCounter)
insert k amount rows =
    if any (is_row k) rows
    then none
    else some
        (record { org_id = k.org_id; period = k.period; metric = k.metric; value = amount } ∷ rows)

-- The second `UPDATE`, after another worker's `INSERT` won.
retry : Key → ℕ → List UsageCounter → Result ℕ × List UsageCounter
retry k amount rows =
    let (total, rows') = bump k amount rows in
    elim total [ none ↦ (err integrity, rows) | some t ↦ (ok t, rows') ]

-- What other workers commit between the first `UPDATE` and the `INSERT`, and between a refused
-- `INSERT` and the second `UPDATE`.
pub record Rivals : Type 0 where
  pub before_insert : List UsageCounter → List UsageCounter
  pub before_retry : List UsageCounter → List UsageCounter

add_row : Rivals → Key → ℕ → List UsageCounter → Result ℕ × List UsageCounter
add_row rivals k amount rows = elim (insert k amount rows) [
  | some rows' ↦ (ok amount, rows')
  | none ↦ retry k amount (rivals.before_retry rows)
]

count_usage : Rivals → Key → ℕ → List UsageCounter → Result ℕ × List UsageCounter
count_usage rivals k amount rows =
    let (total, rows') = bump k amount rows in
    elim total [
      | some t ↦ (ok t, rows')
      | none ↦ add_row rivals k amount (rivals.before_insert rows')
    ]

unfoldable pub record_usage : Rivals → Key → ℤ → List UsageCounter → Result ℕ × List UsageCounter
unfolding retry add_row count_usage
record_usage rivals k (negsuc n) rows =
    (if contains metrics k.metric then err negative_amount else err unknown_metric, rows)
record_usage rivals k (pos amount) rows =
    if contains metrics k.metric
    then count_usage rivals k amount rows
    else (err unknown_metric, rows)

unfoldable pub count_sites : List Site → ℕ → ℕ
count_sites sites org = count_if (λ s. s.org_id == org) sites

-- Queued or in flight.
unfoldable pub count_running_audits : List Audit → ℕ → ℕ
count_running_audits audits org =
    count_if (λ a. a.org_id == org && (a.status == "pending" || a.status == "running")) audits

unfoldable pub plan_of : Organization → Result Plan
plan_of org = lift (get_plan (some org.plan) org.limit_overrides)

abbrev pub used : Db → Organization → String → String → ℕ
used db org period metric =
    usage (record { org_id = org.id; period = period; metric = metric }) db.counters

-- The page budget of an audit: `requested_pages` may be any integer, and below 1 it counts as 1.
page_budget : Plan → ℕ → ℕ → Result ℕ
page_budget plan requested pages_used =
    let pages = min (max 1 requested) plan.max_pages_per_audit in
    do
      refuse_if (leb plan.max_pages_per_month pages_used)
          (quota "max_pages_per_month" plan.max_pages_per_month pages_used pages)
      ok (min pages (plan.max_pages_per_month - pages_used))

unfoldable pub check_audit_allowed : Db → Organization → ℕ → String → Result ℕ
unfolding page_budget
check_audit_allowed db org requested_pages period = do
  plan ← plan_of org
  refuse_if (leb plan.max_audits_per_month (used db org period audits_run))
      (quota "max_audits_per_month" plan.max_audits_per_month (used db org period audits_run) 0)
  refuse_if (leb plan.max_concurrent_audits (count_running_audits db.audits org.id)) (
      quota "max_concurrent_audits" plan.max_concurrent_audits
        (count_running_audits db.audits org.id) 0)
  page_budget plan requested_pages (used db org period pages_crawled)

unfoldable pub check_site_allowed : Db → Organization → Result (Unit {0})
check_site_allowed db org = do
  plan ← plan_of org
  refuse_if (leb plan.max_sites (count_sites db.sites org.id))
      (quota "max_sites" plan.max_sites (count_sites db.sites org.id) 0)

unfoldable pub check_experiments_allowed : Db → Organization → String → Result (Unit {0})
check_experiments_allowed db org period = do
  plan ← plan_of org
  refuse_if (plan.experiments_enabled == 0) (quota "experiments_enabled" 0 0 0)
  refuse_if (leb plan.max_experiment_runs_per_month (used db org period experiment_runs)) (
      quota "max_experiment_runs_per_month" plan.max_experiment_runs_per_month
        (used db org period experiment_runs) 0)
