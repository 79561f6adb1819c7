-- ===== src/Tests/Tenancy.antt =====
-- Plans, usage counters and quotas at concrete values (backend/geolytics/tenancy).
use geolytics.Prelude.{pos, refl, none, [], ◌∷◌, eq_string}
use geolytics.Prelude.Text.{codes}
use geolytics.Json.{null}
use geolytics.Models.{Organization}
use geolytics.Tenancy.Plans.{Plan, Overrides}
use geolytics.Tenancy.Plans.Catalogue.{free}
use geolytics.Tenancy.Quotas.{
  UsageCounter, Audit, Db, Key, Rivals, Result, ok, record_usage, used, plan_of, audits_run,
  pages_crawled, count_running_audits, check_audit_allowed,
}
use geolytics.Tenancy.Quotas.Counters.{Adds, found, record_usage-Adds}

abbrev overrides : Overrides
overrides = ("max_sites", 3) ∷ ("colour", 7) ∷ ("max_sites", 5) ∷ []

abbrev more_sites : Plan
more_sites = record free { max_sites = 5 }

abbrev pages : Key
pages = record { org_id = 7; period = "2026-05"; metric = "pages_crawled" }

-- Another worker inserts the row first.
abbrev rivals : Rivals
rivals = record {
  before_insert = λ rows.
      record { org_id = 7; period = "2026-05"; metric = "pages_crawled"; value = 40 } ∷ rows;
  before_retry = λ rows. rows;
}

record_usage-Adds_example :
    Adds pages 3 (found rivals pages []) (record_usage rivals pages (pos 3) [])
unfolding geolytics.Tenancy.Quotas.is_row
record_usage-Adds_example = record_usage-Adds rivals pages 3 [] refl (refl, tt) (λ h. h)

abbrev pub org : Organization
org = record {
  id = 7;
  slug = codes "acme";
  name = codes "Acme";
  plan = "free";
  status = "active";
  limit_overrides = [];
  billing_customer_id = none;
  billing_subscription_id = null;
  current_period_end = none;
  deleted_at = none;
}

abbrev pub tables : Db
tables = record {
  counters = record { org_id = 7; period = "2026-05"; metric = "pages_crawled"; value = 90 } ∷ [];
  sites = [];
  audits =
      record {
        id = 1;
        org_id = 7;
        site_id = 1;
        status = "done";
        max_pages = 25;
        crawl_id = none;
        error = none;
      }
      ∷ [];
}
