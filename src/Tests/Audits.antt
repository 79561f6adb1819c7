-- ===== src/Tests/Audits.antt =====
-- Queueing an audit at concrete values (backend/geolytics/api/routes/audits.py).
use geolytics.Prelude.{ℕ, suc, String, Bool, ◌≡◌, ◌≢◌, refl, true, false, none, some, [], ◌∷◌}
use geolytics.Prelude.Text.{codes}
use geolytics.Crawl.Guard.{World, UrlPolicy, default_policy}
use geolytics.Tenancy.Plans.Catalogue.{free}
use geolytics.Tenancy.Principal.{Principal, user}
use geolytics.Tenancy.Quotas
use geolytics.Tenancy.Quotas.{Rivals, count_running_audits}
use geolytics.Api.Result
use geolytics.Api.Audits.{AuditRequest, Response, accepted, refused, create_audit}
use geolytics.Api.Audits.Limits.{undisturbed, IsQueued, create_audit-IsQueued}
use geolytics.Api.Audits.Full.{create_audit_unreachable}
use geolytics.Tests.Tenancy.{org, tables}
use geolytics.Tests.Crawl.{world}

abbrev pub accounts : Result.Db
accounts = record { orgs = org ∷ []; users = []; memberships = []; api_keys = []; log = [] }

abbrev pub caller : Principal
caller = record {
  org_id = 7;
  scopes = "audits:write" ∷ [];
  kind = user;
  user_id = some 1;
  api_key_id = none;
  role = some "owner";
  plan_name = "free";
  org_slug = codes "acme";
}

abbrev pub request : AuditRequest
request = record { url = "https://acme.io"; max_pages = 25; site_id = 3; audit_id = 4 }

abbrev pub queued : Quotas.Db
queued = record {
  counters =
      record { org_id = 7; period = "2026-05"; metric = "audits_run"; value = 1 }
      ∷ record { org_id = 7; period = "2026-05"; metric = "pages_crawled"; value = 90 }
      ∷ [];
  sites = record { id = 3; org_id = 7; url = "https://acme.io" } ∷ [];
  audits =
      record {
        id = 4;
        org_id = 7;
        site_id = 3;
        status = "pending";
        max_pages = 10;
        crawl_id = none;
        error = none;
      }
      ∷ record {
        id = 1;
        org_id = 7;
        site_id = 1;
        status = "done";
        max_pages = 25;
        crawl_id = none;
        error = none;
      }
      ∷ [];
}

create_audit-IsQueued_example : IsQueued org "2026-05" free 10 tables queued
unfolding geolytics.Api.Deps.load_org geolytics.Models.is_active Quotas.plan_of
    geolytics.Tenancy.Plans.Catalogue.get_plan create_audit geolytics.Api.Audits.submit
    geolytics.Api.Deps.require_scope geolytics.Tenancy.Principal.has
    geolytics.Crawl.Guard.validate_url geolytics.Crawl.Guard.port_allowed
    geolytics.Crawl.Guard.resolve_host geolytics.Crawl.Guard.is_exempt
    geolytics.Crawl.Addresses.is_blocked_address Quotas.check_site_allowed Quotas.count_sites
    Quotas.check_audit_allowed Quotas.usage Quotas.is_row geolytics.Api.Audits.answered
    geolytics.Api.Audits.counted geolytics.Tenancy.Plans.Catalogue.plans Quotas.bump
    Quotas.count_running_audits Quotas.insert Quotas.record_usage
create_audit-IsQueued_example =
    create_audit-IsQueued world 0 default_policy "2026-05" true request caller accounts tables
      queued org free 4 10 (refl, tt) refl refl refl

create_audit_unreachable_example :
    (create_audit world 0 default_policy undisturbed "2026-05" false request caller accounts tables
      ≡ (refused 500, queued))
    × IsQueued org "2026-05" free 10 tables queued
    × (suc (count_running_audits tables.audits 7) ≡ free.max_concurrent_audits
        → (world' : World) (n' : ℕ) (p' : UrlPolicy) (rivals : Rivals) (period' : String)
          (reachable : Bool) (r' : AuditRequest) (caller' : Principal) (id budget' : ℕ)
          (db'' : Quotas.Db)
        → caller'.org_id ≡ 7
        → create_audit world' n' p' rivals period' reachable r' caller' accounts queued
          ≢ (accepted id budget', db''))
unfolding geolytics.Api.Deps.load_org geolytics.Models.is_active Quotas.plan_of
    geolytics.Tenancy.Plans.Catalogue.get_plan create_audit geolytics.Api.Audits.submit
    geolytics.Api.Deps.require_scope geolytics.Tenancy.Principal.has
    geolytics.Crawl.Guard.validate_url geolytics.Crawl.Guard.port_allowed
    geolytics.Crawl.Guard.resolve_host geolytics.Crawl.Guard.is_exempt
    geolytics.Crawl.Addresses.is_blocked_address Quotas.check_site_allowed Quotas.count_sites
    Quotas.check_audit_allowed Quotas.usage Quotas.is_row geolytics.Api.Audits.answered
    geolytics.Api.Audits.counted geolytics.Tenancy.Plans.Catalogue.plans Quotas.bump
    Quotas.count_running_audits Quotas.insert Quotas.record_usage
create_audit_unreachable_example =
    create_audit_unreachable world 0 default_policy "2026-05" request caller accounts tables queued
      org free 10 (refl, tt) refl refl refl
