-- ===== src/Api/Audits.antt =====
-- The endpoints that queue an audit and delete one (backend/geolytics/api/routes/audits.py).
pub mod Limits
pub mod Full
pub mod Deletion
use geolytics.Prelude.{
  ℕ, String, Bool, true, false, ◌&&◌, Option, none, some, List, [], ◌∷◌, if◌then◌else◌, ◌==◌, eq_ℕ,
  eq_string, find_first, erase_first, pos,
}
use geolytics.Models.{Organization}
use geolytics.Crawl.Guard
use geolytics.Crawl.Guard.{World, UrlPolicy, policy, ValidatedTarget, validate_url}
use geolytics.Tenancy.Principal.{Principal}
use geolytics.Tenancy.Quotas
use geolytics.Tenancy.Quotas.{
  UsageCounter, Site, Audit, quota, Rivals, Key, audits_run, check_site_allowed,
  check_audit_allowed, record_usage,
}
use geolytics.Api.Result
use geolytics.Api.Result.{Result, ok, http, ◌>>=◌, or_refuse}
use geolytics.Api.Deps.{load_org, require_scope}

-- The payload, and the ids that the database gives the new rows. The other options of an audit are
-- stored as they are, and left out.
pub record AuditRequest : Type 0 where
  pub url : String
  pub max_pages : ℕ
  pub site_id : ℕ
  pub audit_id : ℕ

-- `QuotaExceeded` is a 402; no other exception is caught.
abbrev pub quota_result {ℓ} : {A : Type ℓ} → Quotas.Result A → Result A
quota_result (Quotas.ok a) = ok a
quota_result (Quotas.err (quota name allowed used requested)) = http 402
quota_result (Quotas.err e) = http 500

-- `UrlPolicyError` is a 422.
unfoldable pub url_result : Guard.Result ValidatedTarget → Result ValidatedTarget
url_result (Guard.ok t) = ok t
url_result (Guard.err (policy reason url)) = http 422
url_result (Guard.err e) = http 500

unfoldable pub is_site : ℕ → String → Site → Bool
is_site org_id url s = s.org_id == org_id && s.url == url

-- The site of the URL, and the tables with it.
unfoldable pub site_for :
    AuditRequest → Organization → Quotas.Db → Option Site → Result (ℕ × Quotas.Db)
site_for r org db (some site) = ok (site.id, db)
site_for r org db none = do
  _ ← quota_result (check_site_allowed db org)
  ok (
    r.site_id,
    record db { sites = record { id = r.site_id; org_id = org.id; url = r.url } ∷ db.sites },
  )

unfoldable pub pending_audit : AuditRequest → ℕ → ℕ → ℕ → Audit
pending_audit r org_id site_id page_budget = record {
  id = r.audit_id;
  org_id = org_id;
  site_id = site_id;
  status = "pending";
  max_pages = page_budget;
  crawl_id = none;
  error = none;
}

unfoldable pub audits_of : ℕ → String → Key
audits_of org_id period = record { org_id = org_id; period = period; metric = audits_run }

-- The last statements of the transaction: the new audit, counted at submission.
unfoldable pub counted :
    Rivals → AuditRequest → ℕ → String → ℕ → ℕ → Quotas.Db → Result (ℕ × Quotas.Db)
unfolding pending_audit audits_of
counted rivals r org_id period site_id page_budget db =
    let (total, counters) = record_usage rivals (audits_of org_id period) (pos 1) db.counters in
    quota_result total >>= λ _. ok (
      page_budget,
      record db {
        counters = counters;
        audits = pending_audit r org_id site_id page_budget ∷ db.audits;
      },
    )

-- What is committed: the page budget, and the tables. A refusal before that commits nothing.
unfoldable pub submit :
    World
    → ℕ
    → UrlPolicy
    → Rivals
    → String
    → AuditRequest
    → Principal
    → Result.Db
    → Quotas.Db
    → Result (ℕ × Quotas.Db)
unfolding url_result is_site site_for counted
submit world n p rivals period r caller accounts db = do
  org ← load_org accounts caller.org_id
  _ ← require_scope ("audits:write" ∷ []) caller
  _ ← url_result (validate_url world n r.url p)
  site ← site_for r org db (find_first (is_site org.id r.url) db.sites)
  page_budget ← quota_result (check_audit_allowed site.1 org r.max_pages period)
  counted rivals r org.id period site.0 page_budget site.1

-- `AuditAccepted`, with the page budget that its message tells.
pub data Response : Type 0 where
  accepted : ℕ → ℕ → Response
  refused : ℕ → Response

-- The job is enqueued after the commit: where the queue cannot be reached the caller gets an error,
-- and the audit stays.
unfoldable pub answered :
    AuditRequest → Bool → Quotas.Db → Result (ℕ × Quotas.Db) → Response × Quotas.Db
answered r reachable db (http code) = (refused code, db)
answered r reachable db (ok (page_budget, db')) =
    (if reachable then accepted r.audit_id page_budget else refused 500, db')

-- `create_audit`.
unfoldable pub create_audit :
    World
    → ℕ
    → UrlPolicy
    → Rivals
    → String
    → Bool
    → AuditRequest
    → Principal
    → Result.Db
    → Quotas.Db
    → Response × Quotas.Db
unfolding submit answered
create_audit world n p rivals period reachable r caller accounts db =
    answered r reachable db (submit world n p rivals period r caller accounts db)

abbrev pub is_own : ℕ → ℕ → Audit → Bool
is_own audit_id org_id a = a.id == audit_id && a.org_id == org_id

-- `delete_audit`: an audit of another organisation counts as missing.
unfoldable pub delete_audit : ℕ → Principal → Quotas.Db → Result Quotas.Db
delete_audit audit_id principal db = do
  caller ← require_scope ("audits:write" ∷ []) principal
  a ← or_refuse (find_first (is_own audit_id principal.org_id) db.audits) 404
  ok (record db { audits = erase_first (is_own audit_id principal.org_id) db.audits })
