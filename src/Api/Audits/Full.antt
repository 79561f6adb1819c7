-- ===== src/Api/Audits/Full.antt =====
-- Where the concurrent audits of a plan are taken, no audit is accepted
-- (backend/geolytics/api/routes/audits.py).
use mathlib.Core.Path.{subst}
use geolytics.Prelude.{
  ℕ, suc, ◌≤◌, ◌<◌, String, ◌≡◌, ◌≢◌, refl, ◌∙◌, ap, sym, Bool, false, [], ◌∷◌, eq_ℕ, eq_string,
  find_first, arith,
}
use geolytics.Models.{Organization}
use geolytics.Crawl.Guard.{World, UrlPolicy, validate_url}
use geolytics.Tenancy.Plans.{Plan}
use geolytics.Tenancy.Principal.{Principal}
use geolytics.Tenancy.Quotas
use geolytics.Tenancy.Quotas.{
  UsageCounter, Site, Audit, Rivals, quota, unknown_metric, negative_amount, integrity, plan_error,
  audits_run, pages_crawled, used, plan_of, count_running_audits, check_site_allowed,
  check_audit_allowed, record_usage,
}
use geolytics.Tenancy.Quotas.Counters.{IsUnique, found}
use geolytics.Tenancy.Quotas.Checks.{check_audit_allowed-within}
use geolytics.Api.Result
use geolytics.Api.Result.{Result, ok, http, ◌>>=◌, first_step, ok-injective}
use geolytics.Api.Deps.{load_org, require_scope}
use geolytics.Api.Audits.{
  AuditRequest, accepted, refused, quota_result, url_result, is_site, site_for, submit, answered,
  create_audit,
}
use geolytics.Api.Audits.Limits.{
  undisturbed, quota_result-ok, site_for-same, IsQueued, accepted-out, submit-IsQueued,
}

-- Whatever is submitted finds room among the concurrent audits.
submit_room :
    (world : World) (n : ℕ) (p : UrlPolicy) (rivals : Rivals) (period : String) (r : AuditRequest)
    (caller : Principal) (accounts : Result.Db) (db : Quotas.Db) (org : Organization) (plan : Plan)
    (out : ℕ × Quotas.Db)
    → load_org accounts caller.org_id ≡ ok org
    → plan_of org ≡ Quotas.ok plan
    → submit world n p rivals period r caller accounts db ≡ ok out
    → count_running_audits db.audits org.id < plan.max_concurrent_audits
unfolding submit
submit_room world n p rivals period r caller accounts db org plan out loaded planned h =
    let (o, found, scoped) = first_step (load_org accounts caller.org_id) _ out h in
    let (_, _, valid) = first_step (require_scope ("audits:write" ∷ []) caller) _ out scoped in
    let (_, _, sited) = first_step (url_result (validate_url world n r.url p)) _ out valid in
    let (site, placed, checked) =
      first_step (site_for r o db (find_first (is_site o.id r.url) db.sites)) _ out sited in
    let (pages, allowed, _) =
      first_step (quota_result (check_audit_allowed site.1 o r.max_pages period)) _ out checked in
    let at : o ≡ org = ok-injective (sym found ∙ loaded) in
    let (_, running, _, _, _) =
      check_audit_allowed-within site.1 o r.max_pages pages period plan (rw at planned)
        (quota_result-ok _ pages allowed) in
    subst (λ q. count_running_audits db.audits q.id < plan.max_concurrent_audits) at
      (subst (λ a. count_running_audits a o.id < plan.max_concurrent_audits)
        (site_for-same r o db site.1 _ site.0 placed).1 running)

-- No audit is accepted while the concurrent audits of the plan are taken.
pub create_audit_full :
    (world : World) (n : ℕ) (p : UrlPolicy) (rivals : Rivals) (period : String) (reachable : Bool)
    (r : AuditRequest) (caller : Principal) (accounts : Result.Db) (db db' : Quotas.Db)
    (org : Organization) (plan : Plan) (id budget : ℕ)
    → load_org accounts caller.org_id ≡ ok org
    → plan_of org ≡ Quotas.ok plan
    → plan.max_concurrent_audits ≤ count_running_audits db.audits org.id
    → create_audit world n p rivals period reachable r caller accounts db
      ≢ (accepted id budget, db')
unfolding create_audit
create_audit_full world n p rivals period reachable r caller accounts db db' org plan id budget
      loaded planned taken h =
    full _ _ taken (
      submit_room world n p rivals period r caller accounts db org plan (budget, db') loaded planned
        (accepted-out r reachable id budget db db' _ h))
  where
    full : (count most : ℕ) → most ≤ count → count < most → ⊥
    full count most e room = omega (arith, e, room)

-- Where the queue cannot be reached, a request that passes every check, with no other worker in
-- between and over counters that keep their unique constraint, is answered with a 500 and still
-- leaves its audit, pending and counted. If the audit takes the last of the concurrent audits, no
-- request on the tables that are left is accepted for the organisation, by any caller, at any time,
-- whether or not the queue can be reached again.
pub create_audit_unreachable :
    (world : World) (n : ℕ) (p : UrlPolicy) (period : String) (r : AuditRequest)
    (caller : Principal) (accounts : Result.Db) (db db' : Quotas.Db) (org : Organization)
    (plan : Plan) (budget : ℕ)
    → IsUnique db.counters
    → load_org accounts caller.org_id ≡ ok org
    → plan_of org ≡ Quotas.ok plan
    → submit world n p undisturbed period r caller accounts db ≡ ok (budget, db')
    → (create_audit world n p undisturbed period false r caller accounts db ≡ (refused 500, db'))
      × IsQueued org period plan budget db db'
      × (suc (count_running_audits db.audits org.id) ≡ plan.max_concurrent_audits
          → (world' : World) (n' : ℕ) (p' : UrlPolicy) (rivals : Rivals) (period' : String)
            (reachable : Bool) (r' : AuditRequest) (caller' : Principal) (id budget' : ℕ)
            (db'' : Quotas.Db)
          → caller'.org_id ≡ caller.org_id
          → create_audit world' n' p' rivals period' reachable r' caller' accounts db'
            ≢ (accepted id budget', db''))
unfolding create_audit answered
create_audit_unreachable world n p period r caller accounts db db' org plan budget u loaded planned
      h =
    let q =
      submit-IsQueued world n p period r caller accounts db db' org plan budget u loaded planned
        h in
    (
      rw (h, create_audit) refl,
      q,
      λ last world' n' p' rivals period' reachable r' caller' id budget' db'' of_org.
          create_audit_full world' n' p' rivals period' reachable r' caller' accounts db' db'' org
            plan id budget' (ap (load_org accounts) of_org ∙ loaded) planned
            (taken _ _ _ q.running_once last),
    )
  where
    taken : (before after most : ℕ) → after ≡ suc before → suc before ≡ most → most ≤ after
    taken before after most e f = omega (arith, e, f)
