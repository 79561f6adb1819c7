-- ===== src/Api/Audits/Limits.antt =====
-- An audit that is queued is within the plan, and is counted.
use mathlib.Core.Path.{subst}
use geolytics.Prelude.{
  ℕ, suc, ◌+◌, ◌≤◌, ◌<◌, String, ◌≡◌, refl, ◌∙◌, ap, sym, Bool, true, false, Option, none, some,
  List, [], ◌∷◌, if◌then◌else◌, eq_ℕ, eq_string, eq_iff, find_first, pos, arith,
}
use geolytics.Models.{Organization}
use geolytics.Crawl.Guard.{World, UrlPolicy, validate_url}
use geolytics.Tenancy.Plans.{Plan}
use geolytics.Tenancy.Principal.{Principal}
use geolytics.Tenancy.Quotas
use geolytics.Tenancy.Quotas.{
  UsageCounter, Site, Audit, Rivals, quota, unknown_metric, negative_amount, integrity, plan_error,
  audits_run, pages_crawled, used, plan_of, count_running_audits, check_site_allowed,
  check_audit_allowed, record_usage,
}
use geolytics.Tenancy.Quotas.Counters.{IsUnique, found, Adds, record_usage-Adds, exists}
use geolytics.Tenancy.Quotas.Checks.{check_audit_allowed-within}
use geolytics.Api.Result
use geolytics.Api.Result.{Result, ok, http, ◌>>=◌, first_step, ok-injective}
use geolytics.Api.Deps.{load_org, require_scope}
use geolytics.Api.Audits.{
  AuditRequest, Response, accepted, quota_result, url_result, is_site, site_for, pending_audit,
  audits_of, counted, submit, answered, create_audit,
}

-- No other worker writes in between.
abbrev pub undisturbed : Rivals
undisturbed = record { before_insert = λ rows. rows; before_retry = λ rows. rows }

pub quota_result-ok :
    {A : Type 0} (m : Quotas.Result A) (a : A) → quota_result m ≡ ok a → m ≡ Quotas.ok a
quota_result-ok (Quotas.ok b) a h = ap Quotas.ok (ok-injective h)
quota_result-ok (Quotas.err (quota name allowed there requested)) a h = cc
quota_result-ok (Quotas.err unknown_metric) a h = cc
quota_result-ok (Quotas.err negative_amount) a h = cc
quota_result-ok (Quotas.err integrity) a h = cc
quota_result-ok (Quotas.err (plan_error e)) a h = cc

site-eq :
    {i j : ℕ} {x y : Quotas.Db}
    → ◌≡◌ {A = Result (ℕ × Quotas.Db)} (ok (i, x)) (ok (j, y))
    → (i ≡ j) × (x ≡ y)
site-eq h = (cc, cc)

-- Finding or adding the site touches neither the counters nor the audits.
pub site_for-same :
    (r : AuditRequest) (org : Organization) (db d : Quotas.Db) (o : Option Site) (i : ℕ)
    → site_for r org db o ≡ ok (i, d)
    → (d.counters ≡ db.counters) × (d.audits ≡ db.audits)
unfolding site_for
site_for-same r org db d (some site) i h = rw (← (site-eq h).1) (refl, refl)
site_for-same r org db d none i h =
    let (_, _, rest) = first_step (quota_result (check_site_allowed db org)) _ (i, d) h in
    rw (← (site-eq rest).1) (refl, refl)

same_rows :
    (b : Bool) (rows : List UsageCounter) → (if b then rows else if b then rows else rows) ≡ rows
same_rows true rows = refl
same_rows false rows = refl

record_one :
    (org_id : ℕ) (period : String) (rows : List UsageCounter)
    → IsUnique rows
    → Adds
        (audits_of org_id period)
        1
        rows
        (record_usage undisturbed (audits_of org_id period) (pos 1) rows)
unfolding audits_of
record_one org_id period rows u =
    let k = audits_of org_id period in
    let same : found undisturbed k rows ≡ rows = same_rows (exists k rows) rows in
    subst (λ t. Adds k 1 t (record_usage undisturbed k (pos 1) rows)) same
      (record_usage-Adds undisturbed k 1 rows refl (subst IsUnique (sym same) u) (λ h. h))

-- What queueing an audit with this page budget has checked and written.
pub record IsQueued (org : Organization) (period : String) (plan : Plan) (budget : ℕ)
    (db db' : Quotas.Db) : Type 0 where
  pub counted_once : used db' org period audits_run ≡ suc (used db org period audits_run)
  pub audits_left : used db' org period audits_run ≤ plan.max_audits_per_month
  pub running_once :
      count_running_audits db'.audits org.id ≡ suc (count_running_audits db.audits org.id)
  pub running : count_running_audits db'.audits org.id ≤ plan.max_concurrent_audits
  pub pages_left : used db org period pages_crawled + budget ≤ plan.max_pages_per_month
  pub pages_per_audit : budget ≤ plan.max_pages_per_audit
  -- The audit that the worker will read.
  pub audit : Audit
  pub queued : db'.audits ≡ audit ∷ db.audits
  pub waiting : audit.status ≡ "pending"
  pub owned : audit.org_id ≡ org.id
  pub capped : audit.max_pages ≡ budget

running_one :
    (r : AuditRequest) (org_id site_id budget : ℕ) (audits : List Audit)
    → count_running_audits (pending_audit r org_id site_id budget ∷ audits) org_id
      ≡ suc (count_running_audits audits org_id)
unfolding count_running_audits pending_audit
running_one r org_id site_id budget audits = ground (arith, eq_iff "pending" "pending")

counted-out :
    (r : AuditRequest) (org_id : ℕ) (period : String) (site_id n budget : ℕ) (d db' : Quotas.Db)
    → counted undisturbed r org_id period site_id n d ≡ ok (budget, db')
    → (n ≡ budget)
      × (db'.counters ≡ (record_usage undisturbed (audits_of org_id period) (pos 1) d.counters).1)
      × (db'.audits ≡ pending_audit r org_id site_id n ∷ d.audits)
unfolding counted
counted-out r org_id period site_id n budget d db' h =
    let (_, _, rest) =
      first_step
        (quota_result (record_usage undisturbed (audits_of org_id period) (pos 1) d.counters).0) _
        (budget, db') h in
    let (same, stored) = site-eq rest in (same, rw (← stored) refl, rw (← stored) refl)

add_one : (n : ℕ) → n + 1 ≡ suc n
add_one n = omega arith

suc_le : {m n : ℕ} → m < n → suc m ≤ n
suc_le h = omega arith

limits_kept :
    (r : AuditRequest) (org : Organization) (period : String) (plan : Plan) (site_id budget : ℕ)
    (d db' : Quotas.Db)
    → IsUnique d.counters
    → plan_of org ≡ Quotas.ok plan
    → check_audit_allowed d org r.max_pages period ≡ Quotas.ok budget
    → db'.counters ≡ (record_usage undisturbed (audits_of org.id period) (pos 1) d.counters).1
    → db'.audits ≡ pending_audit r org.id site_id budget ∷ d.audits
    → IsQueued org period plan budget d db'
unfolding audits_of pending_audit
limits_kept r org period plan site_id budget d db' u p allowed counters audits =
    let (runs, running, pages, size, _) =
      check_audit_allowed-within d org r.max_pages budget period plan p allowed in
    let one = record_one org.id period d.counters u in
    let once : used db' org period audits_run ≡ suc (used d org period audits_run) =
      rw counters (one.self ∙ add_one _) in
    record {
      counted_once = once;
      audits_left = rw once (suc_le runs);
      running_once = rw audits (running_one r org.id site_id budget d.audits);
      running = rw (audits, running_one r org.id site_id budget d.audits) (suc_le running);
      pages_left = pages;
      pages_per_audit = size;
      audit = pending_audit r org.id site_id budget;
      queued = audits;
      waiting = refl;
      owned = refl;
      capped = refl;
    }

-- The outcome depends on the tables before the site only through the counters and the audits.
before_site :
    (org : Organization) (period : String) (plan : Plan) (budget : ℕ) (d db db' : Quotas.Db)
    → d.counters ≡ db.counters
    → d.audits ≡ db.audits
    → IsQueued org period plan budget d db'
    → IsQueued org period plan budget db db'
before_site org period plan budget d db db' e a q = record {
  counted_once = rw (← e) q.counted_once;
  audits_left = q.audits_left;
  running_once = rw (← a) q.running_once;
  running = q.running;
  pages_left = rw (← e) q.pages_left;
  pages_per_audit = q.pages_per_audit;
  audit = q.audit;
  queued = rw (← a) q.queued;
  waiting = q.waiting;
  owned = q.owned;
  capped = q.capped;
}

pub accepted-out :
    (r : AuditRequest) (reachable : Bool) (id budget : ℕ) (db db' : Quotas.Db)
    (m : Result (ℕ × Quotas.Db))
    → answered r reachable db m ≡ (accepted id budget, db')
    → m ≡ ok (budget, db')
unfolding answered
accepted-out r true id budget db db' (ok (n, d)) h =
    cc (ap (λ (q : Response × Quotas.Db). q.0) h, ap (λ (q : Response × Quotas.Db). q.1) h)
accepted-out r false id budget db db' (ok (n, d)) h = cc (ap (λ (q : Response × Quotas.Db). q.0) h)
accepted-out r reachable id budget db db' (http code) h =
    cc (ap (λ (q : Response × Quotas.Db). q.0) h)

pub submit-IsQueued :
    (world : World) (n : ℕ) (p : UrlPolicy) (period : String) (r : AuditRequest)
    (caller : Principal) (accounts : Result.Db) (db db' : Quotas.Db) (org : Organization)
    (plan : Plan) (budget : ℕ)
    → IsUnique db.counters
    → load_org accounts caller.org_id ≡ ok org
    → plan_of org ≡ Quotas.ok plan
    → submit world n p undisturbed period r caller accounts db ≡ ok (budget, db')
    → IsQueued org period plan budget db db'
unfolding submit
submit-IsQueued world n p period r caller accounts db db' org plan budget u loaded planned h =
    let (o, found, scoped) = first_step (load_org accounts caller.org_id) _ (budget, db') h in
    let (_, _, valid) =
      first_step (require_scope ("audits:write" ∷ []) caller) _ (budget, db') scoped in
    let (_, _, sited) =
      first_step (url_result (validate_url world n r.url p)) _ (budget, db') valid in
    let (site, placed, checked) =
      first_step (site_for r o db (find_first (is_site o.id r.url) db.sites)) _ (budget, db')
        sited in
    let (pages, allowed, last) =
      first_step (quota_result (check_audit_allowed site.1 o r.max_pages period)) _ (budget, db')
        checked in
    let (counters, audits_same) = site_for-same r o db site.1 _ site.0 placed in
    let (same, written, audits) = counted-out r o.id period site.0 pages budget site.1 db' last in
    let at : o ≡ org = ok-injective (sym found ∙ loaded) in
    subst (λ q. IsQueued q period plan budget db db') at
      (subst (λ b. IsQueued o period plan b db db') same
        (before_site o period plan pages site.1 db db' counters audits_same (
          limits_kept r o period plan site.0 pages site.1 db' (rw counters u) (rw at planned)
            (quota_result-ok _ pages allowed) written audits)))

-- An audit that is accepted, with no other worker in between and over counters that keep their
-- unique constraint, is stored for the organisation, pending, with a page limit that is within what
-- the plan allows for one audit and what is left in the month; it is counted once, and leaves the
-- organisation within its audits of the month and its concurrent audits.
pub create_audit-IsQueued :
    (world : World) (n : ℕ) (p : UrlPolicy) (period : String) (reachable : Bool) (r : AuditRequest)
    (caller : Principal) (accounts : Result.Db) (db db' : Quotas.Db) (org : Organization)
    (plan : Plan) (id budget : ℕ)
    → IsUnique db.counters
    → load_org accounts caller.org_id ≡ ok org
    → plan_of org ≡ Quotas.ok plan
    → create_audit world n p undisturbed period reachable r caller accounts db
      ≡ (accepted id budget, db')
    → IsQueued org period plan budget db db'
unfolding create_audit
create_audit-IsQueued world n p period reachable r caller accounts db db' org plan id budget u
      loaded planned h =
    submit-IsQueued world n p period r caller accounts db db' org plan budget u loaded planned
      (accepted-out r reachable id budget db db' _ h)
