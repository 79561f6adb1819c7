-- ===== src/Tenancy/Quotas/Checks.antt =====
-- What the quota checks let through.
use geolytics.Prelude.{ℕ, ◌+◌, ◌-◌, ◌≤◌, ◌<◌, String, ◌≡◌, arith}
use Prim.Native.Nat.{min, max}
use geolytics.Models.{Organization}
use geolytics.Tenancy.Plans.{Plan}
use geolytics.Tenancy.Quotas.{
  Db, ok, audits_run, pages_crawled, used, plan_of, count_running_audits, check_audit_allowed,
}

-- An audit that is let through, under the plan that the organisation resolves to, stays within
-- every limit that it touches.
pub check_audit_allowed-within :
    (db : Db) (org : Organization) (requested n : ℕ) (period : String) (p : Plan)
    → plan_of org ≡ ok p
    → check_audit_allowed db org requested period ≡ ok n
    → (used db org period audits_run < p.max_audits_per_month)
      × (count_running_audits db.audits org.id < p.max_concurrent_audits)
      × (used db org period pages_crawled + n ≤ p.max_pages_per_month)
      × (n ≤ p.max_pages_per_audit)
      × (n ≤ max 1 requested)
unfolding check_audit_allowed
check_audit_allowed-within db org requested n period p e h = ground arith

-- An organisation below the limits of the plan that it resolves to is let through, with the
-- requested pages (at least one) capped by the per-audit limit and by what is left of the month.
pub check_audit_allowed-succeeds :
    (db : Db) (org : Organization) (requested : ℕ) (period : String) (p : Plan)
    → plan_of org ≡ ok p
    → used db org period audits_run < p.max_audits_per_month
    → count_running_audits db.audits org.id < p.max_concurrent_audits
    → used db org period pages_crawled < p.max_pages_per_month
    → check_audit_allowed db org requested period
      ≡ ok (
          min
            (min (max 1 requested) p.max_pages_per_audit)
            (p.max_pages_per_month - used db org period pages_crawled))
unfolding check_audit_allowed
check_audit_allowed-succeeds db org requested period p e h i j = ground arith
