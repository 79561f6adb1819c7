-- ===== src/Tests/Worker.antt =====
-- The worker's task at concrete values (backend/geolytics/tasks/queue.py).
use geolytics.Prelude.{ℕ, ◌≤◌, arith, true, ◌≡◌, ◌≢◌, ◌⊎◌, refl, none, [], ◌∷◌}
use geolytics.Prelude.Text.{codes}
use geolytics.Tenancy.Quotas.{Audit, count_running_audits}
use geolytics.Tasks.{Store, AuditOutcome, Ran, cancelled, uncancelled, Given, run_audit_task}
use geolytics.Tasks.Ends.{IsEnded}
use geolytics.Tasks.Stuck.{IsLeft, run_audit_task_cancelled}
use geolytics.Crawl.Guard.{default_policy}
use geolytics.Tenancy.Plans.Catalogue.{free}
use geolytics.Api.Audits.{accepted, create_audit}
use geolytics.Api.Audits.Limits.{undisturbed}
use geolytics.Tests.Audits
use geolytics.Tests.Audits.{accounts, caller, request}
use geolytics.Tests.Tenancy.{org}
use geolytics.Tests.Crawl.{world}

abbrev queued : Audit
queued = record {
  id = 4;
  org_id = 7;
  site_id = 3;
  status = "pending";
  max_pages = 10;
  crawl_id = none;
  error = none;
}

abbrev before : Store
before = record {
  db = record {
    counters = [];
    sites = record { id = 3; org_id = 7; url = "https://acme.io" } ∷ [];
    audits = queued ∷ [];
  };
  crawls = [];
  pages = [];
  page_scores = [];
}

abbrev outcome : AuditOutcome
outcome = record {
  documents =
      record {
        doc_id = "home";
        url = "https://acme.io/";
        title = "Acme";
        text = codes "Acme.";
        sections = [];
      }
      ∷ [];
  scored = "home" ∷ [];
}

abbrev given : Given
given = record {
  crawl_id = 2;
  first_page_id = 5;
  period = "2026-05";
  rivals = record { before_insert = λ rows. rows; before_retry = λ rows. rows };
}

run_audit_task_cancelled_example :
    let s' = (run_audit_task given 4 cancelled uncancelled before).1 in
    (IsLeft queued 4 before s'
      × (create_audit world 0 default_policy undisturbed "2026-05" true request caller accounts
            s'.db
          ≢ (accepted 4 10, Audits.queued)))
    ⊎ ((◌≡◌ {A = Ran AuditOutcome} cancelled cancelled → ⊥)
        × ((m : Ran ℕ) × IsEnded given queued 4 before (m, s')))
unfolding geolytics.Api.Deps.load_org geolytics.Models.is_active geolytics.Tenancy.Quotas.plan_of
    geolytics.Tenancy.Plans.Catalogue.get_plan count_running_audits run_audit_task
run_audit_task_cancelled_example =
    run_audit_task_cancelled given 4 cancelled uncancelled before queued world 0 default_policy
      undisturbed "2026-05" true request caller accounts org free 4 10 Audits.queued refl refl refl
      refl refl (let one : 1 ≤ 1 = omega arith in one) refl
