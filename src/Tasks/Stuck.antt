-- ===== src/Tasks/Stuck.antt =====
-- A task that is cancelled (backend/geolytics/tasks/queue.py), and the audits that are queued after it
-- (backend/geolytics/api/routes/audits.py).
use geolytics.Prelude.{
  ℕ, ◌≤◌, ◌≡◌, ◌≢◌, ◌⊎◌, inl, inr, refl, sym, String, Bool, true, some, find_first, length,
}
use mathlib.Core.Path.{subst}
use geolytics.Models.{Organization}
use geolytics.Crawl.Guard.{World, UrlPolicy}
use geolytics.Tenancy.Plans.{Plan}
use geolytics.Tenancy.Principal.{Principal}
use geolytics.Tenancy.Quotas
use geolytics.Tenancy.Quotas.{Rivals, Audit, count_running_audits, plan_of}
use geolytics.Api.Result
use geolytics.Api.Result.{ok}
use geolytics.Api.Deps.{load_org}
use geolytics.Api.Audits.{AuditRequest, accepted, create_audit}
use geolytics.Api.Audits.Full.{create_audit_full}
use geolytics.Tasks.{
  Store, AuditOutcome, Ran, done, raised, cancelled, Cancellation, uncancelled, during_persist,
  during_mark, reported, Given, is_audit, set_audit, started, persist_audit, after_persist,
  interrupted, finish, run_audit_task,
}
use geolytics.Tasks.Outcomes.{is_running}
use geolytics.Tasks.Ends.{IsEnded, begun, begun_found, count_begun, fails, by_persist, started_task}

-- What is left of an audit whose task has gone: it still runs and keeps its slot, and nothing is
-- metered.
pub record IsLeft (a : Audit) (audit_id : ℕ) (s s' : Store) : Type 0 where
  pub found : find_first (is_audit audit_id) s'.db.audits ≡ some (started a)
  pub slot : count_running_audits s'.db.audits a.org_id ≡ count_running_audits s.db.audits a.org_id
  pub unmetered : s'.db.counters ≡ s.db.counters

-- A cancelled task leaves the audit running, or ended as a task that is not cancelled ends it; the
-- latter only where running the audit was not what was cancelled.
abbrev Left : Given → Audit → ℕ → Ran AuditOutcome → Store → Ran ℕ × Store → Type 0
Left g a audit_id run s out =
    out.0 ≡ cancelled
    → IsLeft a audit_id s out.1
      ⊎ ((run ≢ cancelled) × ((r : Ran ℕ) × IsEnded g a audit_id s (r, out.1)))

module _ (g : Given) (a : Audit) (audit_id : ℕ) (s : Store)
    (there : find_first (is_audit audit_id) s.db.audits ≡ some a) (live : is_running a ≡ true) where
  begun-IsLeft : IsLeft a audit_id s (begun g a audit_id s there live)
  unfolding begun set_audit
  begun-IsLeft = record {
    found = begun_found g a audit_id s there live;
    slot = count_begun g a audit_id s there live;
    unmetered = refl;
  }

  -- Where storing the audit is not cut short, the audit ends, whatever is reported.
  after_persist-ends :
      (o : AuditOutcome) (cut : Cancellation)
      → let t = begun g a audit_id s there live in
        (r : Ran ℕ) × IsEnded g a audit_id s
          (r, (after_persist audit_id o cut t (persist_audit g audit_id o t)).1)
  unfolding after_persist
  after_persist-ends o cut = elim (by_persist g a audit_id s there live o _ refl) [
    | inl (s', h, ended) ↦ (done (length o.documents), rw h ended)
    | inr (x, h) ↦ (raised x, rw h (fails g a audit_id s there live x))
  ]

  finish-Left :
      (run : Ran AuditOutcome) (cut : Cancellation)
      → Left g a audit_id run s (finish g audit_id run cut (begun g a audit_id s there live))
  unfolding finish after_persist interrupted reported
  finish-Left cancelled cut e = inl begun-IsLeft
  finish-Left (raised x) cut e = inr (λ n. cc, (raised x, fails g a audit_id s there live x))
  finish-Left (done o) uncancelled e = inr (λ n. cc, after_persist-ends o uncancelled)
  finish-Left (done o) during_mark e = inr (λ n. cc, after_persist-ends o during_mark)
  finish-Left (done o) during_persist e = elim (by_persist g a audit_id s there live o _ refl) [
    | inl (s', h, ended) ↦ inr (λ n. cc, (done (length o.documents), rw h ended))
    | inr (x, h) ↦ inl (rw h begun-IsLeft)
  ]

-- The task of a pending or running audit that is cancelled, at whatever it waits for, has done one of
-- two things. Either the audit is left running: it keeps its slot among the running audits of the
-- organisation, nothing is metered, and if the slots were all taken no request for a new audit, by any
-- caller of the organisation and at any time, is accepted on the tables that are left. Or the audit
-- has ended, complete and metered or failed, as for a task that is not cancelled. A task that is
-- cancelled while the audit is being run has always left the audit running.
pub run_audit_task_cancelled :
    (g : Given) (audit_id : ℕ) (run : Ran AuditOutcome) (cut : Cancellation) (s : Store) (a : Audit)
    (world : World) (n : ℕ) (p : UrlPolicy) (rivals : Rivals) (period : String) (reachable : Bool)
    (r : AuditRequest) (caller : Principal) (accounts : Result.Db) (org : Organization)
    (plan : Plan) (id budget : ℕ) (db' : Quotas.Db)
    → find_first (is_audit audit_id) s.db.audits ≡ some a
    → is_running a ≡ true
    → load_org accounts caller.org_id ≡ ok org
    → org.id ≡ a.org_id
    → plan_of org ≡ Quotas.ok plan
    → plan.max_concurrent_audits ≤ count_running_audits s.db.audits a.org_id
    → (run_audit_task g audit_id run cut s).0 ≡ cancelled
    → let s' = (run_audit_task g audit_id run cut s).1 in
      (IsLeft a audit_id s s'
        × (create_audit world n p rivals period reachable r caller accounts s'.db
            ≢ (accepted id budget, db')))
      ⊎ ((run ≢ cancelled) × ((m : Ran ℕ) × IsEnded g a audit_id s (m, s')))
unfolding begun
run_audit_task_cancelled g audit_id run cut s a world n p rivals period reachable r caller accounts
      org plan id budget db' there live loaded own planned taken e =
    let left =
      subst (Left g a audit_id run s) (sym (started_task g audit_id run cut s a there))
        (finish-Left g a audit_id s there live run cut) in
    elim (left e) [
      | inl l ↦ inl (
        l,
        create_audit_full world n p rivals period reachable r caller accounts _ db' org plan id
            budget loaded planned (rw (own, l.slot) taken),
      )
      | inr ended ↦ inr ended
    ]
