-- ===== src/Tasks/Ends.antt =====
-- The worker's task ends an audit, unless it is cancelled (backend/geolytics/tasks/queue.py).
use geolytics.Prelude.{
  ℕ, suc, ◌+◌, ◌≡◌, ◌⊎◌, inl, inr, refl, sym, ap, ◌∙◌, String, true, false, some, none, ◌==◌, ==→eq,
  ==_refl, eq_ℕ, eq_string, length, find_first, update_first, arith, find_first-holds,
}
use geolytics.Tenancy.Quotas.{Audit, count_running_audits}
use geolytics.Tasks.{
  Store, AuditOutcome, Ran, done, raised, cancelled, Cancellation, Given, is_audit, set_audit,
  completed, metered, stored, persisted, persist_audit, failed, mark_audit_failed, started, finish,
  run_audit_task,
}
use geolytics.Tasks.Outcomes.{
  is_running, runs_in, updated, IsPersisted, persisted-IsPersisted, persist_audit-found,
  persisted_ends,
}

-- What the task has left: the audit is complete, with its crawl, and its pages are metered; or it has
-- failed, with the error, and nothing is metered. Either way it no longer counts as running.
pub record IsEnded (g : Given) (a : Audit) (audit_id : ℕ) (s : Store) (out : Ran ℕ × Store)
    : Type 0 where
  pub audit : Audit
  pub found : find_first (is_audit audit_id) out.1.db.audits ≡ some audit
  pub freed :
      suc (count_running_audits out.1.db.audits a.org_id)
      ≡ count_running_audits s.db.audits a.org_id
  pub ended :
      ((n : ℕ) × (out.0 ≡ done n)
        × (audit ≡ completed g.crawl_id (started a))
        × (metered g a.org_id n s.db.counters ≡ done out.1.db.counters))
      ⊎ ((e : String) × (out.0 ≡ raised e)
          × (audit ≡ failed e (started a))
          × (out.1.db.counters ≡ s.db.counters))

same_count : (m n : ℕ) → m + 1 ≡ n + 1 → m ≡ n
same_count m n h = omega (arith, h)

one_less : (m n : ℕ) → m + 1 ≡ n + 0 → suc m ≡ n
one_less m n h = omega (arith, h)

module _ (g : Given) (a : Audit) (audit_id : ℕ) (s : Store)
    (there : find_first (is_audit audit_id) s.db.audits ≡ some a) (live : is_running a ≡ true) where
  same_id : a.id ≡ audit_id
  same_id = ==→eq a.id audit_id (find_first-holds (is_audit audit_id) s.db.audits a there)

  unfoldable pub begun : Store
  begun = set_audit audit_id started s

  -- The audit is there after it is marked as running, and counts as before.
  pub begun_found : find_first (is_audit audit_id) begun.db.audits ≡ some (started a)
  unfolding begun set_audit
  begun_found = (updated audit_id started s.db.audits a a.org_id there (λ b. refl)).0

  runs_before : runs_in a.org_id a ≡ true
  runs_before = rw (==_refl a.org_id, live) refl

  runs_begun : runs_in a.org_id (started a) ≡ true
  runs_begun = rw (==_refl a.org_id) refl

  pub count_begun :
      count_running_audits begun.db.audits a.org_id ≡ count_running_audits s.db.audits a.org_id
  unfolding begun set_audit
  count_begun =
      let c = (updated audit_id started s.db.audits a a.org_id there (λ b. refl)).1 in
      same_count _ _ (rw (runs_before, runs_begun) at c)

  -- The audit gets a status in which it does not run.
  ends_with :
      (f : Audit → Audit)
      → ((b : Audit) → (f b).id ≡ b.id)
      → runs_in a.org_id (f (started a)) ≡ false
      → (find_first (is_audit audit_id) (update_first (is_audit audit_id) f begun.db.audits)
          ≡ some (f (started a)))
        × (suc (count_running_audits (update_first (is_audit audit_id) f begun.db.audits) a.org_id)
            ≡ count_running_audits s.db.audits a.org_id)
  ends_with f keeps stops =
      let (found, c) = updated audit_id f begun.db.audits (started a) a.org_id begun_found keeps in
      (found, one_less _ _ (rw (runs_begun, stops) at c) ∙ count_begun)

  stops_completed : runs_in a.org_id (completed g.crawl_id (started a)) ≡ false
  stops_completed = rw (==_refl a.org_id) refl

  stops_failed : (e : String) → runs_in a.org_id (failed e (started a)) ≡ false
  stops_failed e = rw (==_refl a.org_id) refl

  pub fails : (e : String) → IsEnded g a audit_id s (raised e, mark_audit_failed audit_id e begun)
  unfolding mark_audit_failed set_audit begun
  fails e =
      let (found, freed) = ends_with (failed e) (λ b. refl) (stops_failed e) in
      record {
        audit = failed e (started a);
        found = found;
        freed = freed;
        ended = inr (e, refl, refl, refl);
      }

  completes :
      (o : AuditOutcome) (s' : Store)
      → IsPersisted g o begun (started a) s'
      → IsEnded g a audit_id s (done (length o.documents), s')
  unfolding stored begun set_audit
  completes o s' i =
      let (found, freed) = ends_with (completed g.crawl_id) (λ b. refl) stops_completed in
      let audits =
        ap (λ t. t.db.audits) i.written
        ∙ ap (λ n. update_first (is_audit n) (completed g.crawl_id) begun.db.audits) same_id in
      record {
        audit = completed g.crawl_id (started a);
        found = ap (find_first (is_audit audit_id)) audits ∙ found;
        freed = ap (λ t. suc (count_running_audits t a.org_id)) audits ∙ freed;
        ended = inl (
          length o.documents,
          refl,
          refl,
          i.counted ∙ ap (λ t. done t.db.counters) (sym i.written),
        );
      }

  found_begun :
      (o : AuditOutcome)
      → persist_audit g audit_id o begun
        ≡ persisted g o begun
            (started a)
            (find_first (λ t. t.id == (started a).site_id) begun.db.sites)
  found_begun o = persist_audit-found g audit_id o begun (started a) begun_found

  -- How storing the audit can end.
  pub by_persist :
      (o : AuditOutcome) (r : Ran Store)
      → persist_audit g audit_id o begun ≡ r
      → ((s' : Store) × (r ≡ done s') × IsEnded g a audit_id s (done (length o.documents), s'))
        ⊎ ((e : String) × (r ≡ raised e))
  by_persist o (done s') e = inl (
    s',
    refl,
    completes o s' (persisted-IsPersisted g o begun (started a) _ s' (sym (found_begun o) ∙ e)),
  )
  by_persist o (raised x) e = inr (x, refl)
  by_persist o cancelled e =
      absurd (persisted_ends g o begun (started a) _ (sym (found_begun o) ∙ e))

-- The audit that is there is the one whose task goes on.
pub started_task :
    (g : Given) (audit_id : ℕ) (run : Ran AuditOutcome) (cut : Cancellation) (s : Store) (a : Audit)
    → find_first (is_audit audit_id) s.db.audits ≡ some a
    → run_audit_task g audit_id run cut s ≡ finish g audit_id run cut (set_audit audit_id started s)
unfolding run_audit_task
started_task g audit_id run cut s a there =
    ap
      (λ f. elim f as (λ x. Ran ℕ × Store) [
        | none ↦ (raised "ValueError", s)
        | some b ↦ finish g audit_id run cut (set_audit audit_id started s)
      ])
      there
