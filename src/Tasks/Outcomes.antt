-- ===== src/Tasks/Outcomes.antt =====
-- How the worker's task leaves an audit (backend/geolytics/tasks/queue.py).
use geolytics.Prelude.{
  ℕ, ◌+◌, pos, ◌≡◌, ◌≢◌, inl, inr, refl, sym, ap, ◌∙◌, String, Bool, ◌&&◌, ◌||◌, Option, none, some,
  List, if◌then◌else◌, ◌==◌, eq_ℕ, eq_string, length, find_first, update_first, Bool-cases, if_true,
  if_false, find_first-update_first, find_first-holds, count_if-update_first,
}
use geolytics.Tenancy.Quotas
use geolytics.Tenancy.Quotas.{UsageCounter, Audit, Site, count_running_audits, record_usage}
use geolytics.Tasks.{
  Store, AuditOutcome, Ran, done, raised, cancelled, Given, is_audit, pages_of, scores_of,
  repeats_url, repeats_page, pages_key, metered, stored, stored_metered, persisted, persist_audit,
}

abbrev pub is_running : Audit → Bool
is_running a = a.status == "pending" || a.status == "running"

abbrev pub runs_in : ℕ → Audit → Bool
runs_in org_id a = a.org_id == org_id && is_running a

abbrev pub one_if : Bool → ℕ
one_if b = if b then 1 else 0

-- A store in which an audit is the first of its id.
abbrev pub Holds : ℕ → Store → Audit → Type 0
Holds id s a = find_first (is_audit id) s.db.audits ≡ some a

-- One audit is changed, and the running ones are counted again.
pub updated :
    (id : ℕ) (f : Audit → Audit) (audits : List Audit) (a : Audit) (org_id : ℕ)
    → find_first (is_audit id) audits ≡ some a
    → ((b : Audit) → (f b).id ≡ b.id)
    → (find_first (is_audit id) (update_first (is_audit id) f audits) ≡ some (f a))
      × (count_running_audits (update_first (is_audit id) f audits) org_id
            + one_if (runs_in org_id a)
          ≡ count_running_audits audits org_id + one_if (runs_in org_id (f a)))
unfolding count_running_audits
updated id f audits a org_id h keeps = (
  find_first-update_first (is_audit id) f audits a h
      (ap (λ i. i == id) (keeps a) ∙ find_first-holds (is_audit id) audits a h),
  count_if-update_first (is_audit id) (runs_in org_id) f audits a h,
)

done-injective : {A : Type 0} {a b : A} → done a ≡ done b → a ≡ b
done-injective h = cc

-- What persisting an audit wrote, if it succeeded.
pub record IsPersisted (g : Given) (o : AuditOutcome) (s : Store) (a : Audit) (s' : Store)
    : Type 0 where
  pub site : Site
  pub counters : List UsageCounter
  pub counted : metered g a.org_id (length o.documents) s.db.counters ≡ done counters
  pub written : s' ≡ stored g a site o s counters

stored_metered-IsPersisted :
    (g : Given) (a : Audit) (site : Site) (o : AuditOutcome) (s s' : Store)
    (m : Ran (List UsageCounter))
    → metered g a.org_id (length o.documents) s.db.counters ≡ m
    → stored_metered g a site o s m ≡ done s'
    → IsPersisted g o s a s'
unfolding stored_metered
stored_metered-IsPersisted g a site o s s' (done counters) e h = record {
  site = site;
  counters = counters;
  counted = e;
  written = sym (done-injective h);
}
stored_metered-IsPersisted g a site o s s' (raised x) e h = cc
stored_metered-IsPersisted g a site o s s' cancelled e h = cc

pub persisted-IsPersisted :
    (g : Given) (o : AuditOutcome) (s : Store) (a : Audit) (site : Option Site) (s' : Store)
    → persisted g o s a site ≡ done s'
    → IsPersisted g o s a s'
unfolding persisted
persisted-IsPersisted g o s a none s' h = cc
persisted-IsPersisted g o s a (some site) s' h =
    let pages = pages_of g.crawl_id g.first_page_id o.documents in
    elim (Bool-cases (repeats_url pages || repeats_page (scores_of a.id pages o.scored))) [
      | inl e ↦ absurd (raised_done (sym (if_true _ _ _ e) ∙ h))
      | inr e ↦ stored_metered-IsPersisted g a site o s s' _ refl (sym (if_false _ _ _ e) ∙ h)
    ]
  where
    raised_done : {x : String} {t : Store} → raised x ≡ done t → ⊥
    raised_done h = cc

pub persist_audit-found :
    (g : Given) (audit_id : ℕ) (o : AuditOutcome) (s : Store) (a : Audit)
    → Holds audit_id s a
    → persist_audit g audit_id o s
      ≡ persisted g o s a (find_first (λ t. t.id == a.site_id) s.db.sites)
unfolding persist_audit
persist_audit-found g audit_id o s a h =
    ap
      (λ f. elim f as (λ x. Ran Store) [
        | none ↦ raised "ValueError"
        | some b ↦ persisted g o s b (find_first (λ t. t.id == b.site_id) s.db.sites)
      ])
      h

metered_ends :
    (g : Given) (org_id n : ℕ) (counters : List UsageCounter)
    → metered g org_id n counters ≢ cancelled
unfolding metered
metered_ends g org_id n counters h = elim (Bool-cases (n == 0)) [
  | inl e ↦ not_cancelled (sym (if_true _ _ _ e) ∙ h)
  | inr e ↦
      by_result (record_usage g.rivals (pages_key org_id g.period) (pos n) counters)
        (sym (if_false _ _ _ e) ∙ h)
]
  where
    not_cancelled : {c : List UsageCounter} → done c ≡ cancelled → ⊥
    not_cancelled e = cc

    by_result :
        (r : Quotas.Result ℕ × List UsageCounter)
        → elim r.0 as (λ x. Ran (List UsageCounter)) [
          | Quotas.err e ↦ raised "usage"
          | Quotas.ok t ↦ done r.1
        ]
          ≡ cancelled
        → ⊥
    by_result (Quotas.err e, c) i = cc
    by_result (Quotas.ok t, c) i = cc

pub persisted_ends :
    (g : Given) (o : AuditOutcome) (s : Store) (a : Audit) (site : Option Site)
    → persisted g o s a site ≢ cancelled
unfolding persisted stored_metered
persisted_ends g o s a none h = cc
persisted_ends g o s a (some site) h =
    let pages = pages_of g.crawl_id g.first_page_id o.documents in
    elim (Bool-cases (repeats_url pages || repeats_page (scores_of a.id pages o.scored))) [
      | inl e ↦ raised_cancelled (sym (if_true _ _ _ e) ∙ h)
      | inr e ↦
          by_metered (metered g a.org_id (length o.documents) s.db.counters)
            (metered_ends g a.org_id (length o.documents) s.db.counters)
            (sym (if_false _ _ _ e) ∙ h)
    ]
  where
    raised_cancelled : {x : String} → ◌≡◌ {A = Ran Store} (raised x) cancelled → ⊥
    raised_cancelled h = cc

    by_metered :
        (m : Ran (List UsageCounter))
        → m ≢ cancelled
        → stored_metered g a site o s m ≡ cancelled
        → ⊥
    by_metered (done c) n h = cc
    by_metered (raised x) n h = cc
    by_metered cancelled n h = n refl
