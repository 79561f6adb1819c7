-- ===== src/Tasks.antt =====
-- The worker's task: an audit is run and stored (`run_audit_task` of backend/geolytics/tasks/queue.py,
-- `persist_audit` and `mark_audit_failed` of backend/geolytics/pipeline.py). What running an audit
-- yields, the clock and the ids of new rows are arguments.
pub mod Outcomes
pub mod Ends
pub mod Stuck
use geolytics.Prelude.{
  ℕ, suc, ◌+◌, pos, String, Bool, true, false, ◌&&◌, ◌||◌, Option, none, some, List, [], ◌∷◌, ◌++◌,
  if◌then◌else◌, ◌==◌, eq_ℕ, eq_string, length, any, find_first, update_first, is_some,
}
use geolytics.Chunking.Base.{Document}
use geolytics.Tenancy.Quotas
use geolytics.Tenancy.Quotas.{UsageCounter, Audit, Site, Rivals, Key, pages_crawled, record_usage}

pub record Crawl : Type 0 where
  pub id : ℕ
  pub org_id : ℕ
  pub site_id : ℕ
  pub status : String
  pub pages_fetched : ℕ

pub record Page : Type 0 where
  pub id : ℕ
  pub crawl_id : ℕ
  pub doc_id : String
  pub url : String

pub record PageScore : Type 0 where
  pub audit_id : ℕ
  pub page_id : ℕ

pub record Store : Type 0 where
  pub db : Quotas.Db
  pub crawls : List Crawl
  pub pages : List Page
  pub page_scores : List PageScore

-- What running an audit produced: the documents, and the documents that have a score. The numbers and
-- texts that are stored as they are are left out.
pub record AuditOutcome : Type 0 where
  pub documents : List Document
  pub scored : List String

-- How a call ends: `cancelled` is the `CancelledError` by which the queue ends a job that takes too
-- long; it is not an `Exception`.
pub data Ran (A : Type 0) : Type 0 where
  done : A → Ran A
  raised : String → Ran A
  cancelled : Ran A

-- What the database gives the rows of one audit, and what it is told of the time.
pub record Given : Type 0 where
  pub crawl_id : ℕ
  pub first_page_id : ℕ
  pub period : String
  pub rivals : Rivals

abbrev pub is_audit : ℕ → Audit → Bool
is_audit id a = a.id == id

unfoldable pub set_audit : ℕ → (Audit → Audit) → Store → Store
set_audit id f s = record s {
  db = record s.db { audits = update_first (is_audit id) f s.db.audits };
}

unfoldable pub pages_of : ℕ → ℕ → List Document → List Page
pages_of crawl_id id [] = []
pages_of crawl_id id (d ∷ documents) =
    record { id = id; crawl_id = crawl_id; doc_id = d.doc_id; url = d.url }
    ∷ pages_of crawl_id (suc id) documents

-- `pages_by_doc.get(doc_id)`: the last page of a document wins.
unfoldable pub page_of : String → List Page → Option Page
page_of doc_id [] = none
page_of doc_id (p ∷ pages) =
    let later = page_of doc_id pages in
    elim later [ some q ↦ some q | none ↦ if p.doc_id == doc_id then some p else none ]

unfoldable pub scores_of : ℕ → List Page → List String → List PageScore
unfolding page_of
scores_of audit_id pages [] = []
scores_of audit_id pages (doc_id ∷ scored) =
    let rest = scores_of audit_id pages scored in
    elim (page_of doc_id pages) [
      | none ↦ rest
      | some p ↦ record { audit_id = audit_id; page_id = p.id } ∷ rest
    ]

-- The unique constraints on pages and on scores.
unfoldable pub repeats_url : List Page → Bool
repeats_url [] = false
repeats_url (p ∷ pages) = any (λ q. q.url == p.url) pages || repeats_url pages

unfoldable pub repeats_page : List PageScore → Bool
repeats_page [] = false
repeats_page (s ∷ scores) = any (λ t. t.page_id == s.page_id) scores || repeats_page scores

abbrev pub completed : ℕ → Audit → Audit
completed crawl_id a = record a { crawl_id = some crawl_id; status = "complete" }

abbrev pub pages_key : ℕ → String → Key
pages_key org_id period = record { org_id = org_id; period = period; metric = pages_crawled }

-- The documents are metered, if there are any.
unfoldable pub metered : Given → ℕ → ℕ → List UsageCounter → Ran (List UsageCounter)
metered g org_id n counters =
    if n == 0
    then done counters
    else (let (total, counters') =
          record_usage g.rivals (pages_key org_id g.period) (pos n) counters in
        elim total [ Quotas.err e ↦ raised "usage" | Quotas.ok t ↦ done counters' ])

unfoldable pub stored : Given → Audit → Site → AuditOutcome → Store → List UsageCounter → Store
stored g a site o s counters =
    let pages = pages_of g.crawl_id g.first_page_id o.documents in
    record {
      db = record s.db {
        audits = update_first (is_audit a.id) (completed g.crawl_id) s.db.audits;
        counters = counters;
      };
      crawls =
          record {
            id = g.crawl_id;
            org_id = a.org_id;
            site_id = site.id;
            status = "complete";
            pages_fetched = length o.documents;
          }
          ∷ s.crawls;
      pages = pages ++ s.pages;
      page_scores = scores_of a.id pages o.scored ++ s.page_scores;
    }

unfoldable pub stored_metered :
    Given → Audit → Site → AuditOutcome → Store → Ran (List UsageCounter) → Ran Store
stored_metered g a site o s (raised e) = raised e
stored_metered g a site o s cancelled = cancelled
stored_metered g a site o s (done counters) = done (stored g a site o s counters)

unfoldable pub persisted : Given → AuditOutcome → Store → Audit → Option Site → Ran Store
unfolding stored stored_metered
persisted g o s a none = raised "ValueError"
persisted g o s a (some site) =
    let pages = pages_of g.crawl_id g.first_page_id o.documents in
    if repeats_url pages || repeats_page (scores_of a.id pages o.scored)
    then raised "IntegrityError"
    else stored_metered g a site o s (metered g a.org_id (length o.documents) s.db.counters)

-- `persist_audit`: one transaction, of which nothing stays where it raises.
unfoldable pub persist_audit : Given → ℕ → AuditOutcome → Store → Ran Store
unfolding persisted
persist_audit g audit_id o s = elim (find_first (is_audit audit_id) s.db.audits) [
  | none ↦ raised "ValueError"
  | some a ↦ persisted g o s a (find_first (λ t. t.id == a.site_id) s.db.sites)
]

abbrev pub failed : String → Audit → Audit
failed error a = record a { status = "failed"; error = some error }

-- `mark_audit_failed`: an audit that is gone is left alone.
unfoldable pub mark_audit_failed : ℕ → String → Store → Store
mark_audit_failed audit_id error = set_audit audit_id (failed error)

abbrev pub started : Audit → Audit
started a = record a { status = "running" }

-- While what a `CancelledError` reaches the task, once the audit has been run: the thread that is
-- awaited goes on to its end.
pub data Cancellation : Type 0 where
  uncancelled : Cancellation
  during_persist : Cancellation
  during_mark : Cancellation

-- How the task ends whose audit is marked as failed.
unfoldable pub reported : Cancellation → String → Ran ℕ
reported uncancelled e = raised e
reported during_persist e = raised e
reported during_mark e = cancelled

-- The rest of the task, with the audit marked as running.
after_persist : ℕ → AuditOutcome → Cancellation → Store → Ran Store → Ran ℕ × Store
unfolding reported
after_persist audit_id o cut s (done s') = (done (length o.documents), s')
after_persist audit_id o cut s (raised e) = (reported cut e, mark_audit_failed audit_id e s)
after_persist audit_id o cut s cancelled = (cancelled, s)

-- What storing the audit does is kept, and what it raises is not seen.
interrupted : Store → Ran Store → Ran ℕ × Store
interrupted s (done s') = (cancelled, s')
interrupted s (raised e) = (cancelled, s)
interrupted s cancelled = (cancelled, s)

unfoldable pub finish : Given → ℕ → Ran AuditOutcome → Cancellation → Store → Ran ℕ × Store
unfolding reported after_persist interrupted
finish g audit_id (done o) uncancelled s =
    after_persist audit_id o uncancelled s (persist_audit g audit_id o s)
finish g audit_id (done o) during_persist s = interrupted s (persist_audit g audit_id o s)
finish g audit_id (done o) during_mark s =
    after_persist audit_id o during_mark s (persist_audit g audit_id o s)
finish g audit_id (raised e) cut s = (reported cut e, mark_audit_failed audit_id e s)
finish g audit_id cancelled cut s = (cancelled, s)

-- `run_audit_task`: how it ends, with the number of pages, and what it leaves. The site of an audit is
-- a foreign key, so reading it does not fail.
unfoldable pub run_audit_task : Given → ℕ → Ran AuditOutcome → Cancellation → Store → Ran ℕ × Store
unfolding finish
run_audit_task g audit_id run cut s = elim (find_first (is_audit audit_id) s.db.audits) [
  | none ↦ (raised "ValueError", s)
  | some a ↦ finish g audit_id run cut (set_audit audit_id started s)
]
