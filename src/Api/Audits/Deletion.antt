-- ===== src/Api/Audits/Deletion.antt =====
-- What deleting an audit leaves alone (backend/geolytics/api/routes/audits.py).
use geolytics.Prelude.{
  ℕ, ◌+◌, ◌≡◌, ◌≢◌, refl, sym, Bool, true, false, [], ◌∷◌, ◌&&◌, ◌||◌, if◌then◌else◌, ◌==◌, eq_ℕ,
  eq_string, find_first, find_first-holds, count_if-erase_first, ==→eq, arith,
}
use geolytics.Tenancy.Principal.{Principal}
use geolytics.Tenancy.Quotas
use geolytics.Tenancy.Quotas.{Audit, count_running_audits}
use geolytics.Api.Result.{ok, or_refuse, or_refuse-ok, first_step, ok-injective}
use geolytics.Api.Deps.{require_scope}
use geolytics.Api.Audits.{is_own, delete_audit}

own_org : (audit_id org_id : ℕ) (a : Audit) → is_own audit_id org_id a ≡ true → a.org_id ≡ org_id
own_org audit_id org_id a h = ==→eq a.org_id org_id (second_holds _ _ h)
  where
    second_holds : (b c : Bool) → b && c ≡ true → c ≡ true
    second_holds b c h = ground arith

-- An audit is deleted by its own organisation: what other organisations have running stays, and no
-- usage that has been counted is given back.
pub delete_audit-others :
    (audit_id : ℕ) (principal : Principal) (db db' : Quotas.Db) (other : ℕ)
    → delete_audit audit_id principal db ≡ ok db'
    → principal.org_id ≢ other
    → (count_running_audits db'.audits other ≡ count_running_audits db.audits other)
      × (db'.counters ≡ db.counters)
unfolding delete_audit count_running_audits
delete_audit-others audit_id principal db db' other h apart =
    let (_, _, h1) = first_step (require_scope ("audits:write" ∷ []) principal) _ db' h in
    let (a, found, h2) =
      first_step (or_refuse (find_first (is_own audit_id principal.org_id) db.audits) 404) _ db'
        h1 in
    let there =
      or_refuse-ok (find_first (is_own audit_id principal.org_id) db.audits) 404 a found in
    let own =
      own_org audit_id principal.org_id a
        (find_first-holds (is_own audit_id principal.org_id) db.audits a there) in
    rw (sym (ok-injective h2)) (
      unchanged _ _ _ (not_of a own) (
          count_if-erase_first (is_own audit_id principal.org_id) (λ b. runs_for other b) db.audits
            a there),
      refl,
    )
  where
    runs_for : ℕ → Audit → Bool
    runs_for k b = b.org_id == k && (b.status == "pending" || b.status == "running")

    unchanged : (b : Bool) (m n : ℕ) → b ≡ false → m + (if b then 1 else 0) ≡ n → m ≡ n
    unchanged b m n e h = ground (arith, e, h)

    other_org : (k m n : ℕ) (t : Bool) → k ≡ m → m ≢ n → k == n && t ≡ false
    other_org k m n t e h = ground (arith, e, h)

    not_of : (a : Audit) → a.org_id ≡ principal.org_id → runs_for other a ≡ false
    not_of a own = other_org a.org_id principal.org_id other _ own apart
