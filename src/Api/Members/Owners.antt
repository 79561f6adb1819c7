-- ===== src/Api/Members/Owners.antt =====
-- Ownership over any run of membership requests, and the wall between organisations.
use geolytics.Prelude.{
  ℕ, ◌+◌, ◌≤◌, String, ◌≡◌, ◌≢◌, ◌⊎◌, refl, Bool, true, false, ◌&&◌, not, some, List, [], ◌∷◌, ◌++◌,
  arith, if◌then◌else◌, ◌==◌, eq_ℕ, eq_string, count_if, keep, find_first, find_first-holds,
  update_first, erase_first, count_if-update_first, count_if-erase_first,
}
use native.Mathlib.Nat.{le_trans}
use geolytics.Models.{Membership}
use geolytics.Tenancy.Principal.{Principal}
use geolytics.Api.Result.{ok, Db}
use geolytics.Api.Deps.{is_membership}
use geolytics.Api.Members.{Request, add, change, remove, handle, is_owner_of, owners, is_owner}
use geolytics.Api.Members.Effects.{
  Added, Changed, Removed, demotes, add_member-Added, change_member_role-Changed,
  remove_member-Removed,
}

count_if-snoc :
    (q : Membership → Bool) (ms : List Membership) (m : Membership)
    → count_if q (ms ++ m ∷ []) ≡ count_if q ms + (if q m then 1 else 0)
count_if-snoc q [] m = ground arith
count_if-snoc q (x ∷ ms) m = ground (arith, count_if-snoc q ms m)

-- The membership that a request finds is one of the caller's organisation.
found_org :
    (user_id org_id : ℕ) (ms : List Membership) (m : Membership)
    → find_first (is_membership user_id org_id) ms ≡ some m
    → m.org_id ≡ org_id
found_org user_id org_id ms m h =
    ground (arith, find_first-holds (is_membership user_id org_id) ms m h)

owners-Added :
    (k : ℕ) (role : String) (p : Principal) (db db' : Db)
    → Added role p db db'
    → owners k db.memberships ≤ owners k db'.memberships
owners-Added k role p db db' (u, written, _) = rw written (
    omega (
      arith,
      count_if-snoc (is_owner_of k) db.memberships
          (record { user_id = u; org_id = p.org_id; role = role }),
    ))

change_count :
    (k user_id : ℕ) (role : String) (org_id : ℕ) (ms : List Membership) (m : Membership)
    → find_first (is_membership user_id org_id) ms ≡ some m
    → (demotes role m ≡ false) ⊎ (2 ≤ owners org_id ms)
    → 1 ≤ owners k ms
    → 1 ≤ owners k (update_first (is_membership user_id org_id) (λ r. record r { role = role }) ms)
change_count k user_id role org_id ms m found guarded h = ground (
  arith,
  found_org user_id org_id ms m found,
  count_if-update_first (is_membership user_id org_id) (is_owner_of k)
      (λ (r : Membership). record r { role = role }) ms m found,
)

remove_count :
    (k user_id org_id : ℕ) (ms : List Membership) (m : Membership) (owner : Bool)
    → find_first (is_membership user_id org_id) ms ≡ some m
    → ((m.role == "owner") ≡ false) ⊎ ((owner ≡ true) × (2 ≤ owners org_id ms))
    → 1 ≤ owners k ms
    → 1 ≤ owners k (erase_first (is_membership user_id org_id) ms)
remove_count k user_id org_id ms m owner found guarded h = ground (
  arith,
  found_org user_id org_id ms m found,
  count_if-erase_first (is_membership user_id org_id) (is_owner_of k) ms m found,
)

owners-Changed :
    (k user_id : ℕ) (role : String) (p : Principal) (db db' : Db)
    → Changed user_id role p db db'
    → 1 ≤ owners k db.memberships
    → 1 ≤ owners k db'.memberships
owners-Changed k user_id role p db db' (m, found, written, _, guarded) h =
    rw written (change_count k user_id role p.org_id db.memberships m found guarded h)

owners-Removed :
    (k user_id : ℕ) (p : Principal) (db db' : Db)
    → Removed user_id p db db'
    → 1 ≤ owners k db.memberships
    → 1 ≤ owners k db'.memberships
owners-Removed k user_id p db db' (m, found, written, guarded) h =
    rw written (remove_count k user_id p.org_id db.memberships m (is_owner p) found guarded h)

-- No request leaves an organisation without an owner that had one.
pub handle-owners :
    (k : ℕ) (r : Request) (p : Principal) (db db' : Db)
    → handle r p db ≡ ok db'
    → 1 ≤ owners k db.memberships
    → 1 ≤ owners k db'.memberships
unfolding handle
handle-owners k (add email role) p db db' h has =
    le_trans has (owners-Added k role p db db' (add_member-Added email role p db db' h))
handle-owners k (change user_id role) p db db' h has =
    owners-Changed k user_id role p db db' (change_member_role-Changed user_id role p db db' h) has
handle-owners k (remove user_id) p db db' h has =
    owners-Removed k user_id p db db' (remove_member-Removed user_id p db db' h) has

-- The databases that successful requests, by whichever callers, lead to.
pub data Reach (db : Db) : Db → Type 0 where
  here : Reach db db
  next : {d e : Db} → Reach db d → (r : Request) (p : Principal) → handle r p d ≡ ok e → Reach db e

-- An organisation that has an owner has one after any number of membership requests, so that it can
-- always be administered.
pub Reach-owners :
    (k : ℕ) {db d : Db} → Reach db d → 1 ≤ owners k db.memberships → 1 ≤ owners k d.memberships
Reach-owners k here has = has
Reach-owners k (next {d = d} {e = e} run r p h) has =
    handle-owners k r p d e h (Reach-owners k run has)

plain_added :
    (k user_id : ℕ) (role : String) (org_id : ℕ) (ms : List Membership) (owner : Bool)
    → owner ≡ false
    → (role == "owner" && not owner) ≡ false
    → owners k (ms ++ record { user_id = user_id; org_id = org_id; role = role } ∷ []) ≡ owners k ms
plain_added k user_id role org_id ms owner no_owner granted = ground (
  arith,
  count_if-snoc (is_owner_of k) ms (record { user_id = user_id; org_id = org_id; role = role }),
)

plain_removed :
    (k user_id org_id : ℕ) (ms : List Membership) (m : Membership) (owner : Bool)
    → find_first (is_membership user_id org_id) ms ≡ some m
    → owner ≡ false
    → ((m.role == "owner") ≡ false) ⊎ ((owner ≡ true) × (2 ≤ owners org_id ms))
    → owners k (erase_first (is_membership user_id org_id) ms) ≡ owners k ms
plain_removed k user_id org_id ms m owner found no_owner guarded =
    ground (arith, count_if-erase_first (is_membership user_id org_id) (is_owner_of k) ms m found)

-- A caller who is no owner neither makes nor removes an owner, in any organisation.
pub handle-not_owner :
    (k : ℕ) (r : Request) (p : Principal) (db db' : Db)
    → handle r p db ≡ ok db'
    → is_owner p ≡ false
    → owners k db'.memberships ≡ owners k db.memberships
unfolding handle
handle-not_owner k (add email role) p db db' h no_owner =
    let (u, written, granted) = add_member-Added email role p db db' h in
    rw written (plain_added k u role p.org_id db.memberships (is_owner p) no_owner granted)
handle-not_owner k (change user_id role) p db db' h no_owner =
    let (m, _, _, owner, _) = change_member_role-Changed user_id role p db db' h in cc
handle-not_owner k (remove user_id) p db db' h no_owner =
    let (m, found, written, guarded) = remove_member-Removed user_id p db db' h in
    rw written
      (plain_removed k user_id p.org_id db.memberships m (is_owner p) found no_owner guarded)

-- The memberships of one organisation.
abbrev pub of_org : ℕ → List Membership → List Membership
of_org k ms = keep (λ m. m.org_id == k) ms

of_org-snoc :
    (k : ℕ) (ms : List Membership) (m : Membership)
    → m.org_id ≢ k
    → of_org k (ms ++ m ∷ []) ≡ of_org k ms
of_org-snoc k [] m ne = ground arith
of_org-snoc k (x ∷ ms) m ne = ground (arith, of_org-snoc k ms m ne)

of_org-update :
    (k user_id : ℕ) (role : String) (org_id : ℕ) (ms : List Membership)
    → org_id ≢ k
    → of_org k (update_first (is_membership user_id org_id) (λ r. record r { role = role }) ms)
      ≡ of_org k ms
of_org-update k user_id role org_id [] ne = refl
of_org-update k user_id role org_id (x ∷ ms) ne =
    ground (arith, of_org-update k user_id role org_id ms ne)

of_org-erase :
    (k user_id org_id : ℕ) (ms : List Membership)
    → org_id ≢ k
    → of_org k (erase_first (is_membership user_id org_id) ms) ≡ of_org k ms
of_org-erase k user_id org_id [] ne = refl
of_org-erase k user_id org_id (x ∷ ms) ne = ground (arith, of_org-erase k user_id org_id ms ne)

-- A membership request changes no membership of another organisation than its caller's.
pub handle-of_org :
    (k : ℕ) (r : Request) (p : Principal) (db db' : Db)
    → handle r p db ≡ ok db'
    → p.org_id ≢ k
    → of_org k db'.memberships ≡ of_org k db.memberships
unfolding handle
handle-of_org k (add email role) p db db' h ne =
    let (u, written, _) = add_member-Added email role p db db' h in
    rw written (of_org-snoc k db.memberships _ ne)
handle-of_org k (change user_id role) p db db' h ne =
    let (_, _, written, _, _) = change_member_role-Changed user_id role p db db' h in
    rw written (of_org-update k user_id role p.org_id db.memberships ne)
handle-of_org k (remove user_id) p db db' h ne =
    let (_, _, written, _) = remove_member-Removed user_id p db db' h in
    rw written (of_org-erase k user_id p.org_id db.memberships ne)
