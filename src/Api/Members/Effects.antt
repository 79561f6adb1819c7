-- ===== src/Api/Members/Effects.antt =====
-- What each membership request that succeeds has checked and written.
use geolytics.Prelude.{
  ℕ, ◌≤◌, String, ◌≡◌, refl, Bool, true, false, ◌&&◌, some, List, [], ◌∷◌, ◌++◌, arith, ◌==◌, eq_ℕ,
  eq_string, leb, not, count_if, find_first, find_first-holds, update_first, erase_first, is_some,
  nat_eq_iff, ◌⊎◌, inl, inr,
}
use geolytics.Prelude.Text.{Text, text_eq, strip, lower}
use geolytics.Models.{Organization, User, Membership}
use geolytics.Models
use geolytics.Tenancy.Principal.{Principal, Kind, user, api_key}
use geolytics.Api.Result.{
  ok, refuse_if, when, or_refuse, Db, after-bind, refuse_if-ok, after-done, or_refuse-ok,
}
use geolytics.Api.Deps.{load_org, required_role, require_role, is_membership, role_in}
use geolytics.Api.Members.{
  plan_of, log_action, owners, refuse_if_last_owner, is_owner, new_membership, add_member, set_role,
  change_member_role, drop_membership, owner_removal, remove_member,
}

required_role-same :
    (roles : List String) (k : Kind) (p q : Principal)
    → required_role roles k p ≡ ok q
    → (q ≡ p) × (role_in roles p.role ≡ true)
unfolding required_role
required_role-same roles api_key p q h = cc
required_role-same roles user p q h = ground arith

pub require_role-same :
    (roles : List String) (p q : Principal)
    → require_role roles p ≡ ok q
    → (q ≡ p) × (role_in roles p.role ≡ true)
unfolding require_role
require_role-same roles p q h = required_role-same roles p.kind p q h

pub load_org-id : (db : Db) (id : ℕ) (o : Organization) → load_org db id ≡ ok o → o.id ≡ id
unfolding load_org
load_org-id db id =
    after-bind (λ (o : Organization). o.id ≡ id)
      (or_refuse (find_first (λ o. o.id == id) db.orgs) 401) _
      λ org found. after-bind _ (refuse_if (not (Models.is_active org)) 401) _ λ _ _.
        after-done _ org
          ((nat_eq_iff org.id id).0 (find_first-holds _ db.orgs org (or_refuse-ok _ _ org found)))

-- One new membership in the caller's organisation; an owner is added by an owner only.
abbrev pub Added : String → Principal → Db → Db → Type 0
Added role p db db' =
    (user_id : ℕ) × (db'.memberships
      ≡ db.memberships ++ record { user_id = user_id; org_id = p.org_id; role = role } ∷ [])
    × ((role == "owner" && not (is_owner p)) ≡ false)

pub add_member-Added :
    (email : Text) (role : String) (p : Principal) (db db' : Db)
    → add_member email role p db ≡ ok db'
    → Added role p db db'
unfolding add_member new_membership log_action
add_member-Added email role p db =
    after-bind (Added role p db) (load_org db p.org_id) _ λ org loaded.
      after-bind _ (require_role ("owner" ∷ "admin" ∷ []) p) _ λ caller allowed.
        after-bind _ (plan_of org) _ λ plan planned.
          after-bind _
            (refuse_if (leb plan.max_members (count_if (λ m. m.org_id == org.id) db.memberships))
              402)
            _
            λ _ room.
              after-bind _
                (or_refuse
                  (find_first (λ r. text_eq (lower r.email) (lower (strip email))) db.users) 404)
                _
                λ u found.
                  after-bind _
                    (refuse_if (is_some (find_first (is_membership u.id org.id) db.memberships))
                      409)
                    _
                    λ _ absent.
                      after-bind _ (refuse_if (role == "owner" && not (is_owner caller)) 403) _
                        λ _ granted. after-done _ _ (
                          u.id,
                          rw (load_org-id db p.org_id org loaded) refl,
                          rw (← (require_role-same _ p caller allowed).0)
                              (refuse_if-ok _ 403 _ granted),
                        )

abbrev pub demotes : String → Membership → Bool
demotes role m = m.role == "owner" && not (role == "owner")

-- An owner gives one membership of the own organisation its new role; if it was an owner's and the
-- new role is another, then not the last one's.
abbrev pub Changed : ℕ → String → Principal → Db → Db → Type 0
Changed user_id role p db db' =
    (m : Membership) × (find_first (is_membership user_id p.org_id) db.memberships ≡ some m)
    × (db'.memberships
        ≡ update_first (is_membership user_id p.org_id) (λ r. record r { role = role })
            db.memberships)
    × (is_owner p ≡ true)
    × ((demotes role m ≡ false) ⊎ (2 ≤ owners p.org_id db.memberships))

two_of : (n : ℕ) → leb n 1 ≡ false → 2 ≤ n
two_of n h = ground arith

refuse_if_last_owner-ok :
    (org_id : ℕ) (ms : List Membership) (u : Unit {0})
    → refuse_if_last_owner org_id ms ≡ ok u
    → 2 ≤ owners org_id ms
unfolding refuse_if_last_owner
refuse_if_last_owner-ok org_id ms u h =
    two_of (owners org_id ms) (refuse_if-ok (leb (owners org_id ms) 1) 409 u h)

two_owners :
    (b : Bool) (org_id : ℕ) (ms : List Membership) (u : Unit {0})
    → when b (refuse_if_last_owner org_id ms) ≡ ok u
    → (b ≡ false) ⊎ (2 ≤ owners org_id ms)
two_owners true org_id ms u h = inr (refuse_if_last_owner-ok org_id ms u h)
two_owners false org_id ms u h = inl refl

pub change_member_role-Changed :
    (user_id : ℕ) (role : String) (p : Principal) (db db' : Db)
    → change_member_role user_id role p db ≡ ok db'
    → Changed user_id role p db db'
unfolding change_member_role set_role log_action
change_member_role-Changed user_id role p db =
    after-bind (Changed user_id role p db) (require_role ("owner" ∷ []) p) _ λ caller allowed.
      let (same, owner) = require_role-same ("owner" ∷ []) p caller allowed in
      after-bind _ (or_refuse (find_first (is_membership user_id caller.org_id) db.memberships) 404)
        _
        λ m found.
          after-bind _
            (when (m.role == "owner" && not (role == "owner"))
              (refuse_if_last_owner caller.org_id db.memberships))
            _
            λ u checked. after-done _ _ (
              m,
              rw (← same) (or_refuse-ok _ 404 m found),
              rw same refl,
              owner,
              rw (← same) (
                  two_owners (m.role == "owner" && not (role == "owner")) caller.org_id
                    db.memberships u checked),
            )

-- One membership of the caller's organisation is gone. An owner's is removed by an owner only, and
-- never the last one's.
abbrev pub Removed : ℕ → Principal → Db → Db → Type 0
Removed user_id p db db' =
    (m : Membership) × (find_first (is_membership user_id p.org_id) db.memberships ≡ some m)
    × (db'.memberships ≡ erase_first (is_membership user_id p.org_id) db.memberships)
    × (((m.role == "owner") ≡ false) ⊎ ((is_owner p ≡ true) × (2 ≤ owners p.org_id db.memberships)))

not-false : (b : Bool) → not b ≡ false → b ≡ true
not-false true h = refl
not-false false h = cc

owner_removal-ok :
    (p : Principal) (db : Db) (u : Unit {0})
    → owner_removal p db ≡ ok u
    → (is_owner p ≡ true) × (2 ≤ owners p.org_id db.memberships)
unfolding owner_removal
owner_removal-ok p db = after-bind _ (refuse_if (not (is_owner p)) 403) _ λ _ owner u last. (
  not-false (is_owner p) (refuse_if-ok _ 403 _ owner),
  refuse_if_last_owner-ok p.org_id db.memberships u last,
)

owner_checked :
    (b : Bool) (p : Principal) (db : Db) (u : Unit {0})
    → when b (owner_removal p db) ≡ ok u
    → (b ≡ false) ⊎ ((is_owner p ≡ true) × (2 ≤ owners p.org_id db.memberships))
owner_checked true p db u h = inr (owner_removal-ok p db u h)
owner_checked false p db u h = inl refl

pub remove_member-Removed :
    (user_id : ℕ) (p : Principal) (db db' : Db)
    → remove_member user_id p db ≡ ok db'
    → Removed user_id p db db'
unfolding remove_member drop_membership log_action
remove_member-Removed user_id p db =
    after-bind (Removed user_id p db) (require_role ("owner" ∷ "admin" ∷ []) p) _ λ caller allowed.
      let (same, _) = require_role-same ("owner" ∷ "admin" ∷ []) p caller allowed in
      after-bind _ (or_refuse (find_first (is_membership user_id caller.org_id) db.memberships) 404)
        _
        λ m found. after-bind _ (when (m.role == "owner") (owner_removal caller db)) _ λ u checked.
          after-done _ _ (
            m,
            rw (← same) (or_refuse-ok _ 404 m found),
            rw same refl,
            rw (← same) (owner_checked (m.role == "owner") caller db u checked),
          )
