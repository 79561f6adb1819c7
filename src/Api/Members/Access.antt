-- ===== src/Api/Members/Access.antt =====
-- What a change of memberships does to the session tokens that are out.
use geolytics.Prelude.{
  ℕ, String, ◌≡◌, refl, sym, ap, false, none, some, List, [], ◌∷◌, arith, eq_ℕ, any, not, eq_string,
  find_first, update_first, erase_first,
}
use geolytics.Prelude.Text.{Text}
use geolytics.Models.{Membership}
use geolytics.Security.Tokens.{TokenPayload, access, decode_token}
use geolytics.Tenancy.Principal.{Principal, role_scopes}
use geolytics.Api.Result.{ok, http, Db, or_refuse, refuse_if, first_step, ok-injective}
use geolytics.Api.Deps.{
  revoked_before, member_principal, is_membership, is_user, member_of_org, load_org, Outside,
  principal_from_jwt,
}
use geolytics.Api.Members.{change_member_role, remove_member}
use geolytics.Api.Members.Effects.{remove_member-Removed, change_member_role-Changed}

-- The unique constraint on user and organisation.
abbrev pub IsUnique : List Membership → Type 0
IsUnique [] = Unit
IsUnique (m ∷ ms) = (any (is_membership m.user_id m.org_id) ms ≡ false) × IsUnique ms

find-absent :
    (u o : ℕ) (ms : List Membership)
    → any (is_membership u o) ms ≡ false
    → find_first (is_membership u o) ms ≡ none
find-absent u o [] h = refl
find-absent u o (m ∷ ms) h = ground (arith, find-absent u o ms)

find-erased :
    (u o : ℕ) (ms : List Membership)
    → IsUnique ms
    → find_first (is_membership u o) (erase_first (is_membership u o) ms) ≡ none
find-erased u o [] h = refl
find-erased u o (m ∷ ms) h = ground (arith, find-erased u o ms h.1, find-absent u o ms)

-- A change of a role and a removal add no membership.
absent-update :
    (u o k l : ℕ) (role : String) (ms : List Membership)
    → find_first (is_membership u o) ms ≡ none
    → find_first
        (is_membership u o)
        (update_first (is_membership k l) (λ r. record r { role = role }) ms)
      ≡ none
absent-update u o k l role [] h = refl
absent-update u o k l role (m ∷ ms) h = ground (arith, absent-update u o k l role ms)

absent-erase :
    (u o k l : ℕ) (ms : List Membership)
    → find_first (is_membership u o) ms ≡ none
    → find_first (is_membership u o) (erase_first (is_membership k l) ms) ≡ none
absent-erase u o k l [] h = refl
absent-erase u o k l (m ∷ ms) h = ground (arith, absent-erase u o k l ms)

-- The databases that later changes of roles and removals, by whichever callers, lead to.
pub data Later (db : Db) : Db → Type 0 where
  now : Later db db
  demoted :
      {d e : Db}
      → Later db d
      → (k : ℕ) (role : String) (p : Principal) → change_member_role k role p d ≡ ok e
      → Later db e
  removed :
      {d e : Db} → Later db d → (k : ℕ) (p : Principal) → remove_member k p d ≡ ok e → Later db e

stays_absent :
    (u o : ℕ) {db d : Db}
    → Later db d
    → find_first (is_membership u o) db.memberships ≡ none
    → find_first (is_membership u o) d.memberships ≡ none
stays_absent u o now h = h
stays_absent u o (demoted {d = d} {e = e} run k role p done) h =
    let (m, _, written, _, _) = change_member_role-Changed k role p d e done in
    rw written (absent-update u o k p.org_id role d.memberships (stays_absent u o run h))
stays_absent u o (removed {d = d} {e = e} run k p done) h =
    let (m, _, written, _) = remove_member-Removed k p d e done in
    rw written (absent-erase u o k p.org_id d.memberships (stays_absent u o run h))

-- A session token of a user for an organisation of which the user is no member.
token_refused :
    (env : Outside) (token : Text) (claims : TokenPayload) (user_id org_id : ℕ) (db : Db)
    → decode_token env.jwt env.secret_key access env.now token ≡ some claims
    → claims.user_id ≡ some user_id
    → claims.org_id ≡ some org_id
    → find_first (is_membership user_id org_id) db.memberships ≡ none
    → principal_from_jwt env token db ≡ http 403
unfolding principal_from_jwt member_of_org
token_refused env token claims user_id org_id db decoded whose where_ absent =
    rw (decoded, whose, where_, absent) refl

-- A member who has been removed is refused with a 403 whatever access token is still out that names
-- the user and the organisation, given that a user has at most one membership in an organisation;
-- and so it stays through any later changes of roles and removals of members, by any callers.
pub remove_member-refuses :
    (user_id : ℕ) (p : Principal) (db db' d : Db) (env : Outside) (token : Text)
    (claims : TokenPayload)
    → IsUnique db.memberships
    → remove_member user_id p db ≡ ok db'
    → Later db' d
    → decode_token env.jwt env.secret_key access env.now token ≡ some claims
    → claims.user_id ≡ some user_id
    → claims.org_id ≡ some p.org_id
    → principal_from_jwt env token d ≡ http 403
remove_member-refuses user_id p db db' d env token claims unique h run decoded whose where_ =
    let (m, found, written, _) = remove_member-Removed user_id p db db' h in
    token_refused env token claims user_id p.org_id d decoded whose where_ (
      stays_absent user_id p.org_id run
        (rw written (find-erased user_id p.org_id db.memberships unique)))

find-changed :
    (u o : ℕ) (role : String) (ms : List Membership) (m : Membership)
    → find_first (is_membership u o) ms ≡ some m
    → find_first
        (is_membership u o)
        (update_first (is_membership u o) (λ r. record r { role = role }) ms)
      ≡ some (record m { role = role })
find-changed u o role [] m h = cc
find-changed u o role (x ∷ ms) m h = ground (arith, find-changed u o role ms m)

-- The caller that a membership stands for has its scopes.
member_of_org-scopes :
    (db : Db) (u o issued_at : ℕ) (m : Membership) (q : Principal)
    → find_first (is_membership u o) db.memberships ≡ some m
    → member_of_org db u o issued_at ≡ ok q
    → q.scopes ≡ role_scopes m.role
unfolding member_of_org member_principal
member_of_org-scopes db u o issued_at m q found h =
    let (owner, _, active) =
      first_step (or_refuse (find_first (is_user m.user_id) db.users) 403) _ q
        (rw (found, member_of_org) at h) in
    let (_, _, valid) = first_step (refuse_if (not owner.is_active) 401) _ q active in
    let (_, _, loaded) =
      first_step (refuse_if (revoked_before owner.tokens_valid_from issued_at) 401) _ q valid in
    let (org, _, last) = first_step (load_org db o) _ q loaded in
    ap (λ (r : Principal). r.scopes) (sym (ok-injective last))

-- A member whose role has changed and who is let in has the scopes of the new role from the next
-- request on, whatever session token it comes with.
pub change_member_role-applies :
    (user_id issued_at : ℕ) (role : String) (p q : Principal) (db db' : Db)
    → change_member_role user_id role p db ≡ ok db'
    → member_of_org db' user_id p.org_id issued_at ≡ ok q
    → q.scopes ≡ role_scopes role
change_member_role-applies user_id issued_at role p q db db' h i =
    let (m, found, written, _, _) = change_member_role-Changed user_id role p db db' h in
    member_of_org-scopes db' user_id p.org_id issued_at (record m { role = role }) q
      (rw written (find-changed user_id p.org_id role db.memberships m found)) i
