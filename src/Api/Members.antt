-- ===== src/Api/Members.antt =====
-- The membership endpoints (backend/geolytics/api/routes/orgs.py).
pub mod Effects
pub mod Owners
pub mod Access
use geolytics.Prelude.{
  ℕ, String, Bool, ◌&&◌, some, List, [], ◌∷◌, ◌++◌, ◌==◌, eq_ℕ, eq_string, leb, not, count_if,
  find_first, update_first, erase_first, is_some,
}
use geolytics.Prelude.Text.{Text, text_eq, strip, lower}
use geolytics.Models.{Organization, Membership}
use geolytics.Tenancy.Plans
use geolytics.Tenancy.Plans.{Plan}
use geolytics.Tenancy.Plans.Catalogue.{get_plan}
use geolytics.Tenancy.Principal.{Principal}
use geolytics.Api.Result.{
  Result, ok, http, ◌>>=◌, ◌>>◌, refuse_if, when, or_refuse, Db, audit_actor,
}
use geolytics.Api.Deps.{load_org, require_role, is_membership, role_in}

-- `get_plan(org.plan, org.limit_overrides)`; its `TypeError` is a 500.
plan_result : Plans.Result Plan → Result Plan
plan_result (Plans.ok p) = ok p
plan_result (Plans.err e) = http 500

unfoldable pub plan_of : Organization → Result Plan
unfolding plan_result
plan_of org = plan_result (get_plan (some org.plan) org.limit_overrides)

-- `_log`.
unfoldable pub log_action : String → ℕ → Principal → Db → Db
log_action action org_id p db = record db {
  log = record { org_id = org_id; action = action; actor = audit_actor p } ∷ db.log;
}

abbrev pub is_owner_of : ℕ → Membership → Bool
is_owner_of org_id m = m.org_id == org_id && m.role == "owner"

abbrev pub owners : ℕ → List Membership → ℕ
owners org_id ms = count_if (is_owner_of org_id) ms

-- `_refuse_if_last_owner`.
unfoldable pub refuse_if_last_owner : ℕ → List Membership → Result (Unit {0})
refuse_if_last_owner org_id ms = refuse_if (leb (owners org_id ms) 1) 409

abbrev pub is_owner : Principal → Bool
is_owner p = role_in ("owner" ∷ []) p.role

new_membership : ℕ → ℕ → String → Db → Db
new_membership user_id org_id role db = record db {
  memberships = db.memberships ++ record { user_id = user_id; org_id = org_id; role = role } ∷ [];
}

-- `add_member`: the payload's address and role. The caller is `principal`, already authenticated.
unfoldable pub add_member : Text → String → Principal → Db → Result Db
unfolding new_membership log_action
add_member email role principal db = do
  org ← load_org db principal.org_id
  caller ← require_role ("owner" ∷ "admin" ∷ []) principal
  plan ← plan_of org
  refuse_if (leb plan.max_members (count_if (λ m. m.org_id == org.id) db.memberships)) 402
  u ← or_refuse (find_first (λ r. text_eq (lower r.email) (lower (strip email))) db.users) 404
  refuse_if (is_some (find_first (is_membership u.id org.id) db.memberships)) 409
  refuse_if (role == "owner" && not (is_owner caller)) 403
  ok (log_action "member.added" org.id caller (new_membership u.id org.id role db))

set_role : ℕ → ℕ → String → Db → Db
set_role user_id org_id role db = record db {
  memberships =
      update_first (is_membership user_id org_id) (λ m. record m { role = role }) db.memberships;
}

-- `change_member_role`.
unfoldable pub change_member_role : ℕ → String → Principal → Db → Result Db
unfolding set_role log_action
change_member_role user_id role principal db = do
  caller ← require_role ("owner" ∷ []) principal
  m ← or_refuse (find_first (is_membership user_id caller.org_id) db.memberships) 404
  when (m.role == "owner" && not (role == "owner"))
      (refuse_if_last_owner caller.org_id db.memberships)
  ok (
      log_action "member.role_changed" caller.org_id caller
        (set_role user_id caller.org_id role db))

drop_membership : ℕ → ℕ → Db → Db
drop_membership user_id org_id db = record db {
  memberships = erase_first (is_membership user_id org_id) db.memberships;
}

-- The checks of `remove_member` on the membership of an owner.
owner_removal : Principal → Db → Result (Unit {0})
owner_removal caller db = do
  refuse_if (not (is_owner caller)) 403
  refuse_if_last_owner caller.org_id db.memberships

-- `remove_member`.
unfoldable pub remove_member : ℕ → Principal → Db → Result Db
unfolding owner_removal drop_membership log_action
remove_member user_id principal db = do
  caller ← require_role ("owner" ∷ "admin" ∷ []) principal
  m ← or_refuse (find_first (is_membership user_id caller.org_id) db.memberships) 404
  when (m.role == "owner") (owner_removal caller db)
  ok (log_action "member.removed" caller.org_id caller (drop_membership user_id caller.org_id db))

-- The requests that change memberships.
pub data Request : Type 0 where
  add : Text → String → Request
  change : ℕ → String → Request
  remove : ℕ → Request

unfoldable pub handle : Request → Principal → Db → Result Db
unfolding add_member change_member_role remove_member
handle (add email role) p db = add_member email role p db
handle (change user_id role) p db = change_member_role user_id role p db
handle (remove user_id) p db = remove_member user_id p db
