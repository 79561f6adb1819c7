-- ===== src/Tests/Members.antt =====
-- Memberships and their organisations at concrete values (backend/geolytics/api/routes/orgs.py).
use geolytics.Prelude.{ℕ, ◌≤◌, String, ◌≡◌, refl, true, none, some, [], ◌∷◌, arith}
use geolytics.Prelude.Text.{Text, codes}
use geolytics.Json.{null}
use geolytics.Models.{Organization, Membership}
use geolytics.Tenancy.Principal.{Principal, user}
use geolytics.Api.Result.{Db, http}
use geolytics.Security.Tokens.{TokenPayload, access, create_access_token, decode_token}
use geolytics.Security.Tokens.Lifetime.{decode_token-create_access_token}
use geolytics.Api.Deps.{Outside, principal_from_jwt}
use geolytics.Tests.Jwt.{spelling, spelling-IsJwt}
use geolytics.Api.Members.Access.{now, remove_member-refuses}
use geolytics.Api.Members.{Request, add, change, remove, handle, owners}
use geolytics.Api.Members.Owners.{Reach, here, next, Reach-owners, of_org, handle-of_org}

abbrev pub acme : Organization
acme = record {
  id = 7;
  slug = codes "acme";
  name = codes "Acme";
  plan = "growth";
  status = "active";
  limit_overrides = [];
  billing_customer_id = none;
  billing_subscription_id = null;
  current_period_end = none;
  deleted_at = none;
}

abbrev member_of : ℕ → ℕ → String → Membership
member_of user_id org_id role = record { user_id = user_id; org_id = org_id; role = role }

abbrev pub principal : String → Principal
principal role = record {
  org_id = 7;
  scopes = [];
  kind = user;
  user_id = some 1;
  api_key_id = none;
  role = some role;
  plan_name = "growth";
  org_slug = codes "acme";
}

abbrev pub tables : Db
tables = record {
  orgs = acme ∷ [];
  users =
      record {
        id = 3;
        email = codes "eve@acme.io";
        password_hash = [];
        is_active = true;
        last_login_at = none;
        tokens_valid_from = none;
      }
      ∷ [];
  memberships = member_of 1 7 "owner" ∷ member_of 2 7 "owner" ∷ member_of 2 8 "owner" ∷ [];
  api_keys = [];
  log = [];
}

abbrev demoted : Db
demoted = record tables {
  memberships = member_of 1 7 "owner" ∷ member_of 2 7 "viewer" ∷ member_of 2 8 "owner" ∷ [];
  log =
      record {
        org_id = 7;
        action = "member.role_changed";
        actor = record { kind = user; id = some 1 };
      }
      ∷ [];
}

run : Reach tables demoted
unfolding handle geolytics.Api.Deps.require_role geolytics.Api.Members.refuse_if_last_owner
    geolytics.Api.Result.audit_actor
run = next here (change 2 "viewer") (principal "owner") refl

Reach-owners_example : 1 ≤ owners 7 demoted.memberships
Reach-owners_example = Reach-owners 7 run (omega arith)

handle-of_org_example : of_org 8 demoted.memberships ≡ of_org 8 tables.memberships
unfolding handle geolytics.Api.Deps.require_role geolytics.Api.Members.refuse_if_last_owner
    geolytics.Api.Result.audit_actor
handle-of_org_example =
    handle-of_org 8 (change 2 "viewer") (principal "owner") tables demoted refl (λ e. ground arith)

abbrev after_joining : Db
after_joining = record tables {
  memberships =
      member_of 1 7 "owner"
      ∷ member_of 2 7 "owner"
      ∷ member_of 2 8 "owner"
      ∷ member_of 3 7 "member"
      ∷ [];
  log =
      record { org_id = 7; action = "member.added"; actor = record { kind = user; id = some 1 } }
      ∷ [];
}

abbrev removed : Db
removed = record tables {
  memberships = member_of 1 7 "owner" ∷ member_of 2 8 "owner" ∷ [];
  log =
      record { org_id = 7; action = "member.removed"; actor = record { kind = user; id = some 1 } }
      ∷ [];
}

-- A token that the removed member still has.
abbrev env : Outside
env = record { hash = λ t. 1 ∷ t; jwt = spelling; secret_key = codes "key"; now = 6000000 }

abbrev token : Text
token = create_access_token spelling 2 (codes "key") (some 7) [] 900000000 5500000 (codes "a")

abbrev claims : TokenPayload
claims = record {
  user_id = some 2;
  token_type = access;
  org_id = some 7;
  scopes = [];
  jti = codes "a";
  issued_at = 5000000;
  expires_at = 905000000;
}

decodes : decode_token spelling (codes "key") access 6000000 token ≡ some claims
decodes =
    (decode_token-create_access_token spelling spelling-IsJwt (codes "key") (codes "a") 2 900000000
        5500000 6000000 (some 7) [] (omega arith)).0
      (omega arith)

remove_member-refuses_example : principal_from_jwt env token removed ≡ http 403
unfolding geolytics.Api.Members.remove_member geolytics.Api.Deps.require_role
    geolytics.Api.Members.refuse_if_last_owner geolytics.Api.Result.audit_actor
remove_member-refuses_example =
    remove_member-refuses 2 (principal "owner") tables removed removed env token claims
      (refl, (refl, (refl, tt))) refl now decodes refl refl

abbrev with_user : Db → Db
with_user db = record db {
  users =
      record {
        id = 2;
        email = codes "bob@acme.io";
        password_hash = [];
        is_active = true;
        last_login_at = none;
        tokens_valid_from = none;
      }
      ∷ [];
}

abbrev viewer : Principal
viewer = record (principal "viewer") {
  scopes = "audits:read" ∷ "experiments:read" ∷ "sites:read" ∷ "org:read" ∷ [];
  user_id = some 2;
}
