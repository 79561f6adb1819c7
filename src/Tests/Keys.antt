-- ===== src/Tests/Keys.antt =====
-- API keys at concrete values (backend/geolytics/api/routes/orgs.py and
-- backend/geolytics/api/deps.py).
use geolytics.Prelude.{
  ℕ, ◌≤◌, String, ◌≡◌, ◌≢◌, refl, Bool, true, false, Option, none, some, List, [], ◌∷◌, arith,
  contains, eq_string,
}
use geolytics.Prelude.Text.{Text, codes}
use geolytics.Models.{Organization, ApiKey}
use geolytics.Security.ApiKeys.{ParsedApiKey, live}
use geolytics.Tenancy.Plans.{Plan}
use geolytics.Tenancy.Principal.{Principal, api_key, role_scopes}
use geolytics.Api.Result.{Db, ok, http}
use geolytics.Api.Deps.{Outside, load_org, current_principal, principal_from_api_key}
use geolytics.Api.Members.{plan_of}
use geolytics.Api.Keys.{KeyRequest, create_key, live_keys, key_role, revoke_key}
use geolytics.Api.Keys.Issue.{create_key-limits, create_key-authenticates}
use geolytics.Api.Keys.Revoke.{revoke_key-refuses}
use geolytics.Tests.Members.{principal, tables}
use geolytics.Tests.Jwt.{spelling}

abbrev env : Outside
env = record { hash = λ t. 1 ∷ t; jwt = spelling; secret_key = []; now = 1000 }

abbrev request : KeyRequest
request = record {
  name = codes "ci";
  scopes = some ("audits:write" ∷ "audits:read" ∷ "billing:manage" ∷ []);
  environment = live;
  expires_in_days = some 30;
  id = 5;
  lookup_id = codes "abc";
  secret = codes "xyz";
}

abbrev parsed : ParsedApiKey
parsed = record { environment = live; lookup_id = codes "abc"; secret = codes "xyz" }

abbrev key : ApiKey
key = record {
  id = 5;
  org_id = 7;
  created_by_user_id = some 1;
  name = codes "ci";
  lookup_id = codes "abc";
  secret_hash = 1 ∷ codes "xyz";
  scopes = "audits:read" ∷ "audits:write" ∷ [];
  environment = live;
  last_used_at = none;
  expires_at = some 2592000001000;
  revoked_at = none;
}

abbrev issued : Db
issued = record tables {
  api_keys = key ∷ [];
  log =
      record {
        org_id = 7;
        action = "apikey.created";
        actor = record { kind = Principal.kind (principal "admin"); id = some 1 };
      }
      ∷ [];
}

create_key-limits_example :
    ((s : String)
      → contains ("audits:read" ∷ "audits:write" ∷ []) s ≡ true
      → contains (role_scopes (key_role (principal "admin"))) s ≡ true)
    × (key.org_id ≡ 7)
    × (org : Organization) × (load_org tables 7 ≡ ok org)
    × (plan : Plan) × (plan_of org ≡ ok plan)
    × (live_keys 7 (key ∷ []) ≤ plan.max_api_keys)
unfolding create_key load_org geolytics.Models.is_active geolytics.Api.Deps.require_role plan_of
    geolytics.Tenancy.Plans.Catalogue.get_plan geolytics.Api.Keys.issued_scopes_for_key
    geolytics.Tenancy.Principal.effective_scopes role_scopes key_role geolytics.Prelude.Text.strip
    geolytics.Security.ApiKeys.generate_api_key geolytics.Api.Result.audit_actor
create_key-limits_example =
    create_key-limits env request (principal "admin") tables (key, codes "gk_live_abc.xyz", issued)
      refl

create_key-authenticates_example :
    (q : Principal) × (d : Db) × (current_principal env (some (codes "gk_live_abc.xyz")) issued
      ≡ ok (q, d))
    × (q.org_id ≡ 7)
    × (q.scopes ≡ "audits:read" ∷ "audits:write" ∷ [])
unfolding create_key load_org geolytics.Models.is_active geolytics.Api.Deps.require_role plan_of
    geolytics.Tenancy.Plans.Catalogue.get_plan geolytics.Api.Keys.issued_scopes_for_key
    geolytics.Tenancy.Principal.effective_scopes role_scopes key_role geolytics.Prelude.Text.strip
    geolytics.Security.ApiKeys.generate_api_key geolytics.Api.Result.audit_actor
create_key-authenticates_example =
    create_key-authenticates env request (principal "admin") tables key (codes "gk_live_abc.xyz")
      issued (λ h. cc) (λ h. cc) refl (refl, (refl, (refl, tt))) (refl, (refl, (refl, tt))) refl

abbrev revoked : Db
revoked = record issued {
  api_keys = record key { revoked_at = some 1200 } ∷ [];
  log =
      record {
        org_id = 7;
        action = "apikey.revoked";
        actor = record { kind = Principal.kind (principal "owner"); id = some 1 };
      }
      ∷ issued.log;
}

revoke_key-refuses_example : principal_from_api_key env parsed revoked ≡ http 401
unfolding revoke_key geolytics.Api.Deps.require_role geolytics.Api.Result.audit_actor
revoke_key-refuses_example =
    revoke_key-refuses 1200 5 (principal "owner") issued revoked env parsed key refl refl refl

abbrev stranger : Principal
stranger = record (principal "owner") { org_id = 8; org_slug = codes "other" }

abbrev caller : Principal
caller = record {
  org_id = 7;
  scopes = "audits:read" ∷ "audits:write" ∷ [];
  kind = api_key;
  user_id = some 1;
  api_key_id = some 5;
  role = none;
  plan_name = "growth";
  org_slug = codes "acme";
}
