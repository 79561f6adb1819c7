-- ===== src/Api/Deps.antt =====
-- Authentication and authorisation of a request (backend/geolytics/api/deps.py). PyJWT and the hash
-- function are parameters.
use geolytics.Prelude.{
  ℕ, String, Bool, false, ◌&&◌, ◌||◌, Option, none, some, List, if◌then◌else◌, ◌==◌, eq_ℕ,
  eq_string, ltb, not, all, contains, find_first, update_first,
}
use geolytics.Prelude.Text.{Text, text_eq, strip}
use geolytics.Models
use geolytics.Models.{Organization, User, Membership, ApiKey, is_usable}
use geolytics.Security.ApiKeys.{ParsedApiKey, is_empty, parse_api_key, verify_api_key}
use geolytics.Security.Tokens.{Jwt, access, decode_token}
use geolytics.Tenancy.Principal.{Principal, Kind, user, api_key, has, role_scopes}
use geolytics.Api.Result.{Result, ok, http, ◌>>=◌, ◌>>◌, refuse_if, or_refuse, Db}

-- What authentication takes from outside: the hash of secrets, PyJWT with the signing secret, and
-- the clock.
pub record Outside : Type 0 where
  pub hash : Text → Text
  pub jwt : Jwt
  pub secret_key : Text
  pub now : ℕ

unfoldable pub load_org : Db → ℕ → Result Organization
load_org db org_id = do
  org ← or_refuse (find_first (λ o. o.id == org_id) db.orgs) 401
  refuse_if (not (Models.is_active org)) 401
  ok org

unfoldable pub touch : ℕ → ApiKey → ApiKey
touch now key = record key { last_used_at = some now }

-- The key that the presented secret proves, or a 401. For an unknown key the source compares with a
-- dummy hash and refuses all the same.
unfoldable pub proved_key : Outside → ParsedApiKey → Db → Result ApiKey
proved_key env parsed db = do
  key ← or_refuse (find_first (λ k. text_eq k.lookup_id parsed.lookup_id) db.api_keys) 401
  refuse_if
      (not (verify_api_key env.hash key.secret_hash parsed.secret) || not (is_usable env.now key))
      401
  ok key

unfoldable pub key_principal : ApiKey → Organization → Principal
key_principal key org = record {
  org_id = org.id;
  scopes = key.scopes;
  kind = api_key;
  user_id = key.created_by_user_id;
  api_key_id = some key.id;
  role = none;
  plan_name = org.plan;
  org_slug = org.slug;
}

unfoldable pub principal_from_api_key : Outside → ParsedApiKey → Db → Result (Principal × Db)
unfolding key_principal
principal_from_api_key env parsed db = do
  key ← proved_key env parsed db
  org ← load_org db key.org_id
  ok (
    key_principal key org,
    record db { api_keys = update_first (λ k. k.id == key.id) (touch env.now) db.api_keys },
  )

abbrev pub is_membership : ℕ → ℕ → Membership → Bool
is_membership user_id org_id m = m.user_id == user_id && m.org_id == org_id

abbrev pub is_user : ℕ → User → Bool
is_user id u = u.id == id

-- Tokens from before the last password change or forced logout are revoked.
abbrev pub revoked_before : Option ℕ → ℕ → Bool
revoked_before none issued_at = false
revoked_before (some from) issued_at = ltb issued_at from

unfoldable pub member_principal : Membership → User → Organization → Principal
member_principal m u org = record {
  org_id = org.id;
  scopes = role_scopes m.role;
  kind = user;
  user_id = some u.id;
  api_key_id = none;
  role = some m.role;
  plan_name = org.plan;
  org_slug = org.slug;
}

-- The join of the membership and its user, and the checks on both.
unfoldable pub member_of_org : Db → ℕ → ℕ → ℕ → Result Principal
unfolding member_principal
member_of_org db user_id org_id issued_at = do
  m ← or_refuse (find_first (is_membership user_id org_id) db.memberships) 403
  u ← or_refuse (find_first (is_user m.user_id) db.users) 403
  refuse_if (not u.is_active) 401
  refuse_if (revoked_before u.tokens_valid_from issued_at) 401
  org ← load_org db org_id
  ok (member_principal m u org)

unfoldable pub principal_from_jwt : Outside → Text → Db → Result Principal
principal_from_jwt env token db = do
  claims ← or_refuse (decode_token env.jwt env.secret_key access env.now token) 401
  org_id ← or_refuse claims.org_id 403
  user_id ← or_refuse claims.user_id 500
  member_of_org db user_id org_id claims.issued_at

unfoldable pub by_token : Outside → Text → Option ParsedApiKey → Db → Result (Principal × Db)
by_token env token none db = do p ← principal_from_jwt env token db; ok (p, db)
by_token env token (some parsed) db = principal_from_api_key env parsed db

-- `credentials` are those of the Authorization header, if it has any.
unfoldable pub current_principal : Outside → Option Text → Db → Result (Principal × Db)
unfolding by_token
current_principal env none db = http 401
current_principal env (some credentials) db =
    if is_empty credentials
    then http 401
    else by_token env (strip credentials) (parse_api_key (strip credentials)) db

unfoldable pub require_scope : List String → Principal → Result Principal
require_scope scopes p = if all (has p) scopes then ok p else http 403

abbrev pub role_in : List String → Option String → Bool
role_in roles none = false
role_in roles (some r) = contains roles r

unfoldable pub required_role : List String → Kind → Principal → Result Principal
required_role roles api_key p = http 403
required_role roles user p = if role_in roles p.role then ok p else http 403

-- API keys never satisfy it.
unfoldable pub require_role : List String → Principal → Result Principal
unfolding required_role
require_role roles p = required_role roles p.kind p
