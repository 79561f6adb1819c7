-- ===== src/Api/Accounts.antt =====
-- Signup, login, refresh and the account endpoints (backend/geolytics/api/routes/auth.py). PyJWT,
-- Argon2, the random source and the clock are parameters; the database gives new rows their ids.
pub mod SignIn
pub mod Sessions
pub mod Logins
pub mod Unique
use geolytics.Prelude.{
  ℕ, ◌*◌, String, Bool, true, ◌||◌, ◌&&◌, not, Option, none, some, List, [], ◌∷◌, ◌++◌,
  if◌then◌else◌, ◌==◌, eq_ℕ, any, find_first, update_first, is_some,
}
use geolytics.Prelude.Text.{Text, codes, text_eq, strip, lower}
use geolytics.Json.{null}
use geolytics.Models
use geolytics.Models.{Organization, User, Membership, second}
use geolytics.Security.ApiKeys.{is_empty}
use geolytics.Security.Passwords.{Hasher, hash_password, verify_password}
use geolytics.Security.Tokens.{
  Jwt, TokenPayload, refresh, create_access_token, create_refresh_token, decode_token,
}
use geolytics.Tenancy.Principal.{Principal, user, role_scopes}
use geolytics.Api.Result.{
  Result, ok, http, ◌>>=◌, ◌>>◌, refuse_if, or_refuse, Actor, LogEntry, Db, audit_actor,
}
use geolytics.Api.Deps.{Outside, is_user, revoked_before}
use geolytics.Api.Slugs.{unique_slug, is_taken}

pub record Settings : Type 0 where
  pub signup_enabled : Bool
  pub access_token_minutes : ℕ
  pub refresh_token_days : ℕ

-- What a request draws from the random source: a salt, and the ids of the two tokens.
pub record Random : Type 0 where
  pub salt : Text
  pub access_jti : Text
  pub refresh_jti : Text

pub record Summary : Type 0 where
  pub id : ℕ
  pub slug : Text
  pub name : Text
  pub plan : String
  pub role : String

pub record TokenPair : Type 0 where
  pub access_token : Text
  pub refresh_token : Text
  pub expires_in : ℕ
  pub organization : Summary

abbrev pub access_lifetime : Settings → ℕ
access_lifetime s = s.access_token_minutes * 60 * second

abbrev pub refresh_lifetime : Settings → ℕ
refresh_lifetime s = s.refresh_token_days * 86400 * second

-- `_issue`.
unfoldable pub issue : Outside → Settings → Random → ℕ → Organization → String → TokenPair
issue env settings r user_id org role = record {
  access_token =
      create_access_token env.jwt user_id env.secret_key (some org.id) (role_scopes role)
        (access_lifetime settings) env.now r.access_jti;
  refresh_token =
      create_refresh_token env.jwt user_id env.secret_key (refresh_lifetime settings) env.now
        r.refresh_jti;
  expires_in = settings.access_token_minutes * 60;
  organization = record {
    id = org.id;
    slug = org.slug;
    name = org.name;
    plan = org.plan;
    role = role;
  };
}

-- `if slug: query.where(...)`
abbrev pub named : Option Text → Organization → Bool
named none o = true
named (some slug) o = is_empty slug || text_eq o.slug slug

abbrev in_org : Option Text → String → Option Organization → Option (Organization × String)
in_org slug role none = none
in_org slug role (some o) = if named slug o then some (o, role) else none

-- The first row of the join, by the order of the memberships.
unfoldable pub first_org :
    List Organization → ℕ → Option Text → List Membership → Option (Organization × String)
first_org orgs user_id slug [] = none
first_org orgs user_id slug (m ∷ ms) =
    let rest = first_org orgs user_id slug ms in
    if m.user_id == user_id
    then elim (in_org slug m.role (find_first (λ o. o.id == m.org_id) orgs)) [
      | none ↦ rest
      | some row ↦ some row
    ]
    else rest

-- `_select_org`.
unfoldable pub select_org : Db → ℕ → Option Text → Result (Organization × String)
select_org db user_id slug = do
  row ← or_refuse (first_org db.orgs user_id slug db.memberships) 403
  refuse_if (not (Models.is_active row.0)) 403
  ok row

-- `_log`.
unfoldable pub log_user : String → ℕ → ℕ → Db → Db
log_user action org_id user_id db = record db {
  log =
      record { org_id = org_id; action = action; actor = record { kind = user; id = some user_id } }
      ∷ db.log;
}

pub record SignupRequest : Type 0 where
  pub email : Text
  pub password : Text
  pub organization_name : Text
  pub endings : List Text
  pub last_ending : Text
  pub user_id : ℕ
  pub org_id : ℕ

abbrev pub has_email : Text → User → Bool
has_email email u = text_eq (lower u.email) email

unfoldable pub new_user : SignupRequest → Text → User
new_user r hash = record {
  id = r.user_id;
  email = lower (strip r.email);
  password_hash = hash;
  is_active = true;
  last_login_at = none;
  tokens_valid_from = none;
}

unfoldable pub new_org : SignupRequest → Text → Organization
new_org r slug = record {
  id = r.org_id;
  slug = slug;
  name = strip r.organization_name;
  plan = "free";
  status = "active";
  limit_overrides = [];
  billing_customer_id = none;
  billing_subscription_id = null;
  current_period_end = none;
  deleted_at = none;
}

unfoldable pub add_account : SignupRequest → Text → Text → Db → Db
add_account r hash slug db = record db {
  users = db.users ++ new_user r hash ∷ [];
  orgs = db.orgs ++ new_org r slug ∷ [];
  memberships =
      db.memberships ++ record { user_id = r.user_id; org_id = r.org_id; role = "owner" } ∷ [];
}

-- `signup`. The unique constraints refuse an address or a name that is taken.
unfoldable pub signup :
    Outside → Hasher → Settings → Random → SignupRequest → Db → Result (TokenPair × Db)
unfolding new_org new_user add_account issue log_user
signup env hasher settings random r db =
    let email = lower (strip r.email) in
    let slug = unique_slug db.orgs r.organization_name r.endings r.last_ending in
    do
      refuse_if (not settings.signup_enabled) 403
      hash ← or_refuse (hash_password hasher random.salt r.password) 422
      refuse_if (is_some (find_first (has_email email) db.users)) 409
      refuse_if (any (λ u. text_eq u.email email) db.users || is_taken db.orgs slug) 409
      ok (
        issue env settings random r.user_id (new_org r slug) "owner",
        log_user "auth.signup" r.org_id r.user_id (add_account r hash slug db),
      )

-- A user whose account may sign in with a password: an unknown address is refused like a wrong
-- password. (The source compares with a dummy hash then, so that it takes as long.)
unfoldable pub proved_user : Hasher → Text → Text → List User → Result User
proved_user hasher email password users = do
  u ← or_refuse (find_first (has_email email) users) 401
  refuse_if (not (verify_password hasher u.password_hash password) || not u.is_active) 401
  ok u

-- The hash is renewed when it used weaker parameters; a password that the policy refuses by now is an
-- error that nothing catches.
unfoldable pub renewed : Hasher → Text → Text → Text → Result Text
renewed hasher salt password stored =
    if hasher.needs_rehash stored
    then or_refuse (hash_password hasher salt password) 500
    else ok stored

unfoldable pub signed_in : ℕ → Text → User → User
signed_in now hash u = record u { password_hash = hash; last_login_at = some now }

-- `login`.
unfoldable pub login :
    Outside → Hasher → Settings → Random → Text → Text → Option Text → Db → Result (TokenPair × Db)
unfolding proved_user renewed signed_in issue log_user
login env hasher settings random email password slug db = do
  u ← proved_user hasher (lower (strip email)) password db.users
  hash ← renewed hasher random.salt password u.password_hash
  row ← select_org db u.id slug
  ok (
    issue env settings random u.id row.0 row.1,
    log_user "auth.login" row.0.id u.id
        (record db { users = update_first (is_user u.id) (signed_in env.now hash) db.users }),
  )

-- `refresh`.
unfoldable pub refresh_pair :
    Outside → Settings → Random → Text → Option Text → Db → Result TokenPair
unfolding issue
refresh_pair env settings random token slug db = do
  claims ← or_refuse (decode_token env.jwt env.secret_key refresh env.now token) 401
  user_id ← or_refuse claims.user_id 500
  u ← or_refuse (find_first (is_user user_id) db.users) 401
  refuse_if (not u.is_active) 401
  refuse_if (revoked_before u.tokens_valid_from claims.issued_at) 401
  row ← select_org db u.id slug
  ok (issue env settings random u.id row.0 row.1)

-- `me`: the user whose account it shows. The list of organisations is left out.
unfoldable pub me : Principal → Db → Result User
me p db = do
  user_id ← or_refuse p.user_id 400
  u ← or_refuse (find_first (is_user user_id) db.users) 401
  ok u

unfoldable pub rekeyed : ℕ → Text → User → User
rekeyed now hash u = record u { password_hash = hash; tokens_valid_from = some now }

-- `change_password`.
unfoldable pub change_password : Outside → Hasher → Text → Text → Text → Principal → Db → Result Db
unfolding rekeyed
change_password env hasher salt current new p db = do
  user_id ← or_refuse p.user_id 403
  u ← or_refuse (find_first (is_user user_id) db.users) 401
  refuse_if (not (verify_password hasher u.password_hash current)) 401
  hash ← or_refuse (hash_password hasher salt new) 422
  ok (record db {
    users = update_first (is_user user_id) (rekeyed env.now hash) db.users;
    log =
        record { org_id = p.org_id; action = "auth.password_changed"; actor = audit_actor p }
        ∷ db.log;
  })
