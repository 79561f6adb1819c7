-- ===== src/Tests/Accounts.antt =====
-- Accounts and their sessions at concrete values (backend/geolytics/api/routes/auth.py).
use geolytics.Prelude.{
  ◌≡◌, ◌≢◌, refl, String, true, false, none, some, [], ◌∷◌, arith, find_first, update_first, eq_ℕ,
}
use geolytics.Prelude.Text.{Text, codes, text_eq, strip, lower}
use geolytics.Models
use geolytics.Models.{Organization, User, second}
use geolytics.Security.Passwords.{Hasher, verify_password}
use geolytics.Tenancy.Principal.{Principal, role_scopes}
use geolytics.Api.Result.{Db, ok, http}
use geolytics.Api.Deps.{Outside, is_user, principal_from_jwt}
use geolytics.Api.Slugs.{unique_slug}
use geolytics.Api.Accounts.{
  Settings, Random, TokenPair, SignupRequest, refresh_lifetime, access_lifetime, issue, has_email,
  new_org, add_account, log_user, signup, login, refresh_pair, rekeyed, signed_in,
}
use geolytics.Api.Accounts.SignIn.{signup-signs_in}
use geolytics.Api.Accounts.Logins.{IsRow, login-proves, login-same_second}
use geolytics.Api.Accounts.Unique.{IsUnique}
use geolytics.Api.Members.{log_action}
use geolytics.Api.Organizations.{OrganizationUpdate, update_org}
use geolytics.Api.Organizations.History.{nothing, signs_up, moves, Evolves-IsUnique}
use geolytics.Tests.Members.{acme, principal, tables}
use geolytics.Tests.Jwt.{spelling, spelling-IsJwt}

-- Half a second after the fifth second.
abbrev env : Outside
env = record { hash = λ t. 1 ∷ t; jwt = spelling; secret_key = codes "key"; now = 5500000 }

abbrev hasher : Hasher
hasher = record {
  hash = λ salt t. 1 ∷ t;
  verify = λ stored t. text_eq stored (1 ∷ t);
  needs_rehash = λ stored. false;
}

abbrev settings : Settings
settings = record { signup_enabled = true; access_token_minutes = 15; refresh_token_days = 30 }

abbrev random : Random
random = record { salt = codes "salt"; access_jti = codes "a"; refresh_jti = codes "b" }

abbrev password : Text
password = codes "correct horse"

abbrev request : SignupRequest
request = record {
  email = codes "Ann@Acme.io";
  password = password;
  organization_name = codes "Globex";
  endings = [];
  last_ending = codes "x1";
  user_id = 4;
  org_id = 9;
}

abbrev joined : TokenPair × Db
joined = (
  issue env settings random 4 (new_org request (codes "globex")) "owner",
  log_user "auth.signup" 9 4 (add_account request (1 ∷ password) (codes "globex") tables),
)

signed_up : signup env hasher settings random request tables ≡ ok joined
unfolding signup geolytics.Security.Passwords.hash_password lower strip unique_slug
    geolytics.Api.Slugs.slugify geolytics.Api.Slugs.is_plain
signed_up = refl

signup-signs_in_example :
    (p : Principal) × (principal_from_jwt
        (record env { now = 6000000 })
        joined.0.access_token
        joined.1
      ≡ ok p)
    × (p.user_id ≡ some 4)
    × (p.org_id ≡ 9)
    × (p.scopes ≡ role_scopes "owner")
signup-signs_in_example =
    signup-signs_in env hasher settings random request tables joined 6000000 spelling-IsJwt refl
      refl refl signed_up (omega arith) (omega arith)

tables-IsUnique : IsUnique tables
tables-IsUnique = ((tt, tt), (tt, tt))

-- The owner of the new organisation, who changes the password a second later.
abbrev owner : Principal
owner = record (principal "owner") { org_id = 9; user_id = some 4 }

abbrev changing : Outside
changing = record env { now = 6700000 }

abbrev new_password : Text
new_password = codes "battery staple"

abbrev changed : Db
changed = record joined.1 {
  users = update_first (is_user 4) (rekeyed 6700000 (1 ∷ new_password)) joined.1.users;
  log = (log_user "auth.password_changed" 9 4 joined.1).log;
}

-- The owner logs in again in the second of the change.
abbrev again : Outside
again = record env { now = 6900000 }

abbrev returned : TokenPair × Db
returned = (
  issue again settings random 4 (new_org request (codes "globex")) "owner",
  log_user "auth.login" 9 4 (record changed {
    users = update_first (is_user 4) (signed_in 6900000 (1 ∷ new_password)) changed.users;
  }),
)

logged_in :
    login again hasher settings random (codes "ann@acme.io") new_password none changed ≡ ok returned
unfolding login add_account lower strip geolytics.Api.Accounts.new_user rekeyed verify_password
    geolytics.Api.Accounts.select_org geolytics.Api.Accounts.first_org new_org Models.is_active
logged_in = refl

login-proves_example :
    (u : User) × (org : Organization) × (role : String) × (find_first
        (has_email (codes "ann@acme.io"))
        changed.users
      ≡ some u)
    × (verify_password hasher u.password_hash new_password ≡ true)
    × (u.is_active ≡ true)
    × (Models.is_active org ≡ true)
    × IsRow changed.orgs u.id none changed.memberships (org, role)
    × (returned.0 ≡ issue again settings random u.id org role)
unfolding lower strip
login-proves_example =
    login-proves again hasher settings random (codes "ann@acme.io") new_password none changed
      returned logged_in

login-same_second_example :
    (refresh_pair
        (record again { now = 7000000 })
        settings
        random
        returned.0.refresh_token
        none
        returned.1
      ≡ http 401)
    × ((q : Principal)
        → principal_from_jwt (record again { now = 7000000 }) returned.0.access_token returned.1
          ≢ ok q)
unfolding log_user add_account lower strip geolytics.Api.Accounts.new_user rekeyed
login-same_second_example =
    login-same_second again hasher settings random random (codes "ann@acme.io") new_password none
      none changed returned _ 6700000 7000000 spelling-IsJwt refl refl refl (omega arith) logged_in
      (omega arith)

-- The new organisation takes another name after its owner has signed up.
abbrev update : OrganizationUpdate
update = record { name = none; slug = some (codes "globex-inc") }

abbrev relocated : Db
relocated = record joined.1 {
  orgs = acme ∷ record (new_org request (codes "globex")) { slug = codes "globex-inc" } ∷ [];
  log = (log_action "org.updated" 9 owner joined.1).log;
}

moved_on : update_org update owner joined.1 ≡ ok relocated
unfolding update_org geolytics.Api.Deps.load_org log_user add_account new_org Models.is_active
    geolytics.Api.Deps.require_role
moved_on = refl

Evolves-IsUnique_example : IsUnique relocated
Evolves-IsUnique_example = Evolves-IsUnique hasher settings tables relocated tables-IsUnique (
    moves update owner joined.1 relocated
      (signs_up env random request tables joined nothing signed_up) moved_on)
