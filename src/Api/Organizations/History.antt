-- ===== src/Api/Organizations/History.antt =====
-- Accounts and organisations over any number of requests (backend/geolytics/api/routes/auth.py and
-- backend/geolytics/api/routes/orgs.py).
use geolytics.Prelude.{◌≡◌, Option}
use geolytics.Prelude.Text.{Text}
use geolytics.Security.Passwords.{Hasher}
use geolytics.Tenancy.Principal.{Principal}
use geolytics.Api.Result.{Db, ok}
use geolytics.Api.Deps.{Outside}
use geolytics.Api.Accounts.{
  Settings, Random, TokenPair, SignupRequest, signup, login, change_password,
}
use geolytics.Api.Accounts.Unique.{IsUnique, signup-IsUnique}
use geolytics.Api.Organizations.{OrganizationUpdate, update_org}
use geolytics.Api.Organizations.Addresses.{
  update_org-IsUnique, login-IsUnique, change_password-IsUnique,
}

-- What requests that change accounts and organisations do to the tables, one after another.
pub data Evolves (hasher : Hasher) (settings : Settings) (db : Db) : Db → Type 0 where
  nothing : Evolves hasher settings db db
  signs_up :
      (env : Outside) (random : Random) (r : SignupRequest) (before : Db) (out : TokenPair × Db)
      → Evolves hasher settings db before
      → signup env hasher settings random r before ≡ ok out
      → Evolves hasher settings db out.1
  logs_in :
      (env : Outside) (random : Random) (email password : Text) (slug : Option Text) (before : Db)
      (out : TokenPair × Db)
      → Evolves hasher settings db before
      → login env hasher settings random email password slug before ≡ ok out
      → Evolves hasher settings db out.1
  changes :
      (env : Outside) (salt current new : Text) (p : Principal) (before after : Db)
      → Evolves hasher settings db before
      → change_password env hasher salt current new p before ≡ ok after
      → Evolves hasher settings db after
  moves :
      (r : OrganizationUpdate) (principal : Principal) (before after : Db)
      → Evolves hasher settings db before
      → update_org r principal before ≡ ok after
      → Evolves hasher settings db after

-- Where no two users have one mailbox, whatever the case of its letters, and no two organisations one
-- name in addresses, it stays so: after any number of signups, logins, changes of password and updates
-- of organisations that succeed, one after another.
pub Evolves-IsUnique :
    (hasher : Hasher) (settings : Settings) (db db' : Db)
    → IsUnique db
    → Evolves hasher settings db db'
    → IsUnique db'
Evolves-IsUnique hasher settings db db' unique nothing = unique
Evolves-IsUnique hasher settings db db' unique (signs_up env random r before out steps h) =
    signup-IsUnique env hasher settings random r before out
      (Evolves-IsUnique hasher settings db before unique steps) h
Evolves-IsUnique hasher settings db db' unique
      (logs_in env random email password slug before out steps h) =
    login-IsUnique env hasher settings random email password slug before out
      (Evolves-IsUnique hasher settings db before unique steps) h
Evolves-IsUnique hasher settings db db' unique
      (changes env salt current new p before after steps h) =
    change_password-IsUnique env hasher salt current new p before after
      (Evolves-IsUnique hasher settings db before unique steps) h
Evolves-IsUnique hasher settings db db' unique (moves r principal before after steps h) =
    update_org-IsUnique r principal before after
      (Evolves-IsUnique hasher settings db before unique steps) h
