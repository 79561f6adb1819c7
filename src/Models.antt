-- ===== src/Models.antt =====
-- The rows that the services share (backend/geolytics/db/models.py). An instant is its UTC time in
-- microseconds, except for the end of a billing period, which is a whole number of seconds. Columns
-- that no modelled code reads are left out.
use geolytics.Prelude.{
  ℕ, String, Bool, true, ◌&&◌, Option, none, some, List, ◌==◌, eq_string, not, is_some, ltb,
}
use geolytics.Prelude.Text.{Text}
use geolytics.Security.ApiKeys.{Environment}
use geolytics.Tenancy.Plans.{Overrides}
use geolytics.Json.{Json}

-- The microseconds of a second.
abbrev pub second : ℕ
second = 1000000

pub record Organization : Type 0 where
  pub id : ℕ
  pub slug : Text
  pub name : Text
  pub plan : String
  pub status : String
  pub limit_overrides : Overrides
  pub billing_customer_id : Option String
  pub billing_subscription_id : Json
  pub current_period_end : Option ℕ
  pub deleted_at : Option ℕ

unfoldable pub is_active : Organization → Bool
is_active o = o.status == "active" && not (is_some o.deleted_at)

-- `email` is stored in lower case.
pub record User : Type 0 where
  pub id : ℕ
  pub email : Text
  pub password_hash : Text
  pub is_active : Bool
  pub last_login_at : Option ℕ
  pub tokens_valid_from : Option ℕ

pub record Membership : Type 0 where
  pub user_id : ℕ
  pub org_id : ℕ
  pub role : String

pub record ApiKey : Type 0 where
  pub id : ℕ
  pub org_id : ℕ
  pub created_by_user_id : Option ℕ
  pub name : Text
  pub lookup_id : Text
  pub secret_hash : Text
  pub scopes : List String
  pub environment : Environment
  pub last_used_at : Option ℕ
  pub expires_at : Option ℕ
  pub revoked_at : Option ℕ

unfoldable pub unexpired : ℕ → Option ℕ → Bool
unexpired now none = true
unexpired now (some expires) = ltb now expires

-- Not revoked, and not expired by `now`.
unfoldable pub is_usable : ℕ → ApiKey → Bool
unfolding unexpired
is_usable now key = not (is_some key.revoked_at) && unexpired now key.expires_at
