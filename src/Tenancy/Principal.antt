-- ===== src/Tenancy/Principal.antt =====
-- Callers, roles and scopes (backend/geolytics/tenancy/principal.py).
pub mod Scopes
use geolytics.Prelude.Text.{Text}
use geolytics.Prelude.{
  ℕ, String, Bool, true, false, Option, none, some, List, [], ◌∷◌, ◌++◌, if◌then◌else◌, ◌==◌,
  eq_string, contains, keep, not,
}

abbrev pub all_scopes : List String
all_scopes =
    "audits:read" ∷ "audits:write" ∷ "experiments:read" ∷ "experiments:write" ∷ "sites:read"
    ∷ "sites:write" ∷ "org:read" ∷ "org:write" ∷ "keys:manage" ∷ "billing:manage" ∷ []

abbrev pub read_scopes : List String
read_scopes = "audits:read" ∷ "experiments:read" ∷ "sites:read" ∷ "org:read" ∷ []

-- `_ROLE_SCOPES.get(role, ())`: an unknown role grants nothing.
unfoldable pub role_scopes : String → List String
role_scopes role =
    if role == "owner"
    then all_scopes
    else if role == "admin"
    then keep (λ s. not (s == "billing:manage")) all_scopes
    else if role == "member"
    then read_scopes ++ "audits:write" ∷ "experiments:write" ∷ "sites:write" ∷ []
    else if role == "viewer"
    then read_scopes
    else []

pub data Kind : Type 0 where
  user api_key : Kind

-- `scopes` is a frozenset: only membership in it is read.
pub record Principal : Type 0 where
  pub org_id : ℕ
  pub scopes : List String
  pub kind : Kind
  pub user_id : Option ℕ
  pub api_key_id : Option ℕ
  pub role : Option String
  pub plan_name : String
  pub org_slug : Text

unfoldable pub has : Principal → String → Bool
has p scope = contains p.scopes scope

-- `require` raises `PermissionError`, here `none`.
unfoldable pub require : Principal → String → Option (Unit {0})
unfolding has
require p scope = if has p scope then some tt else none

-- The set `allowed & set(granted)`.
unfoldable pub effective_scopes : String → Option (List String) → List String
effective_scopes role none = role_scopes role
effective_scopes role (some granted) = keep (λ s. contains granted s) (role_scopes role)
