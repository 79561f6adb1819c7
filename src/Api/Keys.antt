-- ===== src/Api/Keys.antt =====
-- The API key endpoints (backend/geolytics/api/routes/orgs.py).
pub mod Issue
pub mod Revoke
use Prim.Native.Nat.{Ordering}
use Prim.Native.String.{compare}
use geolytics.Prelude.{
  ℕ, ◌+◌, ◌*◌, String, Bool, true, false, ◌&&◌, Option, none, some, List, [], ◌∷◌, ◌++◌,
  if◌then◌else◌, ◌==◌, eq_ℕ, eq_string, leb, not, count_if, any, find_first, update_first, is_some,
}
use geolytics.Prelude.Text.{Text, text_eq, strip}
use geolytics.Models.{Organization, ApiKey, second}
use geolytics.Security.ApiKeys.{Environment, generate_api_key}
use geolytics.Tenancy.Principal.{Principal, effective_scopes}
use geolytics.Api.Result.{Result, ok, http, ◌>>=◌, ◌>>◌, refuse_if, or_refuse, Db}
use geolytics.Api.Deps.{load_org, require_role}
use geolytics.Api.Members.{plan_of, log_action}

-- `sorted` of texts, by insertion.
insert_sorted : String → List String → List String
insert_sorted s [] = s ∷ []
insert_sorted s (t ∷ ts) =
    let rest = insert_sorted s ts in elim (compare s t) [ Ordering.gt ↦ t ∷ rest | _ ↦ s ∷ t ∷ ts ]

unfoldable pub sorted : List String → List String
unfolding insert_sorted
sorted [] = []
sorted (s ∷ ss) = insert_sorted s (sorted ss)

-- `issued_scopes_for_key` (backend/geolytics/api/deps.py).
unfoldable pub issued_scopes_for_key : String → Option (List String) → List String
unfolding sorted
issued_scopes_for_key role requested = sorted (effective_scopes role requested)

abbrev pub is_live_of : ℕ → ApiKey → Bool
is_live_of org_id k = k.org_id == org_id && not (is_some k.revoked_at)

abbrev pub live_keys : ℕ → List ApiKey → ℕ
live_keys org_id ks = count_if (is_live_of org_id) ks

-- A request for a key, with what the database and the random source give it.
pub record KeyRequest : Type 0 where
  pub name : Text
  pub scopes : Option (List String)
  pub environment : Environment
  pub expires_in_days : Option ℕ
  pub id : ℕ
  pub lookup_id : Text
  pub secret : Text

-- `principal.role or "member"`.
role_or_member : Option String → String
role_or_member none = "member"
role_or_member (some r) = if r == "" then "member" else r

unfoldable pub key_role : Principal → String
unfolding role_or_member
key_role p = role_or_member p.role

unfoldable pub expiry : ℕ → Option ℕ → Option ℕ
expiry now none = none
expiry now (some days) = if days == 0 then none else some (now + days * 86400 * second)

unfoldable pub new_key : (Text → Text) → ℕ → KeyRequest → ℕ → Principal → List String → ApiKey
unfolding expiry
new_key hash now r org_id caller scopes = record {
  id = r.id;
  org_id = org_id;
  created_by_user_id = caller.user_id;
  name = strip r.name;
  lookup_id = r.lookup_id;
  secret_hash = (generate_api_key hash r.environment r.lookup_id r.secret).secret_hash;
  scopes = scopes;
  environment = r.environment;
  last_used_at = none;
  expires_at = expiry now r.expires_in_days;
  revoked_at = none;
}

abbrev is_empty_list : List String → Bool
is_empty_list [] = true
is_empty_list (s ∷ ss) = false

-- `create_key`: the new row, the token that is shown once, and the tables.
unfoldable pub create_key :
    (Text → Text) → ℕ → KeyRequest → Principal → Db → Result (ApiKey × Text × Db)
unfolding new_key log_action
create_key hash now r principal db = do
  org ← load_org db principal.org_id
  caller ← require_role ("owner" ∷ "admin" ∷ []) principal
  plan ← plan_of org
  refuse_if (leb plan.max_api_keys (live_keys org.id db.api_keys)) 402
  let scopes = issued_scopes_for_key (key_role caller) r.scopes
  refuse_if (is_empty_list scopes) 422
  let key = new_key hash now r org.id caller scopes
  refuse_if (any (λ k. text_eq k.lookup_id r.lookup_id) db.api_keys) 503
  ok (
    key,
    (generate_api_key hash r.environment r.lookup_id r.secret).token,
    log_action "apikey.created" org.id caller (record db { api_keys = key ∷ db.api_keys }),
  )

abbrev revoke : ℕ → ApiKey → ApiKey
revoke now k = record k { revoked_at = some now }

-- `revoke_key`.
unfoldable pub revoke_key : ℕ → ℕ → Principal → Db → Result Db
unfolding log_action
revoke_key now key_id principal db = do
  caller ← require_role ("owner" ∷ "admin" ∷ []) principal
  key ← or_refuse (find_first (λ k. k.id == key_id) db.api_keys) 404
  refuse_if (not (key.org_id == caller.org_id)) 404
  ok (
      if is_some key.revoked_at
      then db
      else log_action "apikey.revoked" caller.org_id caller
          (record db { api_keys = update_first (λ k. k.id == key_id) (revoke now) db.api_keys }))
