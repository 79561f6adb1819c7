-- ===== src/Api/Accounts/SignIn.antt =====
-- What a signup leaves (backend/geolytics/api/routes/auth.py).
use geolytics.Prelude.{
  ℕ, ◌+◌, ◌*◌, ◌/◌, ◌≤◌, ◌<◌, ◌≡◌, refl, sym, ap, false, ◌||◌, not, none, some, ◌==◌, eq_ℕ, any,
  find_first, is_some, find_first-append, arith, ==_refl,
}
use geolytics.Prelude.Text.{Text, text_eq, strip, lower}
use geolytics.Models.{second, is_active}
use geolytics.Security.Passwords.{Hasher, hash_password}
use geolytics.Security.Tokens.Lifetime.{IsJwt, decode_token-create_access_token}
use geolytics.Tenancy.Principal.{Principal, role_scopes}
use geolytics.Api.Result.{
  ok, ◌>>=◌, Db, refuse_if, or_refuse, first_step, ok-injective, or_refuse-ok, refuse_if-ok,
}
use geolytics.Api.Deps.{
  Outside, is_user, is_membership, load_org, member_principal, member_of_org, principal_from_jwt,
}
use geolytics.Api.Slugs.{unique_slug, is_taken}
use geolytics.Api.Accounts.{
  Settings, Random, TokenPair, SignupRequest, issue, access_lifetime, has_email, new_user, new_org,
  add_account, log_user, signup,
}

-- What a signup that succeeded did.
pub record IsSignedUp (env : Outside) (hasher : Hasher) (settings : Settings) (random : Random)
    (r : SignupRequest) (db : Db) (out : TokenPair × Db) : Type 0 where
  pub hash : Text
  pub hashed : hash_password hasher random.salt r.password ≡ some hash
  pub no_email : is_some (find_first (has_email (lower (strip r.email))) db.users) ≡ false
  pub no_slug :
      (any (λ u. text_eq u.email (lower (strip r.email))) db.users
        || is_taken db.orgs (unique_slug db.orgs r.organization_name r.endings r.last_ending))
      ≡ false
  pub result :
      let slug = unique_slug db.orgs r.organization_name r.endings r.last_ending in
      out ≡ (
        issue env settings random r.user_id (new_org r slug) "owner",
        log_user "auth.signup" r.org_id r.user_id (add_account r hash slug db),
      )

pub signup-IsSignedUp :
    (env : Outside) (hasher : Hasher) (settings : Settings) (random : Random) (r : SignupRequest)
    (db : Db) (out : TokenPair × Db)
    → signup env hasher settings random r db ≡ ok out
    → IsSignedUp env hasher settings random r db out
unfolding signup
signup-IsSignedUp env hasher settings random r db out h =
    let email = lower (strip r.email) in
    let slug = unique_slug db.orgs r.organization_name r.endings r.last_ending in
    let (_, _, open_) = first_step (refuse_if (not settings.signup_enabled) 403) _ out h in
    let (hash, hashed, valid) =
      first_step (or_refuse (hash_password hasher random.salt r.password) 422) _ out open_ in
    let (_, unknown_email, new) =
      first_step (refuse_if (is_some (find_first (has_email email) db.users)) 409) _ out valid in
    let (_, free, last) =
      first_step
        (refuse_if (any (λ u. text_eq u.email email) db.users || is_taken db.orgs slug) 409) _ out
        new in
    record {
      hash = hash;
      hashed = or_refuse-ok (hash_password hasher random.salt r.password) 422 hash hashed;
      no_email = refuse_if-ok _ 409 tt unknown_email;
      no_slug = refuse_if-ok _ 409 tt free;
      result = sym (ok-injective last);
    }

-- The account that is there after a signup with fresh ids.
module _ (r : SignupRequest) (hash slug : Text) (db : Db) where
  created : Db
  created = log_user "auth.signup" r.org_id r.user_id (add_account r hash slug db)

  finds_membership :
      find_first (is_membership r.user_id r.org_id) db.memberships ≡ none
      → find_first (is_membership r.user_id r.org_id) created.memberships
        ≡ some (record { user_id = r.user_id; org_id = r.org_id; role = "owner" })
  unfolding created log_user add_account
  finds_membership h = find_first-append _ db.memberships _ h (ground arith)

  finds_user :
      find_first (is_user r.user_id) db.users ≡ none
      → find_first (is_user r.user_id) created.users ≡ some (new_user r hash)
  unfolding created log_user add_account new_user
  finds_user h = find_first-append _ db.users _ h (ground arith)

  loads_org :
      find_first (λ o. o.id == r.org_id) db.orgs ≡ none
      → load_org created r.org_id ≡ ok (new_org r slug)
  unfolding created log_user add_account load_org new_org is_active
  loads_org h =
      ap (λ o. or_refuse o 401 >>= λ org. refuse_if (not (is_active org)) 401 >>= λ _. ok org)
        (find_first-append _ db.orgs _ h (==_refl r.org_id))

  -- The owner of the new organisation.
  abbrev pub owner : Principal
  owner =
      member_principal (record { user_id = r.user_id; org_id = r.org_id; role = "owner" })
        (new_user r hash) (new_org r slug)

  owns :
      (issued_at : ℕ)
      → find_first (is_membership r.user_id r.org_id) db.memberships ≡ none
      → find_first (is_user r.user_id) db.users ≡ none
      → find_first (λ o. o.id == r.org_id) db.orgs ≡ none
      → member_of_org created r.user_id r.org_id issued_at ≡ ok owner
  unfolding member_of_org new_user member_principal
  owns issued_at m u o = rw (finds_membership m, member_of_org, finds_user u, loads_org o) refl

-- With a PyJWT that gives back what was signed until it expires: whoever signs up, with an address and
-- ids that are new, is signed in. From then on until it expires, the access token of the pair
-- authenticates the owner of the new organisation, with an owner's scopes.
pub signup-signs_in :
    (env : Outside) (hasher : Hasher) (settings : Settings) (random : Random) (r : SignupRequest)
    (db : Db) (out : TokenPair × Db) (now : ℕ)
    → IsJwt env.jwt
    → find_first (is_membership r.user_id r.org_id) db.memberships ≡ none
    → find_first (is_user r.user_id) db.users ≡ none
    → find_first (λ o. o.id == r.org_id) db.orgs ≡ none
    → signup env hasher settings random r db ≡ ok out
    → env.now ≤ now
    → now < (env.now + access_lifetime settings) / second * second
    → (p : Principal) × (principal_from_jwt (record env { now = now }) out.0.access_token out.1
        ≡ ok p)
      × (p.user_id ≡ some r.user_id)
      × (p.org_id ≡ r.org_id)
      × (p.scopes ≡ role_scopes "owner")
unfolding principal_from_jwt issue new_org member_principal new_user log_user created
signup-signs_in env hasher settings random r db out now is_jwt m u o h after before =
    let i = signup-IsSignedUp env hasher settings random r db out h in
    let slug = unique_slug db.orgs r.organization_name r.endings r.last_ending in
    let decoded =
      (decode_token-create_access_token env.jwt is_jwt env.secret_key random.access_jti r.user_id
          (access_lifetime settings) env.now now (some r.org_id) (role_scopes "owner") after).0
        before in
    (
      owner r i.hash slug db,
      rw i.result (rw decoded (owns r i.hash slug db (env.now / second * second) m u o)),
      refl,
      refl,
      refl,
    )
