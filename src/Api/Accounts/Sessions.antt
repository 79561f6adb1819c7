-- ===== src/Api/Accounts/Sessions.antt =====
-- What ends a session, and who counts as one (backend/geolytics/api/routes/auth.py).
use geolytics.Prelude.{
  ℕ, ◌<◌, ◌≡◌, ◌≢◌, refl, sym, ap, ◌∙◌, Bool, true, false, not, Option, some, eq_ℕ, find_first,
  arith, lt→ltb, find_first-holds,
}
use mathlib.Core.Path.{subst}
use geolytics.Prelude.Text.{Text}
use geolytics.Models.{User, Membership}
use geolytics.Security.Tokens.{TokenPayload, access, refresh, decode_token}
use geolytics.Tenancy.Principal.{Principal}
use geolytics.Api.Result.{
  Result, ok, http, ◌>>=◌, Db, refuse_if, or_refuse, first_step, or_refuse-ok,
}
use geolytics.Api.Deps.{
  Outside, is_user, is_membership, revoked_before, member_of_org, principal_from_jwt,
}
use geolytics.Api.Accounts.{Settings, Random, TokenPair, refresh_pair}

abbrev refused_pair : Result TokenPair
refused_pair = http 401

-- A refresh token from before the instant from which a user's tokens are valid.
pub refused_refresh :
    (env : Outside) (settings : Settings) (random : Random) (token : Text) (slug : Option Text)
    (db : Db) (claims : TokenPayload) (u : User) (user_id from : ℕ)
    → decode_token env.jwt env.secret_key refresh env.now token ≡ some claims
    → claims.user_id ≡ some user_id
    → find_first (is_user user_id) db.users ≡ some u
    → u.tokens_valid_from ≡ some from
    → claims.issued_at < from
    → refresh_pair env settings random token slug db ≡ http 401
unfolding refresh_pair
refused_refresh env settings random token slug db claims u user_id from decoded whose found valid
      early =
    rw (decoded, whose, found, valid, lt→ltb claims.issued_at from early) (either u.is_active)
  where
    either : (b : Bool) → (refuse_if (not b) 401 >>= λ w. refused_pair) ≡ http 401
    either true = refl
    either false = refl

-- A user whose tokens are valid from an instant only has no session from before.
pub revoked_session :
    (db : Db) (u : User) (user_id org_id from issued_at : ℕ) (q : Principal)
    → find_first (is_user user_id) db.users ≡ some u
    → u.tokens_valid_from ≡ some from
    → issued_at < from
    → member_of_org db user_id org_id issued_at ≢ ok q
unfolding member_of_org
revoked_session db u user_id org_id from issued_at q found valid early h =
    let (m, m_is, h1) =
      first_step (or_refuse (find_first (is_membership user_id org_id) db.memberships) 403) _ q h in
    let (v, v_is, h2) =
      first_step (or_refuse (find_first (is_user m.user_id) db.users) 403) _ q h1 in
    let (_, _, h3) = first_step (refuse_if (not v.is_active) 401) _ q h2 in
    let (done, fresh, _) =
      first_step (refuse_if (revoked_before v.tokens_valid_from issued_at) 401) _ q h3 in
    let same = membership_user m (
      find_first-holds (is_membership user_id org_id) db.memberships m
        (or_refuse-ok (find_first (is_membership user_id org_id) db.memberships) 403 m m_is)) in
    let v_found : find_first (is_user user_id) db.users ≡ some v =
      subst (λ i. find_first (is_user i) db.users ≡ some v) same
        (or_refuse-ok (find_first (is_user m.user_id) db.users) 403 v v_is) in
    refused (revoked_before v.tokens_valid_from issued_at)
      (ap (λ o. revoked_before o issued_at)
          (ap (λ w. w.tokens_valid_from) (user_same (sym v_found ∙ found)) ∙ valid)
        ∙ lt→ltb issued_at from early)
      done fresh
  where
    membership_user : (m : Membership) → is_membership user_id org_id m ≡ true → m.user_id ≡ user_id
    membership_user m e = ground (arith, e)

    user_same : {a b : User} → some a ≡ some b → a ≡ b
    user_same e = cc

    refused : (b : Bool) → b ≡ true → (w : Unit {0}) → refuse_if b 401 ≡ ok w → ⊥
    refused true e w i = cc
    refused false e w i = cc

-- No access token from before that instant authenticates its user.
pub revoked_token :
    (env : Outside) (token : Text) (db : Db) (claims : TokenPayload) (u : User) (user_id from : ℕ)
    (q : Principal)
    → decode_token env.jwt env.secret_key access env.now token ≡ some claims
    → claims.user_id ≡ some user_id
    → find_first (is_user user_id) db.users ≡ some u
    → u.tokens_valid_from ≡ some from
    → claims.issued_at < from
    → principal_from_jwt env token db ≢ ok q
unfolding principal_from_jwt
revoked_token env token db claims u user_id from q decoded whose found valid early h =
    let (org_id, _, h1) =
      first_step (or_refuse claims.org_id 403) _ q
        (ap (λ o. or_refuse o 401 >>= after_decode) (sym decoded) ∙ h) in
    revoked_session db u user_id org_id from claims.issued_at q found valid early (
      ap (λ o. or_refuse o 500 >>= λ id. member_of_org db id org_id claims.issued_at) (sym whose)
      ∙ h1)
  where
    after_decode : TokenPayload → Result Principal
    after_decode c = or_refuse c.org_id 403 >>= λ org_id.
        or_refuse c.user_id 500 >>= λ id. member_of_org db id org_id c.issued_at
