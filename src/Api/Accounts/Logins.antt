-- ===== src/Api/Accounts/Logins.antt =====
-- What a login proves (backend/geolytics/api/routes/auth.py).
use geolytics.Prelude.{
  ℕ, ◌+◌, ◌*◌, ◌/◌, ◌≤◌, ◌<◌, ◌≡◌, ◌≢◌, refl, sym, ap, ◌∙◌, String, Bool, true, false, not, ◌||◌,
  Option, none, some, List, [], ◌∷◌, ◌==◌, eq_ℕ, find_first, find_first-update_first, update_first,
  arith, lt_or_le, inl, inr, find_first-holds, In, Bool-cases, if_true, if_false, ==→eq,
  if◌then◌else◌,
}
use mathlib.Core.Path.{subst}
use geolytics.Prelude.Text.{Text, strip, lower}
use geolytics.Models
use geolytics.Models.{Organization, User, Membership, second}
use geolytics.Security.Passwords.{Hasher, verify_password}
use geolytics.Security.Tokens.Lifetime.{
  IsJwt, decode_token-create_access_token, decode_token-create_refresh_token,
  decode_token-create_refresh_token_late,
}
use geolytics.Security.Tokens.{access, refresh, decode_token}
use geolytics.Tenancy.Principal.{Principal, role_scopes}
use geolytics.Api.Result.{
  Result, ok, http, Db, refuse_if, or_refuse, first_step, ok-injective, or_refuse-ok, refuse_if-ok,
}
use geolytics.Api.Deps.{Outside, is_user, principal_from_jwt}
use geolytics.Api.Accounts.{
  Settings, Random, TokenPair, issue, access_lifetime, refresh_lifetime, has_email, in_org, named,
  first_org, select_org, proved_user, renewed, signed_in, log_user, login, refresh_pair,
}
use geolytics.Api.Accounts.Sessions.{refused_refresh, revoked_token}

-- The user, the organisation and the role of a login that succeeded, and what it left.
pub record IsLoggedIn (env : Outside) (hasher : Hasher) (settings : Settings) (random : Random)
    (email password : Text) (slug : Option Text) (db : Db) (out : TokenPair × Db) : Type 0 where
  pub user : User
  pub found : find_first (has_email (lower (strip email))) db.users ≡ some user
  pub verified : verify_password hasher user.password_hash password ≡ true
  pub active : user.is_active ≡ true
  pub hash : Text
  pub org : Organization
  pub role : String
  pub selected : first_org db.orgs user.id slug db.memberships ≡ some (org, role)
  pub open_org : Models.is_active org ≡ true
  pub result : out ≡ (
    issue env settings random user.id org role,
    log_user "auth.login" org.id user.id
        (record db { users = update_first (is_user user.id) (signed_in env.now hash) db.users }),
  )

both_hold : (b c : Bool) → not b || not c ≡ false → (b ≡ true) × (c ≡ true)
both_hold b c h = (ground arith, ground arith)

not-not : (b : Bool) → not b ≡ false → b ≡ true
not-not b h = ground arith

pub login-IsLoggedIn :
    (env : Outside) (hasher : Hasher) (settings : Settings) (random : Random)
    (email password : Text) (slug : Option Text) (db : Db) (out : TokenPair × Db)
    → login env hasher settings random email password slug db ≡ ok out
    → IsLoggedIn env hasher settings random email password slug db out
unfolding login proved_user select_org
login-IsLoggedIn env hasher settings random email password slug db out h =
    let (u, proved, h1) =
      first_step (proved_user hasher (lower (strip email)) password db.users) _ out h in
    let (v, v_is, p1) =
      first_step (or_refuse (find_first (has_email (lower (strip email))) db.users) 401) _ u
        proved in
    let (_, holds, p2) =
      first_step
        (refuse_if (not (verify_password hasher v.password_hash password) || not v.is_active) 401) _
        u p1 in
    let (verified, active) = both_hold _ _ (refuse_if-ok _ 401 tt holds) in
    let same : v ≡ u = ok-injective p2 in
    let (hash, _, h2) = first_step (renewed hasher random.salt password u.password_hash) _ out h1 in
    let (row, chosen, h3) = first_step (select_org db u.id slug) _ out h2 in
    let (row', row_is, c1) =
      first_step (or_refuse (first_org db.orgs u.id slug db.memberships) 403) _ row chosen in
    let (_, open_, c2) = first_step (refuse_if (not (Models.is_active row'.0)) 403) _ row c1 in
    let same_row : row' ≡ row = ok-injective c2 in
    record {
      user = u;
      found =
          or_refuse-ok (find_first (has_email (lower (strip email))) db.users) 401 v v_is
          ∙ ap some same;
      verified = subst (λ w. verify_password hasher w.password_hash password ≡ true) same verified;
      active = subst (λ w. w.is_active ≡ true) same active;
      hash = hash;
      org = row.0;
      role = row.1;
      selected =
          or_refuse-ok (first_org db.orgs u.id slug db.memberships) 403 row' row_is
          ∙ ap some same_row;
      open_org =
          subst (λ w. Models.is_active w.0 ≡ true) same_row
            (not-not _ (refuse_if-ok _ 403 tt open_));
      result = sym (ok-injective h3);
    }

-- A row of the join of memberships and organisations.
pub record IsRow (orgs : List Organization) (user_id : ℕ) (slug : Option Text)
    (ms : List Membership) (row : Organization × String) : Type 0 where
  pub membership : Membership
  pub listed : In membership ms
  pub of_user : membership.user_id ≡ user_id
  pub of_org : find_first (λ o. o.id == membership.org_id) orgs ≡ some row.0
  pub of_role : membership.role ≡ row.1
  pub fits : named slug row.0 ≡ true

later-IsRow :
    {orgs : List Organization} {user_id : ℕ} {slug : Option Text} {m : Membership}
    {ms : List Membership} {row : Organization × String}
    → IsRow orgs user_id slug ms row
    → IsRow orgs user_id slug (m ∷ ms) row
later-IsRow i = record {
  membership = i.membership;
  listed = inr i.listed;
  of_user = i.of_user;
  of_org = i.of_org;
  of_role = i.of_role;
  fits = i.fits;
}

first_org-IsRow :
    (orgs : List Organization) (user_id : ℕ) (slug : Option Text) (ms : List Membership)
    (row : Organization × String)
    → first_org orgs user_id slug ms ≡ some row
    → IsRow orgs user_id slug ms row
unfolding first_org
first_org-IsRow orgs user_id slug [] row h = cc
first_org-IsRow orgs user_id slug (m ∷ ms) row h = elim (Bool-cases (m.user_id == user_id)) [
  | inr e ↦ later-IsRow (first_org-IsRow orgs user_id slug ms row (sym (if_false _ _ _ e) ∙ h))
  | inl e ↦
      by_org (first_org-IsRow orgs user_id slug ms row) e (find_first (λ o. o.id == m.org_id) orgs)
        refl (sym (if_true _ _ _ e) ∙ h)
]
  where
    chosen :
        (o : Organization)
        → m.user_id == user_id ≡ true
        → find_first (λ o. o.id == m.org_id) orgs ≡ some o
        → named slug o ≡ true
        → (o, m.role) ≡ row
        → IsRow orgs user_id slug (m ∷ ms) row
    chosen o e f n is = record {
      membership = m;
      listed = inl refl;
      of_user = ==→eq m.user_id user_id e;
      of_org = f ∙ ap (λ r. some r.0) is;
      of_role = ap (λ r. r.1) is;
      fits = subst (λ r. named slug r.0 ≡ true) is n;
    }

    by_fit :
        (first_org orgs user_id slug ms ≡ some row → IsRow orgs user_id slug ms row)
        → m.user_id == user_id ≡ true
        → (o : Organization) → find_first (λ o. o.id == m.org_id) orgs ≡ some o
        → (b : Bool) → named slug o ≡ b
        → elim (if◌then◌else◌ {A = Option (Organization × String)} b (some (o, m.role)) none)
            as (λ x. Option (Organization × String)) [
              | none ↦ first_org orgs user_id slug ms
              | some r ↦ some r
            ]
          ≡ some row
        → IsRow orgs user_id slug (m ∷ ms) row
    by_fit rest e o f true n i = chosen o e f n (row_same i)
      where
        row_same : {r s : Organization × String} → some r ≡ some s → r ≡ s
        row_same i = cc
    by_fit rest e o f false n i = later-IsRow (rest i)

    by_org :
        (first_org orgs user_id slug ms ≡ some row → IsRow orgs user_id slug ms row)
        → m.user_id == user_id ≡ true
        → (found : Option Organization) → find_first (λ o. o.id == m.org_id) orgs ≡ found
        → elim (in_org slug m.role found) as (λ x. Option (Organization × String)) [
          | none ↦ first_org orgs user_id slug ms
          | some r ↦ some r
        ]
          ≡ some row
        → IsRow orgs user_id slug (m ∷ ms) row
    by_org rest e none f i = later-IsRow (rest i)
    by_org rest e (some o) f i = by_fit rest e o f (named slug o) refl i

-- A login that succeeds is of the user who has the address, with that user's password, and both the
-- account and the organisation are active. The pair of tokens is for that user, in an organisation of
-- which the user is a member (the one that was asked for, if one was), with the member's role.
pub login-proves :
    (env : Outside) (hasher : Hasher) (settings : Settings) (random : Random)
    (email password : Text) (slug : Option Text) (db : Db) (out : TokenPair × Db)
    → login env hasher settings random email password slug db ≡ ok out
    → (u : User) × (org : Organization) × (role : String) × (find_first
          (has_email (lower (strip email)))
          db.users
        ≡ some u)
      × (verify_password hasher u.password_hash password ≡ true)
      × (u.is_active ≡ true)
      × (Models.is_active org ≡ true)
      × IsRow db.orgs u.id slug db.memberships (org, role)
      × (out.0 ≡ issue env settings random u.id org role)
login-proves env hasher settings random email password slug db out h =
    let i = login-IsLoggedIn env hasher settings random email password slug db out h in
    (
      i.user,
      i.org,
      i.role,
      i.found,
      i.verified,
      i.active,
      i.open_org,
      first_org-IsRow db.orgs i.user.id slug db.memberships (i.org, i.role) i.selected,
      ap (λ o. o.0) i.result,
    )

-- A refresh token that does not decode.
undecoded_refresh :
    (env : Outside) (settings : Settings) (random : Random) (token : Text) (slug : Option Text)
    (db : Db)
    → decode_token env.jwt env.secret_key refresh env.now token ≡ none
    → refresh_pair env settings random token slug db ≡ http 401
unfolding refresh_pair
undecoded_refresh env settings random token slug db h = rw h refl

undecoded_access :
    (env : Outside) (token : Text) (db : Db)
    → decode_token env.jwt env.secret_key access env.now token ≡ none
    → principal_from_jwt env token db ≡ http 401
unfolding principal_from_jwt
undecoded_access env token db h = rw h refl

refused_ok : {A : Type 0} {m : Result A} {code : ℕ} {a : A} → m ≡ http code → m ≢ ok a
refused_ok h i = cc

-- The tokens of a login are cut to whole seconds. If the user's tokens are valid from a later instant
-- of the same second, as after a change of password, then with a PyJWT that gives back what was signed
-- until it expires the pair is worth nothing, at any time from the login on: the refresh token is
-- refused with a 401, and the access token authenticates nobody.
pub login-same_second :
    (env : Outside) (hasher : Hasher) (settings : Settings) (random random' : Random)
    (email password : Text) (slug slug' : Option Text) (db : Db) (out : TokenPair × Db) (u : User)
    (from now : ℕ)
    → IsJwt env.jwt
    → find_first (has_email (lower (strip email))) db.users ≡ some u
    → find_first (is_user u.id) db.users ≡ some u
    → u.tokens_valid_from ≡ some from
    → env.now / second * second < from
    → login env hasher settings random email password slug db ≡ ok out
    → env.now ≤ now
    → (refresh_pair (record env { now = now }) settings random' out.0.refresh_token slug' out.1
        ≡ http 401)
      × ((q : Principal)
          → principal_from_jwt (record env { now = now }) out.0.access_token out.1 ≢ ok q)
unfolding issue log_user signed_in
login-same_second env hasher settings random random' email password slug slug' db out u from now
      is_jwt found by_id valid early h after =
    let i = login-IsLoggedIn env hasher settings random email password slug db out h in
    let same : i.user ≡ u = user_same (sym i.found ∙ found) in
    let later : Outside = record env { now = now } in
    let kept =
      find_first-update_first (is_user u.id) (signed_in env.now i.hash) db.users u by_id
        (find_first-holds (is_user u.id) db.users u by_id) in
    (
      rw (i.result, same)
          (elim (lt_or_le now ((env.now + refresh_lifetime settings) / second * second)) [
            | inl before ↦
                refused_refresh later settings random' _ slug' _ _ (signed_in env.now i.hash u) u.id
                  from
                  (decode_token-create_refresh_token env.jwt is_jwt env.secret_key
                    random.refresh_jti u.id (refresh_lifetime settings) env.now now after before).0
                  refl kept valid early
            | inr late ↦ undecoded_refresh later settings random' _ slug' _ (
                decode_token-create_refresh_token_late env.jwt is_jwt env.secret_key
                  random.refresh_jti u.id (refresh_lifetime settings) env.now now late)
          ]),
      λ q.
          rw (i.result, same)
            (elim (lt_or_le now ((env.now + access_lifetime settings) / second * second)) [
              | inl before ↦
                  revoked_token later _ _ _ (signed_in env.now i.hash u) u.id from q
                    ((decode_token-create_access_token env.jwt is_jwt env.secret_key
                        random.access_jti u.id (access_lifetime settings) env.now now
                        (some i.org.id) (role_scopes i.role) after).0
                      before)
                    refl kept valid early
              | inr late ↦ refused_ok (
                  undecoded_access later _ _ (
                    (decode_token-create_access_token env.jwt is_jwt env.secret_key
                        random.access_jti u.id (access_lifetime settings) env.now now
                        (some i.org.id) (role_scopes i.role) after).1
                      late))
            ]),
    )
  where
    user_same : {a b : User} → some a ≡ some b → a ≡ b
    user_same e = cc
