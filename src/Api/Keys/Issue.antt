-- ===== src/Api/Keys/Issue.antt =====
-- What a key that is issued may do, and that it authenticates.
use geolytics.Prelude.{
  ℕ, ◌+◌, ◌≤◌, ◌<◌, String, ◌≡◌, ◌≢◌, refl, ap, ◌∙◌, ◌++◌, if_false, Bool, true, false, ◌&&◌, ◌||◌,
  Option, none, some, List, [], ◌∷◌, arith, ◌==◌, eq_ℕ, eq_string, eq_iff, if◌then◌else◌, leb,
  contains, update_first, any,
}
use geolytics.Prelude.Text.{
  Text, text_eq, text_eq_refl, is_space, free_of, HasNoSpace, HasNoSpace-append, strip-same,
}
use geolytics.Models.{Organization, ApiKey, is_usable, unexpired}
use geolytics.Security.ApiKeys.{
  Environment, live, test, prefix_of, dot, is_empty, ParsedApiKey, generate_api_key, parse_api_key,
  verify_api_key,
}
use geolytics.Security.ApiKeys.RoundTrip.{parse_api_key-generate_api_key}
use geolytics.Tenancy.Plans.{Plan}
use geolytics.Tenancy.Principal.{Principal, role_scopes, effective_scopes}
use geolytics.Tenancy.Principal.Scopes.{contains-effective_scopes, requested}
use geolytics.Api.Result.{ok, Db, refuse_if, after-bind, after-done, refuse_if-ok}
use geolytics.Api.Deps.{
  Outside, touch, load_org, require_role, proved_key, key_principal, principal_from_api_key,
  by_token, current_principal,
}
use geolytics.Api.Members.{plan_of, log_action}
use geolytics.Api.Members.Effects.{load_org-id, require_role-same}
use geolytics.Api.Keys.{
  insert_sorted, sorted, issued_scopes_for_key, live_keys, KeyRequest, key_role, expiry, new_key,
  create_key, is_empty_list,
}

contains-insert_sorted :
    (s t : String) (ss : List String) → contains (insert_sorted s ss) t ≡ (s == t || contains ss t)
unfolding insert_sorted
contains-insert_sorted s t [] = refl
contains-insert_sorted s t (u ∷ ss) =
    ground (arith, contains-insert_sorted s t ss, eq_iff s t, eq_iff u t)

contains-sorted : (ss : List String) (t : String) → contains (sorted ss) t ≡ contains ss t
unfolding sorted
contains-sorted [] t = refl
contains-sorted (s ∷ ss) t =
    ground (arith, contains-insert_sorted s t (sorted ss), contains-sorted ss t)

contains-issued :
    (role : String) (r : Option (List String)) (s : String)
    → contains (issued_scopes_for_key role r) s ≡ (contains (role_scopes role) s && requested r s)
unfolding issued_scopes_for_key
contains-issued role r s =
    contains-sorted (effective_scopes role r) s ∙ contains-effective_scopes role r s

-- The row of a key that was issued, and the tables after it.
pub record IsIssued (env : Outside) (r : KeyRequest) (p : Principal) (db : Db)
    (out : ApiKey × Text × Db) : Type 0 where
  pub org : Organization
  pub plan : Plan
  pub loaded : load_org db p.org_id ≡ ok org
  pub planned : plan_of org ≡ ok plan
  pub room : live_keys p.org_id db.api_keys < plan.max_api_keys
  pub row :
      out.0 ≡ new_key env.hash env.now r p.org_id p (issued_scopes_for_key (key_role p) r.scopes)
  pub stored : out.2.api_keys ≡ out.0 ∷ db.api_keys
  pub same_orgs : out.2.orgs ≡ db.orgs
  pub shown : out.1 ≡ (generate_api_key env.hash r.environment r.lookup_id r.secret).token

lt-of-leb : (m n : ℕ) → leb m n ≡ false → n < m
lt-of-leb m n h = ground arith

pub create_key-IsIssued :
    (env : Outside) (r : KeyRequest) (p : Principal) (db : Db) (out : ApiKey × Text × Db)
    → create_key env.hash env.now r p db ≡ ok out
    → IsIssued env r p db out
unfolding create_key log_action
create_key-IsIssued env r p db =
    after-bind (IsIssued env r p db) (load_org db p.org_id) _ λ org loaded.
      after-bind _ (require_role ("owner" ∷ "admin" ∷ []) p) _ λ caller allowed.
        after-bind _ (plan_of org) _ λ plan planned.
          after-bind _ (refuse_if (leb plan.max_api_keys (live_keys org.id db.api_keys)) 402) _
            λ _ room.
              after-bind _
                (refuse_if (is_empty_list (issued_scopes_for_key (key_role caller) r.scopes)) 422) _
                λ _ _.
                  after-bind _
                    (refuse_if (any (λ k. text_eq k.lookup_id r.lookup_id) db.api_keys) 503) _
                    λ _ _.
                      let same = (require_role-same ("owner" ∷ "admin" ∷ []) p caller allowed).0 in
                      let id = load_org-id db p.org_id org loaded in
                      after-done _ _ (record {
                        org = org;
                        plan = plan;
                        loaded = loaded;
                        planned = planned;
                        room = rw (← id) (lt-of-leb _ _ (refuse_if-ok _ 402 _ room));
                        row = rw (same, id) refl;
                        stored = refl;
                        same_orgs = refl;
                        shown = refl;
                      })

within :
    (role : String) (granted : Option (List String)) (s : String)
    → contains (issued_scopes_for_key role granted) s ≡ true
    → contains (role_scopes role) s ≡ true
within role granted s h = ground (arith, contains-issued role granted s)

one_more : (b : Bool) (n m : ℕ) → n < m → (if b then 1 else 0) + n ≤ m
one_more true n m h = omega arith
one_more false n m h = omega arith

-- A key that is created can do only what its creator's role can (that of a member, for a creator
-- without a role), lives in the creator's organisation, and leaves it within the number of keys
-- that its plan allows.
pub create_key-limits :
    (env : Outside) (r : KeyRequest) (p : Principal) (db : Db) (out : ApiKey × Text × Db)
    → create_key env.hash env.now r p db ≡ ok out
    → ((s : String) → contains out.0.scopes s ≡ true → contains (role_scopes (key_role p)) s ≡ true)
      × (out.0.org_id ≡ p.org_id)
      × (org : Organization) × (load_org db p.org_id ≡ ok org)
      × (plan : Plan) × (plan_of org ≡ ok plan)
      × (live_keys p.org_id out.2.api_keys ≤ plan.max_api_keys)
unfolding new_key
create_key-limits env r p db out h =
    let i = create_key-IsIssued env r p db out h in
    (
      λ s. rw i.row (within (key_role p) r.scopes s),
      rw i.row refl,
      i.org,
      i.loaded,
      i.plan,
      i.planned,
      rw (i.stored, i.row) (one_more _ _ _ i.room),
    )

unexpired_new : (now : ℕ) (days : Option ℕ) → unexpired now (expiry now days) ≡ true
unfolding unexpired expiry
unexpired_new now none = refl
unexpired_new now (some days) = ground arith

abbrev parsed : KeyRequest → ParsedApiKey
parsed r = record { environment = r.environment; lookup_id = r.lookup_id; secret = r.secret }

-- The newest row is the one that its token finds.
proved_new :
    (env : Outside) (r : KeyRequest) (org_id : ℕ) (p : Principal) (scopes : List String) (db : Db)
    (ks : List ApiKey)
    → db.api_keys ≡ new_key env.hash env.now r org_id p scopes ∷ ks
    → proved_key env (parsed r) db ≡ ok (new_key env.hash env.now r org_id p scopes)
unfolding proved_key new_key is_usable verify_api_key generate_api_key
proved_new env r org_id p scopes db ks e =
    rw
      (
        e,
        text_eq_refl r.lookup_id,
        text_eq_refl (env.hash r.secret),
        unexpired_new env.now r.expires_in_days,
      )
      refl

load_org-orgs : (d e : Db) (id : ℕ) → d.orgs ≡ e.orgs → load_org d id ≡ load_org e id
unfolding load_org
load_org-orgs d e id h = rw h refl

-- The token of a key has no white space to strip.
token-HasNoSpace :
    (hash : Text → Text) (e : Environment) (lookup_id secret : Text)
    → HasNoSpace lookup_id
    → HasNoSpace secret
    → HasNoSpace (generate_api_key hash e lookup_id secret).token
unfolding generate_api_key is_space
token-HasNoSpace hash e lookup_id secret l s =
    HasNoSpace-append (prefix_of e ++ lookup_id) (dot ∷ secret)
      (HasNoSpace-append (prefix_of e) lookup_id (plain e) l) (refl, s)
  where
    plain : (e : Environment) → HasNoSpace (prefix_of e)
    plain live = (refl, (refl, (refl, (refl, (refl, (refl, (refl, (refl, tt))))))))
    plain test = (refl, (refl, (refl, (refl, (refl, (refl, (refl, (refl, tt))))))))

token_filled :
    (hash : Text → Text) (e : Environment) (lookup_id secret : Text)
    → is_empty (generate_api_key hash e lookup_id secret).token ≡ false
unfolding generate_api_key
token_filled hash live lookup_id secret = refl
token_filled hash test lookup_id secret = refl

-- A request that carries the token of a key is the caller of its parts.
by_key_token :
    (env : Outside) (r : KeyRequest) (db : Db)
    → r.lookup_id ≢ []
    → r.secret ≢ []
    → free_of dot r.lookup_id ≡ true
    → HasNoSpace r.lookup_id
    → HasNoSpace r.secret
    → current_principal env
        (some (generate_api_key env.hash r.environment r.lookup_id r.secret).token)
        db
      ≡ principal_from_api_key env (parsed r) db
unfolding current_principal by_token
by_key_token env r db filled secret undotted l s =
    let token = (generate_api_key env.hash r.environment r.lookup_id r.secret).token in
    let same =
      strip-same token (token-HasNoSpace env.hash r.environment r.lookup_id r.secret l s) in
    if_false _ _ _ (token_filled env.hash r.environment r.lookup_id r.secret)
    ∙ ap (λ t. by_token env t (parse_api_key t) db) same
    ∙ ap (λ o. by_token env token o db)
        (parse_api_key-generate_api_key env.hash r.environment r.lookup_id r.secret filled secret
          undotted).0

-- The token that `create_key` returns, sent with a request, authenticates at once, as a caller of the
-- creator's organisation with the scopes that were stored; given that the random texts are not empty
-- and without white space, and the lookup id without a dot.
pub create_key-authenticates :
    (env : Outside) (r : KeyRequest) (p : Principal) (db : Db) (key : ApiKey) (token : Text)
    (db' : Db)
    → r.lookup_id ≢ []
    → r.secret ≢ []
    → free_of dot r.lookup_id ≡ true
    → HasNoSpace r.lookup_id
    → HasNoSpace r.secret
    → create_key env.hash env.now r p db ≡ ok (key, token, db')
    → (q : Principal) × (d : Db) × (current_principal env (some token) db' ≡ ok (q, d))
      × (q.org_id ≡ p.org_id)
      × (q.scopes ≡ key.scopes)
unfolding principal_from_api_key key_principal new_key
create_key-authenticates env r p db key token db' filled secret undotted l s h =
    let i = create_key-IsIssued env r p db (key, token, db') h in
    let proved =
      proved_new env r p.org_id p (issued_scopes_for_key (key_role p) r.scopes) db' db.api_keys
        (rw (← i.row) i.stored) in
    let row = new_key env.hash env.now r p.org_id p (issued_scopes_for_key (key_role p) r.scopes) in
    let loaded = load_org-orgs db' db p.org_id i.same_orgs ∙ i.loaded in
    (
      key_principal row i.org,
      record db' { api_keys = update_first (λ k. k.id == row.id) (touch env.now) db'.api_keys },
      ap (λ t. current_principal env (some t) db') i.shown
          ∙ by_key_token env r db' filled secret undotted l s
          ∙ rw (proved, principal_from_api_key) (rw loaded refl),
      load_org-id db p.org_id i.org i.loaded,
      rw i.row refl,
    )
