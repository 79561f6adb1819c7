-- ===== src/Api/Keys/Revoke.antt =====
-- What revoking a key does, and what a key's scopes depend on.
use geolytics.Prelude.{
  ℕ, ◌≡◌, ◌≢◌, ◌⊎◌, inl, inr, refl, sym, ap, ◌∙◌, Bool, true, false, not, some, List, [], ◌∷◌,
  arith, ◌==◌, eq_ℕ, eq_string, if◌then◌else◌, find_first, update_first, is_some, nat_eq_iff,
  find_first-holds,
}
use geolytics.Prelude.Text.{Text, text_eq}
use geolytics.Models.{ApiKey, User, Membership, is_usable}
use geolytics.Security.ApiKeys.{ParsedApiKey}
use geolytics.Tenancy.Principal.{Principal}
use geolytics.Api.Result.{
  Result, ok, http, ◌>>=◌, bind-cong, Db, refuse_if, or_refuse, after-bind, after-done,
  refuse_if-ok, or_refuse-ok,
}
use geolytics.Api.Deps.{Outside, touch, load_org, require_role, proved_key, principal_from_api_key}
use geolytics.Api.Members.{log_action}
use geolytics.Api.Members.Effects.{require_role-same}
use geolytics.Api.Keys.{revoke, revoke_key}

abbrev has_id : ℕ → ApiKey → Bool
has_id id k = k.id == id

abbrev has_lookup : Text → ApiKey → Bool
has_lookup lookup k = text_eq k.lookup_id lookup

-- The row that both columns find is the one that is changed.
find-revoked :
    (now id : ℕ) (lookup : Text) (k : ApiKey) (ks : List ApiKey)
    → find_first (has_lookup lookup) ks ≡ some k
    → find_first (has_id id) ks ≡ some k
    → find_first (has_lookup lookup) (update_first (has_id id) (revoke now) ks)
      ≡ some (revoke now k)
find-revoked now id lookup k [] h i = cc
find-revoked now id lookup k (x ∷ ks) h i = ground (
  arith,
  find-revoked now id lookup k ks,
  find_first-holds (has_lookup lookup) ks k,
  find_first-holds (has_id id) ks k,
)

refused_revoked :
    (env : Outside) (parsed : ParsedApiKey) (db : Db) (k : ApiKey)
    → find_first (has_lookup parsed.lookup_id) db.api_keys ≡ some k
    → is_some k.revoked_at ≡ true
    → principal_from_api_key env parsed db ≡ http 401
unfolding principal_from_api_key proved_key is_usable
refused_revoked env parsed db k h r = rw h (ground arith)

-- The key was one of the caller's organisation, and is revoked now.
abbrev IsRevoked : ℕ → ℕ → Principal → Db → Db → Type 0
IsRevoked now id p db db' =
    (k : ApiKey) × (find_first (has_id id) db.api_keys ≡ some k)
    × (k.org_id ≡ p.org_id)
    × (((is_some k.revoked_at ≡ true) × (db'.api_keys ≡ db.api_keys))
        ⊎ (db'.api_keys ≡ update_first (has_id id) (revoke now) db.api_keys))

written :
    (b : Bool) (f : Db → List ApiKey) (x y : Db) (ks ls : List ApiKey)
    → f x ≡ ks
    → f y ≡ ls
    → ((b ≡ true) × (f (if b then x else y) ≡ ks)) ⊎ (f (if b then x else y) ≡ ls)
written true f x y ks ls h i = inl (refl, h)
written false f x y ks ls h i = inr i

not-false : (b : Bool) → not b ≡ false → b ≡ true
not-false true h = refl
not-false false h = cc

revoke_key-IsRevoked :
    (now id : ℕ) (p : Principal) (db db' : Db)
    → revoke_key now id p db ≡ ok db'
    → IsRevoked now id p db db'
unfolding revoke_key log_action
revoke_key-IsRevoked now id p db =
    after-bind (IsRevoked now id p db) (require_role ("owner" ∷ "admin" ∷ []) p) _ λ caller allowed.
      let same = (require_role-same ("owner" ∷ "admin" ∷ []) p caller allowed).0 in
      after-bind _ (or_refuse (find_first (has_id id) db.api_keys) 404) _ λ k found.
        after-bind _ (refuse_if (not (k.org_id == caller.org_id)) 404) _ λ _ own. after-done _ _ (
          k,
          or_refuse-ok _ 404 k found,
          rw (← same)
              ((nat_eq_iff k.org_id caller.org_id).0 (not-false _ (refuse_if-ok _ 404 _ own))),
          written (is_some k.revoked_at) (λ d. d.api_keys) _ _ _ _ refl refl,
        )

some-injective : (j k : ApiKey) → some j ≡ some k → j ≡ k
some-injective j k h = cc

-- After a request that revokes a key its token is refused, whatever secret it carries, given that
-- the key's id and its lookup id find the same row.
pub revoke_key-refuses :
    (now id : ℕ) (p : Principal) (db db' : Db) (env : Outside) (parsed : ParsedApiKey) (k : ApiKey)
    → revoke_key now id p db ≡ ok db'
    → find_first (has_id id) db.api_keys ≡ some k
    → find_first (has_lookup parsed.lookup_id) db.api_keys ≡ some k
    → principal_from_api_key env parsed db' ≡ http 401
revoke_key-refuses now id p db db' env parsed k h by_id by_lookup =
    let (j, found, _, after) = revoke_key-IsRevoked now id p db db' h in
    elim after [
      | inl (revoked, kept) ↦
          refused_revoked env parsed db' k (rw kept by_lookup)
            (rw (some-injective j k (sym found ∙ by_id)) at revoked)
      | inr changed ↦
          refused_revoked env parsed db' (revoke now k)
            (rw changed (find-revoked now id parsed.lookup_id k db.api_keys by_lookup by_id)) refl
    ]

hidden :
    (k : ApiKey) (q : Principal) (f : Unit {0} → Result Db)
    → k.org_id ≢ q.org_id
    → (refuse_if (not (k.org_id == q.org_id)) 404 >>= f) ≡ http 404
hidden k q f ne = ground arith

-- A caller who asks to revoke a key of another organisation gets the answer and the effect that it
-- would get if there were no keys at all.
pub revoke_key-other_org :
    (now id : ℕ) (p : Principal) (db : Db) (k : ApiKey)
    → find_first (has_id id) db.api_keys ≡ some k
    → k.org_id ≢ p.org_id
    → revoke_key now id p db ≡ revoke_key now id p (record db { api_keys = [] })
unfolding revoke_key
revoke_key-other_org now id p db k found other =
    bind-cong (require_role ("owner" ∷ "admin" ∷ []) p) _ _ λ q allowed. rw found (
      hidden k q _
        (λ e. other (e ∙ ap (λ (r : Principal). r.org_id) (require_role-same _ p q allowed).0)))

module _ (env : Outside) (parsed : ParsedApiKey) (db : Db) (id : ℕ) (ms : List Membership)
    (us : List User) where
  proved_key-same :
      proved_key env parsed (record db { memberships = ms; users = us }) ≡ proved_key env parsed db
  unfolding proved_key
  proved_key-same = refl

  load_org-same : load_org (record db { memberships = ms; users = us }) id ≡ load_org db id
  unfolding load_org
  load_org-same = refl

-- A key that authenticates goes on to do so as the same caller, with the same scopes, whatever the
-- memberships and users become: the role of its creator is not asked again.
pub principal_from_api_key-memberships :
    (env : Outside) (parsed : ParsedApiKey) (db d : Db) (p : Principal) (ms : List Membership)
    (us : List User)
    → principal_from_api_key env parsed db ≡ ok (p, d)
    → (e : Db) × (principal_from_api_key env parsed (record db { memberships = ms; users = us })
        ≡ ok (p, e))
unfolding principal_from_api_key
principal_from_api_key-memberships env parsed db d p ms us =
    after-bind
      (λ (out : Principal × Db).
        (e : Db) × (principal_from_api_key env parsed (record db { memberships = ms; users = us })
          ≡ ok (out.0, e)))
      (proved_key env parsed db) _
      (λ key proved. after-bind _ (load_org db key.org_id) _ λ org loaded. after-done _ _ (
        record db {
          memberships = ms;
          users = us;
          api_keys = update_first (λ k. k.id == key.id) (touch env.now) db.api_keys;
        },
        rw (proved_key-same env parsed db key.org_id ms us ∙ proved)
            (rw (load_org-same env parsed db key.org_id ms us ∙ loaded) refl),
      ))
      (p, d)
