-- ===== src/Api/Accounts/Unique.antt =====
-- Addresses and names stay unique (backend/geolytics/api/routes/auth.py).
use geolytics.Prelude.{
  ℕ, ◌≡◌, refl, sym, ap, ◌∙◌, Bool, true, false, ◌||◌, some, List, [], ◌∷◌, ◌++◌, is_some,
  Bool-cases, inl, inr, if_true, if_false, All, arith, find_first, eq_ℕ,
}
use mathlib.Core.Path.{subst}
use geolytics.Prelude.Text.{Text, text_eq, strip, lower, lower_code}
use geolytics.Models.{Organization, User, ApiKey}
use geolytics.Security.ApiKeys.{ParsedApiKey}
use geolytics.Security.Passwords.{Hasher}
use geolytics.Tenancy.Principal.{Principal}
use geolytics.Api.Result.{ok, Db, first_step, ok-injective}
use geolytics.Api.Deps.{
  Outside, is_user, proved_key, load_org, key_principal, principal_from_api_key,
}
use geolytics.Api.Slugs.{is_taken, unique_slug}
use geolytics.Api.Accounts.{
  Settings, Random, TokenPair, SignupRequest, has_email, new_user, new_org, add_account, log_user,
  signup, me,
}
use geolytics.Api.Accounts.SignIn.{signup-IsSignedUp}

module _ {A : Type 0} (name_of : A → Text) where
  -- No two rows have the same text in a column.
  abbrev pub DistinctIn : List A → Type 0
  DistinctIn [] = Unit
  DistinctIn (a ∷ rows) = All (λ b. text_eq (name_of a) (name_of b) ≡ false) rows × DistinctIn rows

  All-end : (P : A → Type 0) (rows : List A) (a : A) → All P rows → P a → All P (rows ++ a ∷ [])
  All-end P [] a h p = (p, tt)
  All-end P (b ∷ rows) a h p = (h.0, All-end P rows a h.1 p)

  one_more :
      (rows : List A) (a : A)
      → DistinctIn rows
      → All (λ b. text_eq (name_of b) (name_of a) ≡ false) rows
      → DistinctIn (rows ++ a ∷ [])
  one_more [] a d h = (tt, tt)
  one_more (b ∷ rows) a d h = (All-end _ rows a d.0 h.0, one_more rows a d.1 h.1)

-- One mailbox is one account, whatever the case of its letters, and an organisation's name in
-- addresses is its own.
abbrev pub IsUnique : Db → Type 0
IsUnique db = DistinctIn (λ u. lower u.email) db.users × DistinctIn (λ o. o.slug) db.orgs

lower_code-twice : (c : ℕ) → lower_code (lower_code c) ≡ lower_code c
lower_code-twice c = ground arith

lower-twice : (t : Text) → lower (lower t) ≡ lower t
unfolding lower
lower-twice [] = refl
lower-twice (c ∷ t) =
    ap (λ d. d ∷ lower (lower t)) (lower_code-twice c) ∙ ap (λ s. lower_code c ∷ s) (lower-twice t)

true-false : true ≡ false → ⊥
true-false h = cc

no_user :
    (email : Text) (users : List User)
    → is_some (find_first (has_email email) users) ≡ false
    → All (λ u. text_eq (lower u.email) email ≡ false) users
no_user email [] h = tt
no_user email (u ∷ users) h = elim (Bool-cases (has_email email u)) [
  | inl e ↦ absurd (true-false (sym (ap is_some (if_true _ _ _ e)) ∙ h))
  | inr e ↦ (e, no_user email users (sym (ap is_some (if_false _ _ _ e)) ∙ h))
]

pub not_taken :
    (slug : Text) (orgs : List Organization)
    → is_taken orgs slug ≡ false
    → All (λ o. text_eq o.slug slug ≡ false) orgs
not_taken slug [] h = tt
not_taken slug (o ∷ orgs) h =
    let (first, rest) = neither (text_eq o.slug slug) (is_taken orgs slug) h in
    (first, not_taken slug orgs rest)
  where
    neither : (b c : Bool) → b || c ≡ false → (b ≡ false) × (c ≡ false)
    neither b c h = (ground arith, ground arith)

-- A signup that succeeds keeps it so that no two users have one mailbox, whatever the case of its
-- letters, and no two organisations one name in addresses.
pub signup-IsUnique :
    (env : Outside) (hasher : Hasher) (settings : Settings) (random : Random) (r : SignupRequest)
    (db : Db) (out : TokenPair × Db)
    → IsUnique db
    → signup env hasher settings random r db ≡ ok out
    → IsUnique out.1
unfolding log_user add_account new_user new_org
signup-IsUnique env hasher settings random r db out unique h =
    let i = signup-IsSignedUp env hasher settings random r db out h in
    let email = lower (strip r.email) in
    let slug = unique_slug db.orgs r.organization_name r.endings r.last_ending in
    rw i.result (
      one_more (λ u. lower u.email) db.users (new_user r i.hash) unique.0
          (subst (λ e. All (λ u. text_eq (lower u.email) e ≡ false) db.users)
            (sym (lower-twice (strip r.email))) (no_user email db.users i.no_email)),
      one_more (λ o. o.slug) db.orgs (new_org r slug) unique.1
          (not_taken slug db.orgs (other_false _ _ i.no_slug)),
    )
  where
    other_false : (b c : Bool) → b || c ≡ false → c ≡ false
    other_false b c h = ground arith

-- The endpoint that shows an account means to be for user sessions only, but an API key that names the
-- user who created it passes: its caller is shown that user's account.
pub me-principal_from_api_key :
    (env : Outside) (parsed : ParsedApiKey) (db : Db) (key : ApiKey) (out : Principal × Db)
    (user_id : ℕ) (u : User)
    → proved_key env parsed db ≡ ok key
    → key.created_by_user_id ≡ some user_id
    → find_first (is_user user_id) db.users ≡ some u
    → principal_from_api_key env parsed db ≡ ok out
    → me out.0 out.1 ≡ ok u
unfolding me principal_from_api_key key_principal
me-principal_from_api_key env parsed db key out user_id u proved creator found h =
    let (k, k_is, h1) = first_step (proved_key env parsed db) _ out h in
    let (org, _, h2) = first_step (load_org db k.org_id) _ out h1 in
    let same : k ≡ key = ok-injective (sym k_is ∙ proved) in
    rw (sym (ok-injective h2), same, creator, found) refl
