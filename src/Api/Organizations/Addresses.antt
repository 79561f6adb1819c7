-- ===== src/Api/Organizations/Addresses.antt =====
-- Mailboxes and addresses stay unique, whatever users do to their accounts and organisations
-- (backend/geolytics/api/routes/auth.py and backend/geolytics/api/routes/orgs.py).
use geolytics.Prelude.{
  ℕ, ◌≡◌, ◌⊎◌, inl, inr, refl, sym, ap, ◌∙◌, Bool, false, not, ◌&&◌, Option, none, some, List, [],
  ◌∷◌, Bool-cases, if_true, if_false, All, find_first, update_first, arith, ◌==◌, eq_ℕ,
  find_first-holds, ==→eq,
}
use mathlib.Core.Path.{subst}
use geolytics.Prelude.Text.{Text, text_eq, lower, strip}
use geolytics.Models
use geolytics.Models.{Organization, User}
use geolytics.Security.Passwords.{Hasher, hash_password, verify_password}
use geolytics.Tenancy.Principal.{Principal}
use geolytics.Api.Result.{
  Db, ok, or_refuse, refuse_if, or_refuse-ok, refuse_if-ok, first_step, ok-injective,
}
use geolytics.Api.Deps.{Outside, load_org, require_role, is_user}
use geolytics.Api.Accounts.{
  Settings, Random, TokenPair, SignupRequest, signup, login, change_password, signed_in, rekeyed,
  proved_user, renewed, select_org,
}
use geolytics.Api.Accounts.Unique.{DistinctIn, IsUnique, not_taken}
use geolytics.Api.Organizations.{OrganizationUpdate, renamed, moved, clashes, update_org}

text_eq_swap : (s t : Text) → text_eq s t ≡ text_eq t s
text_eq_swap [] [] = refl
text_eq_swap [] (d ∷ t) = refl
text_eq_swap (c ∷ s) [] = refl
text_eq_swap (c ∷ s) (d ∷ t) = ground (arith, text_eq_swap s t)

some_same : {A : Type 0} {a b : A} → some a ≡ some b → a ≡ b
some_same h = cc

module _ {A : Type 0} (name_of : A → Text) (p : A → Bool) (f : A → A) where
  -- The row that is changed keeps its text, or gets one that no row has.
  abbrev Fresh : List A → A → Type 0
  Fresh rows a =
      (name_of (f a) ≡ name_of a) ⊎ All (λ b. text_eq (name_of b) (name_of (f a)) ≡ false) rows

  All-update_first :
      (b : A) (rows : List A)
      → ((a : A)
          → find_first p rows ≡ some a
          → (name_of (f a) ≡ name_of a) ⊎ (text_eq (name_of b) (name_of (f a)) ≡ false))
      → All (λ c. text_eq (name_of b) (name_of c) ≡ false) rows
      → All (λ c. text_eq (name_of b) (name_of c) ≡ false) (update_first p f rows)
  All-update_first b [] fresh h = tt
  All-update_first b (x ∷ rows) fresh h = elim (Bool-cases (p x)) [
    | inl e ↦
        subst (All (λ c. text_eq (name_of b) (name_of c) ≡ false)) (sym (if_true _ _ _ e))
          (head_of (fresh x (if_true _ _ _ e)), h.1)
    | inr e ↦
        subst (All (λ c. text_eq (name_of b) (name_of c) ≡ false)) (sym (if_false _ _ _ e))
          (h.0, All-update_first b rows (λ a i. fresh a (if_false _ _ _ e ∙ i)) h.1)
  ]
    where
      head_of :
          (name_of (f x) ≡ name_of x) ⊎ (text_eq (name_of b) (name_of (f x)) ≡ false)
          → text_eq (name_of b) (name_of (f x)) ≡ false
      head_of (inl same) = ap (text_eq (name_of b)) same ∙ h.0
      head_of (inr other) = other

  DistinctIn-update_first :
      (rows : List A)
      → ((a : A) → find_first p rows ≡ some a → Fresh rows a)
      → DistinctIn name_of rows
      → DistinctIn name_of (update_first p f rows)
  DistinctIn-update_first [] fresh d = tt
  DistinctIn-update_first (x ∷ rows) fresh d = elim (Bool-cases (p x)) [
    | inl e ↦
        subst (DistinctIn name_of) (sym (if_true _ _ _ e))
          (head_of (fresh x (if_true _ _ _ e)), d.1)
    | inr e ↦ subst (DistinctIn name_of) (sym (if_false _ _ _ e)) (
      All-update_first x rows (λ a i. first_of (fresh a (if_false _ _ _ e ∙ i))) d.0,
      DistinctIn-update_first rows (λ a i. rest_of (fresh a (if_false _ _ _ e ∙ i))) d.1,
    )
  ]
    where
      flip :
          (t : Text) (bs : List A)
          → All (λ b. text_eq (name_of b) t ≡ false) bs
          → All (λ b. text_eq t (name_of b) ≡ false) bs
      flip t [] h = tt
      flip t (b ∷ bs) h = (text_eq_swap t (name_of b) ∙ h.0, flip t bs h.1)

      head_of : Fresh (x ∷ rows) x → All (λ c. text_eq (name_of (f x)) (name_of c) ≡ false) rows
      head_of (inl same) = subst (λ t. All (λ c. text_eq t (name_of c) ≡ false) rows) (sym same) d.0
      head_of (inr h) = flip (name_of (f x)) rows h.1

      first_of :
          {a : A}
          → Fresh (x ∷ rows) a
          → (name_of (f a) ≡ name_of a) ⊎ (text_eq (name_of x) (name_of (f a)) ≡ false)
      first_of (inl same) = inl same
      first_of (inr h) = inr h.0

      rest_of : {a : A} → Fresh (x ∷ rows) a → Fresh rows a
      rest_of (inl same) = inl same
      rest_of (inr h) = inr h.1

renamed-slug : (name : Option Text) (o : Organization) → (renamed name o).slug ≡ o.slug
renamed-slug none o = refl
renamed-slug (some n) o = refl

-- A slug that does not clash stays or is free.
moved-Fresh :
    (slug name : Option Text) (o : Organization) (orgs : List Organization)
    → clashes slug o orgs ≡ false
    → Fresh (λ q. q.slug) (λ q. q.id == o.id) (λ q. moved slug (renamed name q)) orgs o
moved-Fresh none name o orgs h = inl (renamed-slug name o)
moved-Fresh (some slug) name o orgs h = elim (Bool-cases (text_eq slug o.slug)) [
  | inl e ↦ inl (
      ap {A = Organization} (λ q. q.slug)
        (if_true _ _ _ (ap (text_eq slug) (renamed-slug name o) ∙ e))
      ∙ renamed-slug name o)
  | inr e ↦ inr (
      subst (λ t. All (λ q. text_eq q.slug t ≡ false) orgs)
        (sym (
          ap {A = Organization} (λ q. q.slug)
            (if_false _ _ _ (ap (text_eq slug) (renamed-slug name o) ∙ e))))
        (not_taken slug orgs (free_of _ _ e h)))
]
  where
    free_of : (b c : Bool) → b ≡ false → not b && c ≡ false → c ≡ false
    free_of b c e h = ground arith

pub update_org-IsUnique :
    (r : OrganizationUpdate) (principal : Principal) (db db' : Db)
    → IsUnique db
    → update_org r principal db ≡ ok db'
    → IsUnique db'
unfolding update_org load_org geolytics.Api.Members.log_action
update_org-IsUnique r principal db db' unique h =
    let (org, loaded, h1) = first_step (load_org db principal.org_id) _ db' h in
    let (caller, _, h2) = first_step (require_role ("owner" ∷ "admin" ∷ []) principal) _ db' h1 in
    let (_, free, h3) = first_step (refuse_if (clashes r.slug org db.orgs) 409) _ db' h2 in
    let (o, found, l1) =
      first_step (or_refuse (find_first (λ q. q.id == principal.org_id) db.orgs) 401) _ org
        loaded in
    let (_, _, l2) = first_step (refuse_if (not (Models.is_active o)) 401) _ org l1 in
    let there : find_first (λ q. q.id == principal.org_id) db.orgs ≡ some org =
      or_refuse-ok _ 401 o found ∙ ap some (ok-injective l2) in
    let same : org.id ≡ principal.org_id =
      ==→eq org.id principal.org_id
        (find_first-holds (λ q. q.id == principal.org_id) db.orgs org there) in
    rw (sym (ok-injective h3)) (
      unique.0,
      DistinctIn-update_first (λ q. q.slug) (λ q. q.id == org.id)
          (λ q. moved r.slug (renamed r.name q)) db.orgs
          (λ a i.
            subst
              (Fresh (λ q. q.slug) (λ q. q.id == org.id) (λ q. moved r.slug (renamed r.name q))
                db.orgs)
              (some_same (sym there ∙ ap (λ n. find_first (λ q. q.id == n) db.orgs) (sym same) ∙ i))
              (moved-Fresh r.slug r.name org db.orgs (refuse_if-ok _ 409 tt free)))
          unique.1,
    )

-- A change of a user's row that keeps the address.
same_address :
    (user_id : ℕ) (f : User → User) (db : Db)
    → ((u : User) → (f u).email ≡ u.email)
    → IsUnique db
    → DistinctIn (λ u. lower u.email) (update_first (is_user user_id) f db.users)
same_address user_id f db keeps unique =
    DistinctIn-update_first (λ u. lower u.email) (is_user user_id) f db.users
      (λ a i. inl (ap lower (keeps a))) unique.0

pub login-IsUnique :
    (env : Outside) (hasher : Hasher) (settings : Settings) (random : Random)
    (email password : Text) (slug : Option Text) (db : Db) (out : TokenPair × Db)
    → IsUnique db
    → login env hasher settings random email password slug db ≡ ok out
    → IsUnique out.1
unfolding login geolytics.Api.Accounts.log_user signed_in
login-IsUnique env hasher settings random email password slug db out unique h =
    let (u, _, h1) =
      first_step (proved_user hasher (lower (strip email)) password db.users) _ out h in
    let (hash, _, h2) = first_step (renewed hasher random.salt password u.password_hash) _ out h1 in
    let (row, _, h3) = first_step (select_org db u.id slug) _ out h2 in
    rw (sym (ok-injective h3))
      (same_address u.id (signed_in env.now hash) db (λ v. refl) unique, unique.1)

pub change_password-IsUnique :
    (env : Outside) (hasher : Hasher) (salt current new : Text) (p : Principal) (db db' : Db)
    → IsUnique db
    → change_password env hasher salt current new p db ≡ ok db'
    → IsUnique db'
unfolding change_password rekeyed
change_password-IsUnique env hasher salt current new p db db' unique h =
    let (id, _, h1) = first_step (or_refuse p.user_id 403) _ db' h in
    let (u, _, h2) = first_step (or_refuse (find_first (is_user id) db.users) 401) _ db' h1 in
    let (_, _, h3) =
      first_step (refuse_if (not (verify_password hasher u.password_hash current)) 401) _ db' h2 in
    let (hash, _, h4) = first_step (or_refuse (hash_password hasher salt new) 422) _ db' h3 in
    rw (sym (ok-injective h4))
      (same_address id (rekeyed env.now hash) db (λ v. refl) unique, unique.1)
