-- ===== src/Tenancy/Principal/Scopes.antt =====
-- What roles and grants let a caller do.
use geolytics.Prelude.{
  String, ◌≡◌, ◌↔◌, refl, sym, Bool, true, false, ◌&&◌, Option, none, some, List, [], ◌∷◌, arith,
  eq_string, eq_iff, contains, keep,
}
use geolytics.Tenancy.Principal.{role_scopes, Principal, require, effective_scopes}

-- Keeping what a test accepts, among the elements that a list has.
pub contains-keep :
    (p : String → Bool) (xs : List String) (s : String)
    → contains (keep p xs) s ≡ (contains xs s && p s)
contains-keep p [] s = ground arith
contains-keep p (x ∷ xs) s = ground (arith, eq_iff x s, contains-keep p xs s)

&&-true : (b : Bool) → (b && true) ≡ b
&&-true true = refl
&&-true false = refl

abbrev pub requested : Option (List String) → String → Bool
requested none s = true
requested (some granted) s = contains granted s

-- A scope is effective exactly when the role grants it and the key asked for it (a key that names
-- no scopes asks for all).
pub contains-effective_scopes :
    (role : String) (granted : Option (List String)) (s : String)
    → contains (effective_scopes role granted) s
      ≡ (contains (role_scopes role) s && requested granted s)
unfolding effective_scopes
contains-effective_scopes role none s = sym (&&-true (contains (role_scopes role) s))
contains-effective_scopes role (some granted) s =
    contains-keep (contains granted) (role_scopes role) s

-- Each role may do all that the next lower one may: viewer, member, admin, owner.
pub roles_ordered :
    (s : String)
    → (contains (role_scopes "viewer") s ≡ true → contains (role_scopes "member") s ≡ true)
      × (contains (role_scopes "member") s ≡ true → contains (role_scopes "admin") s ≡ true)
      × (contains (role_scopes "admin") s ≡ true → contains (role_scopes "owner") s ≡ true)
unfolding role_scopes
roles_ordered s = (λ h. ground arith, λ h. ground arith, λ h. ground arith)

-- `require` passes exactly the callers that hold the scope.
pub require-has : (p : Principal) (s : String) → require p s ≡ some tt ↔ contains p.scopes s ≡ true
unfolding require
require-has p s = ground arith
