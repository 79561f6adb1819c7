-- ===== src/Tests/Jwt.antt =====
-- A signer of session tokens at which the theorems about them are applied: a token spells its claims
-- out (backend/geolytics/security/tokens.py).
use geolytics.Prelude.{
  ℕ, zero, suc, ◌*◌, ◌≤◌, ◌<◌, ◌≡◌, refl, ap, ◌∙◌, String, Bool, true, false, ◌&&◌, Option, none,
  some, List, [], ◌∷◌, ◌++◌, if◌then◌else◌, length, take, drop, leb, ltb, arith, ◌==◌, eq_string,
  ==_refl, lt→ltb, le→leb,
}
use geolytics.Prelude.Text.{Text, codes, text_eq, text_eq_refl}
use Prim.Native.Nat.{Ordering, compare}
use Prim.Native.Char.{Char, char, code, nul, IsLt, IsScalar}
use text.Mathlib.TextEquality.{Char-path}
use geolytics.Models.{second}
use geolytics.Security.Tokens.{access, refresh, Typ, known, other, Claims, Jwt}
use geolytics.Security.Tokens.Lifetime.{IsJwt}

-- Whether a number is a character, by three comparisons.
abbrev Both : Ordering → Ordering → Type 0
Both Ordering.lt o = IsLt o
Both Ordering.eq _ = ⊥
Both Ordering.gt _ = ⊥

abbrev Scalar : Ordering → Ordering → Ordering → Type 0
Scalar Ordering.lt _ _ = Unit
Scalar Ordering.eq o p = Both o p
Scalar Ordering.gt o p = Both o p

abbrev less_of : (o : Ordering) → Option (IsLt o)
less_of Ordering.lt = some tt
less_of Ordering.eq = none
less_of Ordering.gt = none

abbrev both_of : (o p : Ordering) → Option (Both o p)
both_of Ordering.lt p = less_of p
both_of Ordering.eq p = none
both_of Ordering.gt p = none

abbrev scalar_of : (o p q : Ordering) → Option (Scalar o p q)
scalar_of Ordering.lt p q = some tt
scalar_of Ordering.eq p q = both_of p q
scalar_of Ordering.gt p q = both_of p q

abbrev IsGiven : {A : Type 0} → Option A → Type 0
IsGiven none = ⊥
IsGiven (some a) = Unit

less-IsGiven : (o : Ordering) → IsLt o → IsGiven (less_of o)
less-IsGiven Ordering.lt h = tt
less-IsGiven Ordering.eq h = h
less-IsGiven Ordering.gt h = h

both-IsGiven : (o p : Ordering) → Both o p → IsGiven (both_of o p)
both-IsGiven Ordering.lt p h = less-IsGiven p h
both-IsGiven Ordering.eq p h = h
both-IsGiven Ordering.gt p h = h

scalar-IsGiven : (o p q : Ordering) → Scalar o p q → IsGiven (scalar_of o p q)
scalar-IsGiven Ordering.lt p q h = tt
scalar-IsGiven Ordering.eq p q h = both-IsGiven p q h
scalar-IsGiven Ordering.gt p q h = both-IsGiven p q h

abbrev char_or_nul : (n : ℕ) → Option (IsScalar n) → Char
char_or_nul n none = nul
char_or_nul n (some p) = char n p

abbrev char_of : ℕ → Char
char_of n = char_or_nul n (scalar_of (compare n 55296) (compare 57343 n) (compare n 1114112))

given-code : (n : ℕ) (o : Option (IsScalar n)) → IsGiven o → code (char_or_nul n o) ≡ n
given-code n none h = absurd h
given-code n (some p) h = refl

char_of-code : (c : Char) → char_of (code c) ≡ c
char_of-code (char n p) =
    Char-path (char_of n) (char n p)
      (given-code n _ (scalar-IsGiven (compare n 55296) (compare 57343 n) (compare n 1114112) p))

abbrev string_of : Text → String
string_of [] = String.[]
string_of (n ∷ t) = String.◌∷◌ (char_of n) (string_of t)

string_of-codes : (s : String) → string_of (codes s) ≡ s
string_of-codes String.[] = refl
string_of-codes (String.◌∷◌ c s) =
    ap (λ d. String.◌∷◌ d (string_of (codes s))) (char_of-code c)
    ∙ ap (λ t. String.◌∷◌ c t) (string_of-codes s)

module _ {A : Type 0} where
  take-all_of : (xs ys : List A) → take (length xs) (xs ++ ys) ≡ xs
  take-all_of [] ys = refl
  take-all_of (x ∷ xs) ys = ap (λ t. x ∷ t) (take-all_of xs ys)

  drop-all_of : (xs ys : List A) → drop (length xs) (xs ++ ys) ≡ ys
  drop-all_of [] ys = refl
  drop-all_of (x ∷ xs) ys = drop-all_of xs ys

abbrev spell : List String → Text
spell [] = []
spell (s ∷ scopes) = length (codes s) ∷ (codes s ++ spell scopes)

abbrev unspell : ℕ → Text → List String
unspell zero t = []
unspell (suc n) [] = []
unspell (suc n) (k ∷ t) = string_of (take k t) ∷ unspell n (drop k t)

unspell-spell : (scopes : List String) → unspell (length scopes) (spell scopes) ≡ scopes
unspell-spell [] = refl
unspell-spell (s ∷ scopes) =
    rw
      (
        take-all_of (codes s) (spell scopes),
        drop-all_of (codes s) (spell scopes),
        string_of-codes s,
        unspell-spell scopes,
      )
      refl

abbrev tag : Option ℕ → ℕ
tag none = 0
tag (some n) = suc n

abbrev untag : ℕ → Option ℕ
untag zero = none
untag (suc n) = some n

untag-tag : (o : Option ℕ) → untag (tag o) ≡ o
untag-tag none = refl
untag-tag (some n) = refl

abbrev mark : Typ → ℕ
mark other = 0
mark (known access) = 1
mark (known refresh) = 2

abbrev unmark : ℕ → Typ
unmark zero = other
unmark (suc zero) = known access
unmark (suc (suc n)) = known refresh

unmark-mark : (t : Typ) → unmark (mark t) ≡ t
unmark-mark other = refl
unmark-mark (known access) = refl
unmark-mark (known refresh) = refl

abbrev spelled : Claims → Text
spelled c =
    tag c.sub
    ∷ mark c.typ
    ∷ c.iat
    ∷ c.exp
    ∷ c.nbf
    ∷ tag c.org
    ∷ length (codes c.iss)
    ∷ length c.jti
    ∷ length c.scp
    ∷ (codes c.iss ++ (c.jti ++ spell c.scp))

abbrev unspelled : Text → Option Claims
unspelled (sub ∷ typ ∷ iat ∷ exp ∷ nbf ∷ org ∷ i ∷ j ∷ n ∷ rest) = some (record {
  sub = untag sub;
  typ = unmark typ;
  iat = iat;
  exp = exp;
  nbf = nbf;
  iss = string_of (take i rest);
  jti = take j (drop i rest);
  org = untag org;
  scp = unspell n (drop j (drop i rest));
})
unspelled t = none

unspelled-spelled : (c : Claims) → unspelled (spelled c) ≡ some c
unspelled-spelled c =
    rw
      (
        take-all_of (codes c.iss) (c.jti ++ spell c.scp),
        drop-all_of (codes c.iss) (c.jti ++ spell c.scp),
        take-all_of c.jti (spell c.scp),
        drop-all_of c.jti (spell c.scp),
        string_of-codes c.iss,
        unspell-spell c.scp,
        untag-tag c.sub,
        untag-tag c.org,
        unmark-mark c.typ,
      )
      refl

abbrev in_time : ℕ → Claims → Bool
in_time now c = leb (c.nbf * second) now && leb (c.iat * second) now && ltb now (c.exp * second)

abbrev if_good : String → ℕ → Option Claims → Option Claims
if_good issuer now none = none
if_good issuer now (some c) = if in_time now c && (c.iss == issuer) then some c else none

abbrev unsigned : Text → Text → Option Claims
unsigned secret [] = none
unsigned secret (n ∷ t) = if text_eq (take n t) secret then unspelled (drop n t) else none

-- The signer: the secret stands before the claims.
abbrev pub spelling : Jwt
spelling = record {
  encode = λ secret c. length secret ∷ (secret ++ spelled c);
  decode = λ secret issuer now t. if_good issuer now (unsigned secret t);
}

read_back : (secret : Text) (c : Claims) → unsigned secret (spelling.encode secret c) ≡ some c
read_back secret c =
    rw (take-all_of secret (spelled c), text_eq_refl secret, drop-all_of secret (spelled c))
      (unspelled-spelled c)

good :
    (c : Claims) (now : ℕ)
    → c.nbf * second ≤ now
    → c.iat * second ≤ now
    → now < c.exp * second
    → if_good c.iss now (some c) ≡ some c
good c now a b e =
    rw
      (
        le→leb (c.nbf * second) now a,
        le→leb (c.iat * second) now b,
        lt→ltb now (c.exp * second) e,
        ==_refl c.iss,
      )
      refl

late : (c : Claims) (now : ℕ) → c.exp * second ≤ now → if_good c.iss now (some c) ≡ none
late c now e =
    go (ltb now (c.exp * second)) (leb (c.nbf * second) now && leb (c.iat * second) now)
      (not_before now (c.exp * second) e)
  where
    not_before : (n m : ℕ) → m ≤ n → ltb n m ≡ false
    not_before n m h = ground arith

    go : (b a : Bool) → b ≡ false → (if a && b && (c.iss == c.iss) then some c else none) ≡ none
    go b true h = rw h refl
    go b false h = refl

pub spelling-IsJwt : IsJwt spelling
spelling-IsJwt = record {
  decode_valid =
      λ secret c now a b e. ap (if_good c.iss now) (read_back secret c) ∙ good c now a b e;
  decode_expired = λ secret c now e. ap (if_good c.iss now) (read_back secret c) ∙ late c now e;
}
