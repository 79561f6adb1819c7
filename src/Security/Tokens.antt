-- ===== src/Security/Tokens.antt =====
-- Session tokens (backend/geolytics/security/tokens.py). PyJWT is a parameter; claims carry whole
-- seconds, and every other instant is in microseconds.
pub mod Lifetime
use geolytics.Prelude.{
  ℕ, ◌+◌, ◌*◌, ◌/◌, String, Bool, true, false, Option, none, some, List, [], ◌∷◌, if◌then◌else◌,
}
use geolytics.Prelude.Text.{Text}
use geolytics.Models.{second}

pub data TokenType : Type 0 where
  access refresh : TokenType

-- `typ` of claims: another text, or none, is neither type.
pub data Typ : Type 0 where
  known : TokenType → Typ
  other : Typ

-- `sub` is the number that the subject spells, if it spells one.
pub record Claims : Type 0 where
  pub sub : Option ℕ
  pub typ : Typ
  pub iat : ℕ
  pub exp : ℕ
  pub nbf : ℕ
  pub iss : String
  pub jti : Text
  pub org : Option ℕ
  pub scp : List String

-- `jwt.encode(claims, secret, ...)`, and `jwt.decode(token, secret, issuer=..., ...)` at an instant,
-- where `none` is any `PyJWTError`.
pub record Jwt : Type 0 where
  pub encode : Text → Claims → Text
  pub decode : Text → String → ℕ → Text → Option Claims

pub record TokenPayload : Type 0 where
  pub user_id : Option ℕ
  pub token_type : TokenType
  pub org_id : Option ℕ
  pub scopes : List String
  pub jti : Text
  pub issued_at : ℕ
  pub expires_at : ℕ

abbrev pub issuer : String
issuer = "geolytics"

-- The claims that `_create` signs at an instant, given the random id.
unfoldable pub claims_of : ℕ → TokenType → ℕ → Option ℕ → List String → ℕ → Text → Claims
claims_of user_id token_type expires_in org_id scopes now jti = record {
  sub = some user_id;
  typ = known token_type;
  iat = now / second;
  exp = (now + expires_in) / second;
  nbf = now / second;
  iss = issuer;
  jti = jti;
  org = org_id;
  scp = scopes;
}

unfoldable pub create_access_token : Jwt → ℕ → Text → Option ℕ → List String → ℕ → ℕ → Text → Text
unfolding claims_of
create_access_token jwt user_id secret org_id scopes expires_in now jti =
    jwt.encode secret (claims_of user_id access expires_in org_id scopes now jti)

unfoldable pub create_refresh_token : Jwt → ℕ → Text → ℕ → ℕ → Text → Text
unfolding claims_of
create_refresh_token jwt user_id secret expires_in now jti =
    jwt.encode secret (claims_of user_id refresh expires_in none [] now jti)

abbrev pub same_type : TokenType → TokenType → Bool
same_type access access = true
same_type refresh refresh = true
same_type a b = false

payload_of : Claims → TokenType → TokenPayload
payload_of c token_type = record {
  user_id = c.sub;
  token_type = token_type;
  org_id = c.org;
  scopes = c.scp;
  jti = c.jti;
  issued_at = c.iat * second;
  expires_at = c.exp * second;
}

typed : TokenType → Claims → Typ → Option TokenPayload
typed expected c other = none
typed expected c (known t) = if same_type t expected then some (payload_of c t) else none

checked : TokenType → Option Claims → Option TokenPayload
checked expected none = none
checked expected (some c) = typed expected c c.typ

-- `decode_token(token, secret, expected_type=...)` at an instant: `none` is `TokenError`.
unfoldable pub decode_token : Jwt → Text → TokenType → ℕ → Text → Option TokenPayload
unfolding payload_of typed checked
decode_token jwt secret expected now token = checked expected (jwt.decode secret issuer now token)
