-- ===== src/Security/Tokens/Lifetime.antt =====
-- How long a token is good (backend/geolytics/security/tokens.py).
use geolytics.Prelude.{
  ℕ, ◌+◌, ◌*◌, ◌/◌, ◌≤◌, ◌<◌, ◌≡◌, lt_or_le, inl, inr, refl, ap, ◌∙◌, false, if_false, String,
  Option, none, some, List, [], arith,
}
use geolytics.Prelude.Text.{Text}
use geolytics.Models.{second}
use geolytics.Security.Tokens.{
  TokenType, access, refresh, known, Claims, Jwt, claims_of, create_access_token,
  create_refresh_token, same_type, payload_of, typed, checked, decode_token,
}

-- PyJWT gives back the claims that were signed with the same secret, from the second in which they
-- begin until they expire, and no claims that have expired.
pub record IsJwt (jwt : Jwt) : Type 0 where
  pub decode_valid :
      (secret : Text) (c : Claims) (now : ℕ)
      → c.nbf * second ≤ now
      → c.iat * second ≤ now
      → now < c.exp * second
      → jwt.decode secret c.iss now (jwt.encode secret c) ≡ some c
  pub decode_expired :
      (secret : Text) (c : Claims) (now : ℕ)
      → c.exp * second ≤ now
      → jwt.decode secret c.iss now (jwt.encode secret c) ≡ none

module _ (jwt : Jwt) (is_jwt : IsJwt jwt) where
  decode_claims :
      (secret jti : Text) (user_id expires_in t now : ℕ) (org_id : Option ℕ) (scopes : List String)
      (made expected : TokenType)
      → t ≤ now
      → now < (t + expires_in) / second * second
      → decode_token jwt secret expected now
          (jwt.encode secret (claims_of user_id made expires_in org_id scopes t jti))
        ≡ typed expected (claims_of user_id made expires_in org_id scopes t jti) (known made)
  unfolding decode_token checked claims_of
  decode_claims secret jti user_id expires_in t now org_id scopes made expected after before =
      ap (checked expected) (
        is_jwt.decode_valid secret (claims_of user_id made expires_in org_id scopes t jti) now
          (below t now after) (below t now after) before)
    where
      below : (t now : ℕ) → t ≤ now → t / second * second ≤ now
      below t now h = omega arith

  decode_expired_claims :
      (secret jti : Text) (user_id expires_in t now : ℕ) (org_id : Option ℕ) (scopes : List String)
      (made expected : TokenType)
      → (t + expires_in) / second * second ≤ now
      → decode_token jwt secret expected now
          (jwt.encode secret (claims_of user_id made expires_in org_id scopes t jti))
        ≡ none
  unfolding decode_token checked claims_of
  decode_expired_claims secret jti user_id expires_in t now org_id scopes made expected late =
      ap (checked expected) (
        is_jwt.decode_expired secret (claims_of user_id made expires_in org_id scopes t jti) now
          late)

  -- As the other type a token never decodes.
  other_type :
      (secret jti : Text) (user_id expires_in t now : ℕ) (org_id : Option ℕ) (scopes : List String)
      (made expected : TokenType)
      → t ≤ now
      → same_type made expected ≡ false
      → decode_token jwt secret expected now
          (jwt.encode secret (claims_of user_id made expires_in org_id scopes t jti))
        ≡ none
  unfolding typed
  other_type secret jti user_id expires_in t now org_id scopes made expected after differ =
      elim (lt_or_le now ((t + expires_in) / second * second)) [
        | inl before ↦
            decode_claims secret jti user_id expires_in t now org_id scopes made expected after
              before
            ∙ if_false _ _ _ differ
        | inr late ↦
            decode_expired_claims secret jti user_id expires_in t now org_id scopes made expected
              late
      ]

  -- With a PyJWT that gives back what was signed until it expires: an access token decodes, from when
  -- it was made until the whole second in which it expires, to its user, organisation and scopes, with
  -- the time at which it was made cut to whole seconds; from that second on it does not decode; and
  -- as a refresh token it does not decode at any time from when it was made.
  pub decode_token-create_access_token :
      (secret jti : Text) (user_id expires_in t now : ℕ) (org_id : Option ℕ) (scopes : List String)
      → t ≤ now
      → (now < (t + expires_in) / second * second
          → decode_token jwt secret access now
              (create_access_token jwt user_id secret org_id scopes expires_in t jti)
            ≡ some (record {
              user_id = some user_id;
              token_type = access;
              org_id = org_id;
              scopes = scopes;
              jti = jti;
              issued_at = t / second * second;
              expires_at = (t + expires_in) / second * second;
            }))
        × ((t + expires_in) / second * second ≤ now
            → decode_token jwt secret access now
                (create_access_token jwt user_id secret org_id scopes expires_in t jti)
              ≡ none)
        × (decode_token jwt secret refresh now
              (create_access_token jwt user_id secret org_id scopes expires_in t jti)
            ≡ none)
  unfolding create_access_token typed payload_of claims_of
  decode_token-create_access_token secret jti user_id expires_in t now org_id scopes after = (
    decode_claims secret jti user_id expires_in t now org_id scopes access access after,
    decode_expired_claims secret jti user_id expires_in t now org_id scopes access access,
    other_type secret jti user_id expires_in t now org_id scopes access refresh after refl,
  )

  -- From when it expires a refresh token does not decode.
  pub decode_token-create_refresh_token_late :
      (secret jti : Text) (user_id expires_in t now : ℕ)
      → (t + expires_in) / second * second ≤ now
      → decode_token jwt secret refresh now
          (create_refresh_token jwt user_id secret expires_in t jti)
        ≡ none
  unfolding create_refresh_token claims_of
  decode_token-create_refresh_token_late secret jti user_id expires_in t now =
      decode_expired_claims secret jti user_id expires_in t now none [] refresh refresh

  pub decode_token-create_refresh_token :
      (secret jti : Text) (user_id expires_in t now : ℕ)
      → t ≤ now
      → now < (t + expires_in) / second * second
      → (decode_token jwt secret refresh now
            (create_refresh_token jwt user_id secret expires_in t jti)
          ≡ some (record {
            user_id = some user_id;
            token_type = refresh;
            org_id = none;
            scopes = [];
            jti = jti;
            issued_at = t / second * second;
            expires_at = (t + expires_in) / second * second;
          }))
        × (decode_token jwt secret access now
              (create_refresh_token jwt user_id secret expires_in t jti)
            ≡ none)
  unfolding create_refresh_token typed payload_of claims_of
  decode_token-create_refresh_token secret jti user_id expires_in t now after before = (
    decode_claims secret jti user_id expires_in t now none [] refresh refresh after before,
    decode_claims secret jti user_id expires_in t now none [] refresh access after before,
  )
