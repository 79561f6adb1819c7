-- ===== src/Tests/Tokens.antt =====
-- A session token and an organisation's name in addresses at concrete values
-- (backend/geolytics/security/tokens.py and backend/geolytics/api/routes/auth.py).
use geolytics.Prelude.{◌<◌, ◌≤◌, ◌≡◌, refl, none, some, [], ◌∷◌, arith}
use geolytics.Prelude.Text.{codes}
use geolytics.Security.Tokens.{access, refresh, create_access_token, decode_token}
use geolytics.Security.Tokens.Lifetime.{decode_token-create_access_token}
use geolytics.Api.Slugs.{unique_slug}
use geolytics.Api.Slugs.Fits.{Fits, unique_slug-Fits}
use geolytics.Tests.Members.{acme}
use geolytics.Tests.Jwt.{spelling, spelling-IsJwt}

decode_token-create_access_token_example :
    (7000000 < 905000000
      → decode_token spelling
          (codes "key")
          access
          7000000
          (create_access_token spelling 4 (codes "key") (some 9) [] 900000000 5500000 (codes "a"))
        ≡ some (record {
          user_id = some 4;
          token_type = access;
          org_id = some 9;
          scopes = [];
          jti = codes "a";
          issued_at = 5000000;
          expires_at = 905000000;
        }))
    × (905000000 ≤ 7000000
        → decode_token spelling
            (codes "key")
            access
            7000000
            (create_access_token spelling 4 (codes "key") (some 9) [] 900000000 5500000 (codes "a"))
          ≡ none)
    × (decode_token spelling
          (codes "key")
          refresh
          7000000
          (create_access_token spelling 4 (codes "key") (some 9) [] 900000000 5500000 (codes "a"))
        ≡ none)
decode_token-create_access_token_example =
    decode_token-create_access_token spelling spelling-IsJwt (codes "key") (codes "a") 4 900000000
      5500000 7000000 (some 9) [] (omega arith)

unique_slug-Fits_example :
    Fits 3 61 (unique_slug (acme ∷ []) (codes "Acme") (codes "x1" ∷ []) (codes "x2"))
unfolding geolytics.Api.Slugs.is_plain
unique_slug-Fits_example =
    unique_slug-Fits (acme ∷ []) (codes "Acme") (codes "x1" ∷ []) (codes "x2")
      (((refl, (refl, tt)), omega arith), tt) ((refl, (refl, tt)), omega arith)
