-- ===== src/Tests/Limits.antt =====
-- The rate shared_limiter and API key tokens at concrete values (backend/geolytics/ratelimit.py and
-- backend/geolytics/security/apikeys.py).
use geolytics.Prelude.{◌+◌, ◌*◌, ◌≤◌, ◌≡◌, refl, true, some, [], ◌∷◌, arith}
use geolytics.Prelude.Text.{Text, codes}
use geolytics.RateLimit.{Bucket, RateLimiter, unit, capacity, ttl, take, take_tokens}
use geolytics.RateLimit.Promises.{retry_after_suffices}
use geolytics.RateLimit.Burst.{granted, granted-le-capacity}
use geolytics.Security.ApiKeys.{test, generate_api_key, parse_api_key, verify_api_key}
use geolytics.Security.ApiKeys.RoundTrip.{parse_api_key-generate_api_key}

-- Thirty requests a minute and ten more in a burst, on a clock of one tick a second.
abbrev shared_limiter : RateLimiter
shared_limiter = record { per_minute = 30; burst = 10; namespace = "rl" }

abbrev drained : Bucket
drained = record { tokens = 0; updated = 100; expires = 240 }

retry_after_suffices_example :
    (take 1 shared_limiter 105 2 (some (take 1 shared_limiter 100 2 (some drained)).bucket)).allowed
    ≡ true
unfolding capacity take geolytics.RateLimit.retry_after
retry_after_suffices_example =
    retry_after_suffices 1 shared_limiter 100 105 2 (some drained) (omega arith) (omega arith)
      (omega arith) refl (omega arith)

-- A bucket that has been idle since it was drained, but that Redis still holds.
granted-le-capacity_example :
    granted 1 shared_limiter ((200, 30) ∷ (210, 15) ∷ (260, 20) ∷ []) (some drained)
    ≤ capacity shared_limiter * unit 1 + 60 * 30
granted-le-capacity_example =
    granted-le-capacity 1 shared_limiter 200 30 ((210, 15) ∷ (260, 20) ∷ []) (some drained)
      (omega arith) (omega arith, (omega arith, tt))

abbrev hash : Text → Text
hash secret = 1 ∷ secret

parse_api_key-generate_api_key_example :
    (parse_api_key (codes "gk_test_abc.xyz")
      ≡ some (record { environment = test; lookup_id = codes "abc"; secret = codes "xyz" }))
    × (verify_api_key hash (1 ∷ codes "xyz") (codes "xyz") ≡ true)
unfolding generate_api_key
parse_api_key-generate_api_key_example =
    parse_api_key-generate_api_key hash test (codes "abc") (codes "xyz") (λ h. cc) (λ h. cc) refl
