-- ===== src/RateLimit.antt =====
-- The token-bucket rate limiter (backend/geolytics/ratelimit.py): the Lua script that runs in Redis
-- and the class around it. The floating-point numbers of the source are exact fractions here: a
-- clock has `res` ticks a second, and tokens are counted in parts of 1/(60 * res), of which each
-- tick refills `per_minute`.
pub mod Promises
pub mod Burst
use geolytics.Prelude.{
  ℕ, ◌+◌, ◌-◌, ◌*◌, ◌/◌, String, Bool, true, false, Option, none, some, if◌then◌else◌, ◌==◌,
  eq_string, leb, ltb, not,
}
use Prim.Native.Nat.{min, max}
use Prim.Native.String.{◌++◌}

-- Parts of one token.
abbrev pub unit : ℕ → ℕ
unit res = 60 * res

-- The hash at a key, and the tick at which Redis drops it.
pub record Bucket : Type 0 where
  pub tokens : ℕ
  pub updated : ℕ
  pub expires : ℕ

pub record Taken : Type 0 where
  pub allowed : Bool
  pub tokens : ℕ
  pub deficit : ℕ
  pub bucket : Bucket

-- The tokens at `now`: a missing bucket is full. `elapsed` is 0 for a clock that stepped back.
unfoldable pub refilled : ℕ → ℕ → ℕ → Option Bucket → ℕ
refilled capacity rate now none = capacity
refilled capacity rate now (some b) = min capacity (b.tokens + (now - b.updated) * rate)

-- `_TAKE_TOKENS`, with capacity and cost in parts of a token and the rate in parts a tick.
unfoldable pub take_tokens : ℕ → ℕ → ℕ → ℕ → ℕ → Option Bucket → Taken
unfolding refilled
take_tokens capacity rate now cost ttl state =
    let tokens = refilled capacity rate now state in
    let allowed = leb cost tokens in
    let left = if allowed then tokens - cost else tokens in
    record {
      allowed = allowed;
      tokens = left;
      deficit = if allowed then 0 else cost - left;
      bucket = record { tokens = left; updated = now; expires = now + ttl };
    }

pub record RateLimiter : Type 0 where
  pub per_minute : ℕ
  pub burst : ℕ
  pub namespace : String

-- `RateLimiter(...)`: `none` is the `ValueError`.
unfoldable pub limiter : ℕ → ℕ → String → Option RateLimiter
limiter per_minute burst namespace =
    if leb per_minute 0
    then none
    else some (record { per_minute = per_minute; burst = max burst 1; namespace = namespace })

unfoldable pub capacity : RateLimiter → ℕ
capacity l = l.per_minute + l.burst

-- `int(capacity / refill_per_second) + 60`, in seconds.
unfoldable pub ttl : RateLimiter → ℕ
unfolding capacity
ttl l = capacity l * 60 / l.per_minute + 60

-- Redis: the live hashes by key. A hash is gone from the tick at which it expires.
abbrev pub Redis : Type 0
Redis = String → Option Bucket

unfoldable pub live : ℕ → Option Bucket → Option Bucket
live now none = none
live now (some b) = if leb b.expires now then none else some b

pub record RateLimitResult : Type 0 where
  pub allowed : Bool
  pub remaining : ℕ
  pub limit : ℕ
  pub retry_after : ℕ
  pub degraded : Bool

unfoldable pub bucket_key : RateLimiter → String → String
bucket_key l key = (l.namespace ++ ":") ++ key

unfoldable pub retry_after : ℕ → RateLimiter → Taken → ℕ
retry_after res l t = if t.allowed then 0 else max 1 (t.deficit / (res * l.per_minute) + 1)

-- The answer to a script that ran.
unfoldable pub result : ℕ → RateLimiter → Taken → RateLimitResult
unfolding retry_after
result res l t = record {
  allowed = t.allowed;
  remaining = t.tokens / unit res;
  limit = l.per_minute;
  retry_after = retry_after res l t;
  degraded = false;
}

-- The script of `check`, on the bucket of one key.
unfoldable pub take : ℕ → RateLimiter → ℕ → ℕ → Option Bucket → Taken
unfolding take_tokens capacity ttl live
take res l now cost state =
    take_tokens (capacity l * unit res) l.per_minute now (cost * unit res) (ttl l * res)
      (live now state)

-- `check`: `reachable` is false where the call of the script raises. The limiter fails open.
unfoldable pub check : ℕ → RateLimiter → Bool → ℕ → ℕ → String → Redis → RateLimitResult × Redis
unfolding result take bucket_key
check res l reachable now cost key redis =
    let k = bucket_key l key in
    let t = take res l now cost (redis k) in
    if reachable then (result res l t, λ j. if j == k then some t.bucket else redis j) else (
      record {
        allowed = true;
        remaining = capacity l;
        limit = l.per_minute;
        retry_after = 0;
        degraded = true;
      },
      redis,
    )

-- `reset`, of a reachable Redis or not.
unfoldable pub reset : RateLimiter → Bool → String → Redis → Redis
unfolding bucket_key
reset l reachable key redis j =
    if reachable then (if j == bucket_key l key then none else redis j) else redis j
