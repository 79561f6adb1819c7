-- ===== src/RateLimit/Promises.antt =====
-- What one bucket grants: bounds, the promise of `retry_after`, and why the expiry is harmless.
use geolytics.Prelude.{
  ℕ, ◌+◌, ◌-◌, ◌*◌, ◌/◌, ◌≤◌, ◌<◌, ◌≡◌, refl, true, false, Option, none, some, arith, le→leb,
}
use Prim.Native.Nat.{max}
use native.Mathlib.Nat.{mul-le-mul, mul-le-mul_right}
use geolytics.RateLimit.{
  unit, Bucket, Taken, refilled, take_tokens, RateLimiter, capacity, ttl, live, retry_after, take,
}

pub lt→le : {a b : ℕ} → a < b → a ≤ b
lt→le h = omega arith

pub elapsed : (a t now : ℕ) → a + t ≤ now → t ≤ now - a
elapsed a t now h = omega arith

-- Dividing and rounding down loses less than one divisor.
div_bound : (a p : ℕ) → 0 < p → a < (a / p + 1) * p
div_bound a p h = grind arith

refill_bound : (a q p r : ℕ) → a ≤ (q + 1) * p → a * r ≤ (q + 60) * r * p
refill_bound a q p r h = omega (arith, mul-le-mul_right r h)

-- The lifetime of a bucket is at least the time in which it fills.
pub refill_time : (c p r : ℕ) → 0 < p → c * (60 * r) ≤ (c * 60 / p + 60) * r * p
refill_time c p r h =
    omega (arith, refill_bound (c * 60) (c * 60 / p) p r (lt→le (div_bound (c * 60) p h)))

wait_bound : (d q r p e : ℕ) → d < (q + 1) * (r * p) → (q + 1) * r ≤ e → d < e * p
wait_bound d q r p e h k = omega (arith, mul-le-mul_right p k)

-- `retry_after` seconds refill the deficit.
deficit_refills : (d r p e : ℕ) → 0 < r → 0 < p → (d / (r * p) + 1) * r ≤ e → d < e * p
deficit_refills d r p e hr hp k =
    wait_bound d (d / (r * p)) r p e (div_bound d (r * p) (mul-le-mul hr hp)) k

-- A bucket that has waited long enough holds the cost, expired or not.
enough_later :
    (cap rate cost : ℕ) (b : Bucket) (now : ℕ)
    → cost ≤ cap
    → cost ≤ b.tokens + (now - b.updated) * rate
    → cost ≤ refilled cap rate now (live now (some b))
unfolding refilled live
enough_later cap rate cost b now fits held = ground arith

denied_take :
    (cap rate now cost ttl : ℕ) (state : Option Bucket)
    → let t = take_tokens cap rate now cost ttl state in
      t.allowed ≡ false → (t.bucket.tokens + t.deficit ≡ cost) × (t.bucket.updated ≡ now)
unfolding take_tokens
denied_take cap rate now cost ttl state denied = ground arith

max-one : (q : ℕ) → max 1 (q + 1) ≡ q + 1
max-one q = omega arith

waited_for : (q r now later : ℕ) → now + max 1 (q + 1) * r ≤ later → (q + 1) * r ≤ later - now
waited_for q r now later h = let h' = rw (max-one q) at h in omega arith

paid_off : (t d c x : ℕ) → t + d ≡ c → d < x → c ≤ t + x
paid_off t d c x e h = omega arith

retry_wait :
    (res : ℕ) (l : RateLimiter) (t : Taken) (now later : ℕ)
    → t.allowed ≡ false
    → now + retry_after res l t * res ≤ later
    → (t.deficit / (res * l.per_minute) + 1) * res ≤ later - now
unfolding retry_after
retry_wait res l t now later denied waited =
    waited_for (t.deficit / (res * l.per_minute)) res now later (rw (denied, retry_after) at waited)

-- With a clock that ticks and a positive rate, a denied caller that waits `retry_after` seconds,
-- with nobody else at the bucket, is let through, provided that the bucket can hold what it asks
-- for.
pub retry_after_suffices :
    (res : ℕ) (l : RateLimiter) (now later cost : ℕ) (state : Option Bucket)
    → 0 < res
    → 0 < l.per_minute
    → cost ≤ capacity l
    → (take res l now cost state).allowed ≡ false
    → now + retry_after res l (take res l now cost state) * res ≤ later
    → (take res l later cost (some (take res l now cost state).bucket)).allowed ≡ true
unfolding take take_tokens
retry_after_suffices res l now later cost state r p fits denied waited =
    let t : Taken = take res l now cost state in
    let (owed, _) =
      denied_take (capacity l * unit res) l.per_minute now (cost * unit res) (ttl l * res)
        (live now state) denied in
    let wait = retry_wait res l t now later denied waited in
    let refill = deficit_refills t.deficit res l.per_minute (later - now) r p wait in
    le→leb _ _ (
      enough_later (capacity l * unit res) l.per_minute (cost * unit res) t.bucket later
        (mul-le-mul_right (unit res) fits)
        (paid_off t.bucket.tokens t.deficit (cost * unit res) ((later - now) * l.per_minute) owed
          refill))

brimful :
    (res : ℕ) (l : RateLimiter) (now : ℕ) (b : Bucket)
    → 0 < l.per_minute
    → b.updated + ttl l * res ≤ now
    → refilled (capacity l * unit res) l.per_minute now (some b) ≡ capacity l * unit res
unfolding refilled ttl
brimful res l now b p h = omega (
  arith,
  refill_time (capacity l) l.per_minute res p,
  mul-le-mul_right l.per_minute (elapsed b.updated (ttl l * res) now h),
)

-- At a positive rate the expiry of a bucket changes no answer: by then it has refilled to the brim.
pub expiry_invisible :
    (res : ℕ) (l : RateLimiter) (now cost : ℕ) (b : Bucket)
    → 0 < l.per_minute
    → b.updated + ttl l * res ≤ now
    → take_tokens (capacity l * unit res) l.per_minute now (cost * unit res) (ttl l * res) (some b)
      ≡ take_tokens (capacity l * unit res) l.per_minute now (cost * unit res) (ttl l * res) none
unfolding take_tokens
expiry_invisible res l now cost b p h = rw (brimful res l now b p h) refl
