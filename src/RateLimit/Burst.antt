-- ===== src/RateLimit/Burst.antt =====
-- The rate over any run of requests on one bucket, at times that do not decrease.
use geolytics.Prelude.{
  ℕ, ◌+◌, ◌-◌, ◌*◌, ◌≤◌, ◌<◌, ◌≡◌, refl, ap, Option, none, some, List, [], ◌∷◌, arith,
  if◌then◌else◌,
}
use native.Mathlib.Nat.{mul-le-mul_right, le-add_right, le_refl, le_trans}
use geolytics.RateLimit.{
  unit, Bucket, Taken, refilled, take_tokens, RateLimiter, capacity, ttl, live, take,
}
use geolytics.RateLimit.Promises.{elapsed, refill_time}

-- A request is its time and its cost.
abbrev pub Request : Type 0
Request = ℕ × ℕ

-- The parts of tokens that the requests of a run are granted, one after the other.
unfoldable pub granted : ℕ → RateLimiter → List Request → Option Bucket → ℕ
granted res l [] state = 0
granted res l ((now, cost) ∷ rest) state =
    let t = take res l now cost state in
    (if t.allowed then cost * unit res else 0) + granted res l rest (some t.bucket)

abbrev pub IsChronological : ℕ → List Request → Type 0
IsChronological now [] = Unit
IsChronological now ((t, cost) ∷ rest) = (now ≤ t) × IsChronological t rest

abbrev pub last_time : ℕ → List Request → ℕ
last_time now [] = now
last_time now ((t, cost) ∷ rest) = last_time t rest

le-last_time : (now : ℕ) (rs : List Request) → IsChronological now rs → now ≤ last_time now rs
le-last_time now [] h = omega arith
le-last_time now ((t, cost) ∷ rs) h = omega (arith, le-last_time t rs h.1)

-- A request moves parts from the bucket to the caller.
take_balance :
    (res : ℕ) (l : RateLimiter) (now cost : ℕ) (state : Option Bucket)
    → let t = take res l now cost state in
      ((if t.allowed then cost * unit res else 0) + t.bucket.tokens
        ≡ refilled (capacity l * unit res) l.per_minute now (live now state))
      × (t.bucket.updated ≡ now)
      × (t.bucket.expires ≡ now + ttl l * res)
unfolding take take_tokens
take_balance res l now cost state = ground arith

-- From the tick at which a bucket expires on, the elapsed time alone refills it.
covers :
    (res : ℕ) (l : RateLimiter) (updated now : ℕ)
    → 0 < l.per_minute
    → updated + ttl l * res ≤ now
    → capacity l * unit res ≤ (now - updated) * l.per_minute
unfolding ttl
covers res l updated now p h = omega (
  arith,
  refill_time (capacity l) l.per_minute res p,
  mul-le-mul_right l.per_minute (elapsed updated (ttl l * res) now h),
)

-- Whether or not it has expired, a bucket gains at most the refill of the time that has passed.
refill_le :
    (res : ℕ) (l : RateLimiter) (now : ℕ) (b : Bucket)
    → 0 < l.per_minute
    → b.expires ≡ b.updated + ttl l * res
    → refilled (capacity l * unit res) l.per_minute now (live now (some b))
      ≤ b.tokens + (now - b.updated) * l.per_minute
unfolding refilled live
refill_le res l now b p e = ground (arith, covers res l b.updated now p)

split_span : (u now last : ℕ) → u ≤ now → now ≤ last → (now - u) + (last - now) ≡ last - u
split_span u now last le le' = omega arith

chain :
    (g k tokens refill grant u now last p : ℕ)
    → g + k ≡ refill
    → refill ≤ tokens + (now - u) * p
    → grant ≤ k + (last - now) * p
    → u ≤ now
    → now ≤ last
    → g + grant ≤ tokens + (last - u) * p
chain g k tokens refill grant u now last p e h i le le' =
    omega (arith, ap (λ (d : ℕ). d * p) (split_span u now last le le'))

granted_le :
    (res : ℕ) (l : RateLimiter) (rs : List Request) (b : Bucket)
    → 0 < l.per_minute
    → b.expires ≡ b.updated + ttl l * res
    → IsChronological b.updated rs
    → granted res l rs (some b) ≤ b.tokens + (last_time b.updated rs - b.updated) * l.per_minute
unfolding granted take take_tokens
granted_le res l [] b p e h = omega arith
granted_le res l ((now, cost) ∷ rs) b p e h =
    let t : Taken = take res l now cost (some b) in
    chain _ t.bucket.tokens b.tokens _ (granted res l rs (some t.bucket)) b.updated now
      (last_time now rs) l.per_minute (take_balance res l now cost (some b)).0
      (refill_le res l now b p e) (granted_le res l rs t.bucket p refl h.1) h.0
      (le-last_time now rs h.1)

-- Whatever a bucket holds, a request finds at most the capacity in it.
refilled-le : (full rate now : ℕ) (state : Option Bucket) → refilled full rate now state ≤ full
unfolding refilled
refilled-le full rate now none = omega arith
refilled-le full rate now (some b) = ground arith

-- At a positive rate and times that do not decrease, whatever the bucket of a key holds, however long
-- it has been idle, and however the requests are spaced: those that are granted in a stretch of
-- time, from a first request to a last one, cost at most the capacity and what is refilled within
-- that stretch.
pub granted-le-capacity :
    (res : ℕ) (l : RateLimiter) (now cost : ℕ) (rs : List Request) (state : Option Bucket)
    → 0 < l.per_minute
    → IsChronological now rs
    → granted res l ((now, cost) ∷ rs) state
      ≤ capacity l * unit res + (last_time now rs - now) * l.per_minute
unfolding granted take take_tokens
granted-le-capacity res l now cost rs state p h =
    let t : Taken = take res l now cost state in
    chain _ t.bucket.tokens (capacity l * unit res) _ (granted res l rs (some t.bucket)) now now
      (last_time now rs) l.per_minute (take_balance res l now cost state).0
      (le_trans (refilled-le (capacity l * unit res) l.per_minute now (live now state))
        (le-add_right (capacity l * unit res) _))
      (granted_le res l rs t.bucket p refl h) (le_refl now) (le-last_time now rs h)
