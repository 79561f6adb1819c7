-- ===== src/Tenancy/Quotas/Counters.antt =====
-- `record_usage` against what other workers write: no increment is lost.
use geolytics.Prelude.{
  ℕ, ◌+◌, pos, ◌≡◌, ◌≢◌, refl, ap, Bool, true, false, none, some, List, [], ◌∷◌, arith,
  if◌then◌else◌, eq_ℕ, eq_string, eq_iff, contains, any,
}
use geolytics.Tenancy.Quotas.{
  metrics, UsageCounter, Key, is_row, usage, bump, insert, Rivals, retry, add_row, count_usage,
  Result, ok, record_usage,
}

abbrev key_of : UsageCounter → Key
key_of r = record { org_id = r.org_id; period = r.period; metric = r.metric }

-- The unique constraint.
abbrev pub IsUnique : List UsageCounter → Type 0
IsUnique [] = Unit
IsUnique (r ∷ rows) = (any (is_row (key_of r)) rows ≡ false) × IsUnique rows

abbrev pub exists : Key → List UsageCounter → Bool
exists k rows = any (is_row k) rows

key_of-is_row : (k : Key) (r : UsageCounter) → is_row k r ≡ true → k ≡ key_of r
unfolding is_row
key_of-is_row k r h = ground (arith, eq_iff r.period k.period, eq_iff r.metric k.metric)

-- A row that stands for a key is the only one.
alone :
    (k : Key) (r : UsageCounter) (rows : List UsageCounter)
    → is_row k r ≡ true
    → any (is_row (key_of r)) rows ≡ false
    → exists k rows ≡ false
alone k r rows h u = rw (key_of-is_row k r h) u

usage-none : (k : Key) (rows : List UsageCounter) → exists k rows ≡ false → usage k rows ≡ 0
unfolding usage
usage-none k [] h = refl
usage-none k (r ∷ rows) h = ground (arith, usage-none k rows)

bump-none :
    (k : Key) (n : ℕ) (rows : List UsageCounter)
    → exists k rows ≡ false
    → bump k n rows ≡ (none, rows)
unfolding bump
bump-none k n [] h = refl
bump-none k n (r ∷ rows) h = ground (arith, bump-none k n rows)

bump-missing :
    (k : Key) (n : ℕ) (rows : List UsageCounter)
    → exists k rows ≡ false
    → ((bump k n rows).0 ≡ none) × ((bump k n rows).1 ≡ rows)
bump-missing k n rows h = rw (bump-none k n rows h) (refl, refl)

is_row-value : (k : Key) (r : UsageCounter) (v : ℕ) → is_row k (record r { value = v }) ≡ is_row k r
unfolding is_row
is_row-value k r v = refl

exists-bump :
    (j k : Key) (n : ℕ) (rows : List UsageCounter) → exists j (bump k n rows).1 ≡ exists j rows
unfolding bump
exists-bump j k n [] = refl
exists-bump j k n (r ∷ rows) =
    ground (arith, exists-bump j k n rows, is_row-value j r (r.value + n))

bump-some :
    (k : Key) (n : ℕ) (rows : List UsageCounter)
    → IsUnique rows
    → exists k rows ≡ true
    → (bump k n rows).0 ≡ some (usage k rows + n)
unfolding bump usage
bump-some k n [] u h = cc
bump-some k n (r ∷ rows) u h = ground (arith, bump-some k n rows u.1, alone k r rows)

usage-bump_self :
    (k : Key) (n : ℕ) (rows : List UsageCounter)
    → IsUnique rows
    → exists k rows ≡ true
    → usage k (bump k n rows).1 ≡ usage k rows + n
unfolding bump usage
usage-bump_self k n [] u h = cc
usage-bump_self k n (r ∷ rows) u h = ground (
  arith,
  usage-bump_self k n rows u.1,
  alone k r rows,
  exists-bump k k n rows,
  is_row-value k r (r.value + n),
)

usage-bump_ne :
    (j k : Key) (n : ℕ) (rows : List UsageCounter)
    → j ≢ k
    → usage j (bump k n rows).1 ≡ usage j rows
unfolding bump usage
usage-bump_ne j k n [] ne = refl
usage-bump_ne j k n (r ∷ rows) ne = ground (
  arith,
  usage-bump_ne j k n rows ne,
  key_of-is_row k r,
  key_of-is_row j r,
  exists-bump j k n rows,
  is_row-value j r (r.value + n),
)

-- The table that the write of `record_usage` finds: after its first `UPDATE` missed, what the other
-- workers made of it.
abbrev pub found : Rivals → Key → List UsageCounter → List UsageCounter
found rivals k rows =
    if exists k rows
    then rows
    else if exists k (rivals.before_insert rows)
    then rivals.before_retry (rivals.before_insert rows)
    else rivals.before_insert rows

-- The result `total` and the table `rows'` count `n` more for `k` than `rows`, and nothing else.
pub record Adds (k : Key) (n : ℕ) (rows : List UsageCounter) (out : Result ℕ × List UsageCounter)
    : Type 0 where
  pub total : out.0 ≡ ok (usage k rows + n)
  pub self : usage k out.1 ≡ usage k rows + n
  pub others : (j : Key) → j ≢ k → usage j out.1 ≡ usage j rows

retry-Adds :
    (k : Key) (n : ℕ) (rows : List UsageCounter)
    → IsUnique rows
    → exists k rows ≡ true
    → Adds k n rows (retry k n rows)
unfolding retry
retry-Adds k n rows u h =
    rw (bump-some k n rows u h, retry)
      (record {
        total = refl;
        self = usage-bump_self k n rows u h;
        others = λ j ne. usage-bump_ne j k n rows ne;
      })

abbrev new_row : Key → ℕ → UsageCounter
new_row k n = record { org_id = k.org_id; period = k.period; metric = k.metric; value = n }

is_row-new_row : (k : Key) (n : ℕ) → is_row k (new_row k n) ≡ true
unfolding is_row
is_row-new_row k n = ground (arith, eq_iff k.period k.period, eq_iff k.metric k.metric)

insert-Adds :
    (k : Key) (n : ℕ) (rows : List UsageCounter)
    → exists k rows ≡ false
    → Adds k n rows (ok n, new_row k n ∷ rows)
unfolding usage
insert-Adds k n rows h = record {
  total = rw (usage-none k rows h) (ap ok (omega arith));
  self = rw (is_row-new_row k n, h, usage-none k rows h) (omega arith);
  others = λ j ne. ground (arith, key_of-is_row j (new_row k n));
}

add_row-Adds :
    (rivals : Rivals) (k : Key) (n : ℕ) (rows : List UsageCounter) (b : Bool)
    → exists k rows ≡ b
    → IsUnique (if b then rivals.before_retry rows else rows)
    → (exists k rows ≡ true → exists k (rivals.before_retry rows) ≡ true)
    → Adds k n (if b then rivals.before_retry rows else rows) (add_row rivals k n rows)
unfolding add_row insert
add_row-Adds rivals k n rows true e u stays =
    rw (e, add_row) (retry-Adds k n (rivals.before_retry rows) u (stays e))
add_row-Adds rivals k n rows false e u stays = rw (e, add_row) (insert-Adds k n rows e)

count_usage-Adds :
    (rivals : Rivals) (k : Key) (n : ℕ) (rows : List UsageCounter) (b : Bool)
    → exists k rows ≡ b
    → IsUnique (found rivals k rows)
    → (exists k (rivals.before_insert rows) ≡ true
        → exists k (rivals.before_retry (rivals.before_insert rows)) ≡ true)
    → Adds k n (found rivals k rows) (count_usage rivals k n rows)
unfolding count_usage
count_usage-Adds rivals k n rows true e u stays =
    rw (e, bump-some k n rows (rw e at u) e, count_usage)
      (record {
        total = refl;
        self = usage-bump_self k n rows (rw e at u) e;
        others = λ j ne. usage-bump_ne j k n rows ne;
      })
count_usage-Adds rivals k n rows false e u stays =
    rw (e, (bump-missing k n rows e).0, count_usage, (bump-missing k n rows e).1)
      (add_row-Adds rivals k n (rivals.before_insert rows) _ refl (rw e at u) stays)

-- A metric that is counted is counted exactly, whatever other workers wrote between the statements,
-- as long as the table keeps its unique constraint and nobody deletes the row that made the `INSERT`
-- fail: the returned total and the stored one are `n` above what the write found, and no other
-- counter changes.
pub record_usage-Adds :
    (rivals : Rivals) (k : Key) (n : ℕ) (rows : List UsageCounter)
    → contains metrics k.metric ≡ true
    → IsUnique (found rivals k rows)
    → (exists k (rivals.before_insert rows) ≡ true
        → exists k (rivals.before_retry (rivals.before_insert rows)) ≡ true)
    → Adds k n (found rivals k rows) (record_usage rivals k (pos n) rows)
unfolding record_usage
record_usage-Adds rivals k n rows counted u stays =
    rw counted (count_usage-Adds rivals k n rows (exists k rows) refl u stays)
