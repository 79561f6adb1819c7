-- ===== src/Index/Memory/Best.antt =====
-- The positions that a search takes for the best (backend/geolytics/index/memory.py).
use geolytics.Prelude.{
  ℕ, zero, suc, ◌-◌, ◌≤◌, ◌<◌, ◌≡◌, refl, ap, ◌∙◌, eq_string, some, List, [], ◌∷◌, length, take,
  map, All, arith,
}
use mathlib.Core.Path.{subst}
use Prim.Native.Nat.{min}
use geolytics.Index.Numbers.{Numpy}
use geolytics.Index.Memory.{Result, ok, ◌>>=◌, get_elem?}
use geolytics.Index.Memory.Search.{item, items, best}

-- NumPy's functions return positions of their argument, as many as it is long.
pub record IsIndexing {V W : Type 0} (np : Numpy V W) : Type 0 where
  pub partition_length : (xs : List W) (k : ℕ) → length (np.argpartition xs k) ≡ length xs
  pub partition_within : (xs : List W) (k : ℕ) → All (λ i. i < length xs) (np.argpartition xs k)
  pub sort_length : (xs : List W) → length (np.argsort xs) ≡ length xs
  pub sort_within : (xs : List W) → All (λ i. i < length xs) (np.argsort xs)

-- A result of a step that succeeds, with what holds of it.
abbrev pub Succeeds {ℓ} : {A : Type 0} → Result A → (A → Type ℓ) → Type ℓ
Succeeds {A = A} m P = (a : A) × (m ≡ ok a) × P a

pub Succeeds-bind :
    {A B : Type 0} (P : A → Type 0) (Q : B → Type 0) (m : Result A) (f : A → Result B)
    → Succeeds m P
    → ((a : A) → P a → Succeeds (f a) Q)
    → Succeeds (m >>= f) Q
Succeeds-bind P Q m f (a, e, p) next = let (b, e', q) = next a p in (b, ap (λ r. r >>= f) e ∙ e', q)

pub item-within :
    {A : Type 0} (P : A → Type 0) (xs : List A) (i : ℕ)
    → All P xs
    → i < length xs
    → Succeeds (item xs i) (λ a. P a × (get_elem? xs i ≡ some a))
unfolding item
item-within P [] i p h = absurd (omega arith)
item-within P (x ∷ xs) zero p h = (x, refl, (p.0, refl))
item-within P (x ∷ xs) (suc i) p h = item-within P xs i p.1 (omega arith)

items-within :
    {A : Type 0} (P : A → Type 0) (xs : List A) (indices : List ℕ)
    → All P xs
    → All (λ i. i < length xs) indices
    → Succeeds (items xs indices) (λ bs. All P bs × (length bs ≡ length indices))
unfolding items
items-within P xs [] p h = ([], refl, (tt, refl))
items-within P xs (i ∷ indices) p h =
    let (a, e, q) = item-within P xs i p h.0 in
    let (rest, e', q') = items-within P xs indices p h.1 in
    (
      a ∷ rest,
      ap (λ r. r >>= λ b. items xs indices >>= λ bs. ok (b ∷ bs)) e
          ∙ ap (λ r. r >>= λ bs. ok (a ∷ bs)) e',
      ((q.0, q'.0), ap suc q'.1),
    )

All-take : {A : Type 0} (P : A → Type 0) (n : ℕ) (xs : List A) → All P xs → All P (take n xs)
All-take P zero xs p = tt
All-take P (suc n) [] p = tt
All-take P (suc n) (x ∷ xs) p = (p.0, All-take P n xs p.1)

length-take-min : {A : Type 0} (n : ℕ) (xs : List A) → length (take n xs) ≡ min n (length xs)
length-take-min zero xs = omega arith
length-take-min (suc n) [] = omega arith
length-take-min (suc n) (x ∷ xs) = let e = length-take-min n xs in omega (arith, e)

pub length-map : {A B : Type 0} (f : A → B) (xs : List A) → length (map f xs) ≡ length xs
length-map f [] = refl
length-map f (x ∷ xs) = ap suc (length-map f xs)

pub All-true : {A : Type 0} (xs : List A) → All (λ a. Unit {0}) xs
All-true [] = tt
All-true (x ∷ xs) = (tt, All-true xs)

min_le : (k n : ℕ) → k ≤ n → min k n ≡ k
min_le k n h = omega arith

module _ {V W : Type 0} (np : Numpy V W) (indexing : IsIndexing np) where
  pub best-within :
      (k : ℕ) (scores : List W)
      → k ≤ length scores
      → Succeeds
          (best np k scores)
          (λ order. All (λ i. i < length scores) order × (length order ≡ k))
  unfolding best
  best-within k scores h =
      Succeeds-bind (λ chosen. length chosen ≡ length candidates) _ (items scores candidates) _
        (let (chosen, e, p) =
            items-within (λ a. Unit {0}) scores candidates (All-true scores) within in
          (chosen, e, p.1))
        (λ chosen n.
          let (order, e, p) =
            items-within (λ i. i < length scores) candidates (np.argsort (map np.negative chosen))
              within
              (subst (λ m. All (λ i. i < m) (np.argsort (map np.negative chosen)))
                (length-map np.negative chosen ∙ n)
                (indexing.sort_within (map np.negative chosen))) in
          (
            order,
            e,
            (
              p.0,
              p.1
                  ∙ indexing.sort_length (map np.negative chosen)
                  ∙ length-map np.negative chosen
                  ∙ n
                  ∙ candidates_length,
            ),
          ))
    where
      negatives : List W
      negatives = map np.negative scores

      candidates : List ℕ
      candidates = take k (np.argpartition negatives (k - 1))

      within : All (λ i. i < length scores) candidates
      within =
          All-take (λ i. i < length scores) k (np.argpartition negatives (k - 1))
            (subst (λ m. All (λ i. i < m) (np.argpartition negatives (k - 1)))
              (length-map np.negative scores) (indexing.partition_within negatives (k - 1)))

      candidates_length : length candidates ≡ k
      candidates_length =
          length-take-min k (np.argpartition negatives (k - 1))
          ∙ ap (min k) (indexing.partition_length negatives (k - 1) ∙ length-map np.negative scores)
          ∙ min_le k (length scores) h
