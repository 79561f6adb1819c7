-- ===== src/Index/Memory/Search.antt =====
-- Searching the store in memory (`search` and `score_matrix` of backend/geolytics/index/memory.py,
-- `ScoredChunk` of backend/geolytics/index/base.py). NumPy is a parameter.
use geolytics.Prelude.{
  ℕ, suc, ◌-◌, String, Bool, true, false, ◌||◌, Option, none, some, List, [], ◌∷◌, if◌then◌else◌,
  length, take, map,
}
use Prim.Native.Nat.{min}
use geolytics.Chunking.Base.{Chunk}
use geolytics.Index.Numbers.{Numpy}
use geolytics.Index.Memory.{
  Metric, cosine, dot, euclidean, unknown, Result, err, ok, ◌>>=◌, value_error, index_error,
  Collection, Store, require, get_elem?,
}

pub record ScoredChunk (W : Type 0) : Type 0 where
  pub chunk : Chunk
  pub score : W
  pub rank : ℕ

abbrev pub is_empty : {A : Type 0} → List A → Bool
is_empty [] = true
is_empty (x ∷ xs) = false

unfoldable pub item : {A : Type 0} → List A → ℕ → Result A
item xs i = elim (get_elem? xs i) [ none ↦ err index_error | some a ↦ ok a ]

-- `xs[indices]`.
unfoldable pub items : {A : Type 0} → List A → List ℕ → Result (List A)
items xs [] = ok []
items xs (i ∷ indices) = item xs i >>= λ a. items xs indices >>= λ rest. ok (a ∷ rest)

module _ {V W : Type 0} (np : Numpy V W) where
  unfoldable pub cosine_of : V → V → W
  cosine_of query row =
      let norms = np.times (np.norm row) (np.norm query) in
      if np.positive norms then np.over (np.dot row query) norms else np.zero

  unfoldable pub score_matrix : Metric → V → List V → Result (List W)
  unfolding cosine_of
  score_matrix dot query rows = ok (map (λ row. np.dot row query) rows)
  score_matrix cosine query rows = ok (map (cosine_of query) rows)
  score_matrix euclidean query rows =
      ok (map (λ row. np.negative (np.norm (np.minus row query))) rows)
  score_matrix unknown query rows = err value_error

  -- The positions of the `k` best scores, best first.
  unfoldable pub best : ℕ → List W → Result (List ℕ)
  best k scores =
      let candidates = take k (np.argpartition (map np.negative scores) (k - 1)) in
      items scores candidates >>= λ chosen. items candidates (np.argsort (map np.negative chosen))

  unfoldable pub hits : List Chunk → List W → ℕ → List ℕ → Result (List (ScoredChunk W))
  hits chunks scores rank [] = ok []
  hits chunks scores rank (i ∷ order) = item chunks i >>= λ chunk. item scores i >>= λ score.
      hits chunks scores (suc rank) order >>= λ rest.
      ok (record { chunk = chunk; score = score; rank = rank } ∷ rest)

  unfoldable pub or_own : Option Metric → Collection V → Metric
  or_own none c = c.metric
  or_own (some m) c = m

  unfoldable pub search_collection :
      V → ℕ → Option Metric → Collection V → Result (List (ScoredChunk W))
  unfolding or_own
  search_collection query top_k metric c =
      if is_empty c.vectors || is_empty c.chunks
      then ok []
      else (score_matrix (or_own metric c) query c.vectors >>= λ scores.
          best (min top_k (length scores)) scores >>= λ order. hits c.chunks scores 1 order)

  -- `search`.
  unfoldable pub search : String → V → ℕ → Option Metric → Store V → Result (List (ScoredChunk W))
  unfolding search_collection
  search name query top_k metric store = require name store >>= search_collection query top_k metric
