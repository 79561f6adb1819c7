-- ===== src/Index/Memory/Hits.antt =====
-- What a search returns (backend/geolytics/index/memory.py).
use geolytics.Prelude.{
  ℕ, zero, suc, ◌<◌, ◌≡◌, ◌≢◌, refl, sym, ap, ◌∙◌, String, true, ◌||◌, eq_string, some, List, [],
  ◌∷◌, length, map, All, arith, if_false, if_true, Bool-cases, inl, inr,
}
use mathlib.Core.Path.{subst}
use Prim.Native.Nat.{min}
use geolytics.Chunking.Base.{Chunk}
use geolytics.Index.Numbers.{Numpy}
use geolytics.Index.Memory.{
  Metric, cosine, dot, euclidean, unknown, Result, ok, ◌>>=◌, Collection, Store, get_elem?,
  dict_get,
}
use geolytics.Index.Memory.Search.{
  ScoredChunk, is_empty, item, cosine_of, score_matrix, best, hits, search_collection, search,
}
use geolytics.Index.Memory.Entries.{IsValid}
use geolytics.Index.Memory.Contents.{require-found}
use geolytics.Index.Memory.Best.{
  IsIndexing, Succeeds, Succeeds-bind, item-within, length-map, All-true, best-within,
}

-- The ranks count up.
abbrev pub Ranked : {W : Type 0} → ℕ → List (ScoredChunk W) → Type 0
Ranked n [] = Unit
Ranked n (h ∷ hs) = (h.rank ≡ n) × Ranked (suc n) hs

module _ {V W : Type 0} (np : Numpy V W) (indexing : IsIndexing np) where
  -- How a metric scores a row.
  abbrev pub score_of : Metric → V → V → W
  score_of dot query row = np.dot row query
  score_of cosine query row = cosine_of np query row
  score_of euclidean query row = np.negative (np.norm (np.minus row query))
  score_of unknown query row = np.zero

  score_matrix-map :
      (m : Metric) (query : V) (rows : List V)
      → m ≢ unknown
      → score_matrix np m query rows ≡ ok (map (score_of m query) rows)
  unfolding score_matrix cosine_of
  score_matrix-map cosine query rows h = refl
  score_matrix-map dot query rows h = refl
  score_matrix-map euclidean query rows h = refl
  score_matrix-map unknown query rows h = absurd (h refl)

  -- A hit is a chunk of the collection with the score of its row.
  abbrev pub IsKept : Metric → V → List Chunk → List V → ScoredChunk W → Type 0
  IsKept m query chunks rows h =
      (i : ℕ) × (get_elem? chunks i ≡ some h.chunk)
      × (v : V) × (get_elem? rows i ≡ some v)
      × (h.score ≡ score_of m query v)

  row_of :
      (f : V → W) (rows : List V) (i : ℕ) (s : W)
      → get_elem? (map f rows) i ≡ some s
      → (v : V) × (get_elem? rows i ≡ some v) × (s ≡ f v)
  row_of f [] i s h = cc
  row_of f (v ∷ rows) zero s h = (v, refl, cc)
  row_of f (v ∷ rows) (suc i) s h = row_of f rows i s h

  hits-IsKept :
      (m : Metric) (query : V) (chunks : List Chunk) (rows : List V) (rank : ℕ) (order : List ℕ)
      → length rows ≡ length chunks
      → All (λ i. i < length chunks) order
      → Succeeds
          (hits np chunks (map (score_of m query) rows) rank order)
          (λ hs. (length hs ≡ length order) × Ranked rank hs × All (IsKept m query chunks rows) hs)
  unfolding hits
  hits-IsKept m query chunks rows rank [] e h = ([], refl, (refl, tt, tt))
  hits-IsKept m query chunks rows rank (i ∷ order) e h =
      Succeeds-bind (λ c. get_elem? chunks i ≡ some c) _ (item chunks i) _ (found chunks h.0)
        (λ chunk at_i.
          Succeeds-bind (λ s. get_elem? scores i ≡ some s) _ (item scores i) _
            (found scores (subst (λ n. i < n) (sym (length-map (score_of m query) rows ∙ e)) h.0))
            (λ score s_i.
              let (v, v_i, s_v) = row_of (score_of m query) rows i score s_i in
              let (hs, f, (n, r, k)) = hits-IsKept m query chunks rows (suc rank) order e h.1 in
              (
                _,
                ap
                    (λ q. q >>= λ rest.
                      ok (record { chunk = chunk; score = score; rank = rank } ∷ rest))
                    f,
                (ap suc n, (refl, r), ((i, at_i, v, v_i, s_v), k)),
              )))
    where
      scores : List W
      scores = map (score_of m query) rows

      found :
          {A : Type 0} (xs : List A)
          → i < length xs
          → Succeeds (item xs i) (λ a. get_elem? xs i ≡ some a)
      found xs l = let (a, f, p) = item-within (λ a. Unit {0}) xs i (All-true xs) l in (a, f, p.1)

  search_collection-IsKept :
      (m : Metric) (query : V) (top_k : ℕ) (c : Collection V)
      → IsValid c
      → m ≢ unknown
      → Succeeds (search_collection np query top_k (some m) c) (λ hs.
        (length hs ≡ min top_k (length c.chunks))
        × Ranked 1 hs
        × All (IsKept m query c.chunks c.vectors) hs)
  unfolding search_collection
  search_collection-IsKept m query top_k c valid known =
      elim (Bool-cases (is_empty c.vectors || is_empty c.chunks)) [
        | inl e ↦ ([], if_true _ _ _ e, (none_left c.chunks c.vectors valid.matched e, tt, tt))
        | inr e ↦
            let (hs, f, p) = found in
            (
              hs,
              if_false _ _ _ e
                  ∙ ap (λ r. r >>= ranked) (score_matrix-map m query c.vectors known)
                  ∙ f,
              p,
            )
      ]
    where
      none_left :
          (chunks : List Chunk) (rows : List V)
          → length rows ≡ length chunks
          → is_empty rows || is_empty chunks ≡ true
          → 0 ≡ min top_k (length chunks)
      none_left [] rows h e = omega arith
      none_left (x ∷ chunks) [] h e = absurd (omega arith)
      none_left (x ∷ chunks) (v ∷ rows) h e = cc

      scores : List W
      scores = map (score_of m query) c.vectors

      as_many : length scores ≡ length c.chunks
      as_many = length-map (score_of m query) c.vectors ∙ valid.matched

      ranked : List W → Result (List (ScoredChunk W))
      ranked scores =
          best np (min top_k (length scores)) scores >>= λ order. hits np c.chunks scores 1 order

      found : Succeeds (ranked scores) (λ hs.
          (length hs ≡ min top_k (length c.chunks))
          × Ranked 1 hs
          × All (IsKept m query c.chunks c.vectors) hs)
      found =
          Succeeds-bind
            (λ order.
              All (λ i. i < length scores) order × (length order ≡ min top_k (length scores)))
            _ (best np (min top_k (length scores)) scores) _
            (best-within np indexing (min top_k (length scores)) scores (omega arith))
            (λ order b.
              let (hs, f, (n, r, k)) =
                hits-IsKept m query c.chunks c.vectors 1 order valid.matched
                  (subst (λ l. All (λ i. i < l) order) as_many b.0) in
              (hs, f, (n ∙ b.1 ∙ ap (min top_k) as_many, r, k)))

  -- If NumPy's partition and sort return positions of their argument, a search of a valid collection
  -- by a known metric succeeds. It returns as many hits as were asked for or as the collection has, if
  -- that is less; their ranks count up from 1, and each is a chunk of the collection with the score
  -- that the metric gives its row.
  pub search-IsKept :
      (name : String) (m : Metric) (query : V) (top_k : ℕ) (store : Store V) (c : Collection V)
      → dict_get name store ≡ some c
      → IsValid c
      → m ≢ unknown
      → Succeeds (search np name query top_k (some m) store) (λ hs.
        (length hs ≡ min top_k (length c.chunks))
        × Ranked 1 hs
        × All (IsKept m query c.chunks c.vectors) hs)
  unfolding search
  search-IsKept name m query top_k store c found valid known =
      let (hs, f, p) = search_collection-IsKept m query top_k c valid known in
      (
        hs,
        ap (λ r. r >>= search_collection np query top_k (some m)) (require-found name store c found)
            ∙ f,
        p,
      )
