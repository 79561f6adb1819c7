-- ===== src/Retrieval/Retrievers.antt =====
-- The retrievers: dense, hybrid and reranking (`retrieve` of backend/geolytics/retrieval/dense.py,
-- backend/geolytics/retrieval/hybrid.py and backend/geolytics/retrieval/rerank.py). The lexical
-- retriever, the embedder and the cross-encoder are parameters.
pub mod Top
use geolytics.Prelude.{ℕ, ◌*◌, String, Option, List, [], ◌∷◌, map, take}
use geolytics.Prelude.Text.{Text}
use Prim.Native.Nat.{max}
use geolytics.Chunking.Base.{ChunkId, Chunk}
use geolytics.Index.Numbers.{Numpy}
use geolytics.Index.Memory.{Metric, Store, Result, err, ok, ◌>>=◌, value_error}
use geolytics.Index.Memory.Search.{ScoredChunk, item, search}
use geolytics.Retrieval.Numbers.{Floats}
use geolytics.Retrieval.Order.{renumber, sort_items}
use geolytics.Retrieval.Fusion.{reciprocal_rank_fusion, weighted_fusion}

-- `retrieve(query, top_k)` of a retriever.
abbrev pub Retriever : Type 0 → Type 0
Retriever W = Text → ℕ → Result (List (ScoredChunk W))

pub data FusionMethod : Type 0 where
  rrf : FusionMethod
  weighted : FusionMethod
  -- Another text.
  other : FusionMethod

pub record HybridRetriever (W : Type 0) : Type 0 where
  pub dense : Retriever W
  pub lexical : Retriever W
  pub method : FusionMethod
  pub alpha : W
  pub rrf_k : W
  pub candidate_multiplier : ℕ

-- `HybridRetriever.__init__`.
unfoldable pub hybrid_retriever :
    {W : Type 0} → Retriever W → Retriever W → FusionMethod → W → W → ℕ → HybridRetriever W
hybrid_retriever dense lexical method alpha rrf_k candidate_multiplier = record {
  dense = dense;
  lexical = lexical;
  method = method;
  alpha = alpha;
  rrf_k = rrf_k;
  candidate_multiplier = max 1 candidate_multiplier;
}

module _ {V W : Type 0} (np : Numpy V W) where
  -- `DenseRetriever.retrieve`, on the store in memory, with `embed_query`.
  unfoldable pub dense_retriever :
      (List Text → List V) → String → Option Metric → Store V → Retriever W
  dense_retriever embed_query collection metric store query top_k =
      item (embed_query (query ∷ [])) 0 >>= λ vector. search np collection vector top_k metric store

module _ {W : Type 0} (f : Floats W) where
  unfoldable pub fused_by :
      HybridRetriever W
      → List (ScoredChunk W)
      → List (ScoredChunk W)
      → FusionMethod
      → Result (List (ScoredChunk W))
  fused_by h dense_hits lexical_hits rrf =
      reciprocal_rank_fusion f (dense_hits ∷ lexical_hits ∷ []) h.rrf_k
  fused_by h dense_hits lexical_hits weighted = weighted_fusion f dense_hits lexical_hits h.alpha
  fused_by h dense_hits lexical_hits other = err value_error

  -- `HybridRetriever.retrieve`.
  unfoldable pub hybrid_retrieve : HybridRetriever W → Retriever W
  unfolding fused_by
  hybrid_retrieve h query top_k =
      let depth = top_k * h.candidate_multiplier in
      h.dense query depth >>= λ dense_hits. h.lexical query depth >>= λ lexical_hits.
      fused_by h dense_hits lexical_hits h.method >>= λ fused. ok (take top_k fused)

  -- `zip(candidates, scores, strict=True)`.
  unfoldable pub rescore : List (ScoredChunk W) → List W → Result (List (ScoredChunk W))
  rescore [] [] = ok []
  rescore [] (s ∷ scores) = err value_error
  rescore (c ∷ candidates) [] = err value_error
  rescore (c ∷ candidates) (s ∷ scores) = rescore candidates scores >>= λ rest.
      ok (record { chunk = c.chunk; score = s; rank = 0 } ∷ rest)

  abbrev pub score_key : ScoredChunk W → ChunkId × W
  score_key r = (r.chunk.chunk_id, r.score)

  unfoldable pub rerank :
      (Text → List Text → List W) → Text → ℕ → List (ScoredChunk W) → Result (List (ScoredChunk W))
  unfolding rescore
  rerank score query top_k [] = ok []
  rerank score query top_k (c ∷ candidates) =
      let texts = map (λ q. q.chunk.text) (c ∷ candidates) in
      rescore (c ∷ candidates) (score query texts) >>= λ rescored.
      ok (take top_k (renumber (sort_items f score_key rescored)))

  -- `RerankingRetriever.retrieve`.
  unfoldable pub reranking_retriever : Retriever W → (Text → List Text → List W) → ℕ → Retriever W
  unfolding rerank
  reranking_retriever base score candidate_k query top_k =
      base query (max candidate_k top_k) >>= rerank score query top_k
