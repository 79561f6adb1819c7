-- ===== src/Retrieval/Retrievers/Top.antt =====
-- What the retrievers return (backend/geolytics/retrieval/hybrid.py and backend/geolytics/retrieval/rerank.py).
use geolytics.Prelude.{
  ℕ, zero, suc, ◌≤◌, ◌*◌, ◌≡◌, ◌⊎◌, inl, inr, refl, arith, List, [], ◌∷◌, All, In, map, take,
  length,
}
use geolytics.Prelude.Text.{Text}
use geolytics.Chunking.Base.{ChunkId}
use geolytics.Chunking.Ids.{Distinct}
use geolytics.Index.Memory.{ok}
use geolytics.Index.Memory.Search.{ScoredChunk}
use geolytics.Index.Memory.Hits.{Ranked}
use geolytics.Retrieval.Numbers.{Floats}
use geolytics.Retrieval.Fusion.{id_of}
use geolytics.Retrieval.Fusion.Fused.{All-In, reciprocal_rank_fusion-ranking}
use geolytics.Retrieval.Retrievers.{HybridRetriever, rrf, fused_by, hybrid_retrieve}

module _ {W : Type 0} where
  Ranked-take : (k n : ℕ) (rs : List (ScoredChunk W)) → Ranked n rs → Ranked n (take k rs)
  Ranked-take zero n rs h = tt
  Ranked-take (suc k) n [] h = tt
  Ranked-take (suc k) n (r ∷ rs) h = (h.0, Ranked-take k (suc n) rs h.1)

  All-take :
      (P : ChunkId → Type 0) (k : ℕ) (rs : List (ScoredChunk W))
      → All P (map id_of rs)
      → All P (map id_of (take k rs))
  All-take P zero rs h = tt
  All-take P (suc k) [] h = tt
  All-take P (suc k) (r ∷ rs) h = (h.0, All-take P k rs h.1)

  Distinct-take :
      (k : ℕ) (rs : List (ScoredChunk W))
      → Distinct (map id_of rs)
      → Distinct (map id_of (take k rs))
  Distinct-take zero rs h = tt
  Distinct-take (suc k) [] h = tt
  Distinct-take (suc k) (r ∷ rs) h = (All-take _ k rs h.0, Distinct-take k rs h.1)

take_short : {A : Type 0} (k : ℕ) (xs : List A) → length (take k xs) ≤ k
take_short zero xs = omega arith
take_short (suc k) [] = omega arith
take_short (suc k) (x ∷ xs) = let h = take_short k xs in omega arith

module _ {W : Type 0} (f : Floats W) where
  -- Hybrid retrieval by reciprocal ranks, of retrievers that both answer, answers with at most as many
  -- chunks as were asked for, numbered from 1. No chunk occurs twice, and each is one that one of the
  -- two retrievers found.
  pub hybrid_retrieve-top :
      (h : HybridRetriever W) (query : Text) (top_k : ℕ) (ds ls : List (ScoredChunk W))
      → h.method ≡ rrf
      → h.dense query (top_k * h.candidate_multiplier) ≡ ok ds
      → h.lexical query (top_k * h.candidate_multiplier) ≡ ok ls
      → (rs : List (ScoredChunk W)) × (hybrid_retrieve f h query top_k ≡ ok rs)
        × (length rs ≤ top_k)
        × Ranked 1 rs
        × Distinct (map id_of rs)
        × All (λ id. In id (map id_of ds) ⊎ In id (map id_of ls)) (map id_of rs)
  unfolding hybrid_retrieve fused_by
  hybrid_retrieve-top h query top_k ds ls by d l =
      let (rs, (e, (numbers, (once, same)))) =
        reciprocal_rank_fusion-ranking f (ds ∷ ls ∷ []) h.rrf_k in
      (
        take top_k rs,
        rw (d, l, by, e) refl,
        take_short top_k rs,
        Ranked-take top_k 1 rs numbers,
        Distinct-take top_k rs once,
        All-take _ top_k rs (All-In (map id_of rs) (λ id i. either ((same id).0 i))),
      )
    where
      either : {A B : Type 0} → A ⊎ (B ⊎ ⊥) → A ⊎ B
      either (inl a) = inl a
      either (inr (inl b)) = inr b
      either (inr (inr e)) = absurd e
