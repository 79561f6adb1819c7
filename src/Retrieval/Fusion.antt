-- ===== src/Retrieval/Fusion.antt =====
-- Fusing a dense and a lexical ranking (`reciprocal_rank_fusion`, `weighted_fusion` and `_min_max` of
-- backend/geolytics/retrieval/hybrid.py).
pub mod Keys
pub mod Totals
pub mod Fused
use geolytics.Prelude.{
  ℕ, ◌+◌, Bool, true, false, not, ◌||◌, Option, none, some, List, [], ◌∷◌, ◌++◌, if◌then◌else◌, map,
}
use geolytics.Chunking.Base.{ChunkId, Chunk}
use geolytics.Chunking.Base.Same.{eq_chunk_id}
use geolytics.Index.Memory.{Result, err, ok, ◌>>=◌, key_error, value_error, dict_get, dict_set}
use geolytics.Index.Memory.Search.{ScoredChunk}
use geolytics.Retrieval.Numbers.{Floats}
use geolytics.Retrieval.Order.{renumber, sort_items}

-- `d[key]`
unfoldable pub item_of : {A : Type 0} → ChunkId → List (ChunkId × A) → Result A
item_of id d = elim (dict_get id d) [ none ↦ err key_error | some a ↦ ok a ]

module _ {W : Type 0} where
  -- `chunk_id` of a result.
  abbrev pub id_of : ScoredChunk W → ChunkId
  id_of r = r.chunk.chunk_id

  abbrev pub or_default : W → Option W → W
  or_default w none = w
  or_default w (some v) = v

  -- `chunks.setdefault(cid, result)`
  unfoldable pub set_default :
      ChunkId → ScoredChunk W → List (ChunkId × ScoredChunk W) → List (ChunkId × ScoredChunk W)
  set_default id r d = elim (dict_get id d) [ none ↦ dict_set id r d | some q ↦ d ]

  -- The score that an item is sorted by.
  abbrev pub by_score : ChunkId × W → ChunkId × W
  by_score item = item

  -- The fused scores with their chunks.
  unfoldable pub with_chunks :
      List (ChunkId × ScoredChunk W) → List (ChunkId × W) → Result (List (ScoredChunk W))
  with_chunks chunks [] = ok []
  with_chunks chunks ((id, score) ∷ scores) = item_of id chunks >>= λ r.
      with_chunks chunks scores >>= λ rest.
      ok (record { chunk = r.chunk; score = score; rank = 0 } ∷ rest)

module _ {W : Type 0} (f : Floats W) where
  -- The dictionaries of the loop.
  pub record Tally : Type 0 where
    pub totals : List (ChunkId × W)
    pub chunks : List (ChunkId × ScoredChunk W)

  unfoldable pub tally_one : W → ScoredChunk W → Tally → Tally
  tally_one k r t = record {
    totals =
        dict_set (id_of r)
          (f.plus (or_default f.zero (dict_get (id_of r) t.totals))
            (f.over f.one (f.plus k (f.of_nat r.rank))))
          t.totals;
    chunks = set_default (id_of r) r t.chunks;
  }

  unfoldable pub tally_ranking : W → List (ScoredChunk W) → Tally → Tally
  tally_ranking k [] t = t
  tally_ranking k (r ∷ ranking) t = tally_ranking k ranking (tally_one k r t)

  unfoldable pub tally_all : W → List (List (ScoredChunk W)) → Tally → Tally
  tally_all k [] t = t
  tally_all k (ranking ∷ rankings) t = tally_all k rankings (tally_ranking k ranking t)

  -- Sorted by score, with the chunks looked up, and numbered.
  unfoldable pub ranked_scores :
      List (ChunkId × ScoredChunk W) → List (ChunkId × W) → Result (List (ScoredChunk W))
  ranked_scores chunks scores =
      with_chunks chunks (sort_items f by_score scores) >>= λ rs. ok (renumber rs)

  -- `reciprocal_rank_fusion`.
  unfoldable pub reciprocal_rank_fusion :
      List (List (ScoredChunk W)) → W → Result (List (ScoredChunk W))
  reciprocal_rank_fusion rankings k =
      let t = tally_all k rankings (record { totals = []; chunks = [] }) in
      ranked_scores t.chunks t.totals

  -- `min` and `max` of scores, from the first.
  abbrev pub least : W → List W → W
  least w [] = w
  least w (v ∷ vs) = least (if f.less v w then v else w) vs

  abbrev pub greatest : W → List W → W
  greatest w [] = w
  greatest w (v ∷ vs) = greatest (if f.less w v then v else w) vs

  -- `{r.chunk_id: value(r) for r in results}`
  unfoldable pub dict_of :
      {A : Type 0}
      → (ScoredChunk W → A)
      → List (ScoredChunk W)
      → List (ChunkId × A)
      → List (ChunkId × A)
  dict_of value [] d = d
  dict_of value (r ∷ results) d = dict_of value results (dict_set (id_of r) (value r) d)

  normalised : W → W → List (ScoredChunk W) → List (ChunkId × W)
  unfolding dict_of
  normalised lo hi results =
      if f.equal hi lo
      then dict_of (λ r. f.one) results []
      else dict_of (λ r. f.over (f.minus r.score lo) (f.minus hi lo)) results []

  -- `_min_max`.
  unfoldable pub min_max : List (ScoredChunk W) → List (ChunkId × W)
  unfolding normalised
  min_max [] = []
  min_max (r ∷ results) =
      let scores = map (λ q. q.score) results in
      normalised (least r.score scores) (greatest r.score scores) (r ∷ results)

  unfoldable pub blend :
      W
      → List (ChunkId × W)
      → List (ChunkId × W)
      → List (ChunkId × ScoredChunk W)
      → List (ChunkId × W)
  blend alpha dense lexical [] = []
  blend alpha dense lexical ((id, r) ∷ chunks) =
      (
        id,
        f.plus (f.times alpha (or_default f.zero (dict_get id dense)))
            (f.times (f.minus f.one alpha) (or_default f.zero (dict_get id lexical))),
      )
      ∷ blend alpha dense lexical chunks

  at_most : W → W → Bool
  at_most a b = f.less a b || f.equal a b

  -- `weighted_fusion`.
  unfoldable pub weighted_fusion :
      List (ScoredChunk W) → List (ScoredChunk W) → W → Result (List (ScoredChunk W))
  unfolding blend at_most dict_of
  weighted_fusion dense lexical alpha =
      let chunks = dict_of (λ r. r) (dense ++ lexical) [] in
      if not (at_most f.zero alpha) || not (at_most alpha f.one)
      then err value_error
      else ranked_scores chunks (blend alpha (min_max dense) (min_max lexical) chunks)
