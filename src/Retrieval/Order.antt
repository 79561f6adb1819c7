-- ===== src/Retrieval/Order.antt =====
-- `renumber`, and sorting by descending score with the chunk id for ties
-- (backend/geolytics/retrieval/base.py and backend/geolytics/retrieval/hybrid.py).
pub mod Keys
use geolytics.Prelude.{ℕ, suc, Bool, List, [], ◌∷◌, if◌then◌else◌}
use geolytics.Chunking.Base.{ChunkId, Chunk}
use geolytics.Index.Memory.Search.{ScoredChunk}
use geolytics.Retrieval.Numbers.{Floats}

renumber_from : {W : Type 0} → ℕ → List (ScoredChunk W) → List (ScoredChunk W)
renumber_from n [] = []
renumber_from n (r ∷ results) =
    record { chunk = r.chunk; score = r.score; rank = n } ∷ renumber_from (suc n) results

unfoldable pub renumber : {W : Type 0} → List (ScoredChunk W) → List (ScoredChunk W)
unfolding renumber_from
renumber = renumber_from 1

module _ {W : Type 0} (f : Floats W) where
  -- The keys `(-score, chunk_id)` in the order of tuples.
  unfoldable pub precedes : ChunkId × W → ChunkId × W → Bool
  precedes (i, a) (j, b) =
      if f.equal (f.negative a) (f.negative b)
      then f.id_less i j
      else f.less (f.negative a) (f.negative b)

  -- `sorted`, which is stable.
  unfoldable pub insert_item : {A : Type 0} → (A → ChunkId × W) → A → List A → List A
  insert_item key x [] = x ∷ []
  insert_item key x (y ∷ items) =
      let rest = insert_item key x items in
      if precedes (key y) (key x) then y ∷ rest else x ∷ y ∷ items

  unfoldable pub sort_items : {A : Type 0} → (A → ChunkId × W) → List A → List A
  unfolding insert_item
  sort_items key [] = []
  sort_items key (x ∷ items) = insert_item key x (sort_items key items)
