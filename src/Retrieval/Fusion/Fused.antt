-- ===== src/Retrieval/Fusion/Fused.antt =====
-- What a fused ranking holds (backend/geolytics/retrieval/hybrid.py).
use geolytics.Prelude.{
  ◌≡◌, ◌⊎◌, inl, inr, refl, sym, ap, ◌∙◌, none, some, List, [], ◌∷◌, All, In, map,
}
use mathlib.Core.Path.{subst}
use geolytics.Chunking.Base.{ChunkId}
use geolytics.Chunking.Ids.{Distinct}
use geolytics.Index.Memory.{Result, err, ok, ◌>>=◌, key_error}
use geolytics.Index.Memory.Search.{ScoredChunk}
use geolytics.Index.Memory.Hits.{Ranked}
use geolytics.Retrieval.Numbers.{Floats}
use geolytics.Retrieval.Order.{renumber, sort_items}
use geolytics.Retrieval.Order.Keys.{
  ids_by, Distinct-sort_items, In-sort_items, sort_items-In, renumber-Ranked, renumber-chunks,
}
use geolytics.Retrieval.Fusion.{
  id_of, item_of, with_chunks, tally_all, by_score, ranked_scores, reciprocal_rank_fusion,
}
use geolytics.Retrieval.Fusion.Keys.{keys, get_key, Keyed, get-Keyed}
use geolytics.Retrieval.Fusion.Totals.{NamedIn, IsTally, tally_all-IsTally}

module _ {W : Type 0} (d : List (ChunkId × ScoredChunk W)) (keyed : Keyed d) where
  item_of-there :
      (id : ChunkId)
      → In id (keys d)
      → (r : ScoredChunk W) × ((item_of id d ≡ ok r) × (id_of r ≡ id))
  unfolding item_of
  item_of-there id i =
      let (r, e) = get_key id d i in
      (
        r,
        (
          ap (λ o. elim o as (λ x. Result (ScoredChunk W)) [ none ↦ err key_error | some a ↦ ok a ])
              e,
          get-Keyed id d r keyed e,
        ),
      )

  -- Every chunk is found, under its own id.
  pub with_chunks-found :
      (scores : List (ChunkId × W))
      → All (λ id. In id (keys d)) (keys scores)
      → (rs : List (ScoredChunk W)) × ((with_chunks d scores ≡ ok rs)
          × (map id_of rs ≡ keys scores))
  unfolding with_chunks
  with_chunks-found [] a = ([], (refl, refl))
  with_chunks-found ((id, score) ∷ scores) a =
      let (r, (e, same)) = item_of-there id a.0 in
      let (rs, (es, ids)) = with_chunks-found scores a.1 in
      (
        record { chunk = r.chunk; score = score; rank = 0 } ∷ rs,
        (found r rs e es, ap (λ t. t ∷ map id_of rs) same ∙ ap (λ t. id ∷ t) ids),
      )
    where
      found :
          (r : ScoredChunk W) (rs : List (ScoredChunk W))
          → item_of id d ≡ ok r
          → with_chunks d scores ≡ ok rs
          → with_chunks d ((id, score) ∷ scores)
            ≡ ok (record { chunk = r.chunk; score = score; rank = 0 } ∷ rs)
      found r rs e es = rw (e, es) refl

-- A ranking of the chunks that stand in a dictionary: numbered from 1, without repetition, and with
-- the ids of the dictionary.
abbrev pub IsRankingOf : {W : Type 0} → (ChunkId → Type 0) → List (ScoredChunk W) → Type 0
IsRankingOf named rs =
    Ranked 1 rs
    × (Distinct (map id_of rs)
        × ((id : ChunkId) → (In id (map id_of rs) → named id) × (named id → In id (map id_of rs))))

keys-by : {W : Type 0} (d : List (ChunkId × W)) → ids_by (λ p. p.0) d ≡ keys d
keys-by [] = refl
keys-by (p ∷ d) = ap (λ t. p.0 ∷ t) (keys-by d)

module _ {W : Type 0} where
  In-keys : (id : ChunkId) (d : List (ChunkId × W)) → In id (keys d) → (w : W) × In (id, w) d
  In-keys id [] i = absurd i
  In-keys id ((j, w) ∷ d) (inl e) = (w, inl (ap (λ t. (t, w)) e))
  In-keys id ((j, w) ∷ d) (inr i) = let (v, k) = In-keys id d i in (v, inr k)

  keys-In : (id : ChunkId) (w : W) (d : List (ChunkId × W)) → In (id, w) d → In id (keys d)
  keys-In id w [] i = absurd i
  keys-In id w ((j, v) ∷ d) (inl e) = inl (ap (λ p. p.0) e)
  keys-In id w ((j, v) ∷ d) (inr i) = inr (keys-In id w d i)

pub All-In : {A : Type 0} {P : A → Type 0} (xs : List A) → ((x : A) → In x xs → P x) → All P xs
All-In [] h = tt
All-In (x ∷ xs) h = (h x (inl refl), All-In xs (λ y i. h y (inr i)))

module _ {W : Type 0} (f : Floats W) where
  -- The ids of sorted scores.
  sorted_keys :
      (scores : List (ChunkId × W)) (id : ChunkId)
      → (In id (keys (sort_items f by_score scores)) → In id (keys scores))
        × (In id (keys scores) → In id (keys (sort_items f by_score scores)))
  sorted_keys scores id = (back, forth)
    where
      back : In id (keys (sort_items f by_score scores)) → In id (keys scores)
      back i =
          let (w, k) = In-keys id (sort_items f by_score scores) i in
          keys-In id w scores (sort_items-In f by_score (λ p. p.0) scores (id, w) k)

      forth : In id (keys scores) → In id (keys (sort_items f by_score scores))
      forth i =
          let (w, k) = In-keys id scores i in
          keys-In id w (sort_items f by_score scores)
            (In-sort_items f by_score (λ p. p.0) scores (id, w) k)

  sorted_once :
      (scores : List (ChunkId × W))
      → Distinct (keys scores)
      → Distinct (keys (sort_items f by_score scores))
  sorted_once scores once = subst Distinct (keys-by (sort_items f by_score scores)) (
      Distinct-sort_items f by_score (λ p. p.0) scores (subst Distinct (sym (keys-by scores)) once))

  renumber-ids : (rs : List (ScoredChunk W)) → map id_of (renumber rs) ≡ map id_of rs
  renumber-ids rs =
      sym (map-chunks (renumber rs))
      ∙ ap (map (λ c. c.chunk_id)) (renumber-chunks rs)
      ∙ map-chunks rs
    where
      map-chunks :
          (qs : List (ScoredChunk W)) → map (λ c. c.chunk_id) (map (λ r. r.chunk) qs) ≡ map id_of qs
      map-chunks [] = refl
      map-chunks (q ∷ qs) = ap (λ t. id_of q ∷ t) (map-chunks qs)

  pub ranked_scores-ranking :
      (chunks : List (ChunkId × ScoredChunk W)) (scores : List (ChunkId × W))
      → Keyed chunks
      → ((id : ChunkId) → In id (keys scores) → In id (keys chunks))
      → Distinct (keys scores)
      → (rs : List (ScoredChunk W)) × ((ranked_scores f chunks scores ≡ ok rs)
          × IsRankingOf (λ id. In id (keys scores)) rs)
  unfolding ranked_scores
  ranked_scores-ranking chunks scores keyed there once =
      let sorted : List (ChunkId × W) = sort_items f by_score scores in
      let (rs, (e, ids)) =
        with_chunks-found chunks keyed sorted
          (All-In (keys sorted) (λ id i. there id ((sorted_keys scores id).0 i))) in
      let all : map id_of (renumber rs) ≡ keys sorted = renumber-ids rs ∙ ids in
      (
        renumber rs,
        (
          ap (λ t. t >>= λ qs. ok (renumber qs)) e,
          (
            renumber-Ranked rs,
            (
              subst Distinct (sym all) (sorted_once scores once),
              λ id. (
                λ i. (sorted_keys scores id).0 (subst (In id) all i),
                λ i. subst (In id) (sym all) ((sorted_keys scores id).1 i),
              ),
            ),
          ),
        ),
      )

  -- Reciprocal rank fusion always returns a ranking: it is numbered from 1, no chunk occurs in it
  -- twice, and it has exactly the chunks that occur in one of the rankings at least.
  pub reciprocal_rank_fusion-ranking :
      (rankings : List (List (ScoredChunk W))) (k : W)
      → (rs : List (ScoredChunk W)) × ((reciprocal_rank_fusion f rankings k ≡ ok rs)
          × IsRankingOf (NamedIn f k rankings) rs)
  unfolding reciprocal_rank_fusion
  reciprocal_rank_fusion-ranking rankings k =
      let t = tally_all f k rankings (record { totals = []; chunks = [] }) in
      let h =
        tally_all-IsTally f k (λ id. ⊥) rankings (record { totals = []; chunks = [] }) empty in
      let (rs, (e, (numbers, (once, same)))) =
        ranked_scores-ranking t.chunks t.totals h.keyed (λ id. subst (In id) h.same_keys) h.once in
      (
        rs,
        (
          e,
          (
            numbers,
            (
              once,
              λ id. (
                λ i. left (h.sound id ((same id).0 i)),
                λ i. (same id).1 (h.complete id (inl i)),
              ),
            ),
          ),
        ),
      )
    where
      empty : IsTally f (λ id. ⊥) (record { totals = []; chunks = [] })
      empty = record {
        same_keys = refl;
        once = tt;
        complete = λ id i. i;
        sound = λ id i. i;
        keyed = tt;
      }

      left : {A : Type 0} → A ⊎ ⊥ → A
      left (inl a) = a
      left (inr e) = absurd e
