-- ===== src/Index/Memory/Entries.antt =====
-- The store in memory as a map from chunk ids (backend/geolytics/index/memory.py).
use geolytics.Prelude.{
  ℕ, suc, ◌≡◌, refl, sym, ap, ◌∙◌, Bool, true, false, Option, none, some, List, [], ◌∷◌, ◌++◌,
  if◌then◌else◌, ◌==◌, length, arith, length-append,
}
use geolytics.Chunking.Base.{ChunkId, Chunk}
use geolytics.Chunking.Base.Same.{eq_chunk_id}
use geolytics.Index.Memory.{
  Collection, dict_get, dict_set, get_elem?, inserted, replaced, upsert_one, upsert_all,
}
use geolytics.Index.Memory.Positions.{
  position, positions, shift, entry, put, dict_get-positions, positions-append, dict_set-positions,
  positions-set_elem, length-set_elem, entry-append, entry-set_elem,
}

module _ {V : Type 0} where
  abbrev pub put_all :
      List Chunk → List V → (ChunkId → Option (Chunk × V)) → ChunkId → Option (Chunk × V)
  put_all [] vs m = m
  put_all (c ∷ cs) [] m = m
  put_all (c ∷ cs) (v ∷ vs) m = put_all cs vs (put c v m)

  -- The collection as a map: the position that the index tells, in the chunks and in the rows.
  abbrev at : List Chunk → List V → Option ℕ → Option (Chunk × V)
  at cs vs none = none
  at cs vs (some i) = elim (get_elem? cs i) [
    | none ↦ none
    | some c ↦ elim (get_elem? vs i) [ none ↦ none | some v ↦ some (c, v) ]
  ]

  abbrev pub view : Collection V → ChunkId → Option (Chunk × V)
  view c id = at c.chunks c.vectors (dict_get id c.index)

  -- The index tells where each chunk is, and each has a row.
  pub record IsValid (c : Collection V) : Type 0 where
    pub indexed : c.index ≡ positions 0 c.chunks
    pub matched : length c.vectors ≡ length c.chunks

  at-position :
      (id : ChunkId) (cs : List Chunk) (vs : List V)
      → length vs ≡ length cs
      → at cs vs (position id cs) ≡ entry id cs vs
  at-position id [] vs h = refl
  at-position id (c ∷ cs) [] h = absurd (omega arith)
  at-position id (c ∷ cs) (v ∷ vs) h =
      go (c.chunk_id == id) (position id cs) (at-position id cs vs (omega arith))
    where
      go :
          (b : Bool) (o : Option ℕ)
          → at cs vs o ≡ entry id cs vs
          → at
              (c ∷ cs)
              (v ∷ vs)
              (if b then some 0 else elim o [ none ↦ none | some i ↦ some (suc i) ])
            ≡ (if b then some (c, v) else entry id cs vs)
      go true o h = refl
      go false none h = h
      go false (some i) h = h

  dict_get-valid :
      (c : Collection V) (id : ChunkId) → IsValid c → dict_get id c.index ≡ position id c.chunks
  dict_get-valid c id valid =
      ap (dict_get id) valid.indexed
      ∙ dict_get-positions id 0 c.chunks
      ∙ shift_zero (position id c.chunks)
    where
      shift_zero : (o : Option ℕ) → shift 0 o ≡ o
      shift_zero none = refl
      shift_zero (some i) = ap some (omega arith)

  view-entry :
      (c : Collection V) (id : ChunkId) → IsValid c → view c id ≡ entry id c.chunks c.vectors
  view-entry c id valid =
      ap (at c.chunks c.vectors) (dict_get-valid c id valid)
      ∙ at-position id c.chunks c.vectors valid.matched

  module _ (chunk : Chunk) (v : V) (c : Collection V) (valid : IsValid c) where
    inserted-IsValid : position chunk.chunk_id c.chunks ≡ none → IsValid (inserted chunk v c)
    unfolding inserted
    inserted-IsValid n = record {
      indexed =
          ap (dict_set chunk.chunk_id (length c.chunks)) valid.indexed
          ∙ dict_set-positions chunk.chunk_id (length c.chunks) 0 c.chunks n
          ∙ ap (λ k. positions 0 c.chunks ++ (chunk.chunk_id, k) ∷ []) (omega arith)
          ∙ sym (positions-append 0 c.chunks chunk);
      matched =
          length-append c.vectors (v ∷ [])
          ∙ omega (arith, valid.matched)
          ∙ sym (length-append c.chunks (chunk ∷ []));
    }

    replaced-IsValid :
        (i : ℕ) → position chunk.chunk_id c.chunks ≡ some i → IsValid (replaced chunk v c i)
    unfolding replaced
    replaced-IsValid i n = record {
      indexed = valid.indexed ∙ sym (positions-set_elem chunk 0 c.chunks i n);
      matched =
          length-set_elem c.vectors i v ∙ valid.matched ∙ sym (length-set_elem c.chunks i chunk);
    }

    -- One upsert is one more entry of the map.
    abbrev Puts : Collection V → Type 0
    Puts d = IsValid d × ((id : ChunkId) → view d id ≡ put chunk v (view c) id)

    put-entry :
        (id : ChunkId) → put chunk v (λ j. entry j c.chunks c.vectors) id ≡ put chunk v (view c) id
    put-entry id =
        ap (λ o. if chunk.chunk_id == id then some (chunk, v) else o) (sym (view-entry c id valid))

    inserted-Puts : position chunk.chunk_id c.chunks ≡ none → Puts (inserted chunk v c)
    unfolding inserted
    inserted-Puts n = (
      inserted-IsValid n,
      λ id.
          view-entry (inserted chunk v c) id (inserted-IsValid n)
          ∙ entry-append chunk v c.chunks c.vectors id valid.matched n
          ∙ put-entry id,
    )

    replaced-Puts :
        (i : ℕ) → position chunk.chunk_id c.chunks ≡ some i → Puts (replaced chunk v c i)
    unfolding replaced
    replaced-Puts i n = (
      replaced-IsValid i n,
      λ id.
          view-entry (replaced chunk v c i) id (replaced-IsValid i n)
          ∙ entry-set_elem chunk v c.chunks c.vectors id i valid.matched n
          ∙ put-entry id,
    )

    upsert_one-Puts : Puts (upsert_one chunk v c)
    unfolding upsert_one
    upsert_one-Puts =
        by_position (dict_get chunk.chunk_id c.index) (dict_get-valid c chunk.chunk_id valid)
      where
        by_position :
            (o : Option ℕ)
            → o ≡ position chunk.chunk_id c.chunks
            → Puts (elim o [ none ↦ inserted chunk v c | some i ↦ replaced chunk v c i ])
        by_position none e = inserted-Puts (sym e)
        by_position (some i) e = replaced-Puts i (sym e)

put_all-cong :
    {V : Type 0} (cs : List Chunk) (vs : List V) (m n : ChunkId → Option (Chunk × V))
    → ((id : ChunkId) → m id ≡ n id)
    → (id : ChunkId) → put_all cs vs m id ≡ put_all cs vs n id
put_all-cong [] vs m n h id = h id
put_all-cong (c ∷ cs) [] m n h id = h id
put_all-cong (c ∷ cs) (v ∷ vs) m n h id =
    put_all-cong cs vs (put c v m) (put c v n)
      (λ j. ap (λ o. if c.chunk_id == j then some (c, v) else o) (h j)) id

-- A valid collection stays valid under an upsert, and as a map from chunk ids to a chunk and a row
-- it becomes the map with the new entries put in one after another: the last chunk that has an id
-- wins, and what is kept under any other id stays.
pub upsert_all-put_all :
    {V : Type 0} (chunks : List Chunk) (rows : List V) (c : Collection V)
    → IsValid c
    → IsValid (upsert_all chunks rows c)
      × ((id : ChunkId) → view (upsert_all chunks rows c) id ≡ put_all chunks rows (view c) id)
unfolding upsert_all
upsert_all-put_all [] rows c valid = (valid, λ id. refl)
upsert_all-put_all (chunk ∷ chunks) [] c valid = (valid, λ id. refl)
upsert_all-put_all (chunk ∷ chunks) (v ∷ rows) c valid =
    let first = upsert_one-Puts chunk v c valid in
    let rest = upsert_all-put_all chunks rows (upsert_one chunk v c) first.0 in
    (rest.0, λ id. rest.1 id ∙ put_all-cong chunks rows _ _ first.1 id)
