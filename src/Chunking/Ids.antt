-- ===== src/Chunking/Ids.antt =====
-- Chunks are numbered in order, so that no two chunks of a document have the same id
-- (backend/geolytics/chunking).
use geolytics.Prelude.{
  ℕ, suc, ◌+◌, ◌<◌, ◌≡◌, ◌≢◌, refl, ap, List, [], ◌∷◌, ◌++◌, length, All, arith,
}
use mathlib.Core.Path.{subst}
use geolytics.Prelude.Text.{Text}
use geolytics.Chunking.Base.{
  Document, Section, ChunkId, Chunk, ChunkingStrategy, make_chunk_id, effective_sections,
}
use geolytics.Chunking.Sentence.{SentenceChunker}
use geolytics.Chunking.Sentence.Chunks.{
  group_chunk, group_chunks, section_groups, chunk_sections, sentence_strategy,
}
use geolytics.Chunking.ParentChild.{
  child_of, children_of, all_children, sub_document, parent_child_strategy,
}

-- The chunks' numbers, and those in their ids, count up from a number.
abbrev pub Numbered : ℕ → List Chunk → Type 0
Numbered n [] = Unit
Numbered n (c ∷ chunks) = ((c.ordinal ≡ n) × (c.chunk_id.ordinal ≡ n)) × Numbered (suc n) chunks

-- No two have the same id.
abbrev pub Distinct : List ChunkId → Type 0
Distinct [] = Unit
Distinct (i ∷ ids) = All (λ j. i ≢ j) ids × Distinct ids

abbrev pub ids : List Chunk → List ChunkId
ids [] = []
ids (c ∷ chunks) = c.chunk_id ∷ ids chunks

Numbered-append :
    (n : ℕ) (xs ys : List Chunk)
    → Numbered n xs
    → Numbered (n + length xs) ys
    → Numbered n (xs ++ ys)
Numbered-append n [] ys h i = subst (λ k. Numbered k ys) (omega arith) i
Numbered-append n (c ∷ xs) ys h i =
    (h.0, Numbered-append (suc n) xs ys h.1 (subst (λ k. Numbered k ys) (omega arith) i))

later_ids :
    (i : ChunkId) (n : ℕ) (chunks : List Chunk)
    → i.ordinal < n
    → Numbered n chunks
    → All (λ j. i ≢ j) (ids chunks)
later_ids i n [] h m = tt
later_ids i n (c ∷ chunks) h m = (
  λ e. ground (arith, m.0.1, ap (λ j. j.ordinal) e, h),
  later_ids i (suc n) chunks (omega arith) m.1,
)

Numbered-Distinct : (n : ℕ) (chunks : List Chunk) → Numbered n chunks → Distinct (ids chunks)
Numbered-Distinct n [] m = tt
Numbered-Distinct n (c ∷ chunks) m = (
  later_ids c.chunk_id (suc n) chunks (omega (arith, m.0.1)) m.1,
  Numbered-Distinct (suc n) chunks m.1,
)

module _ (sha1 : Text → Text) (d : Document) where
  group_chunks-Numbered :
      (s : Section) (n : ℕ) (groups : List (List Text))
      → Numbered n (group_chunks sha1 d s n groups)
  unfolding group_chunks group_chunk make_chunk_id
  group_chunks-Numbered s n [] = tt
  group_chunks-Numbered s n (g ∷ groups) = ((refl, refl), group_chunks-Numbered s (suc n) groups)

  length-group_chunks :
      (s : Section) (n : ℕ) (groups : List (List Text))
      → length (group_chunks sha1 d s n groups) ≡ length groups
  unfolding group_chunks
  length-group_chunks s n [] = refl
  length-group_chunks s n (g ∷ groups) = ap suc (length-group_chunks s (suc n) groups)

  chunk_sections-Numbered :
      (c : SentenceChunker) (count : Text → ℕ) (n : ℕ) (sections : List Section)
      → Numbered n (chunk_sections c sha1 count d n sections)
  unfolding chunk_sections
  chunk_sections-Numbered c count n [] = tt
  chunk_sections-Numbered c count n (s ∷ sections) =
      let groups = section_groups c count s in
      Numbered-append n (group_chunks sha1 d s n groups) _ (group_chunks-Numbered s n groups) (
        rw (length-group_chunks s n groups)
          (chunk_sections-Numbered c count (n + length groups) sections))

  children_of-Numbered :
      (p : Chunk) (n : ℕ) (chunks : List Chunk) → Numbered n (children_of sha1 d p n chunks)
  unfolding children_of child_of make_chunk_id
  children_of-Numbered p n [] = tt
  children_of-Numbered p n (c ∷ chunks) = ((refl, refl), children_of-Numbered p (suc n) chunks)

  length-children_of :
      (p : Chunk) (n : ℕ) (chunks : List Chunk)
      → length (children_of sha1 d p n chunks) ≡ length chunks
  unfolding children_of
  length-children_of p n [] = refl
  length-children_of p n (c ∷ chunks) = ap suc (length-children_of p (suc n) chunks)

  all_children-Numbered :
      (child : ChunkingStrategy) (n : ℕ) (parents : List Chunk)
      → Numbered n (all_children child sha1 d n parents)
  unfolding all_children
  all_children-Numbered child n [] = tt
  all_children-Numbered child n (p ∷ parents) =
      let chunks = child.chunk (sub_document d p) in
      Numbered-append n (children_of sha1 d p n chunks) _ (children_of-Numbered p n chunks) (
        rw (length-children_of p n chunks)
          (all_children-Numbered child (n + length chunks) parents))

-- The chunks of a document that are made of sentences have different ids, and so have those that a
-- parent and a child strategy make, whichever the two are.
pub chunk-ids-Distinct :
    (c : SentenceChunker) (parent child : ChunkingStrategy) (sha1 : Text → Text) (count : Text → ℕ)
    (d : Document)
    → Distinct (ids ((sentence_strategy c sha1 count).chunk d))
      × Distinct (ids ((parent_child_strategy parent child sha1).chunk d))
unfolding sentence_strategy parent_child_strategy
chunk-ids-Distinct c parent child sha1 count d = (
  Numbered-Distinct 0 _ (chunk_sections-Numbered sha1 d c count 0 (effective_sections d)),
  Numbered-Distinct 0 _ (all_children-Numbered sha1 d child 0 (parent.chunk d)),
)
