-- ===== src/Chunking/Sentence/Chunks.antt =====
-- The chunks of a document, made of groups of sentences (`SentenceChunker.chunk` of
-- backend/geolytics/chunking/sentence.py). The token counter and SHA-1 are parameters.
use geolytics.Prelude.{
  ℕ, suc, ◌+◌, Option, none, some, List, [], ◌∷◌, ◌++◌, if◌then◌else◌, length, is_some,
}
use geolytics.Prelude.Text.{Text, strip_prefix}
use geolytics.Chunking.Base.{
  Section, Document, Chunk, ChunkingStrategy, effective_sections, make_chunk_id, join_words,
  split_sentences,
}
use geolytics.Chunking.Sentence.{SentenceChunker, group}

-- `text.find(part)`, which is -1 where the source reads 0 instead.
unfoldable pub offset_of : Text → Text → Option ℕ
offset_of part [] = if is_some (strip_prefix part []) then some 0 else none
offset_of part (c ∷ text) =
    let rest = offset_of part text in
    if is_some (strip_prefix part (c ∷ text))
    then some 0
    else elim rest [ none ↦ none | some n ↦ some (suc n) ]

-- `group[0]`: no group is empty.
abbrev first_of : List Text → Text
first_of [] = []
first_of (s ∷ sentences) = s

abbrev or_zero : Option ℕ → ℕ
or_zero none = 0
or_zero (some n) = n

unfoldable pub group_chunk : (Text → Text) → Document → Section → ℕ → List Text → Chunk
unfolding offset_of
group_chunk sha1 d s ordinal sentences =
    let text = join_words sentences in
    let start_char = s.start_char + or_zero (offset_of (first_of sentences) s.text) in
    record {
      chunk_id = make_chunk_id sha1 d.doc_id "sentence" ordinal text;
      doc_id = d.doc_id;
      text = text;
      ordinal = ordinal;
      start_char = start_char;
      end_char = start_char + length text;
      heading_path = s.heading_path;
      parent_id = none;
      parent_text = none;
    }

unfoldable pub group_chunks : (Text → Text) → Document → Section → ℕ → List (List Text) → List Chunk
group_chunks sha1 d s ordinal [] = []
group_chunks sha1 d s ordinal (g ∷ groups) =
    group_chunk sha1 d s ordinal g ∷ group_chunks sha1 d s (suc ordinal) groups

-- The groups of a section's sentences; a section without sentences has none.
unfoldable pub section_groups : SentenceChunker → (Text → ℕ) → Section → List (List Text)
section_groups c count s = group c count (split_sentences s.text)

unfoldable pub chunk_sections :
    SentenceChunker → (Text → Text) → (Text → ℕ) → Document → ℕ → List Section → List Chunk
unfolding group_chunks section_groups
chunk_sections c sha1 count d ordinal [] = []
chunk_sections c sha1 count d ordinal (s ∷ sections) =
    let groups = section_groups c count s in
    group_chunks sha1 d s ordinal groups
    ++ chunk_sections c sha1 count d (ordinal + length groups) sections

-- `chunk`.
unfoldable pub sentence_strategy : SentenceChunker → (Text → Text) → (Text → ℕ) → ChunkingStrategy
sentence_strategy c sha1 count = record {
  name = "sentence";
  chunk = λ d. chunk_sections c sha1 count d 0 (effective_sections d);
}
