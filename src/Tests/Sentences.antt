-- ===== src/Tests/Sentences.antt =====
-- Documents cut by their sentences at concrete values (backend/geolytics/chunking).
use geolytics.Prelude.{ℕ, ◌≡◌, none, List, [], ◌∷◌, arith, map, length}
use mathlib.Core.List.{reverse}
use geolytics.Prelude.Text.{Text, codes}
use geolytics.Chunking.Base.{Chunk, ChunkingStrategy, Document, split_sentences}
use geolytics.Chunking.Base.Solid.{solid, joined, solid-split_sentences}
use geolytics.Chunking.Sentence.{SentenceChunker, group}
use geolytics.Chunking.Sentence.Cover.{sentences_of, group-sentences}
use geolytics.Chunking.Sentence.Chunks.{sentence_strategy}
use geolytics.Chunking.ParentChild.{parent_child_strategy}
use geolytics.Chunking.Ids.{Distinct, ids, chunk-ids-Distinct}

abbrev prose : Text
prose = codes "Dr. Bell called. (It rang!) See Section 3. Done."

solid-split_sentences_example : solid (joined (split_sentences prose)) ≡ solid prose
solid-split_sentences_example = solid-split_sentences prose

abbrev words : Text → ℕ
words = length

abbrev chunker : SentenceChunker
chunker = record { max_tokens = 8; overlap_sentences = 1; min_tokens = 3 }

abbrev sentences : List Text
sentences = map codes ("one." ∷ "two." ∷ "three." ∷ "four." ∷ [])

group-sentences_example : sentences_of 1 (reverse (group chunker words sentences)) ≡ sentences
group-sentences_example = group-sentences chunker words sentences (omega arith)

abbrev guide : Document
guide = record {
  doc_id = "guide";
  url = "https://acme.io/guide";
  title = "Guide";
  text = prose;
  sections = record { text = prose; heading_path = "Guide" ∷ []; start_char = 0 } ∷ [];
}

abbrev digest : Text → Text
digest t = t

abbrev by_sentence : ChunkingStrategy
by_sentence = sentence_strategy chunker digest words

-- A strategy that makes two chunks.
abbrev half : ℕ → Text → Chunk
half n text = record {
  chunk_id = record { doc_id = "guide"; strategy = "half"; ordinal = n; digest = [] };
  doc_id = "guide";
  text = text;
  ordinal = n;
  start_char = 0;
  end_char = 0;
  heading_path = "Guide" ∷ [];
  parent_id = none;
  parent_text = none;
}

abbrev by_half : ChunkingStrategy
by_half = record {
  name = "half";
  chunk = λ d. half 0 (codes "Dr. Bell called.") ∷ half 1 (codes "It rang! Done.") ∷ [];
}

chunk-ids-Distinct_example :
    Distinct (ids (by_sentence.chunk guide))
    × Distinct (ids ((parent_child_strategy by_sentence by_sentence digest).chunk guide))
chunk-ids-Distinct_example = chunk-ids-Distinct chunker by_sentence by_sentence digest words guide
