-- ===== src/Chunking/ParentChild.antt =====
-- Small chunks that carry the large ones they lie in (`ParentChildChunker` of
-- backend/geolytics/chunking/parent_child.py). The two strategies are arguments.
pub mod Parents
use geolytics.Prelude.{ℕ, suc, ◌+◌, String, none, some, List, [], ◌∷◌, ◌++◌, length}
use geolytics.Prelude.Text.{Text}
use geolytics.Chunking.Base.{Document, Chunk, ChunkingStrategy, make_chunk_id}

-- The document that the child strategy cuts: one section, the parent's text.
unfoldable pub sub_document : Document → Chunk → Document
sub_document d parent = record d {
  text = parent.text;
  sections =
      record {
        text = parent.text;
        heading_path = parent.heading_path;
        start_char = parent.start_char;
      }
      ∷ [];
}

unfoldable pub child_of : (Text → Text) → Document → Chunk → ℕ → Chunk → Chunk
child_of sha1 d parent ordinal child = record {
  chunk_id = make_chunk_id sha1 d.doc_id "parent_child" ordinal child.text;
  doc_id = d.doc_id;
  text = child.text;
  ordinal = ordinal;
  start_char = child.start_char;
  end_char = child.end_char;
  heading_path = parent.heading_path;
  parent_id = some parent.chunk_id;
  parent_text = some parent.text;
}

unfoldable pub children_of : (Text → Text) → Document → Chunk → ℕ → List Chunk → List Chunk
children_of sha1 d parent ordinal [] = []
children_of sha1 d parent ordinal (c ∷ chunks) =
    child_of sha1 d parent ordinal c ∷ children_of sha1 d parent (suc ordinal) chunks

unfoldable pub all_children :
    ChunkingStrategy → (Text → Text) → Document → ℕ → List Chunk → List Chunk
unfolding children_of
all_children child sha1 d ordinal [] = []
all_children child sha1 d ordinal (p ∷ parents) =
    let chunks = child.chunk (sub_document d p) in
    children_of sha1 d p ordinal chunks
    ++ all_children child sha1 d (ordinal + length chunks) parents

-- `chunk`.
unfoldable pub parent_child_strategy :
    ChunkingStrategy → ChunkingStrategy → (Text → Text) → ChunkingStrategy
parent_child_strategy parent child sha1 = record {
  name = "parent_child";
  chunk = λ d. all_children child sha1 d 0 (parent.chunk d);
}
