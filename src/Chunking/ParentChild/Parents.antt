-- ===== src/Chunking/ParentChild/Parents.antt =====
-- Children keep their parents (backend/geolytics/chunking/parent_child.py).
use geolytics.Prelude.{◌≡◌, ◌⊎◌, none, some, Bool, false, ◌==◌, List, [], ◌∷◌}
use geolytics.Prelude.Text.{Text}
use geolytics.Chunking.Base.Same.{eq_chunk_id}
use geolytics.Chunking.Base.{ChunkId, Chunk, context_text}

-- A chunk that names a parent, reads as its text and stands under its headings.
abbrev pub IsUnder : Chunk → Chunk → Type 0
IsUnder p c =
    (c.parent_id ≡ some p.chunk_id) × (context_text c ≡ p.text) × (c.heading_path ≡ p.heading_path)

abbrev pub HasParent : List Chunk → Chunk → Type 0
HasParent [] c = ⊥
HasParent (p ∷ parents) c = IsUnder p c ⊎ HasParent parents c

abbrev pub text_of : Chunk → Text
text_of c = c.text

-- Whether a chunk names another as its parent.
abbrev pub names : ChunkId → Chunk → Bool
names id c = elim c.parent_id [ none ↦ false | some j ↦ j == id ]
