-- ===== src/Chunking/Fixed/Cover.antt =====
-- The windows cover the document.
use geolytics.Prelude.{ℕ, ◌-◌, ◌<◌, String, List, [], ◌∷◌, ◌++◌, drop}
use geolytics.Prelude.Text.{Text}
use geolytics.Chunking.Fixed.{FixedSizeChunker, Chunk}

-- The words that a sequence of windows stands for: those of the first, and of each later one those
-- after the overlap.
abbrev pub later_words : ℕ → List Chunk → List Text
later_words overlap [] = []
later_words overlap (c ∷ cs) = drop overlap c.window ++ later_words overlap cs

abbrev pub covered : ℕ → List Chunk → List Text
covered overlap [] = []
covered overlap (c ∷ cs) = c.window ++ later_words overlap cs

module _ (c : FixedSizeChunker) (sha1 : Text → Text) (doc_id : String) (words : List Text)
    (smaller : c.overlap_tokens < c.chunk_tokens) where
  abbrev stride : ℕ
  stride = c.chunk_tokens - c.overlap_tokens
