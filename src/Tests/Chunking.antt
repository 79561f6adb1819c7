-- ===== src/Tests/Chunking.antt =====
-- A document cut into windows at concrete values (backend/geolytics/chunking/fixed.py).
use geolytics.Prelude.{List, [], ◌∷◌, map}
use geolytics.Prelude.Text.{Text, codes}
use geolytics.Chunking.Fixed.{FixedSizeChunker}

abbrev chunker : FixedSizeChunker
chunker = record { chunk_tokens = 3; overlap_tokens = 1 }

abbrev sentence : List Text
sentence = map codes ("one" ∷ "two" ∷ "three" ∷ "four" ∷ "five" ∷ "six" ∷ [])
