-- ===== src/Chunking/Fixed.antt =====
-- Windows of a fixed size (backend/geolytics/chunking/fixed.py). A document is its words, which the token counter has split;
-- SHA-1 is a parameter.
pub mod Cover
use geolytics.Prelude.{
  ℕ, zero, suc, ◌+◌, ◌-◌, String, Bool, true, false, ◌||◌, not, Option, none, some, List, [], ◌∷◌,
  ◌++◌, if◌then◌else◌, ◌==◌, eq_ℕ, leb, ltb, length, take, drop,
}
use geolytics.Prelude.Text.{Text}
use geolytics.Chunking.Base.{ChunkId, make_chunk_id, join_words}

pub record FixedSizeChunker : Type 0 where
  pub chunk_tokens : ℕ
  pub overlap_tokens : ℕ

-- `FixedSizeChunker(...)`: `none` is the `ValueError`.
unfoldable pub fixed_size_chunker : ℕ → ℕ → Option FixedSizeChunker
fixed_size_chunker chunk_tokens overlap_tokens =
    if chunk_tokens == 0 || not (ltb overlap_tokens chunk_tokens)
    then none
    else some (record { chunk_tokens = chunk_tokens; overlap_tokens = overlap_tokens })

-- A chunk with its window of words. No heading path; the metadata is the document's.
pub record Chunk : Type 0 where
  pub chunk_id : ChunkId
  pub window : List Text
  pub text : Text
  pub ordinal : ℕ
  pub start_char : ℕ
  pub end_char : ℕ

start_char_of : List Text → ℕ → ℕ
unfolding join_words
start_char_of words start = length (join_words (take start words)) + (if start == 0 then 0 else 1)

-- The chunk of the window that starts at a word.
chunk_at : FixedSizeChunker → (Text → Text) → String → List Text → ℕ → ℕ → Chunk
unfolding start_char_of
chunk_at c sha1 doc_id words ordinal start =
    let window = take c.chunk_tokens (drop start words) in
    let text = join_words window in
    record {
      chunk_id = make_chunk_id sha1 doc_id "fixed" ordinal text;
      window = window;
      text = text;
      ordinal = ordinal;
      start_char = start_char_of words start;
      end_char = start_char_of words start + length text;
    }

-- The loop over the starts, with fuel: the range ends before the number of words.
windows : FixedSizeChunker → (Text → Text) → String → List Text → ℕ → ℕ → ℕ → List Chunk
unfolding chunk_at
windows c sha1 doc_id words zero ordinal start = []
windows c sha1 doc_id words (suc fuel) ordinal start =
    let rest =
      windows c sha1 doc_id words fuel (suc ordinal)
        (start + (c.chunk_tokens - c.overlap_tokens)) in
    if leb (length words) start
    then []
    else if leb (length words) (start + c.chunk_tokens)
    then chunk_at c sha1 doc_id words ordinal start ∷ []
    else chunk_at c sha1 doc_id words ordinal start ∷ rest

-- `chunk`: each step advances, so that there are at most as many as words.
unfoldable pub chunk : FixedSizeChunker → (Text → Text) → String → List Text → List Chunk
unfolding windows
chunk c sha1 doc_id words = windows c sha1 doc_id words (length words) 0 0
