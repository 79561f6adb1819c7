-- ===== src/Chunking/Base.antt =====
-- Documents, sections and chunks, and cutting a text into sentences
-- (backend/geolytics/chunking/base.py). SHA-1 is a parameter. Metadata is left out.
pub mod Same
pub mod Solid
use geolytics.Prelude.{
  ℕ, zero, suc, ◌+◌, String, Bool, true, false, ◌&&◌, ◌||◌, not, Option, none, some, List, [], ◌∷◌,
  ◌++◌, if◌then◌else◌, ◌==◌, eq_ℕ, length, take, any, is_some, leb, map,
}
use mathlib.Core.List.{reverse}
use geolytics.Prelude.Text.{Text, codes, text_eq, is_space, strip, lower}

-- `" ".join(words)`.
unfoldable pub join_words : List Text → Text
join_words [] = []
join_words (w ∷ []) = w
join_words (w ∷ v ∷ words) = w ++ 32 ∷ join_words (v ∷ words)

pub record Section : Type 0 where
  pub text : Text
  pub heading_path : List String
  pub start_char : ℕ

pub record Document : Type 0 where
  pub doc_id : String
  pub url : String
  pub title : String
  pub text : Text
  pub sections : List Section

whole_document : Document → List Section → List Section
whole_document d [] = record { text = d.text; heading_path = []; start_char = 0 } ∷ []
whole_document d (s ∷ sections) = s ∷ sections

unfoldable pub effective_sections : Document → List Section
unfolding whole_document
effective_sections d = whole_document d d.sections

-- The parts that `make_chunk_id` puts into one text, which is left out: two ids are compared by
-- their parts.
pub record ChunkId : Type 0 where
  pub doc_id : String
  pub strategy : String
  pub ordinal : ℕ
  pub digest : Text

unfoldable pub make_chunk_id : (Text → Text) → String → String → ℕ → Text → ChunkId
make_chunk_id sha1 doc_id strategy ordinal text = record {
  doc_id = doc_id;
  strategy = strategy;
  ordinal = ordinal;
  digest = take 10 (sha1 text);
}

pub record Chunk : Type 0 where
  pub chunk_id : ChunkId
  pub doc_id : String
  pub text : Text
  pub ordinal : ℕ
  pub start_char : ℕ
  pub end_char : ℕ
  pub heading_path : List String
  pub parent_id : Option ChunkId
  pub parent_text : Option Text

-- `context_text`.
unfoldable pub context_text : Chunk → Text
context_text c = elim c.parent_text [ none ↦ c.text | some t ↦ t ]

-- An implementation of `ChunkingStrategy`.
pub record ChunkingStrategy : Type 0 where
  pub name : String
  pub chunk : Document → List Chunk

abbrev pub is_nil : {A : Type 0} → List A → Bool
is_nil [] = true
is_nil (c ∷ text) = false

-- The characters that may close a sentence after its mark: `["')\]]`.
unfoldable pub is_closer : ℕ → Bool
is_closer c = c == 34 || c == 39 || (c == 41 || c == 93)

-- `[.!?]`
unfoldable pub is_mark : ℕ → Bool
is_mark c = c == 46 || (c == 33 || c == 63)

abbrev pub skip_spaces : Text → Text
skip_spaces [] = []
skip_spaces (c ∷ text) = if is_space c then skip_spaces text else c ∷ text

-- What follows a match of `["')\]]*\s+`.
unfoldable pub after_boundary : Text → Option Text
after_boundary [] = none
after_boundary (c ∷ text) =
    let rest = after_boundary text in
    if is_space c then some (skip_spaces text) else if is_closer c then rest else none

unfoldable pub boundary : ℕ → Text → Option Text
boundary previous text = if is_mark previous then after_boundary text else none

-- `_SENTENCE_BOUNDARY.split`: the piece begun, latest character first, then the text that is left.
-- The fuel is the length of the text.
unfoldable pub split_pieces : ℕ → Text → ℕ → Text → List Text
split_pieces zero piece previous text = reverse piece ∷ []
split_pieces (suc fuel) piece previous text = elim (boundary previous text) [
  | some rest ↦ reverse piece ∷ split_pieces fuel [] 32 rest
  | none ↦ elim text [ [] ↦ reverse piece ∷ [] | c ∷ text' ↦ split_pieces fuel (c ∷ piece) c text' ]
]

abbreviations : List Text
abbreviations = map codes (
    "mr" ∷ "mrs" ∷ "ms" ∷ "dr" ∷ "prof" ∷ "sr" ∷ "jr" ∷ "st" ∷ "vs" ∷ "etc" ∷ "e.g" ∷ "i.e" ∷ "inc"
    ∷ "ltd" ∷ "co" ∷ "corp" ∷ "dept" ∷ "est" ∷ "fig" ∷ "no" ∷ "vol" ∷ [])

abbrev skip_closers : Text → Text
skip_closers [] = []
skip_closers (c ∷ text) = if is_closer c then skip_closers text else c ∷ text

abbrev first_word : Text → Text
first_word [] = []
first_word (c ∷ text) = let rest = first_word text in if is_space c then [] else c ∷ rest

-- A letter of ASCII, in lower case; `isalpha` takes the letters of other alphabets too.
abbrev is_letter : Text → Bool
is_letter [] = false
is_letter (c ∷ []) = leb 97 c && leb c 122
is_letter (c ∷ d ∷ text) = false

-- The last word before the full stop, of a candidate that is read backwards.
is_false_stop : Text → Bool
unfolding abbreviations
is_false_stop [] = false
is_false_stop (c ∷ before) =
    let last = lower (reverse (first_word (skip_spaces before))) in
    c == 46 && (any (text_eq last) abbreviations || is_letter last)

-- `_ends_on_false_boundary`.
unfoldable pub ends_on_false_boundary : Text → Bool
unfolding is_false_stop
ends_on_false_boundary candidate = is_false_stop (skip_closers (reverse candidate))

candidate_of : Text → Text → Text
candidate_of [] piece = strip piece
candidate_of (c ∷ buffer) piece = strip ((c ∷ buffer) ++ 32 ∷ piece)

-- The loop over the pieces, with the candidate that waits for more.
sentences_from : Text → List Text → List Text
unfolding candidate_of
sentences_from buffer [] = if is_nil buffer then [] else buffer ∷ []
sentences_from buffer (piece ∷ pieces) =
    let candidate = candidate_of buffer piece in
    let skipped = sentences_from buffer pieces in
    let joined = sentences_from candidate pieces in
    let rest = sentences_from [] pieces in
    if is_nil candidate
    then skipped
    else if ends_on_false_boundary candidate
    then joined
    else candidate ∷ rest

unfoldable pub split_sentences : Text → List Text
unfolding sentences_from
split_sentences text =
    let trimmed = strip text in
    if is_nil trimmed then [] else sentences_from [] (split_pieces (length trimmed) [] 0 trimmed)
