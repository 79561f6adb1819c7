-- ===== src/Chunking/Sentence.antt =====
-- Packing whole sentences up to a token budget (`SentenceChunker` of
-- backend/geolytics/chunking/sentence.py). The token counter is a parameter.
pub mod Cover
pub mod Chunks
use geolytics.Prelude.{
  ℕ, zero, suc, ◌+◌, ◌-◌, Bool, true, false, not, ◌&&◌, ◌||◌, Option, none, some, List, [], ◌∷◌,
  ◌++◌, if◌then◌else◌, ◌==◌, eq_ℕ, ltb, length, drop, ℤ, pos, negsuc,
}
use mathlib.Core.List.{reverse}
use geolytics.Prelude.Text.{Text}

pub record SentenceChunker : Type 0 where
  pub max_tokens : ℕ
  pub overlap_sentences : ℕ
  pub min_tokens : ℕ

-- `SentenceChunker(...)`: `none` is the `ValueError`. A `min_tokens` below 0 acts like 0.
unfoldable pub sentence_chunker : ℕ → ℤ → ℕ → Option SentenceChunker
sentence_chunker max_tokens (negsuc n) min_tokens = none
sentence_chunker max_tokens (pos overlap_sentences) min_tokens =
    if max_tokens == 0
    then none
    else some (record {
      max_tokens = max_tokens;
      overlap_sentences = overlap_sentences;
      min_tokens = min_tokens;
    })

abbrev pub is_nil : List Text → Bool
is_nil [] = true
is_nil (s ∷ sentences) = false

-- `sum(self.tokens.count(s) for s in sentences)`.
abbrev pub total : (Text → ℕ) → List Text → ℕ
total count [] = 0
total count (s ∷ sentences) = count s + total count sentences

-- `current[-overlap:] if overlap else []`.
unfoldable pub kept : ℕ → List Text → List Text
kept zero current = []
kept (suc n) current = drop (length current - suc n) current

-- The variables of the loop of `_group`, with the latest of the groups first.
pub record Packing : Type 0 where
  pub groups : List (List Text)
  pub current : List Text
  pub current_tokens : ℕ

abbrev pub put : (Text → ℕ) → Text → Packing → Packing
put count s p = record p {
  current = p.current ++ s ∷ [];
  current_tokens = p.current_tokens + count s;
}

-- The group that is full is closed, and the next begins with its last sentences.
unfoldable pub close : SentenceChunker → (Text → ℕ) → Packing → Packing
close c count p =
    let next = kept c.overlap_sentences p.current in
    record { groups = p.current ∷ p.groups; current = next; current_tokens = total count next }

unfoldable pub pack : SentenceChunker → (Text → ℕ) → Text → Packing → Packing
pack c count s p =
    if not (is_nil p.current) && ltb c.max_tokens (p.current_tokens + count s)
    then put count s (close c count p)
    else put count s p

unfoldable pub pack_all : SentenceChunker → (Text → ℕ) → List Text → Packing → Packing
pack_all c count [] p = p
pack_all c count (s ∷ sentences) p = pack_all c count sentences (pack c count s p)

-- A trailing scrap joins the previous group.
unfoldable pub folded : SentenceChunker → List Text → ℕ → List (List Text) → List (List Text)
folded c current tokens [] = current ∷ []
folded c current tokens (g ∷ groups) =
    if ltb tokens c.min_tokens
    then (g ++ drop c.overlap_sentences current) ∷ groups
    else current ∷ g ∷ groups

unfoldable pub finish : SentenceChunker → Packing → List (List Text)
finish c p = if is_nil p.current then p.groups else folded c p.current p.current_tokens p.groups

abbrev pub start : Packing
start = record { groups = []; current = []; current_tokens = 0 }

-- `_group`.
unfoldable pub group : SentenceChunker → (Text → ℕ) → List Text → List (List Text)
group c count sentences = reverse (finish c (pack_all c count sentences start))
