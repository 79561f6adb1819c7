-- ===== src/Chunking/Sentence/Cover.antt =====
-- The groups hold every sentence (backend/geolytics/chunking/sentence.py).
use geolytics.Prelude.{
  ℕ, zero, suc, ◌+◌, ◌-◌, ◌≤◌, ◌<◌, ◌≡◌, ◌⊎◌, inl, inr, refl, sym, ap, ◌∙◌, Bool, true, List, [],
  ◌∷◌, ◌++◌, length, drop, arith, length-append, ltb, not, ◌&&◌, Bool-cases, if◌then◌else◌,
}
use geolytics.Prelude.Slices.{
  drop-append, length-drop, drop-nil, append-nil, append_assoc, append-one, drop-none,
}
use mathlib.Core.Path.{subst}
use mathlib.Core.List.{reverse, reverse-reverse}
use geolytics.Prelude.Text.{Text}
use geolytics.Chunking.Sentence.{
  SentenceChunker, is_nil, total, kept, Packing, put, close, pack, pack_all, folded, finish, start,
  group,
}

short_or_not : (m n : ℕ) → (m ≤ n) ⊎ (n < m)
short_or_not m n = ground arith

sub_over : (m n : ℕ) → m < n → m - n ≡ 0
sub_over m n h = omega arith

-- How many sentences a group shares with the one after it.
abbrev pub shared : ℕ → List Text → ℕ
shared overlap g = length g - (length g - overlap)

shared_all : (o n : ℕ) → o ≤ n → o ≡ n - (n - o)
shared_all o n h = omega arith

-- The sentences of groups, the latest of them first: all of the first group, and of each other
-- those after the ones it shares with the group before.
abbrev pub sentences_of : ℕ → List (List Text) → List Text
sentences_of overlap [] = []
sentences_of overlap (g ∷ []) = g
sentences_of overlap (g ∷ p ∷ groups) =
    sentences_of overlap (p ∷ groups) ++ drop (shared overlap p) g

-- Each group has at least as many sentences as it shares.
abbrev Linked : ℕ → List (List Text) → Type 0
Linked overlap [] = Unit
Linked overlap (g ∷ []) = Unit
Linked overlap (g ∷ p ∷ groups) = (shared overlap p ≤ length g) × Linked overlap (p ∷ groups)

kept-drop : (overlap : ℕ) (g : List Text) → kept overlap g ≡ drop (length g - overlap) g
unfolding kept
kept-drop zero g = sym (drop-none (length g - 0) g (omega arith))
kept-drop (suc o) g = refl

length-kept : (overlap : ℕ) (g : List Text) → length (kept overlap g) ≡ shared overlap g
length-kept overlap g = rw (kept-drop overlap g) (length-drop (length g - overlap) g)

-- More sentences at the end of the latest group.
extend :
    (overlap : ℕ) (g more : List Text) (groups : List (List Text))
    → Linked overlap (g ∷ groups)
    → sentences_of overlap ((g ++ more) ∷ groups) ≡ sentences_of overlap (g ∷ groups) ++ more
extend overlap g more [] l = refl
extend overlap g more (p ∷ groups) l =
    ap (λ t. sentences_of overlap (p ∷ groups) ++ t) (drop-append (shared overlap p) g more l.0)
    ∙ sym (append_assoc (sentences_of overlap (p ∷ groups)) (drop (shared overlap p) g) more)

extend-Linked :
    (overlap : ℕ) (g more : List Text) (groups : List (List Text))
    → Linked overlap (g ∷ groups)
    → Linked overlap ((g ++ more) ∷ groups)
extend-Linked overlap g more [] l = tt
extend-Linked overlap g more (p ∷ groups) l = (rw (length-append g more) (omega (arith, l.0)), l.1)

-- A new group that begins with the shared sentences adds none.
fresh :
    (overlap : ℕ) (g : List Text) (groups : List (List Text))
    → sentences_of overlap (kept overlap g ∷ g ∷ groups) ≡ sentences_of overlap (g ∷ groups)
fresh overlap g groups =
    ap (λ t. sentences_of overlap (g ∷ groups) ++ t)
      (drop-none (shared overlap g) (kept overlap g) (rw (length-kept overlap g) (omega arith)))
    ∙ append-nil _

total-append :
    (count : Text → ℕ) (g more : List Text)
    → total count (g ++ more) ≡ total count g + total count more
total-append count [] more = omega arith
total-append count (s ∷ g) more = omega (arith, total-append count g more)

over_budget : (b : Bool) (m n : ℕ) → not b && ltb m n ≡ true → m < n
over_budget b m n h = ground arith

module _ (c : SentenceChunker) (count : Text → ℕ) where
  -- The latest closed group is as long as the overlap, or the current one is over the budget.
  abbrev Settled : List (List Text) → ℕ → Type 0
  Settled [] tokens = Unit
  Settled (g ∷ groups) tokens = (c.overlap_sentences ≤ length g) ⊎ (c.max_tokens < tokens)

  record Holds (seen : List Text) (p : Packing) : Type 0 where
    all_seen : sentences_of c.overlap_sentences (p.current ∷ p.groups) ≡ seen
    linked : Linked c.overlap_sentences (p.current ∷ p.groups)
    counted : p.current_tokens ≡ total count p.current
    settled : Settled p.groups p.current_tokens

  Settled-more : (groups : List (List Text)) (m n : ℕ) → Settled groups m → Settled groups (m + n)
  Settled-more [] m n s = tt
  Settled-more (g ∷ groups) m n (inl h) = inl h
  Settled-more (g ∷ groups) m n (inr h) = inr (omega arith)

  put-Holds :
      (seen : List Text) (p : Packing) (s : Text)
      → Holds seen p
      → Holds (seen ++ s ∷ []) (put count s p)
  put-Holds seen p s h = record {
    all_seen =
        extend c.overlap_sentences p.current (s ∷ []) p.groups h.linked
        ∙ ap (λ t. t ++ s ∷ []) h.all_seen;
    linked = extend-Linked c.overlap_sentences p.current (s ∷ []) p.groups h.linked;
    counted = let e = total-append count p.current (s ∷ []) in omega (arith, h.counted, e);
    settled = Settled-more p.groups p.current_tokens (count s) h.settled;
  }

  total-kept :
      (g : List Text) (n tokens : ℕ)
      → tokens ≡ total count g
      → c.max_tokens < tokens + n
      → (c.overlap_sentences ≤ length g)
        ⊎ (c.max_tokens < total count (kept c.overlap_sentences g) + n)
  total-kept g n tokens e h = elim (short_or_not c.overlap_sentences (length g)) [
    | inl i ↦ inl i
    | inr i ↦ inr (
        rw (kept-drop c.overlap_sentences g, sub_over (length g) c.overlap_sentences i)
          (omega arith))
  ]

  closed-Holds :
      (seen : List Text) (p : Packing) (s : Text)
      → Holds seen p
      → c.max_tokens < p.current_tokens + count s
      → Holds (seen ++ s ∷ []) (put count s (close c count p))
  unfolding close
  closed-Holds seen p s h over =
      let o = c.overlap_sentences in
      let next = kept o p.current in
      let l : Linked o (next ∷ p.current ∷ p.groups) =
        (rw (length-kept o p.current) (omega arith), h.linked) in
      record {
        all_seen =
            extend o next (s ∷ []) (p.current ∷ p.groups) l
            ∙ ap (λ t. t ++ s ∷ []) (fresh o p.current p.groups ∙ h.all_seen);
        linked = extend-Linked o next (s ∷ []) (p.current ∷ p.groups) l;
        counted = let e = total-append count next (s ∷ []) in omega (arith, e);
        settled = total-kept p.current (count s) p.current_tokens h.counted over;
      }

  pack-Holds :
      (seen : List Text) (p : Packing) (s : Text)
      → Holds seen p
      → Holds (seen ++ s ∷ []) (pack c count s p)
  unfolding pack
  pack-Holds seen p s h =
      elim (Bool-cases (not (is_nil p.current) && ltb c.max_tokens (p.current_tokens + count s))) [
        | inl e ↦ rw e (closed-Holds seen p s h (over_budget _ _ _ e))
        | inr e ↦ rw e (put-Holds seen p s h)
      ]

  pack_all-Holds :
      (sentences seen : List Text) (p : Packing)
      → Holds seen p
      → Holds (seen ++ sentences) (pack_all c count sentences p)
  unfolding pack_all
  pack_all-Holds [] seen p h = subst (λ t. Holds t p) (sym (append-nil seen)) h
  pack_all-Holds (s ∷ sentences) seen p h =
      subst (λ t. Holds t (pack_all c count sentences (pack c count s p)))
        (append-one seen sentences s)
        (pack_all-Holds sentences (seen ++ s ∷ []) (pack c count s p) (pack-Holds seen p s h))

-- What is left when the sentences have run out.
module _ (c : SentenceChunker) (count : Text → ℕ) (small : c.min_tokens ≤ suc c.max_tokens) where
  scrap_settled :
      (m n tokens : ℕ) → (m ≤ n) ⊎ (c.max_tokens < tokens) → tokens < c.min_tokens → m ≤ n
  scrap_settled m n tokens (inl h) i = h
  scrap_settled m n tokens (inr h) i = omega arith

  folded-sentences :
      (current : List Text) (tokens : ℕ) (groups : List (List Text))
      → Linked c.overlap_sentences (current ∷ groups)
      → Settled c count groups tokens
      → sentences_of c.overlap_sentences (folded c current tokens groups)
        ≡ sentences_of c.overlap_sentences (current ∷ groups)
  unfolding folded
  folded-sentences current tokens [] l s = refl
  folded-sentences current tokens (g ∷ groups) l s = elim (Bool-cases (ltb tokens c.min_tokens)) [
    | inl e ↦ rw e (
        extend c.overlap_sentences g (drop c.overlap_sentences current) groups l.1
        ∙ ap (λ k. sentences_of c.overlap_sentences (g ∷ groups) ++ drop k current)
            (shared_all c.overlap_sentences (length g)
              (scrap_settled c.overlap_sentences (length g) tokens s (ground arith))))
    | inr e ↦ rw e refl
  ]

  finish-sentences :
      (seen : List Text) (p : Packing)
      → Holds c count seen p
      → sentences_of c.overlap_sentences (finish c p) ≡ seen
  unfolding finish
  finish-sentences seen p h =
      finished p.current p.groups
        (folded-sentences p.current p.current_tokens p.groups h.linked h.settled)
      ∙ h.all_seen
    where
      finished :
          (current : List Text) (groups : List (List Text))
          → sentences_of c.overlap_sentences (folded c current p.current_tokens groups)
            ≡ sentences_of c.overlap_sentences (current ∷ groups)
          → sentences_of c.overlap_sentences
              (if is_nil current then groups else folded c current p.current_tokens groups)
            ≡ sentences_of c.overlap_sentences (current ∷ groups)
      finished [] [] e = refl
      finished [] (g ∷ groups) e = sym (
          ap (λ t. sentences_of c.overlap_sentences (g ∷ groups) ++ t)
            (drop-nil (shared c.overlap_sentences g))
          ∙ append-nil (sentences_of c.overlap_sentences (g ∷ groups)))
      finished (s ∷ current) groups e = e

start-Holds : (c : SentenceChunker) (count : Text → ℕ) → Holds c count [] start
start-Holds c count = record { all_seen = refl; linked = tt; counted = refl; settled = tt }

-- If the size below which a trailing scrap is folded is at most the token budget and one more, the
-- groups of sentences hold the sentences, all of them and in order: those of the first group, and of
-- each later group those after the last ones of the group before that it repeats.
pub group-sentences :
    (c : SentenceChunker) (count : Text → ℕ) (sentences : List Text)
    → c.min_tokens ≤ suc c.max_tokens
    → sentences_of c.overlap_sentences (reverse (group c count sentences)) ≡ sentences
unfolding group
group-sentences c count sentences small =
    ap (sentences_of c.overlap_sentences)
      (reverse-reverse (finish c (pack_all c count sentences start)))
    ∙ finish-sentences c count small sentences (pack_all c count sentences start)
        (pack_all-Holds c count sentences [] start (start-Holds c count))
