-- ===== src/Chunking/Base/Solid.antt =====
-- Cutting a text into sentences loses only spaces and closing marks
-- (backend/geolytics/chunking/base.py).
use geolytics.Prelude.{
  inl, inr, ℕ, zero, suc, ◌≤◌, ◌<◌, ◌≡◌, refl, sym, ap, ◌∙◌, Bool, true, false, not, ◌&&◌, Option,
  none, some, List, [], ◌∷◌, ◌++◌, length, keep, arith, Bool-cases, Option-cases, if◌then◌else◌,
  if_true, if_false,
}
use geolytics.Prelude.Slices.{append-nil, append_assoc}
use mathlib.Core.Path.{subst}
use mathlib.Core.List.{reverse, reverse-cons, reverse-reverse}
use geolytics.Prelude.Text.{Text, is_space, strip, strip_left}
use geolytics.Chunking.Base.{
  is_nil, is_closer, is_mark, skip_spaces, after_boundary, boundary, split_pieces, candidate_of,
  ends_on_false_boundary, sentences_from, split_sentences,
}

-- Neither white space nor a mark that may close a sentence after its full stop.
abbrev pub is_solid : ℕ → Bool
is_solid c = not (is_space c) && not (is_closer c)

abbrev pub solid : Text → Text
solid = keep is_solid

-- The texts one after another.
abbrev pub joined : List Text → Text
joined [] = []
joined (t ∷ ts) = t ++ joined ts

and_false : (b : Bool) → not b && false ≡ false
and_false b = ground arith

some-injective : {a b : Text} → some a ≡ some b → a ≡ b
some-injective h = cc

none-some : {a : Text} → none ≡ some a → ⊥
none-some h = cc

solid-append : (s t : Text) → solid (s ++ t) ≡ solid s ++ solid t
solid-append [] t = refl
solid-append (c ∷ s) t = ground (arith, solid-append s t)

solid-one : (c : ℕ) (t : Text) → solid (c ∷ t) ≡ solid (c ∷ []) ++ solid t
solid-one c t = solid-append (c ∷ []) t

solid-reverse : (t : Text) → solid (reverse t) ≡ reverse (solid t)
solid-reverse [] = refl
solid-reverse (c ∷ t) =
    ap solid (reverse-cons c t)
    ∙ solid-append (reverse t) (c ∷ [])
    ∙ ap (λ s. s ++ solid (c ∷ [])) (solid-reverse t)
    ∙ reverse_one (is_solid c)
  where
    reverse_one :
        (b : Bool)
        → reverse (solid t) ++ (if b then c ∷ [] else [])
          ≡ reverse (if b then c ∷ solid t else solid t)
    reverse_one true = sym (reverse-cons c (solid t))
    reverse_one false = append-nil (reverse (solid t))

space_dropped : (c : ℕ) (t : Text) → is_space c ≡ true → solid (c ∷ t) ≡ solid t
space_dropped c t e = rw e refl

closer_dropped : (c : ℕ) (t : Text) → is_closer c ≡ true → solid (c ∷ t) ≡ solid t
closer_dropped c t e = if_false (is_solid c) (c ∷ solid t) (solid t) (rw e (and_false (is_space c)))

solid-skip_spaces : (t : Text) → solid (skip_spaces t) ≡ solid t
solid-skip_spaces [] = refl
solid-skip_spaces (c ∷ t) = elim (Bool-cases (is_space c)) [
  | inl e ↦ ap solid (if_true _ _ _ e) ∙ solid-skip_spaces t ∙ sym (space_dropped c t e)
  | inr e ↦ ap solid (if_false _ _ _ e)
]

solid-strip_left : (t : Text) → solid (strip_left t) ≡ solid t
unfolding strip_left
solid-strip_left [] = refl
solid-strip_left (c ∷ t) = elim (Bool-cases (is_space c)) [
  | inl e ↦ ap solid (if_true _ _ _ e) ∙ solid-strip_left t ∙ sym (space_dropped c t e)
  | inr e ↦ ap solid (if_false _ _ _ e)
]

solid-strip : (t : Text) → solid (strip t) ≡ solid t
unfolding strip
solid-strip t =
    solid-reverse (strip_left (reverse (strip_left t)))
    ∙ ap reverse (solid-strip_left (reverse (strip_left t)) ∙ solid-reverse (strip_left t))
    ∙ reverse-reverse (solid (strip_left t))
    ∙ solid-strip_left t

solid-after_boundary : (t r : Text) → after_boundary t ≡ some r → solid r ≡ solid t
unfolding after_boundary
solid-after_boundary [] r h = cc
solid-after_boundary (c ∷ t) r h = elim (Bool-cases (is_space c)) [
  | inl e ↦
      ap solid (sym (some-injective (sym (if_true _ _ _ e) ∙ h)))
      ∙ solid-skip_spaces t
      ∙ sym (space_dropped c t e)
  | inr e ↦ elim (Bool-cases (is_closer c)) [
    | inl f ↦
        solid-after_boundary t r (sym (if_true _ _ _ f) ∙ sym (if_false _ _ _ e) ∙ h)
        ∙ sym (closer_dropped c t f)
    | inr f ↦ absurd (none-some (sym (if_false _ _ _ f) ∙ sym (if_false _ _ _ e) ∙ h))
  ]
]

length-skip_spaces : (t : Text) → length (skip_spaces t) ≤ length t
length-skip_spaces [] = omega arith
length-skip_spaces (c ∷ t) = ground (arith, length-skip_spaces t)

length-after_boundary : (t r : Text) → after_boundary t ≡ some r → length r < length t
unfolding after_boundary
length-after_boundary [] r h = cc
length-after_boundary (c ∷ t) r h = elim (Bool-cases (is_space c)) [
  | inl e ↦ shrunk (some-injective (sym (if_true _ _ _ e) ∙ h)) (length-skip_spaces t)
  | inr e ↦ elim (Bool-cases (is_closer c)) [
    | inl f ↦ later (length-after_boundary t r (after_rest f (sym (if_false _ _ _ e) ∙ h)))
    | inr f ↦ absurd (none-some (sym (if_false _ _ _ f) ∙ sym (if_false _ _ _ e) ∙ h))
  ]
]
  where
    after_rest :
        is_closer c ≡ true
        → (if is_closer c then after_boundary t else none) ≡ some r
        → after_boundary t ≡ some r
    after_rest f i = sym (if_true _ _ _ f) ∙ i

    shrunk : skip_spaces t ≡ r → length (skip_spaces t) ≤ length t → length r < suc (length t)
    shrunk e h = subst (λ u. length u < suc (length t)) e (omega arith)

    later : length r < length t → length r < suc (length t)
    later shorter = omega arith

boundary-after :
    (previous : ℕ) (t r : Text) → boundary previous t ≡ some r → after_boundary t ≡ some r
unfolding boundary
boundary-after previous t r h = elim (Bool-cases (is_mark previous)) [
  | inl e ↦ sym (if_true _ _ _ e) ∙ h
  | inr e ↦ absurd (none-some (sym (if_false _ _ _ e) ∙ h))
]

-- The pieces between the boundaries lose none.
solid-split_pieces :
    (fuel : ℕ) (piece : Text) (previous : ℕ) (text : Text)
    → length text ≤ fuel
    → solid (joined (split_pieces fuel piece previous text)) ≡ solid (reverse piece) ++ solid text
unfolding split_pieces
solid-split_pieces zero piece previous [] h =
    ap solid (append-nil (reverse piece)) ∙ sym (append-nil _)
solid-split_pieces zero piece previous (c ∷ text) h = absurd (omega arith)
solid-split_pieces (suc fuel) piece previous text h = elim (Option-cases (boundary previous text)) [
  | inl e ↦ ap (λ o. solid (joined (opened o))) e ∙ (go (solid-split_pieces fuel) text h)
  | inr (r, e) ↦
      ap (λ o. solid (joined (opened o))) e
      ∙ (solid-append (reverse piece) (joined (split_pieces fuel [] 32 r))
          ∙ ap (λ t. solid (reverse piece) ++ t)
              (solid-split_pieces fuel [] 32 r (
                  let i = length-after_boundary text r (boundary-after previous text r e) in
                  omega arith)
                ∙ solid-after_boundary text r (boundary-after previous text r e)))
]
  where
    opened : Option Text → List Text
    opened o = elim o [
      | some rest ↦ reverse piece ∷ split_pieces fuel [] 32 rest
      | none ↦ elim text [
        | [] ↦ reverse piece ∷ []
        | c ∷ text' ↦ split_pieces fuel (c ∷ piece) c text'
      ]
    ]

    go :
        ((piece : Text) (previous : ℕ) (text : Text)
          → length text ≤ fuel
          → solid (joined (split_pieces fuel piece previous text))
            ≡ solid (reverse piece) ++ solid text)
        → (text : Text) → length text ≤ suc fuel
        → solid (
            joined (elim text as (λ t. List Text) [
              | [] ↦ reverse piece ∷ []
              | c ∷ rest ↦ split_pieces fuel (c ∷ piece) c rest
            ]))
          ≡ solid (reverse piece) ++ solid text
    go next [] h = ap solid (append-nil (reverse piece)) ∙ sym (append-nil _)
    go next (c ∷ rest) h =
        next (c ∷ piece) c rest (omega arith)
        ∙ ap (λ t. solid t ++ solid rest) (reverse-cons c piece)
        ∙ ap (λ t. t ++ solid rest) (solid-append (reverse piece) (c ∷ []))
        ∙ append_assoc (solid (reverse piece)) (solid (c ∷ [])) (solid rest)
        ∙ ap (λ t. solid (reverse piece) ++ t) (sym (solid-append (c ∷ []) rest))

solid-candidate_of :
    (buffer piece : Text) → solid (candidate_of buffer piece) ≡ solid buffer ++ solid piece
unfolding candidate_of is_space
solid-candidate_of [] piece = solid-strip piece
solid-candidate_of (c ∷ buffer) piece =
    solid-strip ((c ∷ buffer) ++ 32 ∷ piece)
    ∙ solid-append (c ∷ buffer) (32 ∷ piece)
    ∙ ap (λ t. solid (c ∷ buffer) ++ t) (space_dropped 32 piece refl)

-- The candidate takes the place of what waits and of the next piece.
candidate-step :
    (buffer piece rest : Text)
    → solid (candidate_of buffer piece) ++ solid rest ≡ solid buffer ++ solid (piece ++ rest)
candidate-step buffer piece rest =
    ap (λ t. t ++ solid rest) (solid-candidate_of buffer piece)
    ∙ append_assoc (solid buffer) (solid piece) (solid rest)
    ∙ ap (λ t. solid buffer ++ t) (sym (solid-append piece rest))

solid-is_nil : (t : Text) → is_nil t ≡ true → solid t ≡ []
solid-is_nil [] h = refl
solid-is_nil (c ∷ t) h = cc

append_empty : (s t : Text) → s ++ t ≡ [] → s ≡ []
append_empty [] t h = refl
append_empty (c ∷ s) t h = cc

solid-sentences_from :
    (pieces : List Text) (buffer : Text)
    → solid (joined (sentences_from buffer pieces)) ≡ solid buffer ++ solid (joined pieces)
unfolding sentences_from
solid-sentences_from [] [] = refl
solid-sentences_from [] (c ∷ buffer) =
    ap solid (append-nil (c ∷ buffer)) ∙ sym (append-nil (solid (c ∷ buffer)))
solid-sentences_from (piece ∷ pieces) buffer =
    elim (Bool-cases (is_nil (candidate_of buffer piece))) [
      | inl e ↦
          ap (λ ts. solid (joined ts)) (if_true _ _ _ e)
          ∙ solid-sentences_from pieces buffer
          ∙ ap (λ t. t ++ solid (joined pieces)) (nothing e)
          ∙ candidate-step buffer piece (joined pieces)
      | inr e ↦
          ap (λ ts. solid (joined ts)) (if_false _ _ _ e)
          ∙ elim (Bool-cases (ends_on_false_boundary (candidate_of buffer piece))) [
            | inl f ↦
                ap (λ ts. solid (joined ts)) (if_true _ _ _ f)
                ∙ solid-sentences_from pieces (candidate_of buffer piece)
                ∙ candidate-step buffer piece (joined pieces)
            | inr f ↦
                ap (λ ts. solid (joined ts)) (if_false _ _ _ f)
                ∙ solid-append (candidate_of buffer piece) (joined (sentences_from [] pieces))
                ∙ ap (λ t. solid (candidate_of buffer piece) ++ t) (solid-sentences_from pieces [])
                ∙ candidate-step buffer piece (joined pieces)
          ]
    ]
  where
    nothing :
        is_nil (candidate_of buffer piece) ≡ true → solid buffer ≡ solid (candidate_of buffer piece)
    nothing e =
        append_empty (solid buffer) (solid piece)
          (sym (solid-candidate_of buffer piece) ∙ solid-is_nil (candidate_of buffer piece) e)
        ∙ sym (solid-is_nil (candidate_of buffer piece) e)

-- The sentences of a text, one after another, hold its characters in order, all but white space and
-- the quotes and brackets that may close a sentence.
pub solid-split_sentences : (text : Text) → solid (joined (split_sentences text)) ≡ solid text
unfolding split_sentences
solid-split_sentences text = elim (Bool-cases (is_nil (strip text))) [
  | inl e ↦
      ap (λ ts. solid (joined ts)) (if_true _ _ _ e)
      ∙ sym (solid-is_nil (strip text) e)
      ∙ solid-strip text
  | inr e ↦
      ap (λ ts. solid (joined ts)) (if_false _ _ _ e)
      ∙ solid-sentences_from (split_pieces (length (strip text)) [] 0 (strip text)) []
      ∙ solid-split_pieces (length (strip text)) [] 0 (strip text) (omega arith)
      ∙ solid-strip text
]
