-- ===== src/Prelude/Text.antt =====
-- Texts as lists of code points, with the methods of Python's `str` that the program calls on texts
-- that it takes apart. `lower` and `strip` treat ASCII letters and ASCII white space.
use geolytics.Prelude.Tests.{leb, nat_eq, if◌then◌else◌, if_false}
use geolytics.Prelude.Lists.{All}
use Prim.Native.Nat.{ℕ, ◌+◌}
use Prim.Native.Char.{code}
use Prim.Native.String.{String}
use mathlib.Core.Path.{◌≡◌, refl, sym, ap, ◌∙◌, subst}
use mathlib.Core.Bool.{Bool, true, false, ◌&&◌, ◌||◌, not}
use mathlib.Core.Option.{Option, none, some}
use mathlib.Core.List.{List, [], ◌∷◌, ◌++◌, map, reverse, reverse-cons, reverse-reverse}
use native.Mathlib.Omega.{arith}

abbrev pub Text : Type 0
Text = List ℕ

abbrev pub codes : String → Text
codes String.[] = []
codes (String.◌∷◌ c s) = code c ∷ codes s

abbrev pub text_eq : Text → Text → Bool
text_eq [] [] = true
text_eq [] (d ∷ t) = false
text_eq (c ∷ s) [] = false
text_eq (c ∷ s) (d ∷ t) = nat_eq c d && text_eq s t

-- What follows a prefix: `text[len(prefix):]` if `text.startswith(prefix)`.
abbrev pub strip_prefix : Text → Text → Option Text
strip_prefix [] text = some text
strip_prefix (p ∷ prefix) [] = none
strip_prefix (p ∷ prefix) (c ∷ text) = if nat_eq p c then strip_prefix prefix text else none

-- `text.partition(sep)` for a separator of one character: before it, whether it occurs, after it.
pub record Parts : Type 0 where
  pub before : Text
  pub found : Bool
  pub after : Text

unfoldable pub partition : ℕ → Text → Parts
partition sep [] = record { before = []; found = false; after = [] }
partition sep (c ∷ text) =
    let rest = partition sep text in
    if nat_eq c sep
    then record { before = []; found = true; after = text }
    else record { before = c ∷ rest.before; found = rest.found; after = rest.after }

unfoldable pub is_space : ℕ → Bool
is_space c = nat_eq c 32 || (leb 9 c && leb c 13 || leb 28 c && leb c 31)

unfoldable pub strip_left : Text → Text
unfolding is_space
strip_left [] = []
strip_left (c ∷ text) = if is_space c then strip_left text else c ∷ text

unfoldable pub strip : Text → Text
unfolding strip_left
strip text = reverse (strip_left (reverse (strip_left text)))

abbrev pub lower_code : ℕ → ℕ
lower_code c = if leb 65 c && leb c 90 then c + 32 else c

unfoldable pub lower : Text → Text
lower = map lower_code

pub text_eq_refl : (s : Text) → text_eq s s ≡ true
text_eq_refl [] = refl
text_eq_refl (c ∷ s) = ground (arith, text_eq_refl s)

pub text_eq→eq : (s t : Text) → text_eq s t ≡ true → s ≡ t
text_eq→eq [] [] h = refl
text_eq→eq [] (d ∷ t) h = cc
text_eq→eq (c ∷ s) [] h = cc
text_eq→eq (c ∷ s) (d ∷ t) h = ground (arith, text_eq→eq s t)

-- What a prefix was put before comes back.
pub strip_prefix-append : (p text : Text) → strip_prefix p (p ++ text) ≡ some text
strip_prefix-append [] text = refl
strip_prefix-append (c ∷ p) text = ground (arith, strip_prefix-append p text)

-- The only texts with a prefix are those it was put before.
pub append-strip_prefix : (p text rest : Text) → strip_prefix p text ≡ some rest → text ≡ p ++ rest
append-strip_prefix [] text rest h = cc
append-strip_prefix (c ∷ p) [] rest h = cc
append-strip_prefix (c ∷ p) (d ∷ text) rest h = ground (arith, append-strip_prefix p text rest)

abbrev pub free_of : ℕ → Text → Bool
free_of sep [] = true
free_of sep (c ∷ text) = not (nat_eq c sep) && free_of sep text

-- The first separator splits a text at its end of the part that is free of it.
pub partition-append :
    (sep : ℕ) (before after : Text)
    → free_of sep before ≡ true
    → partition sep (before ++ sep ∷ after)
      ≡ record { before = before; found = true; after = after }
unfolding partition
partition-append sep [] after h = ground arith
partition-append sep (c ∷ before) after h = ground (arith, partition-append sep before after)

-- Where a separator is found, the parts around it make up the text.
pub append-partition :
    (sep : ℕ) (text : Text)
    → (partition sep text).found ≡ true
    → text ≡ (partition sep text).before ++ sep ∷ (partition sep text).after
unfolding partition
append-partition sep [] h = cc
append-partition sep (c ∷ text) h = ground (arith, append-partition sep text)

abbrev pub HasNoSpace : Text → Type 0
HasNoSpace = All (λ c. is_space c ≡ false)

pub HasNoSpace-append : (s t : Text) → HasNoSpace s → HasNoSpace t → HasNoSpace (s ++ t)
HasNoSpace-append [] t a b = b
HasNoSpace-append (c ∷ s) t a b = (a.0, HasNoSpace-append s t a.1 b)

HasNoSpace-reverse : (t : Text) → HasNoSpace t → HasNoSpace (reverse t)
HasNoSpace-reverse [] a = tt
HasNoSpace-reverse (c ∷ t) a =
    subst HasNoSpace (sym (reverse-cons c t))
      (HasNoSpace-append (reverse t) (c ∷ []) (HasNoSpace-reverse t a.1) (a.0, tt))

strip_left-same : (t : Text) → HasNoSpace t → strip_left t ≡ t
unfolding strip_left
strip_left-same [] a = refl
strip_left-same (c ∷ t) a = if_false _ _ _ a.0

-- There is nothing to strip from a text without white space.
pub strip-same : (t : Text) → HasNoSpace t → strip t ≡ t
unfolding strip
strip-same t a =
    ap (λ s. reverse (strip_left (reverse s))) (strip_left-same t a)
    ∙ ap reverse (strip_left-same (reverse t) (HasNoSpace-reverse t a))
    ∙ reverse-reverse t
