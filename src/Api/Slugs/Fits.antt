-- ===== src/Api/Slugs/Fits.antt =====
-- The names of organisations fit their column (backend/geolytics/api/routes/auth.py, and `slug` of
-- backend/geolytics/db/models.py).
use geolytics.Prelude.{
  ℕ, zero, suc, ◌≤◌, ◌≡◌, refl, sym, ap, Bool, true, false, ◌||◌, List, [], ◌∷◌, ◌++◌,
  if◌then◌else◌, ◌==◌, eq_ℕ, length, take, All, arith, ltb, Bool-cases, inl, inr, if_true, if_false,
  length-append, ltb→lt,
}
use mathlib.Core.Path.{subst}
use mathlib.Core.List.{reverse, reverse-cons}
use geolytics.Prelude.Text.{Text, codes, strip, lower}
use geolytics.Models.{Organization}
use geolytics.Api.Slugs.{
  is_plain, hyphen, dashed, drop_hyphens, strip_hyphens, or_org, long_enough, slugify, is_taken,
  free_slug, unique_slug,
}

-- A lower-case letter, a digit or a hyphen.
abbrev pub IsSlugChar : ℕ → Type 0
IsSlugChar c = is_plain c || c == hyphen ≡ true

All-append : (s t : Text) → All IsSlugChar s → All IsSlugChar t → All IsSlugChar (s ++ t)
All-append [] t a b = b
All-append (c ∷ s) t a b = (a.0, All-append s t a.1 b)

hyphen_char : IsSlugChar hyphen
unfolding is_plain
hyphen_char = refl

All-dashed : (replaced : Bool) (t : Text) → All IsSlugChar (dashed replaced t)
unfolding dashed
All-dashed replaced [] = tt
All-dashed replaced (c ∷ t) = go (is_plain c) refl replaced (All-dashed false t) (All-dashed true t)
  where
    go :
        (b : Bool)
        → is_plain c ≡ b
        → (r : Bool) → All IsSlugChar (dashed false t)
        → All IsSlugChar (dashed true t)
        → All IsSlugChar
            (if b then c ∷ dashed false t else if r then dashed true t else hyphen ∷ dashed true t)
    go true e r h i = (ap (λ b. b || c == hyphen) e, h)
    go false e true h i = i
    go false e false h i = (hyphen_char, i)

All-drop_hyphens : (t : Text) → All IsSlugChar t → All IsSlugChar (drop_hyphens t)
All-drop_hyphens [] a = tt
All-drop_hyphens (c ∷ t) a = go (c == hyphen) (All-drop_hyphens t a.1)
  where
    go :
        (b : Bool)
        → All IsSlugChar (drop_hyphens t)
        → All IsSlugChar (if b then drop_hyphens t else c ∷ t)
    go true h = h
    go false h = a

All-reverse : (t : Text) → All IsSlugChar t → All IsSlugChar (reverse t)
All-reverse [] a = tt
All-reverse (c ∷ t) a =
    subst (All IsSlugChar) (sym (reverse-cons c t))
      (All-append (reverse t) (c ∷ []) (All-reverse t a.1) (a.0, tt))

All-take : (n : ℕ) (t : Text) → All IsSlugChar t → All IsSlugChar (take n t)
All-take zero t a = tt
All-take (suc n) [] a = tt
All-take (suc n) (c ∷ t) a = (a.0, All-take n t a.1)

take-le : (n : ℕ) (t : Text) → length (take n t) ≤ n
take-le zero t = omega arith
take-le (suc n) [] = omega arith
take-le (suc n) (c ∷ t) = omega (arith, take-le n t)

-- From a lower to an upper length, in the characters of a name.
abbrev pub Fits : ℕ → ℕ → Text → Type 0
Fits low high t = All IsSlugChar t × (low ≤ length t) × (length t ≤ high)

or_org-Fits : (t : Text) → All IsSlugChar t → length t ≤ 48 → Fits 1 48 (or_org t)
unfolding or_org is_plain
or_org-Fits [] a h = ((refl, (refl, (refl, tt))), omega arith, omega arith)
or_org-Fits (c ∷ t) a h = (a, omega arith, h)

long_enough-Fits : (t : Text) → Fits 1 48 t → Fits 3 48 (long_enough t)
unfolding long_enough is_plain
long_enough-Fits t (a, low, high) = elim (Bool-cases (ltb (length t) 3)) [
  | inl e ↦ subst (Fits 3 48) (sym (if_true _ _ _ e)) (
    All-append t (codes "-org") a (refl, (refl, (refl, (refl, tt)))),
    rw (length-append t (codes "-org")) (omega arith),
    let short = ltb→lt (length t) 3 e in rw (length-append t (codes "-org")) (omega arith),
  )
  | inr e ↦ subst (Fits 3 48) (sym (if_false _ _ _ e)) (a, ground arith, high)
]

slugify-Fits : (name : Text) → Fits 3 48 (slugify name)
unfolding slugify strip_hyphens
slugify-Fits name =
    let t = dashed false (lower (strip name)) in
    let dropped = All-drop_hyphens t (All-dashed false (lower (strip name))) in
    let a =
      All-reverse (drop_hyphens (reverse (drop_hyphens t)))
        (All-drop_hyphens (reverse (drop_hyphens t)) (All-reverse (drop_hyphens t) dropped)) in
    long_enough-Fits _ (
      or_org-Fits (take 48 (strip_hyphens t)) (All-take 48 (strip_hyphens t) a)
        (take-le 48 (strip_hyphens t)))

ended :
    (low n : ℕ) (base ending : Text)
    → Fits low 48 base
    → All IsSlugChar ending
    → length ending ≤ n
    → n ≤ 12
    → Fits low 61 (base ++ hyphen ∷ ending)
ended low n base ending (a, l, h) e i small = (
  All-append base (hyphen ∷ ending) a (hyphen_char, e),
  rw (length-append base (hyphen ∷ ending)) (omega arith),
  rw (length-append base (hyphen ∷ ending)) (omega arith),
)

-- An ending of letters and digits, of at most as many as twelve.
abbrev pub IsEnding : Text → Type 0
IsEnding e = All IsSlugChar e × (length e ≤ 12)

free_slug-Fits :
    (orgs : List Organization) (base : Text) (endings : List Text) (last : Text)
    → Fits 3 48 base
    → All IsEnding endings
    → IsEnding last
    → Fits 3 61 (free_slug orgs base endings last)
unfolding free_slug
free_slug-Fits orgs base [] last b es l = ended 3 12 base last b l.0 l.1 (omega arith)
free_slug-Fits orgs base (e ∷ endings) last b es l =
    go (is_taken orgs (base ++ hyphen ∷ e)) (free_slug-Fits orgs base endings last b es.1 l)
  where
    go :
        (t : Bool)
        → Fits 3 61 (free_slug orgs base endings last)
        → Fits 3 61 (if t then free_slug orgs base endings last else base ++ hyphen ∷ e)
    go true h = h
    go false h = ended 3 12 base e b es.0.0 es.0.1 (omega arith)

-- With random endings of at most twelve letters and digits, the name that a new organisation gets in
-- addresses has from 3 to 61 characters, lower-case letters, digits and hyphens, whatever its own
-- name: it fits the column of 64.
pub unique_slug-Fits :
    (orgs : List Organization) (name : Text) (endings : List Text) (last : Text)
    → All IsEnding endings
    → IsEnding last
    → Fits 3 61 (unique_slug orgs name endings last)
unfolding unique_slug
unique_slug-Fits orgs name endings last es l = go (is_taken orgs (slugify name))
  where
    go :
        (t : Bool)
        → Fits 3 61 (if t then free_slug orgs (slugify name) endings last else slugify name)
    go true = free_slug-Fits orgs (slugify name) endings last (slugify-Fits name) es l
    go false = let (a, low, high) = slugify-Fits name in (a, low, omega arith)
