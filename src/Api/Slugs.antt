-- ===== src/Api/Slugs.antt =====
-- The name of an organisation in addresses (`_slugify` and `_unique_slug` of
-- backend/geolytics/api/routes/auth.py). The random endings are arguments.
pub mod Fits
use geolytics.Prelude.{
  ℕ, Bool, true, false, ◌||◌, ◌&&◌, not, List, [], ◌∷◌, ◌++◌, if◌then◌else◌, ◌==◌, eq_ℕ, leb, ltb,
  length, take, any,
}
use mathlib.Core.List.{reverse}
use geolytics.Prelude.Text.{Text, codes, text_eq, strip, lower}
use geolytics.Models.{Organization}

-- `[a-z0-9]`
unfoldable pub is_plain : ℕ → Bool
is_plain c = leb 97 c && leb c 122 || leb 48 c && leb c 57

abbrev pub hyphen : ℕ
hyphen = 45

-- `_SLUG_STRIP.sub("-", ...)`, where the text before ended in a replaced part or did not.
unfoldable pub dashed : Bool → Text → Text
dashed replaced [] = []
dashed replaced (c ∷ text) =
    let plain = dashed false text in
    let other = dashed true text in
    if is_plain c then c ∷ plain else if replaced then other else hyphen ∷ other

abbrev pub drop_hyphens : Text → Text
drop_hyphens [] = []
drop_hyphens (c ∷ text) = if c == hyphen then drop_hyphens text else c ∷ text

-- `.strip("-")`
unfoldable pub strip_hyphens : Text → Text
strip_hyphens text = reverse (drop_hyphens (reverse (drop_hyphens text)))

or_org : Text → Text
or_org [] = codes "org"
or_org (c ∷ text) = c ∷ text

long_enough : Text → Text
long_enough base = if ltb (length base) 3 then base ++ codes "-org" else base

unfoldable pub slugify : Text → Text
unfolding dashed strip_hyphens or_org long_enough
slugify name = long_enough (or_org (take 48 (strip_hyphens (dashed false (lower (strip name))))))

abbrev pub is_taken : List Organization → Text → Bool
is_taken orgs slug = any (λ o. text_eq o.slug slug) orgs

-- The first candidate that is free: the base, then the base with each ending.
free_slug : List Organization → Text → List Text → Text → Text
free_slug orgs base [] last = base ++ hyphen ∷ last
free_slug orgs base (e ∷ endings) last =
    let rest = free_slug orgs base endings last in
    if is_taken orgs (base ++ hyphen ∷ e) then rest else base ++ hyphen ∷ e

-- `_unique_slug`, given the seven random endings of the loop and the last one, which is not checked.
unfoldable pub unique_slug : List Organization → Text → List Text → Text → Text
unfolding free_slug
unique_slug orgs name endings last =
    let base = slugify name in if is_taken orgs base then free_slug orgs base endings last else base
