-- ===== src/Crawl/Links.antt =====
-- The links of a page, in canonical form (`_canonical` and `_links` of
-- backend/geolytics/crawl/crawler.py). A URL is a text. Splitting and joining URLs and the search
-- for `href` attributes are the standard library's: they are parameters, and `none` is their
-- `ValueError`.
use geolytics.Prelude.{
  Bool, ◌&&◌, ◌||◌, Option, none, some, List, [], ◌∷◌, ◌++◌, map, if◌then◌else◌, any, is_some,
  nat_eq,
}
use geolytics.Prelude.Text.{Text, codes, text_eq, strip_prefix, lower}

-- `urlparse` of a URL without its fragment, the network location in lower case.
pub record Parsed : Type 0 where
  pub scheme : Text
  pub netloc : Text
  pub path : Text
  pub query : Text

pub record UrlLibrary : Type 0 where
  pub parse : Text → Option Parsed
  pub join : Text → Text → Option Text
  pub hrefs : Text → List Text

abbrev pub skip_extensions : List Text
skip_extensions = map codes (
    ".pdf" ∷ ".jpg" ∷ ".jpeg" ∷ ".png" ∷ ".gif" ∷ ".svg" ∷ ".webp" ∷ ".ico" ∷ ".zip" ∷ ".gz"
    ∷ ".mp4" ∷ ".mp3" ∷ ".css" ∷ ".js" ∷ ".xml" ∷ ".json" ∷ [])

abbrev pub no_page_prefixes : List Text
no_page_prefixes = map codes ("mailto:" ∷ "tel:" ∷ "javascript:" ∷ "#" ∷ [])

unfoldable pub starts_with : Text → Text → Bool
starts_with prefix text = is_some (strip_prefix prefix text)

unfoldable pub ends_with : Text → Text → Bool
ends_with suffix [] = text_eq suffix []
ends_with suffix (c ∷ text) = text_eq suffix (c ∷ text) || ends_with suffix text

-- `path.rstrip("/") or "/"`.
rstrip_slash : Text → Text
rstrip_slash [] = []
rstrip_slash (c ∷ text) =
    let rest = rstrip_slash text in if text_eq rest [] && nat_eq c b'/' then [] else c ∷ rest

or_root : Text → Text
or_root [] = codes "/"
or_root (c ∷ text) = c ∷ text

rebuilt : Parsed → Text
unfolding rstrip_slash or_root
rebuilt p = p.scheme ++ codes "://" ++ p.netloc ++ or_root (rstrip_slash p.path)

with_query : Parsed → Text → Text
with_query p [] = rebuilt p
with_query p (c ∷ query) = rebuilt p ++ codes "?" ++ c ∷ query

canonical_of : Option Parsed → Option Text
unfolding with_query rebuilt
canonical_of none = none
canonical_of (some p) = some (with_query p p.query)

unfoldable pub canonical : UrlLibrary → Text → Option Text
unfolding canonical_of
canonical lib url = canonical_of (lib.parse url)

unfoldable pub canonical_if : UrlLibrary → Option Text → Option Text
canonical_if lib none = none
canonical_if lib (some url) = canonical lib url

unfoldable pub cons_if : Option Text → Option (List Text) → Option (List Text)
cons_if (some link) (some links) = some (link ∷ links)
cons_if _ _ = none

unfoldable pub links_of : UrlLibrary → Text → List Text → Option (List Text)
unfolding canonical_if cons_if starts_with
links_of lib base [] = some []
links_of lib base (href ∷ hrefs) =
    let rest = links_of lib base hrefs in
    if any (λ p. starts_with p href) no_page_prefixes
    then rest
    else cons_if (canonical_if lib (lib.join base href)) rest

-- `_links`: one link that cannot be joined or parsed raises for the whole page.
unfoldable pub links : UrlLibrary → Text → Text → Option (List Text)
unfolding links_of
links lib html base = links_of lib base (lib.hrefs html)

unfoldable pub is_skipped : Text → Bool
unfolding ends_with
is_skipped link = any (λ e. ends_with e (lower link)) skip_extensions

netloc_if : Option Parsed → Option Text
netloc_if none = none
netloc_if (some p) = some p.netloc

-- `urlparse(url).netloc.lower()`.
unfoldable pub netloc : UrlLibrary → Text → Option Text
unfolding netloc_if
netloc lib url = netloc_if (lib.parse url)
