-- ===== src/Crawl/Loop/Malformed.antt =====
-- A link that the URL library refuses.
use geolytics.Prelude.{
  ℕ, ◌≡◌, refl, Bool, true, false, Option, none, some, List, [], ◌∷◌, ◌++◌, if◌then◌else◌, any,
}
use geolytics.Prelude.Text.{Text}
use geolytics.Crawl.Guard
use geolytics.Crawl.Guard.{value_error}
use geolytics.Crawl.Links.{
  UrlLibrary, no_page_prefixes, starts_with, canonical_if, cons_if, links_of, links,
}
use geolytics.Crawl.Crawler.{Client, Page, Session}
use geolytics.Crawl.Loop.{Frontier, member, content_fingerprint, follow_links, keep_page}

none_left :
    (b : Bool) (o : Option Text)
    → ◌≡◌ {A = Option (List Text)} (if b then none else cons_if o none) none
unfolding cons_if
none_left true o = refl
none_left false none = refl
none_left false (some t) = refl

-- The links of a page are the `before`, the `href` and the `after`.
links_of-none :
    (lib : UrlLibrary) (base href : Text) (before after : List Text)
    → any (λ p. starts_with p href) no_page_prefixes ≡ false
    → lib.join base href ≡ none
    → links_of lib base (before ++ href ∷ after) ≡ none
unfolding links_of canonical_if cons_if
links_of-none lib base href [] after kept refused = rw (kept, refused, links_of) refl
links_of-none lib base href (h ∷ before) after kept refused =
    rw (links_of-none lib base href before after kept refused, links_of)
      (none_left (any (λ p. starts_with p h) no_page_prefixes) (canonical_if lib (lib.join base h)))

-- Keeping a page with new content and one link that `urljoin` raises on, and that is not skipped by
-- its prefix, raises that exception, whatever the page's other links.
pub keep_page_malformed :
    (c : Client) (host href : Text) (limit : ℕ) (page : Page) (before after : List Text)
    (f : Frontier) (s : Session)
    → member (content_fingerprint c page.document) f.seen_content ≡ false
    → c.urls.hrefs page.html ≡ before ++ href ∷ after
    → any (λ p. starts_with p href) no_page_prefixes ≡ false
    → c.urls.join page.url href ≡ none
    → keep_page c host limit page f s ≡ Guard.err value_error
unfolding keep_page follow_links links
keep_page_malformed c host href limit page before after f s new found kept refused =
    rw (new, found, links_of-none c.urls page.url href before after kept refused, keep_page) refl
