-- ===== src/Crawl/Loop.antt =====
-- The loop of `crawl` (backend/geolytics/crawl/crawler.py): its queue, the URLs and contents that
-- it has seen, and its results.
pub mod Bounds
pub mod Visits
pub mod Ends
pub mod Malformed
use geolytics.Prelude.{
  ℕ, zero, suc, ◌+◌, ◌*◌, Bool, true, false, ◌&&◌, ◌||◌, not, Option, none, some, List, [], ◌∷◌,
  ◌++◌, if◌then◌else◌, leb, any, length, nat_eq,
}
use geolytics.Prelude.Text.{Text, text_eq, strip, is_space}
use geolytics.Crawl.Guard
use geolytics.Crawl.Guard.{value_error, ◌>>=◌, or_error, validate_url}
use geolytics.Crawl.Links.{UrlLibrary, canonical, links, is_skipped, netloc}
use geolytics.Crawl.Crawler.{Client, Page, Session, Stats, visit}

pub record Frontier : Type 0 where
  pub queue : List Text
  pub seen : List Text
  pub seen_content : List Text
  pub results : List Page

abbrev pub member : Text → List Text → Bool
member t ts = any (text_eq t) ts

-- Runs of white space inside a text become one space.
collapse : Text → Text
collapse [] = []
collapse (c ∷ []) = c ∷ []
collapse (c ∷ d ∷ text) =
    let rest = collapse (d ∷ text) in
    if is_space c then (if is_space d then rest else 32 ∷ rest) else c ∷ rest

-- `_content_fingerprint`.
unfoldable pub content_fingerprint : Client → Text → Text
unfolding collapse
content_fingerprint c text = c.sha1 (collapse (strip text))

-- A link of the host that is new and no file joins the queue.
enqueue : Text → Text → Text → Frontier → Frontier
enqueue host at link f =
    if not (text_eq at host) || (member link f.seen || is_skipped link)
    then f
    else record f { seen = link ∷ f.seen; queue = f.queue ++ link ∷ [] }

-- One link, while the frontier is below its bound.
add_link : UrlLibrary → Text → ℕ → Text → Frontier → Guard.Result Frontier
unfolding enqueue
add_link lib host bound link f =
    if leb bound (length f.seen)
    then Guard.ok f
    else (do at ← or_error (netloc lib link) value_error; Guard.ok (enqueue host at link f))

-- The inner loop: at the bound it breaks.
unfoldable pub add_links : UrlLibrary → Text → ℕ → List Text → Frontier → Guard.Result Frontier
unfolding add_link
add_links lib host bound [] f = Guard.ok f
add_links lib host bound (link ∷ ls) f = do
  f' ← add_link lib host bound link f
  add_links lib host bound ls f'

-- A page with new content joins the results, and its links the queue.
unfoldable pub follow_links : Client → Text → ℕ → Page → Frontier → Guard.Result Frontier
follow_links c host limit page f = do
  found ← or_error (links c.urls page.html page.url) value_error
  add_links c.urls host (limit * 4) found f

unfoldable pub keep_page :
    Client → Text → ℕ → Page → Frontier → Session → Guard.Result (Frontier × Session)
unfolding follow_links
keep_page c host limit page f s =
    let print = content_fingerprint c page.document in
    if member print f.seen_content
    then Guard.ok (
      f,
      record s { stats = record s.stats { skipped_duplicate = suc s.stats.skipped_duplicate } },
    )
    else (do
      f' ←
          follow_links c host limit page
            (record f { seen_content = print ∷ f.seen_content; results = f.results ++ page ∷ [] })
      Guard.ok (f', s))

unfoldable pub keep_if :
    Client → Text → ℕ → Frontier → Option Page × Session → Guard.Result (Frontier × Session)
unfolding keep_page
keep_if c host limit f (none, s) = Guard.ok (f, s)
keep_if c host limit f (some page, s) = keep_page c host limit page f s

-- One round, with the URL that was taken from the queue and the frontier without it.
unfoldable pub round :
    Client → Text → ℕ → Text → Frontier → Session → Guard.Result (Frontier × Session)
unfolding keep_if
round c host limit url f s = do out ← visit c url s; keep_if c host limit f out

-- `while queue and len(results) < limit`, with fuel; `none` is a loop that ran out of it.
unfoldable pub crawl_loop :
    Client
    → Text
    → ℕ
    → ℕ
    → List Text
    → Frontier
    → Session
    → Guard.Result (Option (List Page × Session))
unfolding round
crawl_loop c host limit fuel [] f s = Guard.ok (some (f.results, s))
crawl_loop c host limit zero (url ∷ queue) f s =
    if leb limit (length f.results) then Guard.ok (some (f.results, s)) else Guard.ok none
crawl_loop c host limit (suc fuel) (url ∷ queue) f s = elim (leb limit (length f.results)) [
  | true ↦ Guard.ok (some (f.results, s))
  | false ↦ (do
    next ← round c host limit url (record f { queue = queue }) s
    crawl_loop c host limit fuel next.0.queue next.0 next.1)
]

-- `max_pages or self.settings.crawl_max_pages`.
unfoldable pub page_limit : Client → ℕ → ℕ
page_limit c max_pages = if nat_eq max_pages 0 then c.crawl_max_pages else max_pages

abbrev pub start_at : Text → Frontier
start_at url = record { queue = url ∷ []; seen = url ∷ []; seen_content = []; results = [] }

-- `crawl`. Each round takes one URL that was seen, of which there are at most four a page.
unfoldable pub crawl : Client → Text → ℕ → Session → Guard.Result (Option (List Page × Session))
unfolding page_limit
crawl c start_url max_pages s = do
  _ ← validate_url c.world s.sent (c.text start_url) c.policy
  host ← or_error (netloc c.urls start_url) value_error
  start ← or_error (canonical c.urls start_url) value_error
  crawl_loop c host (page_limit c max_pages) (suc (page_limit c max_pages * 4)) (start ∷ [])
      (start_at start) s
