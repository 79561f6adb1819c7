-- ===== src/Crawl/Crawler.antt =====
-- The breadth-first crawl of one host (backend/geolytics/crawl/crawler.py). What `_fetch` takes from
-- outside is a parameter: the network (Crawl/Guard), the text of a body, the text that is extracted
-- from a page, and SHA-1. The cache on disk is a list of pages by URL. Waiting is left out.

use geolytics.Prelude.{
  ℕ, suc, ◌+◌, Bool, true, false, ◌||◌, not, Option, none, some, List, [], ◌∷◌, ◌++◌, if◌then◌else◌,
  length, find_first, String, eq_ℕ,
}
use geolytics.Prelude.Text.{Text, codes, text_eq, lower}
use geolytics.Crawl.Guard
use geolytics.Crawl.Guard.{
  World, UrlPolicy, Reason, Error, policy, value_error, transport, Fetched, ◌>>=◌, or_error,
  validate_url, safe_get,
}
use geolytics.Crawl.Robots.{RobotsPolicy, Hosts, is_success, can_fetch}
use geolytics.Crawl.Links.{UrlLibrary, starts_with}

-- What a crawler is made of. `text` is a URL as the network takes it.
pub record Client : Type 0 where
  pub world : World
  pub policy : UrlPolicy
  pub robots : RobotsPolicy
  pub urls : UrlLibrary
  pub text : Text → String
  pub decode : List ℕ → Text
  pub extract : Text → Text → Text
  pub sha1 : Text → Text
  pub caches : Bool
  pub crawl_max_pages : ℕ

-- `CrawlResult`: `document` is the extracted text.
pub record Page : Type 0 where
  pub url : Text
  pub status : ℕ
  pub html : Text
  pub document : Text
  pub from_cache : Bool

-- `CrawlStats`, with the URLs of the errors.
pub record Stats : Type 0 where
  pub requested : ℕ
  pub fetched : ℕ
  pub cached : ℕ
  pub skipped_robots : ℕ
  pub skipped_type : ℕ
  pub skipped_duplicate : ℕ
  pub skipped_policy : ℕ
  pub errors : List Text
  pub policy_refusals : List (Text × Reason)

-- What a crawl changes on the way: the counts, the hosts whose robots.txt is known, the cache, and
-- the number of requests that were sent.
pub record Session : Type 0 where
  pub stats : Stats
  pub hosts : Hosts
  pub cache : List (Text × Text)
  pub sent : ℕ

abbrev count : (Stats → Stats) → Session → Session
count f s = record s { stats = f s.stats }

unfoldable pub refused : Text → Reason → Session → Session
refused url reason s =
    count
      (λ t. record t {
        skipped_policy = suc t.skipped_policy;
        policy_refusals = t.policy_refusals ++ (url, reason) ∷ [];
      })
      s

unfoldable pub failed : Text → Session → Session
failed url s = count (λ t. record t { errors = t.errors ++ url ∷ [] }) s

unfoldable pub permitted_by :
    Text → Session → Guard.Result Guard.ValidatedTarget → Guard.Result (Bool × Session)
unfolding refused
permitted_by url s (Guard.ok t) = Guard.ok (true, s)
permitted_by url s (Guard.err (policy reason at)) = Guard.ok (false, refused url reason s)
permitted_by url s (Guard.err e) = Guard.err e

-- `_allowed`.
unfoldable pub allowed : Client → Text → Session → Guard.Result (Bool × Session)
unfolding permitted_by
allowed c url s = permitted_by url s (validate_url c.world s.sent (c.text url) c.policy)

unfoldable pub occurs : Text → Text → Bool
occurs needle [] = starts_with needle []
occurs needle (d ∷ text) = starts_with needle (d ∷ text) || occurs needle text

unfoldable pub stored : Client → Text → Fetched → Session → Option Page × Session
unfolding failed occurs
stored c url f s =
    if not (is_success f.status)
    then (none, failed url s)
    else if not (occurs (codes "html") (lower (codes f.content_type)))
    then (none, count (λ t. record t { skipped_type = suc t.skipped_type }) s)
    else (
      some (record {
        url = url;
        status = f.status;
        html = c.decode f.content;
        document = c.extract (c.decode f.content) url;
        from_cache = false;
      }),
      count (λ t. record t { fetched = suc t.fetched })
          (record s { cache = if c.caches then (url, c.decode f.content) ∷ s.cache else s.cache }),
    )

unfoldable pub received :
    Client → Text → Session → Guard.Result Fetched → Guard.Result (Option Page × Session)
unfolding stored refused failed
received c url s (Guard.ok f) = Guard.ok (stored c url f s)
received c url s (Guard.err (policy reason at)) = Guard.ok (none, refused url reason s)
received c url s (Guard.err transport) = Guard.ok (none, failed url s)
received c url s (Guard.err value_error) = Guard.err value_error

unfoldable pub from_disk : Client → Text → Text → Session → Option Page × Session
from_disk c url html s = (
  some (record {
    url = url;
    status = 200;
    html = html;
    document = c.extract html url;
    from_cache = true;
  }),
  count (λ t. record t { fetched = suc t.fetched; cached = suc t.cached }) s,
)

-- `_fetch`.
unfoldable pub fetch : Client → Text → Session → Guard.Result (Option Page × Session)
unfolding from_disk received
fetch c url s = elim (find_first (λ (e : Text × Text). text_eq e.0 url) s.cache) [
  | some e ↦ Guard.ok (from_disk c url e.1 s)
  | none ↦
      let (sent, out) = safe_get c.world c.policy s.sent (c.text url) in
      received c url (record s { sent = s.sent + length sent }) out
]

-- What the loop does with one URL up to the result of `_fetch`.
unfoldable pub visit : Client → Text → Session → Guard.Result (Option Page × Session)
visit c url s = do
  may ← allowed c url (count (λ t. record t { requested = suc t.requested }) s)
  if not may.0 then Guard.ok (none, may.1) else (do
    robots ← can_fetch c.robots c.world may.1.sent (c.text url) may.1.hosts
    let s' = record may.1 { sent = robots.1; hosts = robots.2 }
    if robots.0
        then fetch c url s'
        else Guard.ok (none, count (λ t. record t { skipped_robots = suc t.skipped_robots }) s'))
