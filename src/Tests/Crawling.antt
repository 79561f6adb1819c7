-- ===== src/Tests/Crawling.antt =====
-- robots.txt and a crawl at concrete values (backend/geolytics/crawl/robots.py and
-- backend/geolytics/crawl/crawler.py).
use geolytics.Prelude.{ℕ, ◌≡◌, refl, true, false, none, some, [], ◌∷◌, if◌then◌else◌, eq_string}
use geolytics.Prelude.Text.{codes, text_eq}
use geolytics.Crawl.Guard
use geolytics.Crawl.Guard.{World, UrlPolicy, default_policy, value_error}
use geolytics.Crawl.Robots.{RobotsPolicy, Hosts, can_fetch}
use geolytics.Crawl.Robots.Closed.{can_fetch_unreadable}
use geolytics.Crawl.Links.{UrlLibrary, Parsed}
use geolytics.Crawl.Crawler.{Client, Page, Session}
use geolytics.Crawl.Loop.{Frontier, keep_page, crawl, start_at}
use geolytics.Crawl.Loop.Ends.{IsFinished, crawl-IsFinished}
use geolytics.Crawl.Loop.Malformed.{keep_page_malformed}
use geolytics.Tests.Crawl.{world}

abbrev robots : RobotsPolicy
robots = record {
  respect = true;
  url_policy = default_policy;
  scheme = λ url. "https";
  netloc = λ url. "acme.io";
  decode = λ body. "";
  allows = λ rules url. true;
}

abbrev unknown : Hosts
unknown = record { parsers = []; unreachable = [] }

-- Nothing answers.
abbrev silent : World
silent = record world { send = λ n r. none }

can_fetch_unreadable_example :
    (m : ℕ) × (hosts : Hosts) × (can_fetch robots silent 0 "https://acme.io" unknown
      ≡ Guard.ok (false, m, hosts))
unfolding Guard.safe_get Guard.validate_url Guard.port_allowed Guard.resolve_host Guard.is_exempt
    geolytics.Crawl.Addresses.is_blocked_address
can_fetch_unreadable_example =
    can_fetch_unreadable robots silent 0 "https://acme.io" unknown refl refl tt

abbrev asked : Hosts
asked = record {
  parsers = record { host = "acme.io"; rules = none } ∷ [];
  unreachable = "acme.io" ∷ [];
}

abbrev acme : Parsed
acme = record { scheme = codes "https"; netloc = codes "acme.io"; path = codes "/"; query = [] }

abbrev urls : UrlLibrary
urls = record {
  parse = λ url. some acme;
  join = λ base href.
      if text_eq href (codes "http://[") then none else some (codes "https://acme.io/");
  hrefs = λ html. codes "/a" ∷ codes "http://[" ∷ [];
}

abbrev client : Client
client = record {
  world = world;
  policy = default_policy;
  robots = robots;
  urls = urls;
  text = λ url. "https://acme.io/home";
  decode = λ body. codes "hello";
  extract = λ html url. html;
  sha1 = λ t. t;
  caches = false;
  crawl_max_pages = 25;
}

abbrev session : Session
session = record {
  stats = record {
    requested = 0;
    fetched = 0;
    cached = 0;
    skipped_robots = 0;
    skipped_type = 0;
    skipped_duplicate = 0;
    skipped_policy = 0;
    errors = [];
    policy_refusals = [];
  };
  hosts = unknown;
  cache = [];
  sent = 1;
}

crawl-IsFinished_example :
    IsFinished urls (codes "acme.io") 2 (crawl client (codes "https://acme.io") 2 session)
unfolding geolytics.Crawl.Links.netloc geolytics.Crawl.Links.canonical
    geolytics.Crawl.Loop.page_limit
crawl-IsFinished_example =
    crawl-IsFinished client (codes "https://acme.io") (codes "https://acme.io/") (codes "acme.io") 2
      session refl refl refl

abbrev page : Page
page = record {
  url = codes "https://acme.io/";
  status = 200;
  html = codes "hello";
  document = codes "hello";
  from_cache = false;
}

keep_page_malformed_example :
    keep_page client (codes "acme.io") 2 page (start_at (codes "https://acme.io/")) session
    ≡ Guard.err value_error
unfolding geolytics.Crawl.Links.starts_with
keep_page_malformed_example =
    keep_page_malformed client (codes "acme.io") (codes "http://[") 2 page (codes "/a" ∷ []) []
      (start_at (codes "https://acme.io/")) session refl refl refl refl
