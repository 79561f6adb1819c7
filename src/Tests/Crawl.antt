-- ===== src/Tests/Crawl.antt =====
-- The guarded fetch at concrete values (backend/geolytics/crawl/guard.py).
use geolytics.Prelude.{
  ◌+◌, ◌*◌, ◌^◌, String, ◌≡◌, true, false, none, some, [], ◌∷◌, arith, if◌then◌else◌, ◌==◌,
  eq_string, eq_ℕ,
}
use geolytics.Crawl.Addresses.{v4, v6, quad, is_blocked_address}
use geolytics.Crawl.Addresses.Blocked.{is_blocked_address-mapped}
use geolytics.Crawl.Guard.{infos, default_policy, World, SplitResult, absent, undeclared, safe_get}
use geolytics.Crawl.Guard.Redirects.{IsGuarded, safe_get-IsGuarded}

-- The metadata service, written as an IPv6 address.
is_blocked_address-mapped_example :
    is_blocked_address (v6 (65535 * 2 ^ 32 + quad 169 254 169 254))
    ≡ is_blocked_address (v4 (quad 169 254 169 254))
is_blocked_address-mapped_example = is_blocked_address-mapped (quad 169 254 169 254) (omega arith)

abbrev site : String → String → SplitResult
site host path = record {
  scheme = "https";
  hostname = host;
  port = absent;
  path = path;
  query = "";
}

-- A public site that redirects once, then serves three bytes.
abbrev pub world : World
world = record {
  dialled = λ u. u.path;
  urlsplit = λ url.
      if url == "https://acme.io" then some (site "acme.io" "") else some (site "acme.io" "/home");
  ip_address = λ host. none;
  getaddrinfo = λ n host. infos (some (v4 (quad 93 184 216 34)) ∷ []);
  send = λ n r. some (
      if n == 0
      then record {
        status = 302;
        content_type = "";
        is_redirect = true;
        location = "/home";
        content_length = undeclared;
        chunks = [];
      }
      else record {
        status = 200;
        content_type = "text/html";
        is_redirect = false;
        location = "";
        content_length = undeclared;
        chunks = some (1 ∷ 2 ∷ []) ∷ some (3 ∷ []) ∷ [];
      });
  join = λ url location. some "https://acme.io/home";
}

safe_get-IsGuarded_example :
    IsGuarded default_policy 6 (safe_get world default_policy 0 "https://acme.io")
safe_get-IsGuarded_example = safe_get-IsGuarded world default_policy 0 "https://acme.io"
