-- ===== src/Crawl/Robots.antt =====
-- robots.txt, fetched once for each host (backend/geolytics/crawl/robots.py). The standard
-- library's parser is a parameter: what a text allows. The delay is time only, and is left out.
pub mod Closed
use geolytics.Prelude.{
  ℕ, String, Bool, true, false, Option, none, some, List, [], ◌∷◌, if◌then◌else◌, ◌==◌, eq_ℕ,
  eq_string, leb, ltb, contains, find_first, ◌&&◌, not, length, ◌+◌,
}
use Prim.Native.String.{◌++◌}
use geolytics.Crawl.Guard
use geolytics.Crawl.Guard.{
  ◌>>=◌, World, UrlPolicy, Error, policy, value_error, transport, Fetched, safe_get,
}

-- `netloc` is that of `urlparse`, in lower case; `scheme` likewise. `decode` is the text of a body.
pub record RobotsPolicy : Type 0 where
  pub respect : Bool
  pub url_policy : UrlPolicy
  pub scheme : String → String
  pub netloc : String → String
  pub decode : List ℕ → String
  pub allows : String → String → Bool

-- One host's entry of `_parsers`: `none` for no parser.
pub record Entry : Type 0 where
  pub host : String
  pub rules : Option String

-- `_parsers` and `_unreachable`.
pub record Hosts : Type 0 where
  pub parsers : List Entry
  pub unreachable : List String

abbrev pub is_success : ℕ → Bool
is_success status = leb 200 status && ltb status 300

abbrev robots_url : RobotsPolicy → String → String
robots_url r url = ((r.scheme url ++ "://") ++ r.netloc url) ++ "/robots.txt"

-- What the response to a request for robots.txt leaves: the rules, and whether the host counts as
-- unreachable. Only `value_error` is not caught.
pub data Answer : Type 0 where
  answer : Option String → Bool → Answer
  raised : Answer

answer_of : RobotsPolicy → Guard.Result Fetched → Answer
answer_of r (Guard.ok f) =
    if f.status == 404
    then answer none false
    else if is_success f.status
    then answer (some (r.decode f.content)) false
    else answer none true
answer_of r (Guard.err value_error) = raised
answer_of r (Guard.err e) = answer none true

remember : String → Option String → Bool → Hosts → Hosts
remember host rules failed hosts = record {
  parsers = record { host = host; rules = rules } ∷ hosts.parsers;
  unreachable = if failed then host ∷ hosts.unreachable else hosts.unreachable;
}

-- The rules, the number of requests that have been sent, and the hosts that are known by then.
abbrev pub Known : Type 0
Known = Option String × ℕ × Hosts

learned : String → ℕ → Hosts → Answer → Guard.Result Known
unfolding remember
learned host n hosts (answer rules failed) = Guard.ok (rules, n, remember host rules failed hosts)
learned host n hosts raised = Guard.err value_error

-- The first request for a host's robots.txt.
fetch_rules : RobotsPolicy → World → ℕ → String → Hosts → Guard.Result Known
unfolding learned answer_of
fetch_rules r world n url hosts =
    let (sent, out) = safe_get world r.url_policy n (robots_url r url) in
    learned (r.netloc url) (n + length sent) hosts (answer_of r out)

-- `_parser_for`.
unfoldable pub parser_for : RobotsPolicy → World → ℕ → String → Hosts → Guard.Result Known
unfolding fetch_rules
parser_for r world n url hosts =
    elim (find_first (λ (e : Entry). e.host == r.netloc url) hosts.parsers) [
      | some e ↦ Guard.ok (e.rules, n, hosts)
      | none ↦ fetch_rules r world n url hosts
    ]

-- No rules are no restriction, unless they could not be read.
permitted : RobotsPolicy → String → Option String → Hosts → Bool
permitted r url none hosts = not (contains hosts.unreachable (r.netloc url))
permitted r url (some rules) hosts = r.allows rules url

unfoldable pub can_fetch :
    RobotsPolicy → World → ℕ → String → Hosts → Guard.Result (Bool × ℕ × Hosts)
unfolding permitted
can_fetch r world n url hosts = if not r.respect then Guard.ok (true, n, hosts) else (do
  known ← parser_for r world n url hosts
  Guard.ok (permitted r url known.0 known.2, known.1, known.2))
