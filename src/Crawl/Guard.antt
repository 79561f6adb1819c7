-- ===== src/Crawl/Guard.antt =====
-- The URL policy and the guarded fetch (backend/geolytics/crawl/guard.py). URL splitting, name
-- resolution and HTTP are the standard library's and httpx's: they are parameters, and what
-- depends on the network takes the number of requests sent so far, so that a server or a resolver
-- may answer differently each time.
pub mod Redirects
use geolytics.Prelude.{
  ℕ, zero, suc, ◌+◌, ◌*◌, String, Bool, true, false, ◌&&◌, ◌||◌, Option, none, some, List, [], ◌∷◌,
  ◌++◌, if◌then◌else◌, ◌==◌, eq_ℕ, eq_string, leb, ltb, not, all, any, contains, keep, length,
}
use geolytics.Crawl.Addresses.{Address, is_blocked_address}

pub data Reason : Type 0 where
  scheme missing_host port dns blocked_address blocked_host too_many_redirects too_large : Reason

-- `policy` is a `UrlPolicyError`, with its reason and URL; `value_error` is what `urlsplit`, `int`
-- and httpx's URL parsing raise, and `transport` what httpx raises in sending and reading.
pub data Error : Type 0 where
  policy : Reason → String → Error
  value_error transport : Error

pub data Result {ℓ} (A : Type ℓ) : Type ℓ where
  err : Error → Result A
  ok : A → Result A

infixl 5 ◌>>◌ ◌>>=◌
abbrev pub ◌>>=◌ {ℓ κ} : {A : Type ℓ} {B : Type κ} → Result A → (A → Result B) → Result B
err e >>= next = err e
ok a >>= next = next a

abbrev pub refuse_if : Bool → Error → Result (Unit {0})
refuse_if b e = if b then err e else ok tt

-- One step after another.
abbrev pub ◌>>◌ {ℓ} : {B : Type ℓ} → Result (Unit {0}) → Result B → Result B
m >> k = m >>= λ _. k

abbrev pub or_error : {A : Type 0} → Option A → Error → Result A
or_error none e = err e
or_error (some a) e = ok a

pub record UrlPolicy : Type 0 where
  pub allowed_schemes : List String
  pub allowed_ports : Option (List ℕ)
  pub allow_private_addresses : Bool
  pub allowed_hosts : List String
  pub blocked_hosts : List String
  pub max_redirects : ℕ
  pub max_bytes : ℕ

abbrev pub default_policy : UrlPolicy
default_policy = record {
  allowed_schemes = "http" ∷ "https" ∷ [];
  allowed_ports = some (80 ∷ 443 ∷ 8080 ∷ 8443 ∷ []);
  allow_private_addresses = false;
  allowed_hosts = [];
  blocked_hosts = [];
  max_redirects = 5;
  max_bytes = 5 * 1024 * 1024;
}

-- The `port` of a split URL, which raises where it is no number in range.
pub data Port : Type 0 where
  absent invalid : Port
  given : ℕ → Port

-- A split URL: `urlsplit` gives the scheme and the host name in lower case, and `""` for none.
pub record SplitResult : Type 0 where
  pub scheme : String
  pub hostname : String
  pub port : Port
  pub path : String
  pub query : String

-- The arguments of `urlunsplit`: where the request goes.
pub record DialUrl : Type 0 where
  pub scheme : String
  pub address : Address
  pub port : ℕ
  pub path : String
  pub query : String

pub record ValidatedTarget : Type 0 where
  pub url : String
  pub scheme : String
  pub host : String
  pub port : ℕ
  pub address : Address
  pub dial_url : DialUrl
  pub host_header : String × Option ℕ

-- The content length that a response declares: a header that is digits to `isdigit` but not to
-- `int` is `unreadable`.
pub data Declared : Type 0 where
  undeclared unreadable : Declared
  declared : ℕ → Declared

-- A header that is absent reads as `""`. `iter_bytes` yields the chunks, by their bytes; `none` is
-- where reading fails.
pub record Response : Type 0 where
  pub status : ℕ
  pub is_redirect : Bool
  pub content_type : String
  pub location : String
  pub content_length : Declared
  pub chunks : List (Option (List ℕ))

pub record Request : Type 0 where
  pub target : ValidatedTarget
  pub sni_hostname : Option String

-- What looking a name up comes to: a `gaierror`, the `UnicodeError` of a name that cannot be encoded,
-- which is a `ValueError`, or the infos, of which some hold no address.
pub data Lookup : Type 0 where
  gaierror unencodable : Lookup
  infos : List (Option Address) → Lookup

-- The libraries and the network. `dialled` is the text of the URL of a request that was sent.
pub record World : Type 0 where
  pub dialled : DialUrl → String
  pub urlsplit : String → Option SplitResult
  pub ip_address : String → Option Address
  pub getaddrinfo : ℕ → String → Lookup
  pub send : ℕ → Request → Option Response
  pub join : String → String → Option String

somes : List (Option Address) → List Address
somes [] = []
somes (none ∷ rest) = somes rest
somes (some a ∷ rest) = a ∷ somes rest

-- The usable addresses, of which there must be one.
first_of : String → List Address → Result (Address × List Address)
first_of host [] = err (policy dns host)
first_of host (a ∷ rest) = ok (a, rest)

-- Only the `gaierror` is caught.
looked_up : String → Lookup → Result (Address × List Address)
unfolding somes first_of
looked_up host gaierror = err (policy dns host)
looked_up host unencodable = err value_error
looked_up host (infos found) = first_of host (somes found)

-- `resolve_host`: the first address and the others.
unfoldable pub resolve_host : World → ℕ → String → Result (Address × List Address)
unfolding looked_up
resolve_host world n host = elim (world.ip_address host) [
  | some literal ↦ ok (literal, [])
  | none ↦ looked_up host (world.getaddrinfo n host)
]

-- `parts.port or (443 if scheme == "https" else 80)`: port 0 counts as absent.
port_of : String → String → Port → Result ℕ
port_of url name invalid = err (policy port url)
port_of url name absent = ok (if name == "https" then 443 else 80)
port_of url name (given n) = ok (if n == 0 then (if name == "https" then 443 else 80) else n)

unfoldable pub port_allowed : Option (List ℕ) → ℕ → Bool
port_allowed none n = true
port_allowed (some ports) n = any (λ p. p == n) ports

-- The host's own address check is skipped.
unfoldable pub is_exempt : UrlPolicy → String → Bool
is_exempt p host = p.allow_private_addresses || contains p.allowed_hosts host

pinned : String → SplitResult → ℕ → Address → ValidatedTarget
pinned url parts n chosen = record {
  url = url;
  scheme = parts.scheme;
  host = parts.hostname;
  port = n;
  address = chosen;
  dial_url = record {
    scheme = parts.scheme;
    address = chosen;
    port = n;
    path = if parts.path == "" then "/" else parts.path;
    query = parts.query;
  };
  host_header = (parts.hostname, if n == 80 || n == 443 then none else some n);
}

unfoldable pub validate_url : World → ℕ → String → UrlPolicy → Result ValidatedTarget
unfolding port_of pinned
validate_url world n url p = do
  parts ← or_error (world.urlsplit url) value_error
  refuse_if (not (contains p.allowed_schemes parts.scheme)) (policy scheme url)
  refuse_if (parts.hostname == "") (policy missing_host url)
  refuse_if (contains p.blocked_hosts parts.hostname) (policy blocked_host url)
  number ← port_of url parts.scheme parts.port
  refuse_if (not (port_allowed p.allowed_ports number)) (policy port url)
  addresses ← resolve_host world n parts.hostname
  refuse_if (not (is_exempt p parts.hostname) && any is_blocked_address (addresses.0 ∷ addresses.1))
      (policy blocked_address url)
  ok (pinned url parts number addresses.0)

-- The chunks as they arrive, refused once more than `max_bytes` have been counted.
read_chunks : String → ℕ → ℕ → List (Option (List ℕ)) → Result (List ℕ)
read_chunks url max_bytes total [] = ok []
read_chunks url max_bytes total (none ∷ chunks) = err transport
read_chunks url max_bytes total (some chunk ∷ chunks) =
    let rest = read_chunks url max_bytes (total + length chunk) chunks in
    if ltb max_bytes (total + length chunk)
    then err (policy too_large url)
    else (do body ← rest; ok (chunk ++ body))

declared_check : String → ℕ → Declared → Result (Unit {0})
declared_check url max_bytes undeclared = ok tt
declared_check url max_bytes unreadable = err value_error
declared_check url max_bytes (declared n) = refuse_if (ltb max_bytes n) (policy too_large url)

-- `_read_capped`, of a response to a request for `url`.
unfoldable pub read_capped : String → Response → ℕ → Result (List ℕ)
unfolding read_chunks declared_check
read_capped url response max_bytes = do
  declared_check url max_bytes response.content_length
  read_chunks url max_bytes 0 response.chunks

-- The response that `safe_get` returns, with its body and the URL that it reports.
pub record Fetched : Type 0 where
  pub status : ℕ
  pub content_type : String
  pub content : List ℕ
  pub url : String

-- What one round of the loop comes to: the end of the call, or the next URL.
pub data Round : Type 0 where
  stop : Result Fetched → Round
  go : String → Round

fetched : String → Response → Result (List ℕ) → Result Fetched
fetched url r (ok body) =
    ok (record { status = r.status; content_type = r.content_type; content = body; url = url })
fetched url r (err e) = err e

joined : Option String → Round
joined none = stop (err value_error)
joined (some next) = go next

after_response : World → UrlPolicy → String → ValidatedTarget → Option Response → Round
unfolding fetched joined
after_response world p current target none = stop (err transport)
after_response world p current target (some r) =
    if r.is_redirect
    then (if r.location == ""
        then stop (err (policy blocked_host current))
        else joined (world.join current r.location))
    else stop (fetched current r (read_capped (world.dialled target.dial_url) r p.max_bytes))

abbrev pub request_to : ValidatedTarget → Request
request_to t = record {
  target = t;
  sni_hostname = if t.scheme == "https" then some t.host else none;
}

-- The loop of `safe_get`, with the rounds that are left: the requests that were sent, and the
-- result.
follow : World → UrlPolicy → String → ℕ → ℕ → String → List Request × Result Fetched
unfolding after_response
follow world p url zero n current = ([], err (policy too_many_redirects url))
follow world p url (suc rounds) n current = elim (validate_url world n current p) [
  | err e ↦ ([], err e)
  | ok target ↦ elim (after_response world p current target (world.send n (request_to target))) [
    | stop out ↦ (request_to target ∷ [], out)
    | go next ↦
        let (sent, out) = follow world p url rounds (suc n) next in (request_to target ∷ sent, out)
  ]
]

unfoldable pub safe_get : World → UrlPolicy → ℕ → String → List Request × Result Fetched
unfolding follow
safe_get world p n url = follow world p url (suc p.max_redirects) n url
