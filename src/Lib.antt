-- ===== src/Lib.antt =====
-- GEOlytics: a service that crawls a customer's site, scores it, and sells that by subscription.
-- This library models the parts of it that decide who may do what, how much, and what is fetched.
--
-- Parts, and the files that model them (paths from the repository's root):
--   * Tenancy/Plans: the plan catalogue, limits and overrides (backend/geolytics/tenancy/plans.py).
--     An organisation's plan is resolved by `get_plan` wherever a limit is read.
--   * Tenancy/Principal: roles, scopes and the authenticated caller
--     (backend/geolytics/tenancy/principal.py).
--   * Tenancy/Quotas: usage counters and the checks before work starts
--     (backend/geolytics/tenancy/quotas.py). The table of counters is a list of rows; what other
--     workers commit between two statements is a parameter (`Rivals`).
--   * Billing/Events, Billing/Apply: what a verified Stripe event says, and what it does to an
--     organisation (`parse_event` and `apply_subscription` of backend/geolytics/billing.py). Events
--     are JSON values (Json), without fractional numbers; a body of another shape than expected
--     is an error as in the source.
--   * Billing/Signature, Billing/Webhook: the signature of a webhook request, and the endpoint that
--     verifies a request before it applies the event (`verify_webhook_signature` and `sign_webhook`
--     of backend/geolytics/billing.py, `stripe_webhook` of backend/geolytics/api/routes/billing.py).
--   * RateLimit: the token bucket that runs as a script in Redis, and the class around it
--     (backend/geolytics/ratelimit.py).
--   * Security/ApiKeys: the format of API keys (backend/geolytics/security/apikeys.py).
--   * Security/Tokens, Security/Passwords: session tokens with their claims, and the password policy
--     (backend/geolytics/security/tokens.py and backend/geolytics/security/passwords.py).
--   * Api/Deps: authentication by API key or session token, scopes and roles
--     (backend/geolytics/api/deps.py).
--   * Api/Slugs, Api/Accounts: the name of an organisation in addresses, and signup, login, refresh
--     and change of password (backend/geolytics/api/routes/auth.py). They issue the tokens that
--     Api/Deps accepts, from the same rows.
--   * Api/Members, Api/Keys, Api/Organizations: the endpoints that change memberships, API keys and
--     the name of an organisation (backend/geolytics/api/routes/orgs.py). A request is a function
--     from the tables to a response with the tables, and a refusal leaves the tables as they were.
--   * Api/Audits: the endpoints that queue and delete an audit
--     (backend/geolytics/api/routes/audits.py). Queueing puts the URL guard and the quotas together.
--   * Tasks: the worker's task that runs a queued audit and stores its outcome
--     (backend/geolytics/tasks/queue.py, `persist_audit` and `mark_audit_failed` of
--     backend/geolytics/pipeline.py), which frees the slot that the quotas count.
--   * Crawl/Addresses, Crawl/Guard: which addresses must never be dialled, the URL policy, and the
--     guarded fetch with its redirects (backend/geolytics/crawl/guard.py).
--   * Crawl/Robots, Crawl/Links, Crawl/Crawler, Crawl/Loop: robots.txt, the links of a page, the visit
--     of one URL, and the breadth-first crawl of a host (backend/geolytics/crawl/robots.py and
--     backend/geolytics/crawl/crawler.py). An audit crawls before it scores.
--   * Chunking/Base, Chunking/Fixed, Chunking/Sentence, Chunking/ParentChild: documents and chunk ids,
--     the splitting of sentences, and the ways in which a page is cut into chunks: windows of words,
--     groups of sentences, and the chunks of chunks (backend/geolytics/chunking).
--   * Index: the vector store in memory (backend/geolytics/index/memory.py); chunks are found by id.
--   * Retrieval: fusion of rankings, and the dense, hybrid and reranking retrievers on top of a store
--     (backend/geolytics/retrieval).
--   * Models: the rows that several parts share (backend/geolytics/db/models.py).
--   * Prelude, Json: shared helpers. Tests: concrete runs.
--
-- State is passed explicitly: each handler takes the tables and returns them in a result type whose
-- errors are the source's exceptions or HTTP statuses. Numbers are natural numbers; where Python's
-- integers may be negative the model says so (ℤ). The rate limiter's floating-point numbers are
-- exact fractions of a token; the scores of the index and of retrieval are an abstract type with the
-- operations that the source calls. Instants are in microseconds, the claims of tokens in whole
-- seconds. Loops are structural recursion. A fetch counts down the redirects
-- that it may still follow, as the source does. The crawl has fuel for four rounds for each page of
-- its limit and one more: it takes one URL from its queue in a round, and a URL that joins the
-- queue joins the seen ones, of which there are at most four for each page.
--
-- Outside the model: the hash functions (with HMAC and Argon2), random source, clock, PyJWT, NumPy,
-- JSON parsing, URL splitting, name resolution, HTTP, the parser of robots.txt, the extraction of
-- text, token counters, embedders and cross-encoders, which are parameters; the database engine, whose
-- statements are list operations and whose transactions are functions; the tables of special addresses
-- are those of the `ipaddress` module of Python 3.12. Not modelled: semantic chunks and embedding
-- (third-party vectors), BM25, evaluation and scoring (floating-point statistics), Qdrant, the command
-- line, the frontend, and the endpoints that only present data or call Stripe.
pub mod Api
pub mod Billing
pub mod Chunking
pub mod Crawl
pub mod Index
pub mod Json
pub mod Models
pub mod Prelude
pub mod RateLimit
pub mod Retrieval
pub mod Security
pub mod Tasks
pub mod Tenancy
pub mod Tests
