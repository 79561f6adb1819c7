-- ===== src/Crawl/Robots/Closed.antt =====
-- An unreadable robots.txt closes its host, and each host is asked once.
use geolytics.Prelude.{
  ℕ, ◌+◌, String, ◌≡◌, refl, Bool, true, false, Option, none, some, if◌then◌else◌, ◌==◌, eq_ℕ,
  arith, eq_string, eq_iff, find_first, not, length, Option-cases, inl, inr,
}
use geolytics.Crawl.Guard
use geolytics.Crawl.Guard.{
  ◌>>=◌, World, Error, Reason, policy, transport, Request, Fetched, safe_get,
}
use geolytics.Crawl.Robots.{
  RobotsPolicy, Entry, Hosts, is_success, robots_url, answer_of, remember, learned, fetch_rules,
  parser_for, permitted, can_fetch, Answer, answer, raised, Known,
}

-- The answer to the request for robots.txt is neither a text nor that there is none.
abbrev pub IsUnreadable : Guard.Result Fetched → Type 0
IsUnreadable (Guard.ok f) = ((f.status == 404) ≡ false) × (is_success f.status ≡ false)
IsUnreadable (Guard.err (policy reason url)) = Unit
IsUnreadable (Guard.err transport) = Unit
IsUnreadable (Guard.err Error.value_error) = ⊥

answer_unreadable :
    (r : RobotsPolicy) (out : Guard.Result Fetched)
    → IsUnreadable out
    → answer_of r out ≡ answer none true
unfolding answer_of
answer_unreadable r (Guard.ok f) h = rw (h.0, h.1) refl
answer_unreadable r (Guard.err (policy reason url)) h = refl
answer_unreadable r (Guard.err transport) h = refl
answer_unreadable r (Guard.err Error.value_error) h = absurd h

module _ (r : RobotsPolicy) (world : World) (n : ℕ) (url : String) (hosts : Hosts) where
  parser_for_unreadable :
      find_first (λ (e : Entry). e.host == r.netloc url) hosts.parsers ≡ none
      → IsUnreadable (safe_get world r.url_policy n (robots_url r url)).1
      → parser_for r world n url hosts
        ≡ Guard.ok (
          none,
          n + length (safe_get world r.url_policy n (robots_url r url)).0,
          remember (r.netloc url) none true hosts,
        )
  unfolding parser_for fetch_rules learned
  parser_for_unreadable new unreadable =
      rw (new, parser_for)
        (rw (answer_unreadable r (safe_get world r.url_policy n (robots_url r url)).1 unreadable)
          refl)

  closed : permitted r url none (remember (r.netloc url) none true hosts) ≡ false
  unfolding permitted remember
  closed = ground (arith, eq_iff (r.netloc url) (r.netloc url))

-- Where robots.txt is respected, a host that has not been asked before and whose robots.txt cannot
-- be read, for an answer that is neither a success nor a 404, a refusal by the policy or a failed
-- transport, is not crawled.
pub can_fetch_unreadable :
    (r : RobotsPolicy) (world : World) (n : ℕ) (url : String) (hosts : Hosts)
    → r.respect ≡ true
    → find_first (λ (e : Entry). e.host == r.netloc url) hosts.parsers ≡ none
    → IsUnreadable (safe_get world r.url_policy n (robots_url r url)).1
    → (m : ℕ) × (hosts' : Hosts) × (can_fetch r world n url hosts ≡ Guard.ok (false, m, hosts'))
unfolding can_fetch
can_fetch_unreadable r world n url hosts respect new unreadable = (
  n + length (safe_get world r.url_policy n (robots_url r url)).0,
  remember (r.netloc url) none true hosts,
  rw (parser_for_unreadable r world n url hosts new unreadable, closed r world n url hosts)
      (rw respect refl),
)

abbrev entry_of : RobotsPolicy → String → Hosts → Option Entry
entry_of r url hosts = find_first (λ (e : Entry). e.host == r.netloc url) hosts.parsers

-- The host of the URL is known, with these rules.
abbrev IsKnown : RobotsPolicy → String → Option String → Hosts → Type 0
IsKnown r url rules hosts = (e : Entry) × (entry_of r url hosts ≡ some e) × (e.rules ≡ rules)

learned-IsKnown :
    (r : RobotsPolicy) (url : String) (n m : ℕ) (hosts hosts' : Hosts) (rules : Option String)
    (a : Answer)
    → learned (r.netloc url) n hosts a ≡ Guard.ok (rules, m, hosts')
    → IsKnown r url rules hosts'
unfolding learned remember
learned-IsKnown r url n m hosts hosts' rules (answer found failed) h = (
  record { host = r.netloc url; rules = found },
  ground (arith, eq_iff (r.netloc url) (r.netloc url)),
  ground arith,
)
learned-IsKnown r url n m hosts hosts' rules raised h = cc

known-eq :
    {a b : Option String} {n m : ℕ} {x y : Hosts}
    → ◌≡◌ {A = Guard.Result Known} (Guard.ok (a, n, x)) (Guard.ok (b, m, y))
    → (a ≡ b) × (x ≡ y)
known-eq h = (cc, cc)

parser_for-IsKnown :
    (r : RobotsPolicy) (world : World) (n m : ℕ) (url : String) (hosts hosts' : Hosts)
    (rules : Option String)
    → parser_for r world n url hosts ≡ Guard.ok (rules, m, hosts')
    → IsKnown r url rules hosts'
unfolding parser_for fetch_rules
parser_for-IsKnown r world n m url hosts hosts' rules h =
    elim (Option-cases (entry_of r url hosts)) [
      | inl new ↦ learned-IsKnown r url _ m hosts hosts' rules _ (rw (new, parser_for) at h)
      | inr (e, old) ↦
          let (same, kept) = known-eq (rw (old, parser_for) at h) in (e, rw (← kept) old, same)
    ]

answer-eq :
    {a b : Bool} {n m : ℕ} {x y : Hosts}
    → ◌≡◌ {A = Guard.Result (Bool × ℕ × Hosts)} (Guard.ok (a, n, x)) (Guard.ok (b, m, y))
    → (a ≡ b) × (x ≡ y)
answer-eq h = (cc, cc)

abbrev decided :
    Bool
    → (Option String → Hosts → Bool)
    → ℕ
    → Hosts
    → Guard.Result Known
    → Guard.Result (Bool × ℕ × Hosts)
decided open_to_all p n hosts m =
    if open_to_all
    then Guard.ok (true, n, hosts)
    else (m >>= λ known. Guard.ok (p known.0 known.2, known.1, known.2))

decided_twice :
    (c : Bool) (p : Option String → Hosts → Bool) (n m k : ℕ) (hosts hosts' : Hosts) (b : Bool)
    (first : Guard.Result Known) (later : Hosts → Guard.Result Known)
    → ((rules : Option String) (j : ℕ) (x : Hosts)
        → first ≡ Guard.ok (rules, j, x)
        → later x ≡ Guard.ok (rules, k, x))
    → decided c p n hosts first ≡ Guard.ok (b, m, hosts')
    → decided c p k hosts' (later hosts') ≡ Guard.ok (b, k, hosts')
decided_twice true p n m k hosts hosts' b first later again h = rw (answer-eq h).0 refl
decided_twice false p n m k hosts hosts' b (Guard.ok (rules, j, x)) later again h =
    let (same, kept) = answer-eq h in rw (← kept) (rw (again rules j x refl) (rw same refl))
decided_twice false p n m k hosts hosts' b (Guard.err e) later again h = cc

asked_before :
    (r : RobotsPolicy) (world : World) (k : ℕ) (url : String) (rules : Option String)
    (hosts : Hosts)
    → IsKnown r url rules hosts
    → parser_for r world k url hosts ≡ Guard.ok (rules, k, hosts)
unfolding parser_for
asked_before r world k url rules hosts (e, known, same) = rw (known, parser_for) (rw same refl)

-- A host is asked for its robots.txt once: after an answer, a later question about the same URL
-- gets the same answer, sends no request and leaves what is known as it was.
pub can_fetch_twice :
    (r : RobotsPolicy) (world : World) (n m k : ℕ) (url : String) (hosts hosts' : Hosts) (b : Bool)
    → can_fetch r world n url hosts ≡ Guard.ok (b, m, hosts')
    → can_fetch r world k url hosts' ≡ Guard.ok (b, k, hosts')
unfolding can_fetch
can_fetch_twice r world n m k url hosts hosts' b h =
    decided_twice (not r.respect) (permitted r url) n m k hosts hosts' b
      (parser_for r world n url hosts) (parser_for r world k url)
      (λ rules j x first.
        asked_before r world k url rules x (parser_for-IsKnown r world n j url hosts x rules first))
      h
