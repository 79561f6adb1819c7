-- ===== src/Crawl/Guard/Redirects.antt =====
-- What a guarded fetch dials, and what it returns.
use geolytics.Prelude.{
  ℕ, zero, suc, ◌+◌, ◌≤◌, String, ◌≡◌, refl, Bool, true, false, ◌&&◌, ◌⊎◌, inl, inr, Option, none,
  some, List, [], ◌∷◌, ◌++◌, if◌then◌else◌, ◌==◌, eq_ℕ, eq_string, ltb, not, any, contains, length,
  All, arith, length-append,
}
use mathlib.Core.Path.{subst}
use geolytics.Crawl.Addresses.{Address, is_blocked_address}
use geolytics.Crawl.Guard.{
  Result, ok, err, ◌>>=◌, UrlPolicy, World, ValidatedTarget, Request, Response, Fetched, Round,
  stop, go, or_error, refuse_if, port_allowed, is_exempt, validate_url, pinned, resolve_host,
  read_chunks, read_capped, declared_check, after_response, request_to, follow, safe_get, fetched,
  joined, port_of, Error, policy, value_error, blocked_address,
}

-- A target that the policy lets through: its scheme, host and port are allowed, and unless the host
-- is exempt its address is a public one. What is dialled is that address.
pub record IsSafe (p : UrlPolicy) (t : ValidatedTarget) : Type 0 where
  pub scheme : contains p.allowed_schemes t.scheme ≡ true
  pub host : contains p.blocked_hosts t.host ≡ false
  pub port : port_allowed p.allowed_ports t.port ≡ true
  pub address : (is_exempt p t.host ≡ true) ⊎ (is_blocked_address t.address ≡ false)
  pub dialled : (t.dial_url.address ≡ t.address) × (t.dial_url.port ≡ t.port)

-- What holds of a result follows step by step from the steps that succeeded.
ok-injective {ℓ} : {A : Type ℓ} {a b : A} → ok a ≡ ok b → a ≡ b
ok-injective h = cc

module _ {ℓ μ} {B : Type ℓ} (Q : B → Type μ) where
  after-bind {κ} :
      {A : Type κ} (m : Result A) (f : A → Result B)
      → ((a : A) → m ≡ ok a → (b : B) → f a ≡ ok b → Q b)
      → (b : B) → (m >>= f) ≡ ok b
      → Q b
  after-bind (ok a) f next b h = next a refl b h
  after-bind (err e) f next b h = cc

  after-done : (b : B) → Q b → (b' : B) → ok b ≡ ok b' → Q b'
  after-done b q b' h = subst Q (ok-injective h) q

refuse_if-ok : (b : Bool) (e : Error) (u : Unit {0}) → refuse_if b e ≡ ok u → b ≡ false
refuse_if-ok true e u h = cc
refuse_if-ok false e u h = refl

not-false : (b : Bool) → not b ≡ false → b ≡ true
not-false true h = refl
not-false false h = cc

vetted :
    (exempt : Bool) (a : Address) (rest : List Address)
    → (not exempt && any is_blocked_address (a ∷ rest)) ≡ false
    → (exempt ≡ true) ⊎ (is_blocked_address a ≡ false)
vetted true a rest h = inl refl
vetted false a rest h = inr (ground arith)

-- A URL that passes is safe under its policy, whatever names resolve to.
pub validate_url-IsSafe :
    (world : World) (n : ℕ) (url : String) (p : UrlPolicy) (t : ValidatedTarget)
    → validate_url world n url p ≡ ok t
    → IsSafe p t
unfolding validate_url pinned
validate_url-IsSafe world n url p =
    after-bind (IsSafe p) (or_error (world.urlsplit url) value_error) _ λ parts _.
      after-bind _ (refuse_if (not (contains p.allowed_schemes parts.scheme)) _) _ λ _ known.
        after-bind _ (refuse_if (parts.hostname == "") _) _ λ _ _.
          after-bind _ (refuse_if (contains p.blocked_hosts parts.hostname) _) _ λ _ unblocked.
            after-bind _ (port_of url parts.scheme parts.port) _ λ number _.
              after-bind _ (refuse_if (not (port_allowed p.allowed_ports number)) _) _ λ _ allowed.
                after-bind _ (resolve_host world n parts.hostname) _ λ addresses _.
                  after-bind _
                    (refuse_if
                      (not (is_exempt p parts.hostname)
                        && any is_blocked_address (addresses.0 ∷ addresses.1))
                      (policy blocked_address url))
                    _
                    λ _ public. after-done _ _ (record {
                      scheme = not-false _ (refuse_if-ok _ _ _ known);
                      host = refuse_if-ok _ _ _ unblocked;
                      port = not-false _ (refuse_if-ok _ _ _ allowed);
                      address =
                          vetted (is_exempt p parts.hostname) addresses.0 addresses.1
                            (refuse_if-ok _ _ _ public);
                      dialled = (refl, refl);
                    })

chunk_read :
    (b : Bool) (e : Error) (chunk : List ℕ) (m : Result (List ℕ)) (body : List ℕ)
    → (if b then err e else (m >>= λ rest. ok (chunk ++ rest))) ≡ ok body
    → (b ≡ false) × (rest : List ℕ) × (m ≡ ok rest) × (chunk ++ rest ≡ body)
chunk_read true e chunk m body h = cc
chunk_read false e chunk (ok rest) body h = (refl, rest, refl, ok-injective h)
chunk_read false e chunk (err f) body h = cc

fits : (m n c r : ℕ) → (n + c) + r ≤ m → n + (c + r) ≤ m
fits m n c r h = omega arith

read_chunks-le :
    (url : String) (max_bytes total : ℕ) (chunks : List (Option (List ℕ))) (body : List ℕ)
    → total ≤ max_bytes
    → read_chunks url max_bytes total chunks ≡ ok body
    → total + length body ≤ max_bytes
unfolding read_chunks
read_chunks-le url max_bytes total [] body le h =
    subst (λ b. total + length b ≤ max_bytes) (ok-injective h) (omega arith)
read_chunks-le url max_bytes total (none ∷ chunks) body le h = cc
read_chunks-le url max_bytes total (some chunk ∷ chunks) body le h =
    let (within, rest, read, joined_up) =
      chunk_read (ltb max_bytes (total + length chunk)) _ chunk
        (read_chunks url max_bytes (total + length chunk) chunks) body h in
    rw (← joined_up, length-append chunk rest)
      (fits max_bytes total (length chunk) (length rest)
        (read_chunks-le url max_bytes (total + length chunk) chunks rest (ground arith) read))

le-zero_add : {n m : ℕ} → 0 + n ≤ m → n ≤ m
le-zero_add h = omega arith

-- What is read of a response fits in the cap.
pub read_capped-le :
    (url : String) (r : Response) (max_bytes : ℕ) (body : List ℕ)
    → read_capped url r max_bytes ≡ ok body
    → length body ≤ max_bytes
unfolding read_capped
read_capped-le url r max_bytes =
    after-bind (λ body. length body ≤ max_bytes) (declared_check url max_bytes r.content_length) _
      λ _ _ body h. le-zero_add (read_chunks-le url max_bytes 0 r.chunks body (omega arith) h)

-- What a run of the loop with so many rounds has sent and returned.
pub record IsGuarded (p : UrlPolicy) (rounds : ℕ) (out : List Request × Result Fetched)
    : Type 0 where
  pub sent : All (λ r. IsSafe p r.target) out.0
  pub bounded : length out.0 ≤ rounds
  pub content : (f : Fetched) → out.1 ≡ ok f → length f.content ≤ p.max_bytes

fetched-le :
    (url : String) (r : Response) (m : Result (List ℕ)) (f : Fetched) (k : ℕ)
    → ((body : List ℕ) → m ≡ ok body → length body ≤ k)
    → fetched url r m ≡ ok f
    → length f.content ≤ k
unfolding fetched
fetched-le url r (ok body) f k small h =
    subst (λ f. length f.content ≤ k) (ok-injective h) (small body refl)
fetched-le url r (err e) f k small h = cc

Capped : UrlPolicy → Round → Type 0
Capped p (stop out) = (f : Fetched) → out ≡ ok f → length f.content ≤ p.max_bytes
Capped p (go next) = Unit

joined-Capped : (p : UrlPolicy) (next : Option String) → Capped p (joined next)
unfolding Capped joined
joined-Capped p none = λ f h. cc
joined-Capped p (some next) = tt

if-Capped :
    (p : UrlPolicy) (b : Bool) (x y : Round)
    → Capped p x
    → Capped p y
    → Capped p (if b then x else y)
if-Capped p true x y h i = h
if-Capped p false x y h i = i

after_response-Capped :
    (world : World) (p : UrlPolicy) (current : String) (t : ValidatedTarget) (r : Option Response)
    → Capped p (after_response world p current t r)
unfolding Capped after_response
after_response-Capped world p current t none = λ f h. cc
after_response-Capped world p current t (some r) =
    if-Capped p r.is_redirect _ _
      (if-Capped p (r.location == "") _ _ (λ f h. cc)
        (joined-Capped p (world.join current r.location)))
      (λ f h.
        fetched-le current r _ f p.max_bytes
          (read_capped-le (world.dialled t.dial_url) r p.max_bytes) h)

abbrev guarded_round :
    World → UrlPolicy → String → ℕ → ℕ → Request → Round → List Request × Result Fetched
guarded_round world p url rounds n request (stop out) = (request ∷ [], out)
guarded_round world p url rounds n request (go next) =
    let (sent, out) = follow world p url rounds (suc n) next in (request ∷ sent, out)

suc_le : {n m : ℕ} → n ≤ m → suc n ≤ suc m
suc_le h = omega arith

Result-cases : {A : Type 0} (r : Result A) → ((a : A) × (r ≡ ok a)) ⊎ ((e : Error) × (r ≡ err e))
Result-cases (ok a) = inl (a, refl)
Result-cases (err e) = inr (e, refl)

Round-cases :
    (r : Round) → ((out : Result Fetched) × (r ≡ stop out)) ⊎ ((next : String) × (r ≡ go next))
Round-cases (stop out) = inl (out, refl)
Round-cases (go next) = inr (next, refl)

module _ (world : World) (p : UrlPolicy) (url : String) where
  round-IsGuarded :
      (rounds n : ℕ) (r : Request) (round : Round)
      → IsSafe p r.target
      → Capped p round
      → ((m : ℕ) (next : String) → IsGuarded p rounds (follow world p url rounds m next))
      → IsGuarded p (suc rounds) (guarded_round world p url rounds n r round)
  unfolding Capped
  round-IsGuarded rounds n r (stop out) safe capped rest = record {
    sent = (safe, tt);
    bounded = omega arith;
    content = capped;
  }
  round-IsGuarded rounds n r (go next) safe capped rest =
      let later = rest (suc n) next in
      record { sent = (safe, later.sent); bounded = suc_le later.bounded; content = later.content }

  follow-IsGuarded :
      (rounds n : ℕ) (current : String) → IsGuarded p rounds (follow world p url rounds n current)
  unfolding follow
  follow-IsGuarded zero n current = record { sent = tt; bounded = omega arith; content = λ f h. cc }
  follow-IsGuarded (suc rounds) n current = elim (Result-cases (validate_url world n current p)) [
    | inr (e, refused) ↦
        rw (refused, follow) (record { sent = tt; bounded = omega arith; content = λ f h. cc })
    | inl (t, valid) ↦
        let safe = validate_url-IsSafe world n current p t valid in
        let capped = after_response-Capped world p current t (world.send n (request_to t)) in
        elim (Round-cases (after_response world p current t (world.send n (request_to t)))) [
          | inl (out, ended) ↦
              rw (valid, ended, follow)
                (round-IsGuarded rounds n (request_to t) (stop out) safe (rw ended at capped)
                  (follow-IsGuarded rounds))
          | inr (next, went) ↦
              rw (valid, went, follow)
                (round-IsGuarded rounds n (request_to t) (go next) safe (rw went at capped)
                  (follow-IsGuarded rounds))
        ]
  ]

-- Whatever the servers and the resolver answer, every request of a guarded fetch, redirects
-- included, goes to a target that the policy lets through; at most `max_redirects + 1` are sent; and
-- a body that is returned fits in `max_bytes`.
pub safe_get-IsGuarded :
    (world : World) (p : UrlPolicy) (n : ℕ) (url : String)
    → IsGuarded p (suc p.max_redirects) (safe_get world p n url)
unfolding safe_get
safe_get-IsGuarded world p n url = follow-IsGuarded world p url (suc p.max_redirects) n url
