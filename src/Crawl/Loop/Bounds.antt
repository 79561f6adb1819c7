-- ===== src/Crawl/Loop/Bounds.antt =====
-- What the links of a page, and a round, may do to the frontier.
use geolytics.Prelude.{
  ℕ, suc, ◌+◌, ◌-◌, ◌≤◌, ◌<◌, ◌≡◌, refl, Bool, true, false, ◌||◌, Option, none, some, List, [], ◌∷◌,
  ◌++◌, leb, length, arith, length-append, All, ◌∙◌, ◌⊎◌, ap,
}
use mathlib.Core.Path.{subst}
use native.Mathlib.Nat.{le_trans}
use geolytics.Prelude.Text.{Text, text_eq}
use geolytics.Crawl.Guard
use geolytics.Crawl.Guard.{◌>>=◌, or_error, value_error, validate_url, Error}
use geolytics.Crawl.Links.{UrlLibrary, netloc, is_skipped}
use geolytics.Crawl.Crawler.{Client, Page}
use geolytics.Crawl.Loop.{Frontier, member, enqueue, add_link, add_links}

-- The rounds that may follow: the URLs that wait, and those that may still be seen.
abbrev pub to_come : ℕ → Frontier → ℕ
to_come bound f = (bound - length f.seen) + length f.queue

pub bind-ok {ℓ κ} :
    {A : Type ℓ} {B : Type κ} (m : Guard.Result A) (f : A → Guard.Result B) (b : B)
    → (m >>= f) ≡ Guard.ok b
    → (a : A) × (m ≡ Guard.ok a) × (f a ≡ Guard.ok b)
bind-ok (Guard.ok a) f b h = (a, refl, h)
bind-ok (Guard.err e) f b h = cc

pub ok-injective {ℓ} : {A : Type ℓ} {a b : A} → Guard.ok a ≡ Guard.ok b → a ≡ b
ok-injective h = cc

text_eq-eq : (s t : Text) → text_eq s t ≡ true → s ≡ t
text_eq-eq [] [] h = refl
text_eq-eq [] (d ∷ t) h = cc
text_eq-eq (c ∷ s) [] h = cc
text_eq-eq (c ∷ s) (d ∷ t) h = ground (arith, text_eq-eq s t)

All-snoc : (P : Text → Type 0) (ts : List Text) (t : Text) → All P ts → P t → All P (ts ++ t ∷ [])
All-snoc P [] t h p = (p, tt)
All-snoc P (x ∷ ts) t h p = (h.0, All-snoc P ts t h.1 p)

-- The URL is one of the host.
abbrev pub IsAt : UrlLibrary → Text → Text → Type 0
IsAt lib host url = netloc lib url ≡ some host

-- What a step may do to the frontier: no more is to come, what waits is still of the host, and the
-- results stand.
pub record Settles (lib : UrlLibrary) (host : Text) (bound : ℕ) (f g : Frontier) : Type 0 where
  pub fewer : to_come bound g ≤ to_come bound f
  pub at_host : All (IsAt lib host) f.queue → All (IsAt lib host) g.queue
  pub same : g.results ≡ f.results

Settles-refl :
    (lib : UrlLibrary) (host : Text) (bound : ℕ) (f : Frontier) → Settles lib host bound f f
Settles-refl lib host bound f = record { fewer = omega arith; at_host = λ h. h; same = refl }

one_added :
    (bound s : ℕ) (queue : List Text) (link : Text)
    → s < bound
    → (bound - suc s) + length (queue ++ link ∷ []) ≤ (bound - s) + length queue
one_added bound s queue link h = rw (length-append queue (link ∷ [])) (omega arith)

enqueue-Settles :
    (lib : UrlLibrary) (host at link : Text) (bound : ℕ) (f : Frontier) (b c : Bool)
    → (text_eq at host ≡ b)
    → (member link f.seen || is_skipped link) ≡ c
    → length f.seen < bound
    → netloc lib link ≡ some at
    → Settles lib host bound f (enqueue host at link f)
unfolding enqueue
enqueue-Settles lib host at link bound f false c e d h n =
    rw (e, enqueue) (Settles-refl lib host bound f)
enqueue-Settles lib host at link bound f true true e d h n =
    rw (e, d, enqueue) (Settles-refl lib host bound f)
enqueue-Settles lib host at link bound f true false e d h n =
    rw (e, d, enqueue)
      (record {
        fewer = one_added bound (length f.seen) f.queue link h;
        at_host = λ a. All-snoc (IsAt lib host) f.queue link a (n ∙ ap some (text_eq-eq at host e));
        same = refl;
      })

leb-lt : (m n : ℕ) → leb m n ≡ false → n < m
leb-lt m n h = ground arith

pub or_error-ok :
    {A : Type 0} (o : Option A) (e : Error) (a : A) → or_error o e ≡ Guard.ok a → o ≡ some a
or_error-ok none e a h = cc
or_error-ok (some b) e a h = ap some (ok-injective h)

add_link-Settles :
    (lib : UrlLibrary) (host : Text) (bound : ℕ) (link : Text) (f g : Frontier) (full : Bool)
    → leb bound (length f.seen) ≡ full
    → add_link lib host bound link f ≡ Guard.ok g
    → Settles lib host bound f g
unfolding add_link
add_link-Settles lib host bound link f g true e h =
    subst (Settles lib host bound f) (ok-injective (rw (e, add_link) at h))
      (Settles-refl lib host bound f)
add_link-Settles lib host bound link f g false e h =
    let (at, found, added) =
      bind-ok (or_error (netloc lib link) value_error) _ g (rw (e, add_link) at h) in
    subst (Settles lib host bound f) (ok-injective added) (
      enqueue-Settles lib host at link bound f _ _ refl refl (leb-lt _ _ e)
        (or_error-ok _ _ at found))

Settles-trans :
    {lib : UrlLibrary} {host : Text} {bound : ℕ} (f g h : Frontier)
    → Settles lib host bound f g
    → Settles lib host bound g h
    → Settles lib host bound f h
Settles-trans f g h a b = record {
  fewer = le_trans b.fewer a.fewer;
  at_host = λ x. b.at_host (a.at_host x);
  same = b.same ∙ a.same;
}

pub add_links-Settles :
    (lib : UrlLibrary) (host : Text) (bound : ℕ) (ls : List Text) (f g : Frontier)
    → add_links lib host bound ls f ≡ Guard.ok g
    → Settles lib host bound f g
unfolding add_links
add_links-Settles lib host bound [] f g h =
    subst (Settles lib host bound f) (ok-injective h) (Settles-refl lib host bound f)
add_links-Settles lib host bound (link ∷ ls) f g h =
    let (f', added, rest) = bind-ok (add_link lib host bound link f) _ g h in
    Settles-trans f f' g (add_link-Settles lib host bound link f f' _ refl added)
      (add_links-Settles lib host bound ls f' g rest)

-- What a round may do to the frontier: no more is to come, what waits is still of the host, and at
-- most a page that was visited is added to the results.
pub record Advances (c : Client) (host : Text) (bound : ℕ) (url : Text) (f g : Frontier)
    : Type 0 where
  pub fewer : to_come bound g ≤ to_come bound f
  pub at_host : All (IsAt c.urls host) f.queue → All (IsAt c.urls host) g.queue
  pub added :
      (g.results ≡ f.results) ⊎ ((p : Page) × (p.url ≡ url) × (g.results ≡ f.results ++ p ∷ []))
