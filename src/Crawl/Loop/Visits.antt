-- ===== src/Crawl/Loop/Visits.antt =====
-- A page is filed under the URL that was visited.
use geolytics.Prelude.{
  ◌≡◌, refl, Bool, true, false, Option, none, some, if◌then◌else◌, not, find_first, Option-cases,
  inl, inr,
}
use mathlib.Core.Path.{subst}
use geolytics.Prelude.Text.{Text, codes, lower, text_eq}
use geolytics.Crawl.Guard
use geolytics.Crawl.Guard.{◌>>=◌, Fetched, Error, policy, transport, safe_get}
use geolytics.Crawl.Robots.{is_success, can_fetch}
use geolytics.Crawl.Crawler.{
  Client, Page, Session, occurs, stored, received, from_disk, fetch, visit, allowed,
}
use geolytics.Crawl.Loop.Bounds.{bind-ok, ok-injective}

-- The page of a visit, if there is one, has the URL.
abbrev pub IsFiled : Text → Option Page → Type 0
IsFiled url none = Unit
IsFiled url (some p) = p.url ≡ url

stored-IsFiled :
    (c : Client) (url : Text) (f : Fetched) (s : Session) (bad other : Bool)
    → not (is_success f.status) ≡ bad
    → not (occurs (codes "html") (lower (codes f.content_type))) ≡ other
    → IsFiled url (stored c url f s).0
unfolding stored
stored-IsFiled c url f s true other e h = rw (e, stored) tt
stored-IsFiled c url f s false true e h = rw (e, h, stored) tt
stored-IsFiled c url f s false false e h = rw (e, h, stored) refl

out-eq :
    {a b : Option Page × Session}
    → ◌≡◌ {A = Guard.Result (Option Page × Session)} (Guard.ok a) (Guard.ok b)
    → a ≡ b
out-eq h = ok-injective h

received-IsFiled :
    (c : Client) (url : Text) (s : Session) (r : Guard.Result Fetched) (out : Option Page × Session)
    → received c url s r ≡ Guard.ok out
    → IsFiled url out.0
unfolding received
received-IsFiled c url s (Guard.ok f) out h =
    subst (λ (o : Option Page × Session). IsFiled url o.0) (out-eq h)
      (stored-IsFiled c url f s _ _ refl refl)
received-IsFiled c url s (Guard.err (policy reason at)) out h =
    subst (λ (o : Option Page × Session). IsFiled url o.0) (out-eq h) tt
received-IsFiled c url s (Guard.err transport) out h =
    subst (λ (o : Option Page × Session). IsFiled url o.0) (out-eq h) tt
received-IsFiled c url s (Guard.err Error.value_error) out h = cc

fetch-IsFiled :
    (c : Client) (url : Text) (s : Session) (out : Option Page × Session)
    → fetch c url s ≡ Guard.ok out
    → IsFiled url out.0
unfolding fetch from_disk
fetch-IsFiled c url s out h =
    elim (Option-cases (find_first (λ (e : Text × Text). text_eq e.0 url) s.cache)) [
      | inl new ↦ received-IsFiled c url _ _ out (rw (new, fetch) at h)
      | inr (e, old) ↦
          subst (λ (o : Option Page × Session). IsFiled url o.0) (out-eq (rw (old, fetch) at h))
            refl
    ]

branch-IsFiled :
    (url : Text) (b : Bool) (s : Session) (m : Guard.Result (Option Page × Session))
    (out : Option Page × Session)
    → (m ≡ Guard.ok out → IsFiled url out.0)
    → (if b then m else Guard.ok (none, s)) ≡ Guard.ok out
    → IsFiled url out.0
branch-IsFiled url true s m out h e = h e
branch-IsFiled url false s m out h e =
    subst (λ (o : Option Page × Session). IsFiled url o.0) (out-eq e) tt

branch-not :
    (url : Text) (b : Bool) (s : Session) (m : Guard.Result (Option Page × Session))
    (out : Option Page × Session)
    → (m ≡ Guard.ok out → IsFiled url out.0)
    → (if not b then Guard.ok (none, s) else m) ≡ Guard.ok out
    → IsFiled url out.0
branch-not url true s m out h e = h e
branch-not url false s m out h e = branch-IsFiled url false s m out h e

-- What a visit returns is filed under its URL.
pub visit-IsFiled :
    (c : Client) (url : Text) (s : Session) (out : Option Page × Session)
    → visit c url s ≡ Guard.ok out
    → IsFiled url out.0
unfolding visit
visit-IsFiled c url s out h =
    let (may, _, rest) = bind-ok (allowed c url _) _ out h in
    branch-not url may.0 may.1 _ out
      (λ e.
        let (robots, _, last) =
          bind-ok (can_fetch c.robots c.world may.1.sent (c.text url) may.1.hosts) _ out e in
        branch-IsFiled url robots.0 _ _ out (λ f. fetch-IsFiled c url _ out f) last)
      rest
