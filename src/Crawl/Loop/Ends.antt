-- ===== src/Crawl/Loop/Ends.antt =====
-- The crawl ends, within its limit and on its host.
use mathlib.Core.Path.{subst}
use geolytics.Prelude.{
  ℕ, zero, suc, ◌+◌, ◌-◌, ◌*◌, ◌≤◌, ◌≡◌, refl, Bool, true, false, Option, none, some, List, [], ◌∷◌,
  ◌++◌, leb, length, arith, length-append, Bool-cases, All, ◌⊎◌, inl, inr, ap,
}
use geolytics.Prelude.Text.{Text}
use geolytics.Crawl.Guard
use geolytics.Crawl.Guard.{◌>>=◌, or_error, value_error, validate_url, Error}
use geolytics.Crawl.Links.{UrlLibrary, netloc, links, canonical}
use geolytics.Crawl.Crawler.{Client, Page, Session, visit}
use geolytics.Crawl.Loop.{
  Frontier, member, content_fingerprint, follow_links, keep_page, keep_if, round, crawl_loop,
  page_limit, start_at, crawl,
}
use geolytics.Crawl.Loop.Bounds.{
  IsAt, to_come, bind-ok, ok-injective, Settles, Advances, add_links-Settles,
}
use geolytics.Crawl.Loop.Visits.{IsFiled, visit-IsFiled}

pair-eq :
    {f g : Frontier} {s t : Session}
    → ◌≡◌ {A = Guard.Result (Frontier × Session)} (Guard.ok (f, s)) (Guard.ok (g, t))
    → f ≡ g
pair-eq h = ap (λ (q : Frontier × Session). q.0) (ok-injective h)

module _ (c : Client) (host : Text) (limit : ℕ) where
  stays : (url : Text) (f : Frontier) → Advances c host (limit * 4) url f f
  stays url f = record { fewer = omega arith; at_host = λ h. h; added = inl refl }

  follow_links-Settles :
      (page : Page) (f g : Frontier)
      → follow_links c host limit page f ≡ Guard.ok g
      → Settles c.urls host (limit * 4) f g
  unfolding follow_links
  follow_links-Settles page f g h =
      let (found, _, rest) =
        bind-ok (or_error (links c.urls page.html page.url) value_error) _ g h in
      add_links-Settles c.urls host (limit * 4) found f g rest

  keep_page-Advances :
      (url : Text) (page : Page) (f g : Frontier) (s t : Session) (old : Bool)
      → member (content_fingerprint c page.document) f.seen_content ≡ old
      → page.url ≡ url
      → keep_page c host limit page f s ≡ Guard.ok (g, t)
      → Advances c host (limit * 4) url f g
  unfolding keep_page
  keep_page-Advances url page f g s t true e same h =
      subst (Advances c host (limit * 4) url f) (pair-eq (rw (e, keep_page) at h)) (stays url f)
  keep_page-Advances url page f g s t false e same h =
      let (f', followed, rest) =
        bind-ok (follow_links c host limit page _) _ (g, t) (rw (e, keep_page) at h) in
      let settled = follow_links-Settles page _ f' followed in
      subst (Advances c host (limit * 4) url f) (pair-eq rest) (record {
        fewer = settled.fewer;
        at_host = settled.at_host;
        added = inr (page, same, settled.same);
      })

  keep_if-Advances :
      (url : Text) (f g : Frontier) (o : Option Page) (s t : Session)
      → IsFiled url o
      → keep_if c host limit f (o, s) ≡ Guard.ok (g, t)
      → Advances c host (limit * 4) url f g
  unfolding keep_if
  keep_if-Advances url f g none s t filed h =
      subst (Advances c host (limit * 4) url f) (pair-eq h) (stays url f)
  keep_if-Advances url f g (some page) s t filed h =
      keep_page-Advances url page f g s t _ refl filed h

  round-Advances :
      (url : Text) (f g : Frontier) (s t : Session)
      → round c host limit url f s ≡ Guard.ok (g, t)
      → Advances c host (limit * 4) url f g
  unfolding round
  round-Advances url f g s t h =
      let (out, visited, rest) = bind-ok (visit c url s) _ (g, t) h in
      keep_if-Advances url f g out.0 out.1 t (visit-IsFiled c url s out visited) rest

-- The outcome is no loop that ran out of fuel; if it is a list of pages, then these are at most
-- `limit`, and all of the host.
abbrev pub IsFinished : UrlLibrary → Text → ℕ → Guard.Result (Option (List Page × Session)) → Type 0
IsFinished lib host limit (Guard.err e) = Unit
IsFinished lib host limit (Guard.ok none) = ⊥
IsFinished lib host limit (Guard.ok (some (pages, s))) =
    (length pages ≤ limit) × All (λ p. IsAt lib host p.url) pages

-- What holds of the results between two rounds.
record Holds (c : Client) (host : Text) (limit : ℕ) (f : Frontier) : Type 0 where
  pub within : length f.results ≤ limit
  pub of_host : All (λ p. IsAt c.urls host p.url) f.results

Round-cases :
    (m : Guard.Result (Frontier × Session))
    → ((e : Error) × (m ≡ Guard.err e)) ⊎ ((g : Frontier) × (t : Session) × (m ≡ Guard.ok (g, t)))
Round-cases (Guard.err e) = inl (e, refl)
Round-cases (Guard.ok (g, t)) = inr (g, t, refl)

pages_snoc : (P : Page → Type 0) (ps : List Page) (p : Page) → All P ps → P p → All P (ps ++ p ∷ [])
pages_snoc P [] p h q = (q, tt)
pages_snoc P (x ∷ ps) p h q = (h.0, pages_snoc P ps p h.1 q)

room : (n : ℕ) (ps : List Page) (p : Page) → leb n (length ps) ≡ false → length (ps ++ p ∷ []) ≤ n
room n ps p h = rw (length-append ps (p ∷ [])) (ground arith)

module _ (c : Client) (host : Text) (limit : ℕ) where
  grown :
      (url : Text) (f g : Frontier)
      → leb limit (length f.results) ≡ false
      → IsAt c.urls host url
      → Holds c host limit f
      → (g.results ≡ f.results) ⊎ ((p : Page) × (p.url ≡ url) × (g.results ≡ f.results ++ p ∷ []))
      → Holds c host limit g
  grown url f g open_ended at h (inl same) = record {
    within = rw same h.within;
    of_host = rw same h.of_host;
  }
  grown url f g open_ended at h (inr (p, filed, more)) = record {
    within = rw more (room limit f.results p open_ended);
    of_host = rw more (pages_snoc _ f.results p h.of_host (rw filed at));
  }

  one_less :
      (a fuel : ℕ) (queue : List Text) (m : ℕ)
      → a + suc (length queue) ≤ suc fuel
      → m ≤ a + length queue
      → m ≤ fuel
  one_less a fuel queue m h i = omega arith

  crawl_loop-IsFinished :
      (fuel : ℕ) (queue : List Text) (f : Frontier) (s : Session)
      → to_come (limit * 4) (record f { queue = queue }) ≤ fuel
      → All (IsAt c.urls host) queue
      → Holds c host limit f
      → IsFinished c.urls host limit (crawl_loop c host limit fuel queue f s)
  unfolding crawl_loop
  crawl_loop-IsFinished fuel [] f s le at h = (h.within, h.of_host)
  crawl_loop-IsFinished zero (url ∷ queue) f s le at h = absurd (omega arith)
  crawl_loop-IsFinished (suc fuel) (url ∷ queue) f s le at h =
      elim (Bool-cases (leb limit (length f.results))) [
        | inl full ↦ rw (full, crawl_loop) (h.within, h.of_host)
        | inr more ↦ elim (Round-cases (round c host limit url (record f { queue = queue }) s)) [
          | inl (e, raised) ↦ rw (more, raised, crawl_loop) tt
          | inr (g, t, ended) ↦
              let a = round-Advances c host limit url (record f { queue = queue }) g s t ended in
              rw (more, ended, crawl_loop)
                (crawl_loop-IsFinished fuel g.queue g t
                  (one_less (limit * 4 - length f.seen) fuel queue _ le a.fewer) (a.at_host at.1)
                  (grown url f g more at.0 h a.added))
        ]
      ]

enough : (a : ℕ) → (a - 1) + 1 ≤ suc a
enough a = omega arith

after_validation :
    (lib : UrlLibrary) (host : Text) (limit : ℕ) (m : Guard.Result Guard.ValidatedTarget)
    (out : Guard.Result (Option (List Page × Session)))
    → IsFinished lib host limit out
    → IsFinished lib host limit (m >>= λ _. out)
after_validation lib host limit (Guard.ok t) out h = h
after_validation lib host limit (Guard.err e) out h = tt

-- Whatever the network and the pages hold, a crawl ends, with an exception or with pages: the loop
-- makes at most four rounds for each page of its limit and one more. The pages are at most the
-- limit, and each has the host of the URL that the crawl started from, given that this URL has a
-- canonical form and that the form keeps its host.
pub crawl-IsFinished :
    (c : Client) (start_url start host : Text) (max_pages : ℕ) (s : Session)
    → netloc c.urls start_url ≡ some host
    → canonical c.urls start_url ≡ some start
    → IsAt c.urls host start
    → IsFinished c.urls host (page_limit c max_pages) (crawl c start_url max_pages s)
unfolding crawl
crawl-IsFinished c start_url start host max_pages s at known same =
    rw (at, known, crawl)
      (after_validation c.urls host (page_limit c max_pages) _ _ (
        crawl_loop-IsFinished c host (page_limit c max_pages) (suc (page_limit c max_pages * 4))
          (start ∷ []) (start_at start) s (enough (page_limit c max_pages * 4)) (same, tt)
          (record { within = omega arith; of_host = tt })))
