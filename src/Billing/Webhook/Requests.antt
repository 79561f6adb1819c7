-- ===== src/Billing/Webhook/Requests.antt =====
-- What a webhook request does (backend/geolytics/api/routes/billing.py).
use geolytics.Prelude.{ℕ, ◌≡◌, ◌≢◌, ◌⊎◌, inl, inr, refl, sym, ap, ◌∙◌, Option, none, some, arith}
use mathlib.Core.Path.{subst}
use geolytics.Prelude.Text.{Text}
use geolytics.Json
use geolytics.Json.{Json, Result, ok, ◌>>=◌, bind-eq-ok, ok-injective, ok-pair}
use geolytics.Billing.Events.{SubscriptionState, Prices, parse_event}
use geolytics.Billing.Events.Named.{parse_event-named}
use geolytics.Billing.Apply.{Db, apply_subscription}
use geolytics.Billing.Apply.Repeats.{apply_subscription_twice}
use geolytics.Billing.Signature.{Verdict, verified, refused, crashed, verify_webhook_signature}
use geolytics.Billing.Signature.Sound.{IsProved, verify_webhook_signature-IsProved}
use geolytics.Billing.Webhook.{
  Deployment, Loaded, parsed, malformed, undecodable, tolerance_seconds, reference_of, applied,
  acted, handle_event, respond, read_body, on_verdict, stripe_webhook,
}

verdict_cases : (v : Verdict) → (v ≡ verified) ⊎ ((v ≡ refused) ⊎ (v ≡ crashed))
verdict_cases verified = inl refl
verdict_cases refused = inr (inl refl)
verdict_cases crashed = inr (inr refl)

abbrev verdict : Deployment → ℕ → Text → Text → Verdict
verdict d now payload header =
    verify_webhook_signature d.mac now payload header d.webhook_secret tolerance_seconds

-- A request that verifies, with a body that is JSON, is handled.
pub stripe_webhook-handle_event :
    (d : Deployment) (now : ℕ) (payload header : Text) (db : Db) (event : Json)
    → verify_webhook_signature d.mac now payload header d.webhook_secret tolerance_seconds
      ≡ verified
    → d.json_loads payload ≡ parsed event
    → stripe_webhook d now payload header db ≡ respond db (handle_event d.prices event db)
unfolding stripe_webhook on_verdict read_body
stripe_webhook-handle_event d now payload header db event v j =
    ap (on_verdict d payload db) v ∙ ap (read_body d.prices db) j

-- A webhook request that changes anything, or that is acknowledged, carries a digest of its body that
-- the webhook secret gives for a time within the tolerance of the present.
pub stripe_webhook-IsProved :
    (d : Deployment) (now : ℕ) (payload header : Text) (db : Db)
    → ((stripe_webhook d now payload header db).1 ≢ db)
      ⊎ ((stripe_webhook d now payload header db).0 ≡ 200)
    → IsProved d.mac now payload header d.webhook_secret tolerance_seconds
unfolding stripe_webhook on_verdict
stripe_webhook-IsProved d now payload header db h =
    elim (verdict_cases (verdict d now payload header)) [
      | inl e ↦
          (verify_webhook_signature-IsProved d.mac now payload header d.webhook_secret
            tolerance_seconds e).1
      | inr (inl e) ↦ absurd (none_of h (ap (on_verdict d payload db) e) (λ i. omega (arith, i)))
      | inr (inr e) ↦ absurd (none_of h (ap (on_verdict d payload db) e) (λ i. omega (arith, i)))
    ]
  where
    none_of :
        {c : ℕ}
        → ((stripe_webhook d now payload header db).1 ≢ db)
          ⊎ ((stripe_webhook d now payload header db).0 ≡ 200)
        → stripe_webhook d now payload header db ≡ (c, db)
        → c ≢ 200
        → ⊥
    none_of (inl changed) e n = changed (ap (λ r. r.1) e)
    none_of (inr good) e n = n (sym (ap (λ r. r.0) e) ∙ good)

-- An event that was handled is handled again, to the same organisations.
handle_event-twice :
    (prices : Prices) (event : Json) (db db₁ : Db)
    → handle_event prices event db ≡ ok db₁
    → (db₂ : Db) × (handle_event prices event db₁ ≡ ok db₂) × (db₂.orgs ≡ db₁.orgs)
unfolding handle_event acted applied
handle_event-twice prices event db db₁ h =
    let (state, yields, rest) = bind-eq-ok (parse_event event prices) (acted event db) h in
    by_state state yields rest
  where
    again : (state : Option SubscriptionState) → parse_event event prices ≡ ok state → Type 0
    again state yields =
        (db₂ : Db) × (handle_event prices event db₁ ≡ ok db₂) × (db₂.orgs ≡ db₁.orgs)

    by_state :
        (state : Option SubscriptionState)
        → (yields : parse_event event prices ≡ ok state) → acted event db state ≡ ok db₁
        → again state yields
    by_state none yields r = (db₁, ap (λ m. m >>= acted event db₁) yields, refl)
    by_state (some s) yields r =
        let (org_id, referred, r') = bind-eq-ok (reference_of event) _ r in
        let (out, changed, r'') = bind-eq-ok (apply_subscription s org_id db) _ r' in
        let (db₂, twice, same) =
          apply_subscription_twice s org_id db out.1 out.0 (parse_event-named event prices s yields)
            changed in
        let last : out.1 ≡ db₁ = ok-injective r'' in
        (
          db₂,
          ap (λ m. m >>= acted event db₁) yields
              ∙ ap (λ m. m >>= λ id. apply_subscription s id db₁ >>= λ o. ok o.1) referred
              ∙ ap (λ t. apply_subscription s org_id t >>= λ o. ok o.1) (sym last)
              ∙ ap (λ m. m >>= λ o. ok o.1) twice,
          same ∙ ap (λ t. t.orgs) last,
        )

respond_ok : (db : Db) (r : Result Db) → (respond db r).0 ≡ 200 → r ≡ ok (respond db r).1
respond_ok db (Json.ok db') h = refl
respond_ok db (Json.err e) h = absurd (omega (arith, h))

-- Stripe retries: a webhook request that was acknowledged and comes again, while it still verifies, is
-- acknowledged again and leaves the organisations as the first one left them.
pub stripe_webhook_twice :
    (d : Deployment) (now now' : ℕ) (payload header : Text) (db : Db)
    → (stripe_webhook d now payload header db).0 ≡ 200
    → verify_webhook_signature d.mac now' payload header d.webhook_secret tolerance_seconds
      ≡ verified
    → let db₁ = (stripe_webhook d now payload header db).1 in
      let again = stripe_webhook d now' payload header db₁ in
      (again.0 ≡ 200) × (again.1.orgs ≡ db₁.orgs)
unfolding stripe_webhook on_verdict read_body
stripe_webhook_twice d now now' payload header db good fresh =
    by_verdict (verdict d now payload header) good
  where
    Again : ℕ × Db → Type 0
    Again first =
        let second_ = on_verdict d payload first.1 (verdict d now' payload header) in
        (second_.0 ≡ 200) × (second_.1.orgs ≡ first.1.orgs)

    by_body :
        (body : Loaded)
        → d.json_loads payload ≡ body
        → (read_body d.prices db body).0 ≡ 200
        → Again (read_body d.prices db body)
    by_body malformed e h = absurd (omega (arith, h))
    by_body undecodable e h = absurd (omega (arith, h))
    by_body (parsed event) e h =
        let db₁ = (respond db (handle_event d.prices event db)).1 in
        let (db₂, twice, same) =
          handle_event-twice d.prices event db db₁
            (respond_ok db (handle_event d.prices event db) h) in
        subst (λ r. (r.0 ≡ 200) × (r.1.orgs ≡ db₁.orgs))
          (sym (
            ap (on_verdict d payload db₁) fresh
            ∙ ap (read_body d.prices db₁) e
            ∙ ap (respond db₁) twice))
          (refl, same)

    by_verdict :
        (v : Verdict) → (on_verdict d payload db v).0 ≡ 200 → Again (on_verdict d payload db v)
    by_verdict verified h = by_body (d.json_loads payload) refl h
    by_verdict refused h = absurd (omega (arith, h))
    by_verdict crashed h = absurd (omega (arith, h))
