-- ===== src/Tests/Webhook.antt =====
-- Signed webhook requests at concrete values (backend/geolytics/billing.py and
-- backend/geolytics/api/routes/billing.py).
use geolytics.Prelude.{
  ℕ, ◌≡◌, ◌≤◌, ◌*◌, pos, ap, ◌∙◌, inr, refl, Bool, true, false, arith, All, if◌then◌else◌,
}
use geolytics.Prelude.Text.{Text, codes, text_eq}
use geolytics.Prelude.Numerals.{is_digit}
use geolytics.Models.{second}
use geolytics.Billing.Apply.{Db}
use geolytics.Billing.Signature.{age, verified, verify_webhook_signature, sign_webhook}
use geolytics.Billing.Signature.Sound.{IsProved}
use geolytics.Billing.Signature.RoundTrip.{IsHex, verify_webhook_signature-sign_webhook}
use geolytics.Billing.Webhook.{
  parsed, malformed, Deployment, respond, handle_event, tolerance_seconds, stripe_webhook,
}
use geolytics.Billing.Webhook.Requests.{
  stripe_webhook-handle_event, stripe_webhook-IsProved, stripe_webhook_twice,
}
use geolytics.Tests.Billing.{prices, updated, tables}

-- A keyed hash of two digits.
abbrev mac : Text → Text → Text
mac key message = if text_eq key (codes "whsec") then codes "a7" else codes "00"

mac-IsHex : (key message : Text) → All IsHex (mac key message)
unfolding is_digit
mac-IsHex key message = go (text_eq key (codes "whsec"))
  where
    go : (b : Bool) → All IsHex (if b then codes "a7" else codes "00")
    go true = (refl, (refl, tt))
    go false = (refl, (refl, tt))

abbrev body : Text
body = codes "{}"

abbrev header : Text
header = sign_webhook mac body (codes "whsec") 1000

verify_webhook_signature-sign_webhook_example :
    verify_webhook_signature mac 1200000000 body
      (sign_webhook mac body (codes "whsec") 1000)
      (codes "whsec")
      300
    ≡ verified
unfolding geolytics.Billing.Signature.overflows
verify_webhook_signature-sign_webhook_example =
    verify_webhook_signature-sign_webhook mac body (codes "whsec") 1000 300 1200000000 mac-IsHex
      refl refl (omega arith)

abbrev deployment : Deployment
deployment = record {
  mac = mac;
  json_loads = λ payload. if text_eq payload body then parsed updated else malformed;
  webhook_secret = codes "whsec";
  prices = prices;
}

verifies :
    (now : ℕ)
    → age now (pos 1000) ≤ 300 * second
    → verify_webhook_signature mac now body header (codes "whsec") 300 ≡ verified
unfolding geolytics.Billing.Signature.overflows
verifies now close =
    verify_webhook_signature-sign_webhook mac body (codes "whsec") 1000 300 now mac-IsHex refl refl
      close

handled : (respond tables (handle_event prices updated tables)).0 ≡ 200
unfolding handle_event geolytics.Billing.Events.parse_event geolytics.Json.get
    geolytics.Billing.Events.price_id geolytics.Billing.Events.plan_for_price
    geolytics.Tenancy.Plans.Catalogue.plans geolytics.Billing.Events.timestamp
    geolytics.Billing.Webhook.reference_of geolytics.Billing.Apply.apply_subscription
    geolytics.Billing.Apply.find_org geolytics.Billing.Apply.is_stale
    geolytics.Billing.Events.is_active geolytics.Billing.Events.member
handled = refl

acknowledged : (stripe_webhook deployment 1200000000 body header tables).0 ≡ 200
acknowledged =
    ap (λ r. r.0)
      (stripe_webhook-handle_event deployment 1200000000 body header tables updated
        (verifies 1200000000 (omega arith)) refl)
    ∙ handled

stripe_webhook-IsProved_example :
    IsProved mac 1200000000 body header (codes "whsec") tolerance_seconds
stripe_webhook-IsProved_example =
    stripe_webhook-IsProved deployment 1200000000 body header tables (inr acknowledged)

stripe_webhook_twice_example :
    ((stripe_webhook deployment 1250000000 body header
        (stripe_webhook deployment 1200000000 body header tables).1).0
      ≡ 200)
    × ((stripe_webhook deployment 1250000000 body header
          (stripe_webhook deployment 1200000000 body header tables).1).1.orgs
        ≡ (stripe_webhook deployment 1200000000 body header tables).1.orgs)
stripe_webhook_twice_example =
    stripe_webhook_twice deployment 1200000000 1250000000 body header tables acknowledged
      (verifies 1250000000 (omega arith))
