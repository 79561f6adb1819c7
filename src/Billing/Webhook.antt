-- ===== src/Billing/Webhook.antt =====
-- The webhook endpoint (`stripe_webhook` of backend/geolytics/api/routes/billing.py). `json.loads` is a
-- parameter.
pub mod Requests
use geolytics.Prelude.{
  ℕ, ℤ, pos, negsuc, String, Bool, true, false, ◌&&◌, Option, none, some, List, [], ◌∷◌,
  if◌then◌else◌, all,
}
use geolytics.Prelude.Text.{Text, codes}
use geolytics.Prelude.Numerals.{is_digit, integer}
use geolytics.Json
use geolytics.Json.{Json, text, Result, ok, ◌>>=◌, get, or_empty, truthy}
use geolytics.Models.{Organization}
use geolytics.Billing.Events.{SubscriptionState, Prices, or_else, parse_event}
use geolytics.Billing.Apply.{Db, apply_subscription}
use geolytics.Billing.Signature.{Verdict, verified, refused, crashed, verify_webhook_signature}

-- What `json.loads` makes of the bytes of a body: a value, or its `JSONDecodeError`, or the
-- `UnicodeDecodeError` of bytes that are no text.
pub data Loaded : Type 0 where
  parsed : Json → Loaded
  malformed undecodable : Loaded

-- What the endpoint takes from outside, and its settings.
pub record Deployment : Type 0 where
  pub mac : Text → Text → Text
  pub json_loads : Text → Loaded
  pub webhook_secret : Text
  pub prices : Prices

abbrev pub tolerance_seconds : ℕ
tolerance_seconds = 300

abbrev pub is_filled : Text → Bool
is_filled [] = false
is_filled (c ∷ cs) = true

abbrev pub natural : Option ℤ → Option ℕ
natural none = none
natural (some (pos n)) = some n
natural (some (negsuc n)) = none

-- `int(reference) if isinstance(reference, str) and reference.isdigit() else None`, for ASCII digits.
unfoldable pub org_reference : Json → Option ℕ
org_reference (text s) =
    if is_filled (codes s) && all is_digit (codes s) then natural (integer (codes s)) else none
org_reference _ = none

carried : Json → Json → Result Json
carried object client =
    if truthy client
    then ok client
    else (do metadata ← get "metadata" (or_empty object); get "org_id" (or_empty metadata))

-- The organisation that the checkout session carried.
unfoldable pub reference_of : Json → Result (Option ℕ)
unfolding carried
reference_of event = do
  holder ← get "data" event
  object ← get "object" (or_empty holder)
  client ← get "client_reference_id" (or_empty object)
  reference ← carried object client
  ok (org_reference reference)

applied : Json → SubscriptionState → Db → Result Db
applied event s db = do org_id ← reference_of event; out ← apply_subscription s org_id db; ok out.1

acted : Json → Db → Option SubscriptionState → Result Db
unfolding applied
acted event db none = ok db
acted event db (some s) = applied event s db

unfoldable pub handle_event : Prices → Json → Db → Result Db
unfolding acted
handle_event prices event db = do state ← parse_event event prices; acted event db state

-- The status of the response, and the tables: an exception is a 500 and leaves them as they were.
abbrev pub respond : Db → Result Db → ℕ × Db
respond db (Json.ok db') = (200, db')
respond db (Json.err e) = (500, db)

-- Only the `JSONDecodeError` is caught.
read_body : Prices → Db → Loaded → ℕ × Db
read_body prices db malformed = (400, db)
read_body prices db undecodable = (500, db)
read_body prices db (parsed event) = respond db (handle_event prices event db)

on_verdict : Deployment → Text → Db → Verdict → ℕ × Db
unfolding read_body
on_verdict d payload db verified = read_body d.prices db (d.json_loads payload)
on_verdict d payload db refused = (400, db)
on_verdict d payload db crashed = (500, db)

-- `stripe_webhook` at an instant.
unfoldable pub stripe_webhook : Deployment → ℕ → Text → Text → Db → ℕ × Db
unfolding on_verdict
stripe_webhook d now payload header db =
    on_verdict d payload db
      (verify_webhook_signature d.mac now payload header d.webhook_secret tolerance_seconds)
