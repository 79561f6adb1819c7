-- ===== src/Billing/Signature.antt =====
-- The signature of a webhook request (`verify_webhook_signature` and `sign_webhook` of
-- backend/geolytics/billing.py). HMAC-SHA256 is a parameter: the hexadecimal digest of a secret and a
-- message. A payload is its bytes, and a header its code points.
pub mod Sound
pub mod RoundTrip
use geolytics.Prelude.{
  ℕ, zero, suc, ◌+◌, ◌-◌, ◌*◌, ◌/◌, ◌%◌, ◌^◌, ℤ, pos, negsuc, Bool, true, false, ◌||◌, Option, none,
  some, List, [], ◌∷◌, ◌++◌, if◌then◌else◌, leb, ltb, nat_eq,
}
use geolytics.Prelude.Text.{Text, codes, text_eq, strip, Parts, partition}
use geolytics.Prelude.Numerals.{digit_count, numeral, integer}
use geolytics.Models.{second}

-- `crashed` is an exception other than `SignatureError`.
pub data Verdict : Type 0 where
  verified refused crashed : Verdict

-- A character before the first of some texts.
abbrev pub onto : ℕ → List Text → List Text
onto c [] = (c ∷ []) ∷ []
onto c (t ∷ ts) = (c ∷ t) ∷ ts

-- `text.split(sep)` for a separator of one character.
unfoldable pub split : ℕ → Text → List Text
split sep [] = [] ∷ []
split sep (c ∷ text) = let rest = split sep text in if nat_eq c sep then [] ∷ rest else onto c rest

-- What the parts of the header say so far.
pub record Header : Type 0 where
  pub timestamp : Option Text
  pub signatures : List Text

unfoldable pub read_part : Text → Header → Header
read_part part h =
    let p = partition b'=' (strip part) in
    if text_eq p.before (codes "t")
    then record h { timestamp = some p.after }
    else if text_eq p.before (codes "v1")
    then record h { signatures = h.signatures ++ p.after ∷ [] }
    else h

unfoldable pub read_parts : List Text → Header → Header
unfolding read_part
read_parts [] h = h
read_parts (part ∷ parts) h = read_parts parts (read_part part h)

unfoldable pub read_header : Text → Header
unfolding split read_parts
read_header header = read_parts (split b',' header) (record { timestamp = none; signatures = [] })

-- How far a time in seconds is from an instant.
abbrev pub age : ℕ → ℤ → ℕ
age now (pos n) = (now - n * second) + (n * second - now)
age now (negsuc n) = now + suc n * second

-- A number that no `float` holds, which the subtraction makes an `OverflowError`.
unfoldable pub overflows : ℤ → Bool
overflows (pos n) = leb (2 ^ 1024 - 2 ^ 970) n
overflows (negsuc n) = leb (2 ^ 1024 - 2 ^ 970) (suc n)

abbrev pub is_ascii : Text → Bool
is_ascii [] = true
is_ascii (c ∷ text) = if ltb c 128 then is_ascii text else false

-- `any(hmac.compare_digest(expected, candidate) ...)`: comparing a text that is not ASCII is a
-- `TypeError`. The expected digest is ASCII.
unfoldable pub compare_all : Text → List Text → Verdict
compare_all expected [] = refused
compare_all expected (candidate ∷ candidates) =
    let rest = compare_all expected candidates in
    if is_ascii candidate then if text_eq expected candidate then verified else rest else crashed

-- UTF-8, for the code points of a header, which has none above 255.
unfoldable pub encode : Text → Text
encode [] = []
encode (c ∷ text) =
    let rest = encode text in if ltb c 128 then c ∷ rest else (192 + c / 64) ∷ (128 + c % 64) ∷ rest

unfoldable pub message_of : Text → Text → Text
unfolding encode
message_of timestamp payload = encode timestamp ++ b'.' ∷ payload

-- `int` raises a `ValueError` for a numeral of more digits.
abbrev pub max_str_digits : ℕ
max_str_digits = 4300

checked_age : (Text → Text → Text) → Text → Text → ℕ → ℕ → Text → List Text → Option ℤ → Verdict
checked_age mac payload secret tolerance now timestamp signatures none = refused
checked_age mac payload secret tolerance now timestamp signatures (some z) =
    if ltb max_str_digits (digit_count timestamp)
    then refused
    else if overflows z
    then crashed
    else if ltb (tolerance * second) (age now z)
    then refused
    else compare_all (mac secret (message_of timestamp payload)) signatures

checked_header : (Text → Text → Text) → Text → Text → ℕ → ℕ → Header → Option Text → Verdict
unfolding checked_age
checked_header mac payload secret tolerance now h none = refused
checked_header mac payload secret tolerance now h (some timestamp) = elim h.signatures [
  | [] ↦ refused
  | s ∷ ss ↦ checked_age mac payload secret tolerance now timestamp h.signatures (integer timestamp)
]

abbrev pub is_nil : Text → Bool
is_nil [] = true
is_nil (c ∷ text) = false

-- `verify_webhook_signature` at an instant.
unfoldable pub verify_webhook_signature :
    (Text → Text → Text) → ℕ → Text → Text → Text → ℕ → Verdict
unfolding checked_header
verify_webhook_signature mac now payload header secret tolerance =
    let h = read_header header in
    if is_nil secret || is_nil header
    then refused
    else checked_header mac payload secret tolerance now h h.timestamp

-- `sign_webhook`.
unfoldable pub sign_webhook : (Text → Text → Text) → Text → Text → ℕ → Text
sign_webhook mac payload secret timestamp =
    codes "t="
    ++ (numeral timestamp ++ (codes ",v1=" ++ mac secret (message_of (numeral timestamp) payload)))
