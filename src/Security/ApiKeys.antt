-- ===== src/Security/ApiKeys.antt =====
-- API keys (backend/geolytics/security/apikeys.py). SHA-256 and the random source are the standard
-- library's: a digest is a parameter, and the random texts are arguments.
pub mod RoundTrip
use geolytics.Prelude.{
  ℕ, Bool, true, false, ◌&&◌, ◌||◌, Option, none, some, List, [], ◌∷◌, ◌++◌, if◌then◌else◌, not,
}
use geolytics.Prelude.Text.{Text, codes, text_eq, strip_prefix, Parts, partition}

pub data Environment : Type 0 where
  live test : Environment

-- `API_KEY_PREFIXES`
abbrev pub prefix_of : Environment → Text
prefix_of live = codes "gk_live_"
prefix_of test = codes "gk_test_"

abbrev pub dot : ℕ
dot = b'.'

pub record GeneratedApiKey : Type 0 where
  pub token : Text
  pub lookup_id : Text
  pub secret_hash : Text
  pub prefix : Text

pub record ParsedApiKey : Type 0 where
  pub environment : Environment
  pub lookup_id : Text
  pub secret : Text

-- `generate_api_key`, given the two random texts and the hash function.
unfoldable pub generate_api_key : (Text → Text) → Environment → Text → Text → GeneratedApiKey
generate_api_key hash environment lookup_id secret = record {
  token = prefix_of environment ++ lookup_id ++ dot ∷ secret;
  lookup_id = lookup_id;
  secret_hash = hash secret;
  prefix = prefix_of environment;
}

abbrev pub is_empty : Text → Bool
is_empty [] = true
is_empty (c ∷ t) = false

-- The body of a key that has an environment's prefix.
parse_body : Environment → Text → Option ParsedApiKey
parse_body environment body =
    let parts = partition dot body in
    if not parts.found || (is_empty parts.before || is_empty parts.after)
    then none
    else some (record { environment = environment; lookup_id = parts.before; secret = parts.after })

parse_test : Option Text → Option ParsedApiKey
parse_test none = none
parse_test (some body) = parse_body test body

parse_live : Text → Option Text → Option ParsedApiKey
parse_live token none = parse_test (strip_prefix (prefix_of test) token)
parse_live token (some body) = parse_body live body

-- `parse_api_key` of a text: the prefixes are tried in the order of the dictionary.
unfoldable pub parse_api_key : Text → Option ParsedApiKey
unfolding parse_live parse_test parse_body
parse_api_key token = parse_live token (strip_prefix (prefix_of live) token)

unfoldable pub verify_api_key : (Text → Text) → Text → Text → Bool
verify_api_key hash stored_hash secret = text_eq stored_hash (hash secret)
