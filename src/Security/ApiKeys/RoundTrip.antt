-- ===== src/Security/ApiKeys/RoundTrip.antt =====
-- Keys that are generated are read back, and only well-formed keys are read.
use geolytics.Prelude.{◌≡◌, ◌≢◌, refl, true, false, Option, none, some, [], ◌∷◌, ◌++◌, arith}
use geolytics.Prelude.Text.{
  Text, strip_prefix, append-strip_prefix, free_of, partition-append, append-partition,
  text_eq_refl,
}
use geolytics.Security.ApiKeys.{
  Environment, live, test, prefix_of, dot, generate_api_key, ParsedApiKey, parse_body, parse_test,
  parse_live, parse_api_key, verify_api_key, is_empty,
}

is_empty-ne : (t : Text) → t ≢ [] → is_empty t ≡ false
is_empty-ne [] ne = absurd (ne refl)
is_empty-ne (c ∷ t) ne = refl

parse_body-join :
    (e : Environment) (lookup_id secret : Text)
    → lookup_id ≢ []
    → secret ≢ []
    → free_of dot lookup_id ≡ true
    → parse_body e (lookup_id ++ dot ∷ secret)
      ≡ some (record { environment = e; lookup_id = lookup_id; secret = secret })
unfolding parse_body
parse_body-join e lookup_id secret l s f =
    rw (partition-append dot lookup_id secret f, is_empty-ne lookup_id l, is_empty-ne secret s) refl

-- A generated key is parsed into its parts, and its secret matches the stored hash, whatever
-- non-empty texts the random source returned, as long as the lookup id has no dot.
pub parse_api_key-generate_api_key :
    (hash : Text → Text) (e : Environment) (lookup_id secret : Text)
    → lookup_id ≢ []
    → secret ≢ []
    → free_of dot lookup_id ≡ true
    → let key = generate_api_key hash e lookup_id secret in
      (parse_api_key key.token
        ≡ some (record { environment = e; lookup_id = lookup_id; secret = secret }))
      × (verify_api_key hash key.secret_hash secret ≡ true)
unfolding generate_api_key parse_api_key verify_api_key
parse_api_key-generate_api_key hash live lookup_id secret l s f =
    (parse_body-join live lookup_id secret l s f, text_eq_refl (hash secret))
parse_api_key-generate_api_key hash test lookup_id secret l s f =
    (parse_body-join test lookup_id secret l s f, text_eq_refl (hash secret))

parse_body_sound :
    (e : Environment) (body : Text) (key : ParsedApiKey)
    → parse_body e body ≡ some key
    → (key.environment ≡ e) × (body ≡ key.lookup_id ++ dot ∷ key.secret)
unfolding parse_body
parse_body_sound e body key h = ground (arith, append-partition dot body)

parse_test_sound :
    (token : Text) (body : Option Text) (key : ParsedApiKey)
    → strip_prefix (prefix_of test) token ≡ body
    → parse_test body ≡ some key
    → token ≡ prefix_of key.environment ++ key.lookup_id ++ dot ∷ key.secret
unfolding parse_test
parse_test_sound token none key e h = cc
parse_test_sound token (some body) key e h =
    let (environment, parts) = parse_body_sound test body key h in
    rw environment (rw (← parts) (append-strip_prefix (prefix_of test) token body e))

parse_live_sound :
    (token : Text) (body : Option Text) (key : ParsedApiKey)
    → strip_prefix (prefix_of live) token ≡ body
    → parse_live token body ≡ some key
    → token ≡ prefix_of key.environment ++ key.lookup_id ++ dot ∷ key.secret
unfolding parse_live
parse_live_sound token none key e h =
    parse_test_sound token (strip_prefix (prefix_of test) token) key refl h
parse_live_sound token (some body) key e h =
    let (environment, parts) = parse_body_sound live body key h in
    rw environment (rw (← parts) (append-strip_prefix (prefix_of live) token body e))

-- Whatever is parsed is the prefix, the lookup id, a dot and the secret, put together.
pub parse_api_key_sound :
    (token : Text) (key : ParsedApiKey)
    → parse_api_key token ≡ some key
    → token ≡ prefix_of key.environment ++ key.lookup_id ++ dot ∷ key.secret
unfolding parse_api_key
parse_api_key_sound token key h =
    parse_live_sound token (strip_prefix (prefix_of live) token) key refl h
