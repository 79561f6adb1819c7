-- ===== src/Security/Passwords.antt =====
-- Password hashing (backend/geolytics/security/passwords.py). Argon2 is a parameter.
use geolytics.Prelude.{ℕ, Bool, ◌||◌, Option, none, some, if◌then◌else◌, ltb, length, true, false}
use geolytics.Prelude.Text.{Text}

-- `hash` of a salt and a password; `verify` of a stored hash and a password is false where Argon2
-- raises; `needs_rehash` is true where it raises.
pub record Hasher : Type 0 where
  pub hash : Text → Text → Text
  pub verify : Text → Text → Bool
  pub needs_rehash : Text → Bool

abbrev pub min_password_length : ℕ
min_password_length = 12

abbrev pub max_password_length : ℕ
max_password_length = 1024

unfoldable pub validate_password : Text → Bool
validate_password password =
    if ltb (length password) min_password_length || ltb max_password_length (length password)
    then false
    else true

-- `none` is `PasswordPolicyError`.
unfoldable pub hash_password : Hasher → Text → Text → Option Text
unfolding validate_password
hash_password h salt password =
    if validate_password password then some (h.hash salt password) else none

unfoldable pub verify_password : Hasher → Text → Text → Bool
verify_password h stored password = h.verify stored password
