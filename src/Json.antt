-- ===== src/Json.antt =====
-- Python values as `json.loads` returns them, with `dict.get` and truth. Numbers are integers:
-- a number with a fraction is left out, though `_timestamp` would take one. The keys of an object are distinct, as in a
-- `dict`.
use geolytics.Prelude.{
  ℤ, pos, negsuc, String, ◌≡◌, refl, sym, ap, Bool, true, false, if◌then◌else◌, ◌==◌, eq_string,
  eq_ℕ,
}

mutual
  pub data Json : Type 0 where
    null : Json
    bool : Bool → Json
    num : ℤ → Json
    text : String → Json
    arr : Items → Json
    obj : Fields → Json

  pub data Items : Type 0 where
    nil : Items
    cons : Json → Items → Items

  pub data Fields : Type 0 where
    end : Fields
    entry : String → Json → Fields → Fields

pub data Error : Type 0 where
  attribute_error type_error key_error value_error : Error

pub data Result {ℓ} (A : Type ℓ) : Type ℓ where
  err : Error → Result A
  ok : A → Result A

infixl 5 ◌>>=◌
abbrev pub ◌>>=◌ {ℓ κ} : {A : Type ℓ} {B : Type κ} → Result A → (A → Result B) → Result B
err e >>= next = err e
ok a >>= next = next a

-- `bool(value)`.
abbrev pub truthy : Json → Bool
truthy null = false
truthy (bool b) = b
truthy (num (pos n)) = if n == 0 then false else true
truthy (num (negsuc n)) = true
truthy (text s) = if s == "" then false else true
truthy (arr nil) = false
truthy (arr (cons x xs)) = true
truthy (obj end) = false
truthy (obj (entry k v fs)) = true

-- `fields.get(key)`: an absent key reads as `None`.
unfoldable pub find : String → Fields → Json
find key end = null
find key (entry k v fs) = if k == key then v else find key fs

-- `value.get(key)`, which only a dict has.
unfoldable pub get : String → Json → Result Json
unfolding find
get key (obj fs) = ok (find key fs)
get key _ = err attribute_error

-- `value or {}`.
abbrev pub or_empty : Json → Json
or_empty j = if truthy j then j else obj end

pub bind-eq-ok {κ ℓ} :
    {B : Type κ} {b : B} {A : Type ℓ} (m : Result A) (f : A → Result B)
    → (m >>= f) ≡ ok b
    → (a : A) × (m ≡ ok a) × (f a ≡ ok b)
bind-eq-ok (ok a) f h = (a, refl, h)
bind-eq-ok (err e) f h = cc

pub ok-injective {ℓ} : {A : Type ℓ} {a b : A} → ok a ≡ ok b → a ≡ b
ok-injective h = cc

pub ok-pair {ℓ κ} :
    {A : Type ℓ} {B : Type κ} {x a : A} {y b : B}
    → ◌≡◌ {A = Result (A × B)} (ok (x, y)) (ok (a, b))
    → (a ≡ x) × (b ≡ y)
ok-pair h = let p = ok-injective h in (ap (λ q. q.0) (sym p), ap (λ q. q.1) (sym p))
