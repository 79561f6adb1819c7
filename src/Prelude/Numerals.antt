-- ===== src/Prelude/Numerals.antt =====
-- Decimal numerals: `str` of a natural number, and `int` of a text.
use geolytics.Prelude.Tests.{leb, ltb, nat_eq, if◌then◌else◌, if_true, if_false, ltb→lt}
use geolytics.Prelude.Text.{Text, is_space, strip, HasNoSpace, strip-same}
use geolytics.Prelude.Lists.{All}
use Prim.Native.Nat.{ℕ, zero, suc, ◌+◌, ◌-◌, ◌*◌, ◌/◌, ◌%◌, ◌≤◌, ◌<◌}
use mathlib.Core.Path.{◌≡◌, refl, ap, ◌∙◌}
use mathlib.Core.Bool.{Bool, true, false, ◌&&◌}
use mathlib.Core.Option.{Option, none, some}
use mathlib.Core.List.{[], ◌∷◌, ◌++◌}
use native.Mathlib.Omega.{arith}

-- Python's integers, where a negative one matters: `negsuc n` is -(n + 1).
pub data ℤ : Type 0 where
  pos : ℕ → ℤ
  negsuc : ℕ → ℤ

unfoldable pub is_digit : ℕ → Bool
is_digit c = leb 48 c && leb c 57

-- The digits with fuel: a number has fewer than one more than itself.
unfoldable pub digits_of : ℕ → ℕ → Text
digits_of zero n = []
digits_of (suc fuel) n =
    let front = digits_of fuel (n / 10) in
    if ltb n 10 then (48 + n) ∷ [] else front ++ (48 + n % 10) ∷ []

-- `str(n)`
unfoldable pub numeral : ℕ → Text
unfolding digits_of
numeral n = digits_of (suc n) n

-- How many digits a text has.
unfoldable pub digit_count : Text → ℕ
digit_count [] = 0
digit_count (c ∷ text) = let rest = digit_count text in if is_digit c then suc rest else rest

-- Digits, with single underscores between them; whether the character before was a digit.
unfoldable pub read_digits : Bool → ℕ → Text → Option ℕ
read_digits after_digit value [] = if after_digit then some value else none
read_digits after_digit value (c ∷ text) =
    let more = read_digits true (value * 10 + (c - 48)) text in
    let next = read_digits false value text in
    if is_digit c then more else if nat_eq c 95 && after_digit then next else none

abbrev pub value_of : ℕ → Text → ℕ
value_of value [] = value
value_of value (c ∷ text) = value_of (value * 10 + (c - 48)) text

abbrev pub IsDigits : Text → Type 0
IsDigits = All (λ c. is_digit c ≡ true)

read_digits-value_of :
    (value : ℕ) (t : Text) → IsDigits t → read_digits true value t ≡ some (value_of value t)
unfolding read_digits
read_digits-value_of value [] d = refl
read_digits-value_of value (c ∷ t) d =
    if_true _ _ _ d.0 ∙ read_digits-value_of (value * 10 + (c - 48)) t d.1

value_of-end :
    (value c : ℕ) (t : Text) → value_of value (t ++ c ∷ []) ≡ value_of value t * 10 + (c - 48)
value_of-end value c [] = refl
value_of-end value c (d ∷ t) = value_of-end (value * 10 + (d - 48)) c t

IsDigits-end : (c : ℕ) (t : Text) → IsDigits t → is_digit c ≡ true → IsDigits (t ++ c ∷ [])
IsDigits-end c [] d e = (e, tt)
IsDigits-end c (x ∷ t) d e = (d.0, IsDigits-end c t d.1 e)

is_digit-mod : (n : ℕ) → is_digit (48 + n % 10) ≡ true
unfolding is_digit
is_digit-mod n = ground arith

is_digit-small : (n : ℕ) → n < 10 → is_digit (48 + n) ≡ true
unfolding is_digit
is_digit-small n h = ground arith

pub not_lt : (n : ℕ) → ltb n 10 ≡ false → 10 ≤ n
not_lt n e = ground arith

digits_of-value :
    (fuel n : ℕ) → n < fuel → IsDigits (digits_of fuel n) × (value_of 0 (digits_of fuel n) ≡ n)
unfolding digits_of
digits_of-value zero n h = absurd (omega arith)
digits_of-value (suc fuel) n h = go (ltb n 10) (digits_of-value fuel (n / 10)) refl
  where
    go :
        (b : Bool)
        → (n / 10 < fuel
            → IsDigits (digits_of fuel (n / 10)) × (value_of 0 (digits_of fuel (n / 10)) ≡ n / 10))
        → ltb n 10 ≡ b
        → IsDigits (if b then (48 + n) ∷ [] else digits_of fuel (n / 10) ++ (48 + n % 10) ∷ [])
          × (value_of 0 (if b then (48 + n) ∷ [] else digits_of fuel (n / 10) ++ (48 + n % 10) ∷ [])
              ≡ n)
    go true front e = ((is_digit-small n (ltb→lt n 10 e), tt), omega arith)
    go false front e =
        let (digits, value) = front (shorter e) in
        (
          IsDigits-end (48 + n % 10) (digits_of fuel (n / 10)) digits (is_digit-mod n),
          value_of-end 0 (48 + n % 10) (digits_of fuel (n / 10))
              ∙ ap (λ v. v * 10 + (48 + n % 10 - 48)) value
              ∙ omega arith,
        )
      where
        shorter : ltb n 10 ≡ false → n / 10 < fuel
        shorter e = let f = not_lt n e in omega arith

-- What an application may take for a sign.
abbrev pub IsFilled : Text → Type 0
IsFilled [] = ⊥
IsFilled (c ∷ t) = Unit

IsFilled-end : (c : ℕ) (t : Text) → IsFilled (t ++ c ∷ [])
IsFilled-end c [] = tt
IsFilled-end c (d ∷ t) = tt

digits_of-IsFilled : (fuel n : ℕ) → IsFilled (digits_of (suc fuel) n)
unfolding digits_of
digits_of-IsFilled fuel n = go (ltb n 10)
  where
    go :
        (b : Bool)
        → IsFilled (if b then (48 + n) ∷ [] else digits_of fuel (n / 10) ++ (48 + n % 10) ∷ [])
    go true = tt
    go false = IsFilled-end (48 + n % 10) (digits_of fuel (n / 10))

pub numeral-IsDigits : (n : ℕ) → IsDigits (numeral n) × IsFilled (numeral n)
unfolding numeral
numeral-IsDigits n = ((digits_of-value (suc n) n (omega arith)).0, digits_of-IsFilled n n)

-- `int` of what comes after a sign.
abbrev plain : Option ℕ → Option ℤ
plain none = none
plain (some n) = some (pos n)

abbrev negated : Option ℕ → Option ℤ
negated none = none
negated (some zero) = some (pos 0)
negated (some (suc n)) = some (negsuc n)

-- A sign, where there is one.
unfoldable pub signed : Text → Option ℤ
signed [] = none
signed (c ∷ text) =
    if nat_eq c 45
    then negated (read_digits false 0 text)
    else if nat_eq c 43
    then plain (read_digits false 0 text)
    else plain (read_digits false 0 (c ∷ text))

-- `int(text)`, where `none` is the `ValueError`.
unfoldable pub integer : Text → Option ℤ
unfolding signed
integer text = signed (strip text)

read_filled : (t : Text) → IsDigits t → IsFilled t → read_digits false 0 t ≡ some (value_of 0 t)
unfolding read_digits
read_filled [] d f = absurd f
read_filled (c ∷ t) d f = if_true _ _ _ d.0 ∙ read_digits-value_of (0 * 10 + (c - 48)) t d.1

is_digit-is_space : (c : ℕ) → is_digit c ≡ true → is_space c ≡ false
unfolding is_digit is_space
is_digit-is_space c h = ground arith

IsDigits-HasNoSpace : (t : Text) → IsDigits t → HasNoSpace t
IsDigits-HasNoSpace [] d = tt
IsDigits-HasNoSpace (c ∷ t) d = (is_digit-is_space c d.0, IsDigits-HasNoSpace t d.1)

no_sign : (c : ℕ) → is_digit c ≡ true → (nat_eq c 45 ≡ false) × (nat_eq c 43 ≡ false)
unfolding is_digit
no_sign c h = (ground arith, ground arith)

signed_digits : (t : Text) → IsDigits t → IsFilled t → signed t ≡ some (pos (value_of 0 t))
unfolding signed
signed_digits [] d f = absurd f
signed_digits (c ∷ t) d f =
    if_false _ _ _ (no_sign c d.0).0
    ∙ if_false _ _ _ (no_sign c d.0).1
    ∙ ap plain (read_filled (c ∷ t) d f)

-- A number that is written is read back.
pub integer-numeral : (n : ℕ) → integer (numeral n) ≡ some (pos n)
unfolding integer numeral
integer-numeral n =
    let (digits, value) = digits_of-value (suc n) n (omega arith) in
    ap signed (strip-same (digits_of (suc n) n) (IsDigits-HasNoSpace (digits_of (suc n) n) digits))
    ∙ signed_digits (digits_of (suc n) n) digits (digits_of-IsFilled n n)
    ∙ ap (λ v. some (pos v)) value
