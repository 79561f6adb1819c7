-- ===== src/Billing/Signature/RoundTrip.antt =====
-- A webhook that was signed is verified (backend/geolytics/billing.py).
use geolytics.Prelude.{
  ℕ, zero, suc, ◌+◌, ◌-◌, ◌*◌, ◌/◌, ◌%◌, ◌^◌, ◌≤◌, ◌<◌, if◌then◌else◌, ◌≡◌, refl, sym, ap, ◌∙◌, pos,
  Bool, true, false, ◌||◌, ◌&&◌, not, none, some, [], ◌∷◌, ◌++◌, ltb, leb, nat_eq, All, if_true,
  if_false, arith,
}
use geolytics.Prelude.Slices.{append_assoc}
use geolytics.Prelude.Text.{
  Text, codes, text_eq_refl, is_space, free_of, partition-append, HasNoSpace, strip-same,
}
use geolytics.Prelude.Numerals.{
  is_digit, IsDigits, digit_count, digits_of, not_lt, numeral, numeral-IsDigits, integer-numeral,
}
use native.Mathlib.Numerals.{unary_clauses}
use geolytics.Models.{second}
use geolytics.Billing.Signature.{
  verified, onto, split, Header, read_part, read_parts, read_header, age, overflows, is_ascii,
  compare_all, max_str_digits, message_of, checked_age, checked_header, is_nil,
  verify_webhook_signature, sign_webhook,
}

-- A hexadecimal digit.
abbrev pub IsHex : ℕ → Type 0
IsHex c = is_digit c || leb 97 c && leb c 102 ≡ true

same_code : (c : ℕ) → nat_eq c c ≡ true
same_code c = ground arith

both : (b c : Bool) → not b && c ≡ true → (b ≡ false) × (c ≡ true)
both b c h = (ground arith, ground arith)

split-free : (sep : ℕ) (t : Text) → free_of sep t ≡ true → split sep t ≡ t ∷ []
unfolding split
split-free sep [] h = refl
split-free sep (c ∷ t) h =
    let (other, rest) = both (nat_eq c sep) (free_of sep t) h in
    if_false _ _ _ other ∙ ap (onto c) (split-free sep t rest)

split-append :
    (sep : ℕ) (s t : Text) → free_of sep s ≡ true → split sep (s ++ sep ∷ t) ≡ s ∷ split sep t
unfolding split
split-append sep [] t h = if_true _ _ _ (same_code sep)
split-append sep (c ∷ s) t h =
    let (other, rest) = both (nat_eq c sep) (free_of sep s) h in
    if_false _ _ _ other ∙ ap (onto c) (split-append sep s t rest)

-- What a separator is not: a digit, a hexadecimal digit.
hex_is_plain : (c : ℕ) → IsHex c → (nat_eq c 44 ≡ false) × (is_space c ≡ false) × (ltb c 128 ≡ true)
unfolding is_digit is_space
hex_is_plain c h = (ground arith, ground arith, ground arith)

digit-IsHex : (c : ℕ) → is_digit c ≡ true → IsHex c
digit-IsHex c h = rw h refl

All-IsHex : (t : Text) → IsDigits t → All IsHex t
All-IsHex [] d = tt
All-IsHex (c ∷ t) d = (digit-IsHex c d.0, All-IsHex t d.1)

hex-free : (t : Text) → All IsHex t → free_of 44 t ≡ true
hex-free [] a = refl
hex-free (c ∷ t) a = rw ((hex_is_plain c a.0).0, hex-free t a.1) refl

hex-HasNoSpace : (t : Text) → All IsHex t → HasNoSpace t
hex-HasNoSpace [] a = tt
hex-HasNoSpace (c ∷ t) a = ((hex_is_plain c a.0).1, hex-HasNoSpace t a.1)

hex-is_ascii : (t : Text) → All IsHex t → is_ascii t ≡ true
hex-is_ascii [] a = refl
hex-is_ascii (c ∷ t) a = if_true _ _ _ (hex_is_plain c a.0).2 ∙ hex-is_ascii t a.1

-- The parts of a header that was signed, read one after the other.
timestamp_part :
    (t : Text) (h : Header)
    → All IsHex t
    → read_part (codes "t=" ++ t) h ≡ record h { timestamp = some t }
unfolding read_part is_space
timestamp_part t h a =
    rw
      (
        strip-same (codes "t=" ++ t) (refl, (refl, hex-HasNoSpace t a)),
        partition-append b'=' (codes "t") t refl,
      )
      refl

signature_part :
    (t : Text) (h : Header)
    → All IsHex t
    → read_part (codes "v1=" ++ t) h ≡ record h { signatures = h.signatures ++ t ∷ [] }
unfolding read_part is_space
signature_part t h a =
    rw
      (
        strip-same (codes "v1=" ++ t) (refl, (refl, (refl, hex-HasNoSpace t a))),
        partition-append b'=' (codes "v1") t refl,
      )
      refl

-- The header that signing writes, read back.
read_signed :
    (t digest : Text)
    → All IsHex t
    → All IsHex digest
    → read_header (codes "t=" ++ (t ++ (codes ",v1=" ++ digest)))
      ≡ record { timestamp = some t; signatures = digest ∷ [] }
unfolding read_header read_parts
read_signed t digest a b =
    ap (λ parts. read_parts parts (record { timestamp = none; signatures = [] }))
      (ap (split b',') (sym (append_assoc (codes "t=") t (codes ",v1=" ++ digest)))
        ∙ split-append b',' (codes "t=" ++ t) (codes "v1=" ++ digest) (rw (hex-free t a) refl)
        ∙ ap (λ ts. (codes "t=" ++ t) ∷ ts)
            (split-free b',' (codes "v1=" ++ digest) (rw (hex-free digest b) refl)))
    ∙ ap (read_part (codes "v1=" ++ digest))
        (timestamp_part t (record { timestamp = none; signatures = [] }) a)
    ∙ signature_part digest (record { timestamp = some t; signatures = [] }) b

-- A number below a power of two has no more digits than the power has bits, and one.
digit_count-end : (t : Text) (c : ℕ) → digit_count (t ++ c ∷ []) ≤ suc (digit_count t)
unfolding digit_count is_digit
digit_count-end [] c = ground arith
digit_count-end (d ∷ t) c = let rest = digit_count-end t c in ground arith

digits_of-short : (fuel n bits : ℕ) → n < 2 ^ bits → digit_count (digits_of fuel n) ≤ suc bits
unfolding digit_count digits_of
digits_of-short zero n bits h = omega arith
digits_of-short (suc fuel) n bits h =
    by_size (ltb n 10) (front bits (digits_of-short fuel (n / 10)) h) refl
  where
    front :
        (bits : ℕ)
        → ((b : ℕ) → n / 10 < 2 ^ b → digit_count (digits_of fuel (n / 10)) ≤ suc b)
        → n < 2 ^ bits
        → 10 ≤ n
        → digit_count (digits_of fuel (n / 10)) ≤ bits
    front zero shorter h big = absurd (omega (arith, h, big))
    front (suc bits) shorter h big = shorter bits (halved (2 ^ bits) (simp unary_clauses at h))
      where
        halved : (m : ℕ) → n < m * 2 → n / 10 < m
        halved m h = omega arith

    by_size :
        (b : Bool)
        → (10 ≤ n → digit_count (digits_of fuel (n / 10)) ≤ bits)
        → ltb n 10 ≡ b
        → digit_count (if b then (48 + n) ∷ [] else digits_of fuel (n / 10) ++ (48 + n % 10) ∷ [])
          ≤ suc bits
    by_size true shorter e = let o = digit_count-end [] (48 + n) in omega arith
    by_size false shorter e =
        let f = shorter (not_lt n e) in
        let l = digit_count-end (digits_of fuel (n / 10)) (48 + n % 10) in omega arith

numeral-short :
    (n : ℕ) → overflows (pos n) ≡ false → ltb max_str_digits (digit_count (numeral n)) ≡ false
unfolding overflows numeral
numeral-short n h =
    at_most (digit_count (digits_of (suc n) n))
      (digits_of-short (suc n) n 1024 (below (2 ^ 1024) (2 ^ 970) n h))
  where
    below : (a b n : ℕ) → leb (a - b) n ≡ false → n < a
    below a b n h = ground arith

    at_most : (c : ℕ) → c ≤ suc 1024 → ltb max_str_digits c ≡ false
    at_most c h = ground arith

-- If the keyed hash writes hexadecimal digits, a request that was signed with a secret that is not
-- empty, at a time no further from the present than the tolerance (and in the range of
-- floating-point numbers), is verified with the same secret.
pub verify_webhook_signature-sign_webhook :
    (mac : Text → Text → Text) (payload secret : Text) (timestamp tolerance now : ℕ)
    → ((key message : Text) → All IsHex (mac key message))
    → is_nil secret ≡ false
    → overflows (pos timestamp) ≡ false
    → age now (pos timestamp) ≤ tolerance * second
    → verify_webhook_signature mac now payload
        (sign_webhook mac payload secret timestamp)
        secret
        tolerance
      ≡ verified
unfolding verify_webhook_signature sign_webhook checked_age checked_header compare_all
verify_webhook_signature-sign_webhook mac payload secret timestamp tolerance now hex filled small
      recent =
    let t = numeral timestamp in
    let digest = mac secret (message_of t payload) in
    if_false (is_nil secret || is_nil (sign_webhook mac payload secret timestamp)) _ _
      (rw filled refl)
    ∙ ap (λ h. checked_header mac payload secret tolerance now h h.timestamp)
        (read_signed t digest (All-IsHex t (numeral-IsDigits timestamp).0) (hex secret _))
    ∙ ap (checked_age mac payload secret tolerance now t (digest ∷ [])) (integer-numeral timestamp)
    ∙ if_false _ _ _ (numeral-short timestamp small)
    ∙ if_false _ _ _ small
    ∙ if_false _ _ _ (not_less _ _ recent)
    ∙ if_true _ _ _ (hex-is_ascii digest (hex secret _))
    ∙ if_true _ _ _ (text_eq_refl digest)
  where
    not_less : (m n : ℕ) → m ≤ n → ltb n m ≡ false
    not_less m n h = ground arith
