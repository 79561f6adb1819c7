-- ===== src/Billing/Signature/Sound.antt =====
-- What a verified webhook proves (backend/geolytics/billing.py).
use geolytics.Prelude.{
  ℕ, ◌*◌, ◌≤◌, ◌≡◌, refl, sym, ◌∙◌, ℤ, Bool, true, false, ◌||◌, Option, none, some, List, [], ◌∷◌,
  if◌then◌else◌, ltb, In, inl, inr, Bool-cases, if_true, if_false, arith,
}
use geolytics.Prelude.Text.{Text, text_eq, text_eq→eq}
use geolytics.Prelude.Numerals.{digit_count, integer}
use geolytics.Models.{second}
use geolytics.Billing.Signature.{
  Verdict, verified, refused, crashed, read_header, age, overflows, is_ascii, compare_all,
  message_of, max_str_digits, checked_age, checked_header, is_nil, verify_webhook_signature,
}

refused_verified : refused ≡ verified → ⊥
refused_verified h = cc

crashed_verified : crashed ≡ verified → ⊥
crashed_verified h = cc

compare_all-In :
    (expected : Text) (candidates : List Text)
    → compare_all expected candidates ≡ verified
    → In expected candidates
unfolding compare_all
compare_all-In expected [] h = cc
compare_all-In expected (c ∷ candidates) h =
    go (is_ascii c) (text_eq expected c) refl (compare_all-In expected candidates) h
  where
    go :
        (ascii same : Bool)
        → text_eq expected c ≡ same
        → (compare_all expected candidates ≡ verified → In expected candidates)
        → (if ascii then if same then verified else compare_all expected candidates else crashed)
          ≡ verified
        → In expected (c ∷ candidates)
    go true true e next h = inl (sym (text_eq→eq expected c e))
    go true false e next h = inr (next h)
    go false same e next h = cc

-- What a header that was verified says.
pub record IsProved (mac : Text → Text → Text) (now : ℕ) (payload header secret : Text)
    (tolerance : ℕ) : Type 0 where
  pub timestamp : Text
  pub seconds : ℤ
  pub named : (read_header header).timestamp ≡ some timestamp
  pub spelled : integer timestamp ≡ some seconds
  pub recent : age now seconds ≤ tolerance * second
  pub signed : In (mac secret (message_of timestamp payload)) (read_header header).signatures

-- A numeral that is verified is not too long.
short :
    (n : ℕ) {v : Verdict} → (if ltb max_str_digits n then refused else v) ≡ verified → v ≡ verified
short n h = elim (Bool-cases (ltb max_str_digits n)) [
  | inl e ↦ absurd (refused_verified (sym (if_true _ _ _ e) ∙ h))
  | inr e ↦ sym (if_false _ _ _ e) ∙ h
]

not_over : (m n : ℕ) → ltb m n ≡ false → n ≤ m
not_over m n h = ground arith

module _ (mac : Text → Text → Text) (now : ℕ) (payload header secret : Text) (tolerance : ℕ) where
  checked_age-IsProved :
      (timestamp : Text) (o : Option ℤ)
      → (read_header header).timestamp ≡ some timestamp
      → integer timestamp ≡ o
      → checked_age mac payload secret tolerance now timestamp (read_header header).signatures o
        ≡ verified
      → IsProved mac now payload header secret tolerance
  unfolding checked_age
  checked_age-IsProved timestamp none named spelled h = cc
  checked_age-IsProved timestamp (some z) named spelled long =
      let h = short (digit_count timestamp) long in
      elim (Bool-cases (overflows z)) [
        | inl e ↦ absurd (crashed_verified (sym (if_true _ _ _ e) ∙ h))
        | inr e ↦ elim (Bool-cases (ltb (tolerance * second) (age now z))) [
          | inl f ↦ absurd (refused_verified (sym (if_true _ _ _ f) ∙ sym (if_false _ _ _ e) ∙ h))
          | inr f ↦ record {
            timestamp = timestamp;
            seconds = z;
            named = named;
            spelled = spelled;
            recent = not_over _ _ f;
            signed =
                compare_all-In (mac secret (message_of timestamp payload)) _
                  (sym (if_false _ _ _ f) ∙ sym (if_false _ _ _ e) ∙ h);
          }
        ]
      ]

  checked_header-IsProved :
      (o : Option Text)
      → (read_header header).timestamp ≡ o
      → checked_header mac payload secret tolerance now (read_header header) o ≡ verified
      → IsProved mac now payload header secret tolerance
  unfolding checked_header
  checked_header-IsProved none named h = cc
  checked_header-IsProved (some timestamp) named h =
      by_signatures (read_header header).signatures refl h
    where
      by_signatures :
          (ss : List Text)
          → (read_header header).signatures ≡ ss
          → elim ss as (λ x. Verdict) [
            | [] ↦ refused
            | s ∷ rest ↦
                checked_age mac payload secret tolerance now timestamp
                  (read_header header).signatures
                  (integer timestamp)
          ]
            ≡ verified
          → IsProved mac now payload header secret tolerance
      by_signatures [] e h = cc
      by_signatures (s ∷ rest) e h = checked_age-IsProved timestamp (integer timestamp) named refl h

  -- A webhook request that is verified names a time, no further from the present than the tolerance,
  -- and carries among its signatures the digest that the secret gives for that time and the body. The
  -- secret is not empty.
  pub verify_webhook_signature-IsProved :
      verify_webhook_signature mac now payload header secret tolerance ≡ verified
      → (is_nil secret ≡ false) × IsProved mac now payload header secret tolerance
  unfolding verify_webhook_signature
  verify_webhook_signature-IsProved h = elim (Bool-cases (is_nil secret || is_nil header)) [
    | inl e ↦ absurd (refused_verified (sym (if_true _ _ _ e) ∙ h))
    | inr e ↦ (
      left_false _ _ e,
      checked_header-IsProved (read_header header).timestamp refl (sym (if_false _ _ _ e) ∙ h),
    )
  ]
    where
      left_false : (b c : Bool) → b || c ≡ false → b ≡ false
      left_false b c h = ground arith
