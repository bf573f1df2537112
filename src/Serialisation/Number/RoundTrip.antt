-- ===== src/Serialisation/Number/RoundTrip.antt =====
-- `std::stoi` reads back what `std::to_string` printed, for every `int`.
use netframework.Base.{
  ℕ, zero, suc, ◌+◌, ◌/◌, ◌%◌, ◌^◌, ◌<◌, ◌≤◌, ◌≡◌, refl, ◌∙◌, [], ◌∷◌, All, Bytes, ℤ, pos, negsuc,
  ok, arith, Bool-cases, inl, inr, ltb,
}
use netframework.Serialisation.Number.{digits, to_string, leading_digits, stoi}

-- The values of a 32-bit `int`.
abbrev pub IsInt : ℤ → Type 0
IsInt (pos n) = n < 2 ^ 31
IsInt (negsuc n) = n < 2 ^ 31

leading_digits-digits :
    (fuel n : ℕ) (after : Bytes)
    → n < fuel
    → leading_digits 0 (digits fuel n after) ≡ leading_digits n after
unfolding digits leading_digits
leading_digits-digits zero n after lt = absurd (omega arith)
leading_digits-digits (suc fuel) n after lt =
    ground (arith, leading_digits-digits fuel (n / 10) ((48 + n % 10) ∷ after))

abbrev pub IsDigit : ℕ → Type 0
IsDigit c = (48 ≤ c) × (c ≤ 57)

pub digits-IsDigit :
    (fuel n : ℕ) (after : Bytes) → All IsDigit after → All IsDigit (digits fuel n after)
unfolding digits
digits-IsDigit zero n after all = all
digits-IsDigit (suc fuel) n after all =
    ground (arith, digits-IsDigit fuel (n / 10) ((48 + n % 10) ∷ after))

-- The first byte is a digit.
pub digits-cons :
    (fuel n : ℕ) (after : Bytes)
    → n < fuel
    → (c : ℕ) × (text : Bytes) × (digits fuel n after ≡ c ∷ text) × IsDigit c
unfolding digits
digits-cons zero n after lt = absurd (omega arith)
digits-cons (suc fuel) n after lt = elim (Bool-cases (ltb n 10)) [
  | inl small ↦ (48 + n, after, rw small, ground arith)
  | inr large ↦ rw large (digits-cons fuel (n / 10) _ (ground arith))
]

leading_digits-nil : (n : ℕ) → leading_digits n [] ≡ n
unfolding leading_digits
leading_digits-nil n = refl

digits-value :
    (fuel n m c : ℕ) (text : Bytes)
    → n < fuel
    → n ≡ m
    → digits fuel n [] ≡ c ∷ text
    → leading_digits 0 (c ∷ text) ≡ m
digits-value fuel n m c text lt same e =
    rw (← e) (leading_digits-digits fuel n [] lt ∙ leading_digits-nil n ∙ same)

stoi_positive :
    (c n : ℕ) (text : Bytes)
    → IsDigit c
    → leading_digits 0 (c ∷ text) ≡ n
    → n < 2 ^ 31
    → stoi (c ∷ text) ≡ ok (pos n)
unfolding stoi
stoi_positive c n text d e lt = ground arith

stoi_negative :
    (c n : ℕ) (text : Bytes)
    → IsDigit c
    → leading_digits 0 (c ∷ text) ≡ suc n
    → n < 2 ^ 31
    → stoi (b'-' ∷ c ∷ text) ≡ ok (negsuc n)
unfolding stoi
stoi_negative c n text d e lt = ground arith

-- Every `int` that is printed is read back as it was.
pub stoi-to_string : (k : ℤ) → IsInt k → stoi (to_string k) ≡ ok k
unfolding to_string
stoi-to_string (pos n) lt =
    let (c, text, e, d) = digits-cons (n + 1) n [] (omega arith) in
    rw e (stoi_positive c n text d (digits-value (n + 1) n n c text (omega arith) refl e) lt)
stoi-to_string (negsuc n) lt =
    let (c, text, e, d) = digits-cons (n + 2) (n + 1) [] (omega arith) in
    rw e (
      stoi_negative c n text d
        (digits-value (n + 2) (n + 1) (suc n) c text (omega arith) (omega arith) e) lt)
