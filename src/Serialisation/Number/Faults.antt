-- ===== src/Serialisation/Number/Faults.antt =====
-- `std::stoi` returns, or throws one of its two exceptions.
use netframework.Base.{
  ℕ, zero, suc, ltb, ◌^◌, ◌==◌, Bool, true, false, [], ◌∷◌, if◌then◌else◌, Bytes, pos, negsuc,
  Result, ok, err, Fault, invalid_argument, out_of_range,
}
use netframework.Serialisation.Number.{
  in_range, stoi_digits, stoi_signed, stoi, leading_digits, is_digit, is_space,
}

abbrev pub IsStoiFault : Fault → Type 0
IsStoiFault invalid_argument = Unit
IsStoiFault out_of_range = Unit
IsStoiFault _ = ⊥

-- A value, or an exception of `std::stoi`.
abbrev pub Ends {ℓ} : {A : Type ℓ} → Result A → Type 0
Ends (ok a) = Unit
Ends (err e) = IsStoiFault e

if-Ends :
    {A : Type 0} (b : Bool) (left right : Result A)
    → Ends left
    → Ends right
    → Ends (if b then left else right)
if-Ends true left right y n = y
if-Ends false left right y n = n

in_range-Ends : (negative : Bool) (n : ℕ) → Ends (in_range negative n)
unfolding in_range
in_range-Ends false n = if-Ends (ltb n (2 ^ 31)) (ok (pos n)) (err out_of_range) tt tt
in_range-Ends true zero = tt
in_range-Ends true (suc n) = if-Ends (ltb n (2 ^ 31)) (ok (negsuc n)) (err out_of_range) tt tt

stoi_digits-Ends : (negative : Bool) (text : Bytes) → Ends (stoi_digits negative text)
unfolding stoi_digits
stoi_digits-Ends negative [] = tt
stoi_digits-Ends negative (c ∷ text) =
    if-Ends (is_digit c) (in_range negative (leading_digits 0 (c ∷ text))) (err invalid_argument)
      (in_range-Ends negative (leading_digits 0 (c ∷ text))) tt

stoi_signed-Ends : (text : Bytes) → Ends (stoi_signed text)
unfolding stoi_signed
stoi_signed-Ends [] = tt
stoi_signed-Ends (c ∷ text) =
    if-Ends (c == b'-') (stoi_digits true text) _ (stoi_digits-Ends true text) (
      if-Ends (c == b'+') (stoi_digits false text) (stoi_digits false (c ∷ text))
        (stoi_digits-Ends false text) (stoi_digits-Ends false (c ∷ text)))

pub stoi-Ends : (text : Bytes) → Ends (stoi text)
unfolding stoi
stoi-Ends [] = tt
stoi-Ends (c ∷ text) =
    if-Ends (is_space c) (stoi text) (stoi_signed (c ∷ text)) (stoi-Ends text)
      (stoi_signed-Ends (c ∷ text))
