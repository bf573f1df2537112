-- ===== src/Serialisation/Number.antt =====
-- The `int` overloads of `serialize` and `deserialize`: `std::to_string` and `std::stoi`.
pub mod RoundTrip
pub mod Faults
use netframework.Base.{
  ℕ, zero, suc, ◌+◌, ◌-◌, ◌*◌, ◌/◌, ◌%◌, ◌^◌, Bool, true, false, ◌&&◌, ◌||◌, [], ◌∷◌, ltb, leb,
  ◌==◌, if◌then◌else◌, Bytes, ℤ, pos, negsuc, Result, ok, err, invalid_argument, out_of_range,
}

-- The decimal digits of `n` in front of `after`; `n + 1` units of fuel are enough.
unfoldable pub digits : ℕ → ℕ → Bytes → Bytes
digits zero n after = after
digits (suc fuel) n after =
    let rest = digits fuel (n / 10) ((48 + n % 10) ∷ after) in
    if ltb n 10 then (48 + n) ∷ after else rest

unfoldable pub to_string : ℤ → Bytes
unfolding digits
to_string (pos n) = digits (n + 1) n []
to_string (negsuc n) = b'-' ∷ digits (n + 2) (n + 1) []

abbrev pub is_digit : ℕ → Bool
is_digit c = leb b'0' c && leb c b'9'

abbrev is_space : ℕ → Bool
is_space c = c == b' ' || leb 9 c && leb c 13

-- The number that the leading digits stand for, behind digits worth `value`.
unfoldable pub leading_digits : ℕ → Bytes → ℕ
leading_digits value [] = value
leading_digits value (c ∷ text) =
    let further = leading_digits (value * 10 + (c - 48)) text in
    if is_digit c then further else value

in_range : Bool → ℕ → Result ℤ
in_range false n = if ltb n (2 ^ 31) then ok (pos n) else err out_of_range
in_range true zero = ok (pos 0)
in_range true (suc n) = if ltb n (2 ^ 31) then ok (negsuc n) else err out_of_range

-- Behind the sign.
stoi_digits : Bool → Bytes → Result ℤ
unfolding in_range leading_digits
stoi_digits negative [] = err invalid_argument
stoi_digits negative (c ∷ text) =
    if is_digit c then in_range negative (leading_digits 0 (c ∷ text)) else err invalid_argument

-- Behind white space.
stoi_signed : Bytes → Result ℤ
unfolding stoi_digits
stoi_signed [] = err invalid_argument
stoi_signed (c ∷ text) =
    if c == b'-'
    then stoi_digits true text
    else if c == b'+'
    then stoi_digits false text
    else stoi_digits false (c ∷ text)

unfoldable pub stoi : Bytes → Result ℤ
unfolding stoi_signed
stoi [] = err invalid_argument
stoi (c ∷ text) = let further = stoi text in if is_space c then further else stoi_signed (c ∷ text)
