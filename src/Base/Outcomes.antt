-- ===== src/Base/Outcomes.antt =====
-- What a call ends with: a value, an exception of the standard library, or undefined behaviour.
use mathlib.Core.Path.{◌≡◌, refl}
use mathlib.Core.Logic.{◌⊎◌, inl, inr}

-- `undefined` is a read outside an object or of an indeterminate value, or an `int` that overflows; the others are the
-- exceptions `std::invalid_argument`, `std::out_of_range`, `std::length_error` and `thrown`, a text that is
-- thrown. `out_of_fuel` is no
-- behaviour of the program: a loop on fuel that stops early ends so, and theorems rule it out.
pub data Fault : Type 0 where
  undefined invalid_argument out_of_range length_error out_of_fuel thrown : Fault

pub data Result {ℓ} (A : Type ℓ) : Type ℓ where
  ok : A → Result A
  err : Fault → Result A

-- What comes after a call is made only where the call returned.
abbrev pub ◌>>=◌ {ℓ κ} : {A : Type ℓ} {B : Type κ} → Result A → (A → Result B) → Result B
◌>>=◌ (ok value) next = next value
◌>>=◌ (err fault) next = err fault

infixl 5 ◌>>=◌
-- What holds of the value, where there is one.
abbrev pub Ensures {ℓ κ} : {A : Type ℓ} → (A → Type κ) → Result A → Type κ
Ensures P (ok value) = P value
Ensures P (err fault) = Unit

pub Ensures->>= {ℓ κ ι μ} :
    {A : Type ℓ} {B : Type κ} (P : A → Type ι) (Q : B → Type μ) (m : Result A) (next : A → Result B)
    → Ensures P m
    → ((value : A) → P value → Ensures Q (next value))
    → Ensures Q (m >>= next)
Ensures->>= P Q (ok value) next held step = step value held
Ensures->>= P Q (err fault) next held step = tt

pub Ensures-any {ℓ} : {A : Type ℓ} (m : Result A) → Ensures (λ value. Unit {0}) m
Ensures-any (ok value) = tt
Ensures-any (err fault) = tt

-- What returned was made of something that returned.
pub >>=-ok {ℓ κ} :
    {A : Type ℓ} {B : Type κ} (m : Result A) (next : A → Result B) (b : B)
    → (m >>= next) ≡ ok b
    → (a : A) × (m ≡ ok a) × (next a ≡ ok b)
>>=-ok (ok a) next b e = (a, refl, e)
>>=-ok (err fault) next b e = absurd (cc e)

pub Result-cases {ℓ} :
    {A : Type ℓ} (r : Result A) → ((a : A) × (r ≡ ok a)) ⊎ ((fault : Fault) × (r ≡ err fault))
Result-cases (ok a) = inl (a, refl)
Result-cases (err fault) = inr (fault, refl)

pub Ensures-weaken {ℓ κ ι} :
    {A : Type ℓ} (P : A → Type κ) (Q : A → Type ι) (m : Result A)
    → Ensures P m
    → ((value : A) → P value → Q value)
    → Ensures Q m
Ensures-weaken P Q (ok value) held weaker = weaker value held
Ensures-weaken P Q (err fault) held weaker = tt
