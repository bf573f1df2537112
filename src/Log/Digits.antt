-- ===== src/Log/Digits.antt =====
-- What `writePadded` writes: as many bytes as the width, and the number in decimal.
use netframework.Base.{
  ℕ, zero, suc, ◌+◌, ◌-◌, ◌*◌, ◌/◌, ◌%◌, ◌^◌, ◌<◌, ◌≡◌, ◌∙◌, ap, inl, inr, Bool-cases, ◌&&◌, [],
  ◌∷◌, ltb, ◌==◌, length, Bytes, ℤ, pos, arith,
}
use netframework.Log.Padded.{tenth, digit_char, is_zero, padded_loop, write_padded}

length-padded_loop :
    (rounds i : ℕ) (number : ℤ) (pad : ℕ) (dest : Bytes)
    → length (padded_loop rounds i number pad dest) ≡ rounds + length dest
unfolding padded_loop
length-padded_loop zero i number pad dest = omega arith
length-padded_loop (suc rounds) i number pad dest = elim (Bool-cases (is_zero number && ltb 0 i)) [
  | inl padding ↦
      rw (padded_loop, padding)
        (omega (arith, length-padded_loop rounds (suc i) number pad (pad ∷ dest)))
  | inr writing ↦
      rw (padded_loop, writing)
        (omega
          (arith, length-padded_loop rounds (suc i) (tenth number) pad (digit_char number ∷ dest)))
]

-- `writePadded` moves `*dest` by the width, whatever the number is: it writes that many bytes.
pub length-write_padded :
    (number : ℤ) (width pad : ℕ) → length (write_padded number width pad) ≡ width
unfolding write_padded
length-write_padded number width pad = omega (arith, length-padded_loop width 0 number pad [])

-- The number that a text of digits stands for, with every other byte worth what its code is above `0`.
unfoldable pub decimal : ℕ → Bytes → ℕ
decimal value [] = value
decimal value (c ∷ text) = decimal (value * 10 + (c - b'0')) text

-- With zeros as the padding there is no difference between a round that pads and one that writes.
decimal-padded_loop :
    (rounds i n : ℕ) (dest : Bytes)
    → n < 10 ^ rounds
    → decimal 0 (padded_loop rounds i (pos n) b'0' dest) ≡ decimal n dest
unfolding padded_loop tenth digit_char decimal
decimal-padded_loop zero i n dest lt = ap (λ value. decimal value dest) (omega arith)
decimal-padded_loop (suc rounds) i n dest lt =
    let step : decimal (n / 10) ((b'0' + n % 10) ∷ dest) ≡ decimal n dest =
      ap (λ value. decimal value dest) (omega arith) in
    let small : n / 10 < 10 ^ rounds = ground arith in
    elim (Bool-cases (n == 0 && ltb 0 i)) [
      | inl padding ↦
          let none_left : n ≡ 0 = ground arith in
          rw (padded_loop, padding)
            (decimal-padded_loop rounds (suc i) n _ (omega (arith, none_left, small))
              ∙ ap (λ value. decimal value dest) (omega (arith, none_left)))
      | inr writing ↦
          rw (padded_loop, writing) (decimal-padded_loop rounds (suc i) (n / 10) _ small ∙ step)
    ]

-- A number that has no more digits than the width is written in full where the padding is `0`: read
-- as a decimal number, the bytes are worth the number.
pub decimal-write_padded :
    (n width : ℕ) → n < 10 ^ width → decimal 0 (write_padded (pos n) width b'0') ≡ n
unfolding write_padded decimal
decimal-write_padded n width lt = decimal-padded_loop width 0 n [] lt
