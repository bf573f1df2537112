-- ===== src/Log/Padded.antt =====
-- lib/log.cpp: `writePadded` and `filenameSubStr`.
use netframework.Base.{
  ℕ, zero, suc, ◌+◌, ◌-◌, ◌/◌, ◌%◌, Bool, true, false, ◌&&◌, ◌||◌, Option, none, some, [], ◌∷◌, ltb,
  ◌==◌, if◌then◌else◌, length, drop, get_elem?, Bytes, ℤ, pos, negsuc,
}

-- `number / 10` rounds towards zero.
unfoldable pub tenth : ℤ → ℤ
tenth (pos n) = pos (n / 10)
tenth (negsuc n) = if ltb n 9 then pos 0 else negsuc (suc n / 10 - 1)

-- `'0' + number % 10`, where the remainder has the sign of the number.
unfoldable pub digit_char : ℤ → ℕ
digit_char (pos n) = b'0' + n % 10
digit_char (negsuc n) = b'0' - suc n % 10

abbrev pub is_zero : ℤ → Bool
is_zero (pos n) = n == 0
is_zero (negsuc n) = false

-- The rounds that are left, and the number of those made; `dest` holds what stands behind `pos`.
unfoldable pub padded_loop : ℕ → ℕ → ℤ → ℕ → Bytes → Bytes
unfolding tenth digit_char
padded_loop zero i number pad dest = dest
padded_loop (suc rounds) i number pad dest = elim (is_zero number && ltb 0 i) [
  | true ↦ padded_loop rounds (suc i) number pad (pad ∷ dest)
  | false ↦ padded_loop rounds (suc i) (tenth number) pad (digit_char number ∷ dest)
]

-- The bytes written, the first at the old `*dest`.
unfoldable pub write_padded : ℤ → ℕ → ℕ → Bytes
unfolding padded_loop
write_padded number width pad = padded_loop width 0 number pad []

abbrev pub is_separator : Option ℕ → Bool
is_separator none = false
is_separator (some c) = c == b'/' || c == b'\\'

-- `pos` walks back from the terminating zero.
unfoldable pub filename_from : ℕ → Bytes → Bytes
filename_from zero file_path = file_path
filename_from (suc at) file_path =
    let before = filename_from at file_path in
    if is_separator (get_elem? file_path (suc at)) then drop (suc (suc at)) file_path else before

unfoldable pub filename_sub_str : Bytes → Bytes
unfolding filename_from
filename_sub_str file_path = filename_from (length file_path) file_path
