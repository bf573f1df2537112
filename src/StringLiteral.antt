-- ===== src/StringLiteral.antt =====
-- lib/consthelpers.hpp: `StringLiteral`, the text of a type at compile time. A literal is its bytes;
-- `err thrown` is a member function that throws.
pub mod Search
mod Examples
use netframework.Base.{
  ℕ, ◌+◌, ◌-◌, ◌%◌, ◌^◌, Bool, true, false, not, ◌&&◌, ◌||◌, [], ◌∷◌, leb, ◌==◌, if◌then◌else◌,
  length, take, drop, Bytes, Result, ok, err, thrown, ◌>>=◌,
}

abbrev pub size : Bytes → ℕ
size = length

unfoldable pub front : Bytes → Result ℕ
front [] = err thrown
front (c ∷ text) = ok c

unfoldable pub drop_front : Bytes → ℕ → Result Bytes
drop_front text count = if leb count (size text) then ok (drop count text) else err thrown

unfoldable pub drop_back : Bytes → ℕ → Result Bytes
drop_back text count =
    if leb count (size text) then ok (take (size text - count) text) else err thrown

-- `size() - count` is a `size_t`.
unfoldable pub take_front : Bytes → ℕ → Result Bytes
unfolding drop_back
take_front text count =
    if count == size text then ok text else drop_back text ((size text + 2 ^ 64 - count) % 2 ^ 64)

-- `operator==`
unfoldable pub equals : Bytes → Bytes → Bool
equals [] other = 0 == size other
equals (c ∷ text) [] = false
equals (c ∷ text) (d ∷ other) = size (c ∷ text) == size (d ∷ other) && (c == d && equals text other)

unfoldable pub startswith : Bytes → Bytes → Result Bool
unfolding take_front equals
startswith text other =
    if leb (size other) (size text)
    then (do begin ← take_front text (size other); ok (equals begin other))
    else ok false

unfoldable pub contains_char : Bytes → ℕ → Bool
contains_char [] c = false
contains_char (x ∷ text) c = x == c || contains_char text c

unfoldable pub contains : Bytes → Bytes → Result Bool
unfolding startswith
contains [] other = startswith [] other
contains (c ∷ text) other =
    let later = contains text other in
    do here ← startswith (c ∷ text) other; if here then ok true else later

-- `-1`, as a `size_t`.
abbrev pub not_found : ℕ
not_found = 2 ^ 64 - 1

find_later : Bytes → Result ℕ → Bytes → Result ℕ
unfolding contains startswith
find_later text later other = do
  held ← contains text other
  here ← startswith text other
  if not held then ok not_found else if here then ok 0 else later

unfoldable pub find_literal : Bytes → Bytes → Result ℕ
unfolding find_later
find_literal [] other = find_later [] (err thrown) other
find_literal (c ∷ text) other =
    let later = find_literal text other in
    find_later (c ∷ text) (later >>= λ n. ok ((1 + n) % 2 ^ 64)) other
