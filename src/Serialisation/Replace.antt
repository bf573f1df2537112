-- ===== src/Serialisation/Replace.antt =====
-- `replaceInString`: the loop over `std::string::find` and `std::string::replace`.
pub mod Spec
use netframework.Base.{
  ℕ, zero, suc, ◌+◌, ◌-◌, ◌≤◌, ◌<◌, ◌≡◌, refl, Bool, true, false, ◌&&◌, Option, none, some, [], ◌∷◌,
  ◌++◌, ◌==◌, if◌then◌else◌, length, take, drop, Bytes, arith,
}

-- `xs` begins with `search`.
unfoldable pub starts_with : Bytes → Bytes → Bool
starts_with [] xs = true
starts_with (c ∷ search) [] = false
starts_with (c ∷ search) (x ∷ xs) = x == c && starts_with search xs

-- The first place of `search` in `xs`; `none` is `npos`.
unfoldable pub find : Bytes → Bytes → Option ℕ
find search [] = if starts_with search [] then some 0 else none
find search (x ∷ xs) =
    let later = find search xs in
    if starts_with search (x ∷ xs)
    then some 0
    else elim later [ none ↦ none | some i ↦ some (suc i) ]

-- `subject.find(search, pos)`
find_from : Bytes → Bytes → ℕ → Option ℕ
find_from subject search pos = elim (find search (drop pos subject)) [
  | none ↦ none
  | some i ↦ some (pos + i)
]

-- One round of the loop for each unit of fuel; `none` is a loop that has not ended yet.
unfoldable pub replace_loop : ℕ → Bytes → ℕ → Bytes → Bytes → Option Bytes
unfolding find_from
replace_loop zero subject pos search replace = none
replace_loop (suc fuel) subject pos search replace = elim (find_from subject search pos) [
  | none ↦ some subject
  | some at ↦
      replace_loop fuel (take at subject ++ (replace ++ drop (at + length search) subject))
        (at + length replace) search replace
]

-- Each round leaves fewer bytes behind `pos`, so one more unit of fuel than there are bytes is
-- enough where `search` is not empty.
unfoldable pub replace_in_string : Bytes → Bytes → Bytes → Option Bytes
replace_in_string subject search replace =
    replace_loop (length subject + 1) subject 0 search replace
