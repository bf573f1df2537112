-- ===== src/StringLiteral/Search.antt =====
-- The search functions against the plain search of Serialisation/Replace, which finds the first place
-- of a text.
use netframework.Base.{
  ℕ, suc, ◌+◌, ◌-◌, ◌%◌, ◌^◌, ◌≤◌, ◌<◌, ◌≡◌, refl, inl, inr, Bool, true, false, not, Option, none,
  some, [], ◌∷◌, leb, ◌==◌, if◌then◌else◌, length, take, take_all, length-take, Bytes, Result, ok,
  err, thrown, arith, ap, ◌∙◌, Bool-cases, Option-cases,
}
use netframework.Serialisation.Replace.{starts_with, find}
use netframework.StringLiteral.{
  take_front, equals, startswith, contains, find_literal, not_found, find_later,
}

take_front-take :
    (text : Bytes) (n : ℕ)
    → length text < 2 ^ 64
    → n ≤ length text
    → take_front text n ≡ ok (take n text)
unfolding take_front
take_front-take text n lt le = elim (Bool-cases (n == length text)) [
  | inl same ↦ let e : n ≡ length text = ground arith in rw (same, e, take_all text)
  | inr other ↦
      let back : (length text + 2 ^ 64 - n) % 2 ^ 64 ≡ length text - n = ground arith in
      let fits : leb (length text - n) (length text) ≡ true = ground arith in
      let kept : length text - (length text - n) ≡ n = omega arith in rw (other, back, fits, kept)
]

equals-starts_with :
    (other text : Bytes)
    → length other ≤ length text
    → equals (take (length other) text) other ≡ starts_with other text
unfolding equals starts_with
equals-starts_with [] text le = refl
equals-starts_with (d ∷ other) [] le = absurd (omega arith)
equals-starts_with (d ∷ other) (c ∷ text) le =
    let same_size : length (take (length other) text) ≡ length other =
      omega (arith, length-take (length other) text) in
    ground (arith, same_size, equals-starts_with other text (omega arith))

starts_with-short :
    (other text : Bytes) → length text < length other → starts_with other text ≡ false
unfolding starts_with
starts_with-short [] text lt = absurd (omega arith)
starts_with-short (d ∷ other) [] lt = refl
starts_with-short (d ∷ other) (c ∷ text) lt =
    ground (arith, starts_with-short other text (omega arith))

startswith-starts_with :
    (text other : Bytes)
    → length text < 2 ^ 64
    → startswith text other ≡ ok (starts_with other text)
unfolding startswith
startswith-starts_with text other lt = elim (Bool-cases (leb (length other) (length text))) [
  | inl fits ↦
      let le : length other ≤ length text = ground arith in
      rw (fits, take_front-take text (length other) lt le, equals-starts_with other text le)
  | inr longer ↦ rw (longer, starts_with-short other text (ground arith))
]

-- Whether `find` finds a place.
abbrev found : Option ℕ → Bool
found none = false
found (some i) = true

-- `contains` throws nothing, and holds just where the text has a place in the literal.
pub contains-find :
    (text other : Bytes) → length text < 2 ^ 64 → contains text other ≡ ok (found (find other text))
unfolding contains find
contains-find [] other lt = rw (startswith-starts_with [] other lt) (ground arith)
contains-find (c ∷ text) other lt =
    ground
      (arith, startswith-starts_with (c ∷ text) other lt, contains-find text other (omega arith))

abbrev place : Option ℕ → ℕ
place none = not_found
place (some i) = i

find-le : (other text : Bytes) (i : ℕ) → find other text ≡ some i → i ≤ length text
unfolding find
find-le other [] i e = ground arith
find-le other (c ∷ text) i e = elim (Option-cases (find other text)) [
  | inl no_place ↦ ground arith
  | inr (j, later) ↦ ground (arith, find-le other text j later)
]

find_later_lem :
    (text other : Bytes) (later : Result ℕ)
    → length text < 2 ^ 64
    → find_later text later other ≡ (
        if not (found (find other text))
        then ok not_found
        else if starts_with other text
        then ok 0
        else later)
unfolding find_later
find_later_lem text other later lt =
    rw (contains-find text other lt, startswith-starts_with text other lt)

-- `StringLiteral::find` throws nothing and returns the first place of the text, or -1 as a `size_t`
-- where it has none.
pub find_literal-find :
    (text other : Bytes)
    → length text < 2 ^ 64 - 1
    → find_literal text other ≡ ok (place (find other text))
unfolding find_literal find
find_literal-find [] other lt = find_later_lem [] other (err thrown) (omega arith) ∙ ground arith
find_literal-find (c ∷ text) other lt =
    find_later_lem (c ∷ text) other _ (omega arith)
    ∙ elim (Bool-cases (starts_with other (c ∷ text))) [
      | inl here ↦ rw here refl
      | inr elsewhere ↦ elim (Option-cases (find other text)) [
        | inl nowhere ↦ rw (elsewhere, nowhere) refl
        | inr (i, later) ↦
            let le : i ≤ length text = find-le other text i later in
            let small : (1 + i) % 2 ^ 64 ≡ suc i = ground arith in
            rw (elsewhere, find_literal-find text other (omega arith), later) (ap ok small)
      ]
    ]
