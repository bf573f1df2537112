-- ===== src/Database/Names.antt =====
-- Which column a name finds after the loop over the fields.
use mathlib.Core.List.{List}
use netframework.Base.{
  ℕ, suc, ◌+◌, true, false, Bool-cases, inl, inr, some, [], ◌∷◌, ◌++◌, length, All, Bytes, equal,
  equal_iff, ◌≡◌, ◌≢◌, refl, ◌∙◌, sym, ap, arith,
}
use netframework.Database.Column.{Field, assign, find_column}

find-assign :
    (name : Bytes) (i : ℕ) (data_ : List (Bytes × ℕ))
    → find_column name (assign name i data_) ≡ some i
unfolding find_column assign
find-assign name i [] =
    let same : equal name name ≡ true = (equal_iff name name).1 refl in rw same refl
find-assign name i ((key, j) ∷ rest) = elim (Bool-cases (equal key name)) [
  | inl same ↦ rw (same, same) refl
  | inr apart ↦ rw (apart, apart, find-assign name i rest) refl
]

equal_other : (name other : Bytes) → other ≢ name → equal other name ≡ false
equal_other name other apart = elim (Bool-cases (equal other name)) [
  | inl same ↦ absurd (apart ((equal_iff other name).0 same))
  | inr differs ↦ differs
]

find-assign_other :
    (name other : Bytes) (i : ℕ) (data_ : List (Bytes × ℕ))
    → other ≢ name
    → find_column name (assign other i data_) ≡ find_column name data_
unfolding find_column assign
find-assign_other name other i [] apart = rw (equal_other name other apart) refl
find-assign_other name other i ((key, j) ∷ rest) apart = elim (Bool-cases (equal key other)) [
  | inl same ↦
      let differs : equal key name ≡ false =
        equal_other name key (λ e. apart (sym ((equal_iff key other).0 same) ∙ e)) in
      rw (same, differs) refl
  | inr differs ↦ rw (differs, find-assign_other name other i rest apart) refl
]

-- The map of names after the loop, from column `i` on.
unfoldable pub assign_all : ℕ → List Field → List (Bytes × ℕ) → List (Bytes × ℕ)
unfolding assign
assign_all i [] data_ = data_
assign_all i (field ∷ fields) data_ = assign_all (suc i) fields (assign field.name i data_)

find-assign_all_other :
    (name : Bytes) (i : ℕ) (fields : List Field) (data_ : List (Bytes × ℕ))
    → All (λ field. field.name ≢ name) fields
    → find_column name (assign_all i fields data_) ≡ find_column name data_
unfolding assign_all
find-assign_all_other name i [] data_ apart = refl
find-assign_all_other name i (field ∷ fields) data_ apart =
    find-assign_all_other name (suc i) fields (assign field.name i data_) apart.1
    ∙ find-assign_other name field.name i data_ apart.0

-- The last column with a name is the one that the name finds.
pub find-assign_all :
    (i : ℕ) (before : List Field) (field : Field) (after : List Field) (data_ : List (Bytes × ℕ))
    → All (λ (other : Field). other.name ≢ field.name) after
    → find_column field.name (assign_all i (before ++ (field ∷ after)) data_)
      ≡ some (i + length before)
unfolding assign_all
find-assign_all i [] field after data_ apart =
    let same : i + 0 ≡ i = omega arith in
    find-assign_all_other field.name (suc i) after (assign field.name i data_) apart
    ∙ find-assign field.name i data_
    ∙ ap some (sym same)
find-assign_all i (first ∷ before) field after data_ apart =
    let same : suc i + length before ≡ i + suc (length before) = omega arith in
    find-assign_all (suc i) before field after (assign first.name i data_) apart ∙ ap some same
