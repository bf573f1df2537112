-- ===== src/Base/Maps.antt =====
-- Maps as functions, and counts of the elements of a list that pass a test.
use Prim.Native.Nat.{ℕ, ◌+◌, ◌≤◌}
use mathlib.Core.Path.{◌≡◌}
use mathlib.Core.Bool.{Bool, true, false}
use mathlib.Core.List.{List, [], ◌∷◌, ◌++◌}
use native.Mathlib.Omega.{arith}
use netframework.Base.Tests.{◌==◌, if◌then◌else◌}

abbrev pub update {ℓ} : {A : Type ℓ} → (ℕ → A) → ℕ → A → ℕ → A
update f i value other = if i == other then value else f other

abbrev pub bit : Bool → ℕ
bit true = 1
bit false = 0

module _ {ℓ} {A : Type ℓ} (test : A → Bool) where
  unfoldable pub count : List A → ℕ
  count [] = 0
  count (x ∷ xs) = bit (test x) + count xs

  pub count-append : (xs ys : List A) → count (xs ++ ys) ≡ count xs + count ys
  unfolding count
  count-append [] ys = omega arith
  count-append (x ∷ xs) ys = omega (arith, count-append xs ys)

  -- One element apart from the others.
  pub count_split :
      (before : List A) (x : A) (after : List A)
      → count (before ++ (x ∷ after)) ≡ count (before ++ after) + bit (test x)
  unfolding count
  count_split [] x after = omega arith
  count_split (y ∷ before) x after = omega (arith, count_split before x after)

  pub count_last : (xs : List A) (x : A) → count (xs ++ (x ∷ [])) ≡ count xs + bit (test x)
  unfolding count
  count_last [] x = omega arith
  count_last (y ∷ xs) x = omega (arith, count_last xs x)

-- A stronger test counts no more.
pub count-le {ℓ} :
    {A : Type ℓ} (test other : A → Bool) (xs : List A)
    → ((x : A) → bit (test x) ≤ bit (other x))
    → count test xs ≤ count other xs
unfolding count
count-le test other [] weaker = omega arith
count-le test other (x ∷ xs) weaker = omega (arith, weaker x, count-le test other xs weaker)
