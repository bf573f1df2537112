-- ===== src/Serialisation/Replace/Spec.antt =====
-- What `replaceInString` computes: one pass from left to right that replaces each occurrence which
-- does not overlap the one before.
use netframework.Base.{
  ℕ, zero, suc, ◌+◌, ◌-◌, ◌<◌, ◌≡◌, refl, sym, ap, ◌∙◌, true, false, none, some, [], ◌∷◌, ◌++◌,
  append_assoc, if◌then◌else◌, length, length-append, drop, take_at, drop_at, drop-append, Bytes,
  arith, Option-cases, Bool-cases, inl, inr, ◌≢◌,
}
use netframework.Serialisation.Replace.{
  starts_with, find, find_from, replace_loop, replace_in_string,
}

module _ (search replace : Bytes) where
  -- The first argument counts the bytes of an occurrence that are still to be passed over.
  unfoldable pub replaced : ℕ → Bytes → Bytes
  replaced skip [] = []
  replaced (suc skip) (x ∷ xs) = replaced skip xs
  replaced zero (x ∷ xs) =
      if starts_with search (x ∷ xs)
      then replace ++ replaced (length search - 1) xs
      else x ∷ replaced zero xs

find-empty : (xs : Bytes) → find [] xs ≡ some 0
unfolding find starts_with
find-empty [] = refl
find-empty (x ∷ xs) = refl

starts_with_split :
    (search xs : Bytes) → starts_with search xs ≡ true → (after : Bytes) × (xs ≡ search ++ after)
unfolding starts_with
starts_with_split [] xs h = (xs, refl)
starts_with_split (c ∷ search) [] h = cc
starts_with_split (c ∷ search) (x ∷ xs) h =
    let (after, e) = starts_with_split search xs (ground arith) in (after, ground (arith, e))

module _ (c : ℕ) (cs replace : Bytes) where
  replaced_skip :
      (skipped after : Bytes)
      → replaced (c ∷ cs) replace (length skipped) (skipped ++ after)
        ≡ replaced (c ∷ cs) replace zero after
  unfolding replaced
  replaced_skip [] after = refl
  replaced_skip (x ∷ xs) after = replaced_skip xs after

  replaced-find-none :
      (xs : Bytes) → find (c ∷ cs) xs ≡ none → replaced (c ∷ cs) replace zero xs ≡ xs
  unfolding find replaced
  replaced-find-none [] h = refl
  replaced-find-none (x ∷ xs) h = ground (arith, replaced-find-none xs)

  record Found (xs : Bytes) (at : ℕ) : Type 0 where
    pre : Bytes
    after : Bytes
    splits : xs ≡ pre ++ ((c ∷ cs) ++ after)
    place : length pre ≡ at
    result :
        replaced (c ∷ cs) replace zero xs ≡ pre ++ (replace ++ replaced (c ∷ cs) replace zero after)

  replaced-here :
      (x : ℕ) (xs after : Bytes)
      → starts_with (c ∷ cs) (x ∷ xs) ≡ true
      → xs ≡ cs ++ after
      → replaced (c ∷ cs) replace zero (x ∷ xs) ≡ replace ++ replaced (c ∷ cs) replace zero after
  unfolding replaced
  replaced-here x xs after here e =
      let one_less : suc (length cs) - 1 ≡ length cs = omega arith in
      rw (here, one_less, e) (ap (◌++◌ replace) (replaced_skip cs after))

  Found-here : (x : ℕ) (xs : Bytes) → starts_with (c ∷ cs) (x ∷ xs) ≡ true → Found (x ∷ xs) 0
  Found-here x xs here =
      let (after, e) = starts_with_split (c ∷ cs) (x ∷ xs) here in
      record {
        pre = [];
        after = after;
        splits = e;
        place = refl;
        result = replaced-here x xs after here (cc e);
      }

  Found-later :
      (x : ℕ) (xs : Bytes) (at : ℕ)
      → starts_with (c ∷ cs) (x ∷ xs) ≡ false
      → Found xs at
      → Found (x ∷ xs) (suc at)
  Found-later x xs at further f = record {
    pre = x ∷ f.pre;
    after = f.after;
    splits = ap (◌∷◌ x) f.splits;
    place = ap suc f.place;
    result = unfold replaced in rw further (ap (◌∷◌ x) f.result);
  }

  find-Found : (xs : Bytes) (at : ℕ) → find (c ∷ cs) xs ≡ some at → Found xs at
  unfolding find
  find-Found [] at h = unfold starts_with in cc h
  find-Found (x ∷ xs) at h = elim (Bool-cases (starts_with (c ∷ cs) (x ∷ xs))) [
    | inl here ↦ let first : 0 ≡ at = ground arith in rw (← first) (Found-here x xs here)
    | inr further ↦ elim (Option-cases (find (c ∷ cs) xs)) [
      | inl e ↦ absurd (ground arith)
      | inr (i, e) ↦
          let next : suc i ≡ at = ground arith in
          rw (← next) (Found-later x xs i further (find-Found xs i e))
    ]
  ]

  -- From `pos = length done` on, the loop replaces in what is left.
  replace_loop-replaced :
      (fuel : ℕ) (done todo : Bytes)
      → length todo < fuel
      → replace_loop fuel (done ++ todo) (length done) (c ∷ cs) replace
        ≡ some (done ++ replaced (c ∷ cs) replace zero todo)
  unfolding replace_loop
  replace_loop-replaced zero done todo lt = absurd (omega arith)
  replace_loop-replaced (suc fuel) done todo lt = elim (Option-cases (find (c ∷ cs) todo)) [
    | inl e ↦ rw (replace_loop, find_from, drop-append done todo, e, replaced-find-none todo e) refl
    | inr (at, e) ↦
        let f = find-Found todo at e in
        let front = done ++ f.pre in
        let front_length : length done + at ≡ length front =
          omega (arith, length-append done f.pre, f.place) in
        let whole : done ++ todo ≡ front ++ ((c ∷ cs) ++ f.after) =
          ap (◌++◌ done) f.splits ∙ sym (append_assoc done f.pre _) in
        let taken = take_at (length done + at) front _ (done ++ todo) front_length whole in
        let dropped =
          drop_at (length done + at + suc (length cs)) (front ++ c ∷ cs) f.after (done ++ todo)
            (omega (arith, length-append front (c ∷ cs), front_length))
            (whole ∙ sym (append_assoc front (c ∷ cs) f.after)) in
        let moved : length done + at + length replace ≡ length (front ++ replace) =
          omega (arith, length-append front replace, front_length) in
        let later = replace_loop-replaced fuel (front ++ replace) f.after (
          omega (
            arith,
            ap length f.splits,
            length-append f.pre (c ∷ cs ++ f.after),
            length-append cs f.after,
          )) in
        rw (replace_loop, find_from, drop-append done todo, e)
          (rw (taken, dropped, moved, ← append_assoc front replace f.after, later, f.result)
            (simp append_assoc))
  ]

-- For a search text that is not empty the loop ends within the fuel of `replace_in_string`, and
-- what it returns is the subject with every occurrence replaced, found from left to right without
-- overlap.
pub replace_in_string-replaced :
    (subject search replace : Bytes)
    → search ≢ []
    → replace_in_string subject search replace ≡ some (replaced search replace zero subject)
unfolding replace_in_string
replace_in_string-replaced subject [] replace ne = absurd (ne refl)
replace_in_string-replaced subject (c ∷ cs) replace ne =
    replace_loop-replaced c cs replace (length subject + 1) [] subject (omega arith)

-- With an empty search text the loop never ends, whatever the fuel.
pub replace_loop-empty :
    (fuel : ℕ) (subject replace : Bytes) (pos : ℕ) → replace_loop fuel subject pos [] replace ≡ none
unfolding replace_loop
replace_loop-empty zero subject replace pos = refl
replace_loop-empty (suc fuel) subject replace pos =
    rw (replace_loop, find_from, find-empty (drop pos subject))
      (replace_loop-empty fuel _ replace _)
