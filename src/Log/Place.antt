-- ===== src/Log/Place.antt =====
-- `filenameSubStr` against the parts of a path, and the layout of a line of the log.
use netframework.Base.{
  ℕ, zero, suc, ◌<◌, ◌≤◌, ◌≡◌, refl, ◌∙◌, ap, sym, inl, inr, true, false, Bool-cases, some, [], ◌∷◌,
  ◌++◌, append_assoc, ◌==◌, length, length-append, drop_at, get_elem?, Bytes, All, arith,
}
use netframework.Log.Padded.{is_separator, filename_from, filename_sub_str}

-- A text without a separator.
abbrev pub IsName : Bytes → Type 0
IsName name = All (λ c. is_separator (some c) ≡ false) name

name-get : (name : Bytes) (i : ℕ) → IsName name → is_separator (get_elem? name i) ≡ false
name-get [] i all = refl
name-get (c ∷ name) zero (here, all) = here
name-get (c ∷ name) (suc i) (here, all) = name-get name i all

append-get :
    (dir : Bytes) (c : ℕ) (name : Bytes) (i : ℕ)
    → IsName name
    → length dir < i
    → is_separator (get_elem? (dir ++ (c ∷ name)) i) ≡ false
append-get dir c name zero all lt = absurd (omega arith)
append-get [] c name (suc i) all lt = name-get name i all
append-get (d ∷ dir) c name (suc i) all lt = append-get dir c name i all (omega arith)

get-append :
    (dir : Bytes) (c : ℕ) (name : Bytes) → get_elem? (dir ++ (c ∷ name)) (length dir) ≡ some c
get-append [] c name = refl
get-append (d ∷ dir) c name = get-append dir c name

-- The walk passes every place behind the last separator.
filename_from-pass :
    (n m : ℕ) (path : Bytes)
    → m ≤ n
    → ((i : ℕ) → m < i → is_separator (get_elem? path i) ≡ false)
    → filename_from n path ≡ filename_from m path
unfolding filename_from
filename_from-pass zero m path le plain =
    let e : zero ≡ m = omega arith in ap (λ at. filename_from at path) e
filename_from-pass (suc n) m path le plain = elim (Bool-cases (m == suc n)) [
  | inl same ↦ let e : suc n ≡ m = ground arith in ap (λ at. filename_from at path) e
  | inr other ↦
      let below : m ≤ n = ground arith in
      rw (filename_from, plain (suc n) (omega (arith, below)))
        (filename_from-pass n m path below plain)
]

-- Behind a directory that is not empty and a separator, `filenameSubStr` returns the rest of the
-- path, where that has no further separator.
pub filename_sub_str-append :
    (d : ℕ) (dir : Bytes) (c : ℕ) (name : Bytes)
    → is_separator (some c) ≡ true
    → IsName name
    → filename_sub_str ((d ∷ dir) ++ (c ∷ name)) ≡ name
unfolding filename_sub_str filename_from
filename_sub_str-append d dir c name separator all =
    filename_from-pass (length (d ∷ (dir ++ (c ∷ name)))) (suc (length dir))
      (d ∷ (dir ++ (c ∷ name))) (omega (arith, length-append dir (c ∷ name)))
      (λ i lt. append-get (d ∷ dir) c name i all lt)
    ∙ (let here : is_separator (get_elem? (dir ++ (c ∷ name)) (length dir)) ≡ true =
          ap is_separator (get-append dir c name) ∙ separator in
        rw here (
          drop_at (suc (length dir)) (dir ++ (c ∷ [])) name (dir ++ (c ∷ name))
            (omega (arith, length-append dir (c ∷ []))) (sym (append_assoc dir (c ∷ []) name))))

-- A path with no separator behind its first byte is returned whole, also where that byte is one.
pub filename_sub_str-whole :
    (c : ℕ) (name : Bytes) → IsName name → filename_sub_str (c ∷ name) ≡ c ∷ name
unfolding filename_sub_str filename_from
filename_sub_str-whole c name all =
    filename_from-pass (length (c ∷ name)) 0 (c ∷ name) (omega arith)
      (λ i lt. append-get [] c name i all lt)
