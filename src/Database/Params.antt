-- ===== src/Database/Params.antt =====
-- The parameters of a prepared statement: what binding a value does at each place.
use mathlib.Core.List.{List}
use netframework.Base.{
  ℕ, zero, suc, ◌<◌, ltb, ◌==◌, Bool, true, false, Bool-cases, inl, inr, [], ◌∷◌, if◌then◌else◌,
  length, Bytes, Result, ok, err, undefined, ℤ, ◌≡◌, refl, ◌∙◌, sym, ap, arith,
}
use netframework.Database.Statement.{
  Param, int_param, text_param, PsImpl, update_at, c_string, bind_value, bind_value_int,
  bind_value_str,
}

-- A list with another element at a place inside it.
unfoldable pub set_at {ℓ} : {A : Type ℓ} → ℕ → A → List A → List A
set_at i a [] = []
set_at zero a (x ∷ xs) = a ∷ xs
set_at (suc i) a (x ∷ xs) = x ∷ set_at i a xs

update_at-inside :
    (i : ℕ) (bound : Param) (params : List Param)
    → i < length params
    → update_at i (λ old. bound) params ≡ ok (set_at i bound params)
unfolding update_at set_at
update_at-inside i bound [] inside = absurd (omega arith)
update_at-inside zero bound (x ∷ params) inside = refl
update_at-inside (suc i) bound (x ∷ params) inside =
    rw (update_at-inside i bound params (omega arith)) refl

update_at-end :
    (bound : Param) (params : List Param)
    → update_at (length params) (λ old. bound) params ≡ err undefined
unfolding update_at
update_at-end bound [] = refl
update_at-end bound (x ∷ params) = rw (update_at-end bound params) refl

-- What a bind at a place does, in the three cases of its order with the number of parameters.
abbrev pub bound_at : ℕ → Param → PsImpl → Result (Bool × PsImpl)
bound_at param bound s =
    if ltb param (length s.params)
    then ok (true, record s { params = set_at param bound s.params })
    else if param == length s.params
    then err undefined
    else ok (false, s)

bind_value_places :
    (param : ℕ) (bound : Param) (s : PsImpl)
    → s.stmt ≡ true
    → bind_value param bound s ≡ bound_at param bound s
unfolding bind_value
bind_value_places param bound s ready = elim (Bool-cases (ltb param (length s.params))) [
  | inl inside ↦
      let fits : ltb (length s.params) param ≡ false = ground arith in
      rw (ready, fits, inside, update_at-inside param bound s.params (ground arith)) refl
  | inr outside ↦ elim (Bool-cases (param == length s.params)) [
    | inl end ↦
        let e : length s.params ≡ param = ground arith in
        let fits : ltb (length s.params) param ≡ false = ground arith in
        let nowhere : update_at param (λ old. bound) s.params ≡ err undefined =
          ap (λ i. update_at i (λ (old : Param). bound) s.params) (sym e)
          ∙ update_at-end bound s.params in
        rw (ready, fits, outside, end, nowhere) refl
    | inr beyond ↦
        let large : ltb (length s.params) param ≡ true = ground arith in
        rw (ready, large, outside, beyond) refl
  ]
]

-- On a statement with a handle, a bind of a number or of a text at a place below the number of
-- parameters returns true and changes that parameter alone; behind the end it returns false and
-- changes nothing; and at the end itself, which the guard lets pass, it writes outside the vectors.
pub bind_value_int-bind_value_str :
    (param : ℕ) (v : ℤ) (text : Bytes) (s : PsImpl)
    → s.stmt ≡ true
    → (bind_value_int param v s ≡ bound_at param (int_param v) s)
      × (bind_value_str param text s ≡ bound_at param (text_param (c_string text) (length text)) s)
unfolding bind_value_int bind_value_str
bind_value_int-bind_value_str param v text s ready = (
  bind_value_places param (int_param v) s ready,
  bind_value_places param (text_param (c_string text) (length text)) s ready,
)
