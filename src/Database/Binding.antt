-- ===== src/Database/Binding.antt =====
-- Values bound one after the other, and what the library reads of them in `execute`.
use mathlib.Core.List.{List, map}
use netframework.Base.{
  ℕ, zero, suc, ◌+◌, ◌-◌, ltb, leb, ◌==◌, Bool, true, false, not, [], ◌∷◌, ◌++◌, append_assoc,
  if◌then◌else◌, length, length-append, take, take-append, replicate, length-replicate, All, Bytes,
  Result, ok, ◌>>=◌, ◌≡◌, refl, ◌∙◌, sym, ap, arith,
}
use netframework.Database.Statement.{
  Param, unbound, int_param, text_param, Value, no_value, int_value, text_value, Call,
  prepare_query, report, bind_param, execute_statement, store_result, PsImpl, Answers, update_at,
  count_marks, resize_params, prepare, c_string, bind_value, bind_value_int, bind_value_str,
  read_param, read_params, fill_column_data, execute_bound, execute_params, execute,
}

-- A value to bind: a number, or a text without a zero byte.
abbrev pub Bindable : Value → Type 0
Bindable no_value = ⊥
Bindable (int_value v) = Unit
Bindable (text_value text) = All (λ c. (c == 0) ≡ false) text

-- The bind of a value by the function for its type.
unfoldable pub bind_one : ℕ → Value → PsImpl → Result (Bool × PsImpl)
unfolding bind_value_int bind_value_str
bind_one param no_value s = ok (false, s)
bind_one param (int_value v) s = bind_value_int param v s
bind_one param (text_value text) s = bind_value_str param text s

-- A caller that binds its values one after the other, from place `param` on.
unfoldable pub bind_all : ℕ → List Value → PsImpl → Result PsImpl
unfolding bind_one
bind_all param [] s = ok s
bind_all param (value ∷ values) s = bind_one param value s >>= λ r. bind_all (suc param) values r.1

abbrev pub param_of : Value → Param
param_of no_value = unbound
param_of (int_value v) = int_param v
param_of (text_value text) = text_param (c_string text) (length text)

update_at-append :
    (done : List Param) (old : Param) (rest : List Param) (bound : Param)
    → update_at (length done) (λ old. bound) (done ++ (old ∷ rest)) ≡ ok (done ++ (bound ∷ rest))
unfolding update_at
update_at-append [] old rest bound = refl
update_at-append (x ∷ done) old rest bound = rw (update_at-append done old rest bound) refl

bind_one-append :
    (value : Value) (done : List Param) (old : Param) (rest : List Param) (s : PsImpl)
    → Bindable value
    → s.stmt ≡ true
    → s.params ≡ done ++ (old ∷ rest)
    → bind_one (length done) value s
      ≡ ok (true, record s { params = done ++ (param_of value ∷ rest) })
unfolding bind_one bind_value_int bind_value_str bind_value
bind_one-append no_value done old rest s good ready e = absurd good
bind_one-append (int_value v) done old rest s good ready e =
    let fits : ltb (length (done ++ (old ∷ rest))) (length done) ≡ false =
      ground (arith, length-append done (old ∷ rest)) in
    rw (ready, e, fits, update_at-append done old rest (int_param v)) refl
bind_one-append (text_value text) done old rest s good ready e =
    let fits : ltb (length (done ++ (old ∷ rest))) (length done) ≡ false =
      ground (arith, length-append done (old ∷ rest)) in
    rw (ready, e, fits, update_at-append done old rest (text_param (c_string text) (length text)))
      refl

bind_all-append :
    (values : List Value) (done rest : List Param) (s : PsImpl)
    → All Bindable values
    → s.stmt ≡ true
    → length rest ≡ length values
    → s.params ≡ done ++ rest
    → bind_all (length done) values s ≡ ok (record s { params = done ++ map param_of values })
unfolding bind_all
bind_all-append [] done [] s good ready same e =
    ap (λ (params : List Param). ok (record s { params = params })) e
bind_all-append [] done (old ∷ rest) s good ready same e = absurd (omega (arith, same))
bind_all-append (value ∷ values) done [] s good ready same e = absurd (omega (arith, same))
bind_all-append (value ∷ values) done (old ∷ rest) s good ready same e =
    let bound : PsImpl = record s { params = done ++ (param_of value ∷ rest) } in
    let next : suc (length done) ≡ length (done ++ (param_of value ∷ [])) =
      omega (arith, length-append done (param_of value ∷ [])) in
    let split : done ++ (param_of value ∷ rest) ≡ (done ++ (param_of value ∷ [])) ++ rest =
      sym (append_assoc done (param_of value ∷ []) rest) in
    let later =
      bind_all-append values (done ++ (param_of value ∷ [])) rest bound good.1 ready
        (omega (arith, same)) split in
    rw (bind_one-append value done old rest s good.0 ready e, next)
      (later
        ∙ ap (λ (params : List Param). ok (record s { params = params }))
            (append_assoc done (param_of value ∷ []) (map param_of values)))

c_string-All : (text : Bytes) → All (λ c. (c == 0) ≡ false) text → c_string text ≡ text
c_string-All [] good = refl
c_string-All (c ∷ text) good = rw (good.0, c_string-All text good.1) refl

take_text : (text : Bytes) → take (length text) (text ++ (0 ∷ [])) ≡ text
take_text text = take-append text (0 ∷ [])

read_param-param_of : (value : Value) → Bindable value → read_param (param_of value) ≡ ok value
unfolding read_param
read_param-param_of no_value good = absurd good
read_param-param_of (int_value v) good = refl
read_param-param_of (text_value text) good =
    let inside : leb (length text) (length text + 1) ≡ true = ground arith in
    rw (c_string-All text good, inside, take_text text) refl

read_params-param_of :
    (values : List Value)
    → All Bindable values
    → read_params (length values) (map param_of values) ≡ ok values
unfolding read_params
read_params-param_of [] good = refl
read_params-param_of (value ∷ values) good =
    rw (read_param-param_of value good.0, read_params-param_of values good.1) refl

resize_grown : (n : ℕ) → replicate (suc n - 0) unbound ≡ replicate (suc n) unbound
resize_grown n =
    let same : suc n - 0 ≡ suc n = omega arith in ap (λ (m : ℕ). replicate m unbound) same

resize_params_none : (moves : Bool) (n : ℕ) → resize_params moves n [] ≡ replicate n unbound
unfolding resize_params
resize_params_none true zero = refl
resize_params_none false zero = refl
resize_params_none true (suc n) =
    let grows : ltb 0 (suc n) ≡ true = ground arith in rw grows (resize_grown n)
resize_params_none false (suc n) = resize_grown n

prepare_fresh :
    (query : Bytes) (moves : Bool) (s : PsImpl)
    → s.stmt ≡ true
    → s.params ≡ []
    → (prepare query moves false s).1.0
      ≡ record s { params = replicate (count_marks query) unbound }
unfolding prepare
prepare_fresh query moves s ready fresh =
    let prepare_if : Bool → Bool × (PsImpl × List Call) = λ go.
      (if not go then (false, (s, [])) else (
        true,
        (
          record s { params = resize_params moves (count_marks query) s.params },
          prepare_query query ∷ [],
        ),
      )) in
    ap (λ (go : Bool). (prepare_if go).1.0) ready
    ∙ ap
        (λ (params : List Param). record s {
          params = resize_params moves (count_marks query) params;
        })
        fresh
    ∙ ap (λ (params : List Param). record s { params = params })
        (resize_params_none moves (count_marks query))

module _ (answers : Answers) where
  execute_bound-read :
      (calls : List Call) (values : List Value) (s : PsImpl)
      → answers.execute_fails ≡ false
      → answers.store_result_fails ≡ false
      → read_params answers.param_count s.params ≡ ok values
      → execute_bound answers calls s ≡ (
          fill_column_data answers s >>= λ r.
          ok (true, (r.0, calls ++ (execute_statement values ∷ store_result ∷ r.1))))
  unfolding execute_bound
  execute_bound-read calls values s runs stores reads = rw (reads, runs, stores) refl

  -- `execute` on a statement whose parameters the library can read.
  pub execute-read :
      (param : Param) (params : List Param) (values : List Value) (s : PsImpl)
      → s.stmt ≡ true
      → s.params ≡ param ∷ params
      → answers.bind_param_fails ≡ false
      → answers.execute_fails ≡ false
      → answers.store_result_fails ≡ false
      → read_params answers.param_count s.params ≡ ok values
      → execute answers s ≡ (
          fill_column_data answers s >>= λ r.
          ok (true, (r.0, bind_param ∷ execute_statement values ∷ store_result ∷ r.1)))
  unfolding execute execute_params
  execute-read param params values s ready e binds runs stores reads =
      ap (λ (go : Bool). if not go then ok (false, (s, [])) else execute_params answers s.params s)
        ready
      ∙ ap (λ (ps : List Param). execute_params answers ps s) e
      ∙ ap
          (λ (fails : Bool).
            if fails
            then ok (false, (s, bind_param ∷ report ∷ []))
            else execute_bound answers (bind_param ∷ []) s)
          binds
      ∙ execute_bound-read (bind_param ∷ []) values s runs stores reads

  -- A statement without parameters, prepared with a query that has as many question marks as there
  -- are values to bind, at least one, and as many parameters: binding the values, numbers and texts
  -- without a zero byte, in their order succeeds, and `execute`, where the calls of the library
  -- return 0, hands exactly these values, in this order, to the library, and goes on with the
  -- columns of the result.
  pub execute-bind_all :
      (query : Bytes) (moves : Bool) (value : Value) (values : List Value) (s : PsImpl)
      → s.stmt ≡ true
      → s.params ≡ []
      → count_marks query ≡ length (value ∷ values)
      → answers.param_count ≡ length (value ∷ values)
      → All Bindable (value ∷ values)
      → answers.bind_param_fails ≡ false
      → answers.execute_fails ≡ false
      → answers.store_result_fails ≡ false
      → (let s' = record s { params = map param_of (value ∷ values) } in
          (bind_all 0 (value ∷ values) (prepare query moves false s).1.0 ≡ ok s')
          × (execute answers s' ≡ (
              fill_column_data answers s' >>= λ r.
              ok (
                true,
                (r.0, bind_param ∷ execute_statement (value ∷ values) ∷ store_result ∷ r.1),
              ))))
  unfolding prepare resize_params
  execute-bind_all query moves value values s ready fresh marks count good binds runs stores =
      let s' = record s { params = map param_of (value ∷ values) } in
      let reads : read_params answers.param_count (map param_of (value ∷ values))
          ≡ ok (value ∷ values) =
        ap (λ n. read_params n (map param_of (value ∷ values))) count
        ∙ read_params-param_of (value ∷ values) good in
      (
        ap (bind_all 0 (value ∷ values)) (prepare_fresh query moves s ready fresh)
            ∙ bind_all-append (value ∷ values) [] (replicate (count_marks query) unbound)
                (record s { params = replicate (count_marks query) unbound }) good ready
                (length-replicate (count_marks query) unbound ∙ marks) refl,
        execute-read (param_of value) (map param_of values) (value ∷ values) s' ready refl binds
            runs stores reads,
      )
