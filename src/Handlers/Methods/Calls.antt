-- ===== src/Handlers/Methods/Calls.antt =====
-- A call of a registered method.
use mathlib.Core.List.{List}
use netframework.Base.{
  true, Bool-cases, inl, inr, some, [], ◌∷◌, if◌then◌else◌, Bytes, equal, equal_iff, Result, ◌++◌,
  ◌⊎◌, ok, err, ◌≡◌, refl, ◌∙◌, sym, ap,
}
use netframework.Serialisation.Value.{Values, an_object}
use netframework.Serialisation.Value.Write.{serialize}
use netframework.Serialisation.Value.Fits.{FitsMembers}
use netframework.Rpc.Call.{Argument, shapes}
use netframework.Handlers.{NetInfo, find_name, Method, register_rmi}
use netframework.Handlers.Answers.{returned, register_rmi-serialize}
use netframework.Handlers.Methods.{
  Function, HandlerBase, assign_name, register_function, register_rmi3, answered, after_function,
  call_function, handle_call,
}

find_name-assign_name {ℓ} :
    {A : Type ℓ} (name key : Bytes) (item : A) (items : List (Bytes × A))
    → find_name name (assign_name key item items)
      ≡ (if equal name key then some item else find_name name items)
unfolding find_name assign_name
find_name-assign_name name key item [] = refl
find_name-assign_name name key item ((other, old) ∷ items) = elim (Bool-cases (equal key other)) [
  | inl there ↦
      let same : key ≡ other = (equal_iff key other).0 there in
      let as_key : equal name key ≡ equal name other = ap (equal name) same in
      elim (Bool-cases (equal name other)) [
        | inl found ↦ rw (there, found, as_key, found) refl
        | inr differs ↦ rw (there, differs, as_key, differs) refl
      ]
  | inr further ↦ elim (Bool-cases (equal name other)) [
    | inl found ↦
        rw (further, found)
          (elim (Bool-cases (equal name key)) [
            | inl named ↦
                let same : key ≡ other =
                  sym ((equal_iff name key).0 named) ∙ (equal_iff name other).0 found in
                absurd (cc ((equal_iff key other).1 same))
            | inr apart ↦ rw apart refl
          ])
    | inr differs ↦ rw (further, differs) (find_name-assign_name name key item items)
  ]
]

module _ {A : Type 0} where
  after_function-answered :
      (net_info : NetInfo) (result : Result A) (s : HandlerBase A)
      → ((after_function net_info result s).1 ≡ answered result)
        × ((after_function net_info result s).0.functions ≡ s.functions)
  unfolding after_function
  after_function-answered net_info (ok answer) s = (refl, refl)
  after_function-answered net_info (err fault) s = (refl, refl)

  handle_call-register_function :
      (name : Bytes) (function : Function A) (text : Bytes) (net_info : NetInfo) (s : HandlerBase A)
      → handle_call true name text net_info (register_function name function s)
        ≡ after_function net_info (function text net_info) (register_function name function s)
  unfolding handle_call call_function register_function
  handle_call-register_function name function text net_info s =
      let own : equal name name ≡ true = (equal_iff name name).1 refl in
      let found : find_name name (assign_name name function s.functions) ≡ some function =
        find_name-assign_name name name function s.functions ∙ rw own refl in
      rw found refl

  -- A method that `REGISTER_RMI3` registers, under a name that may be registered already, runs on the
  -- arguments of a call in the handler's own thread whose data is their whole text, where they fit their
  -- types, and the call does what the handler's `sendAnswer`, overridden or not, does with an answer, which
  -- lacks only its closing brace to be the text of the return value and of the values that the method left
  -- in the arguments that go back; the call leaves the registered functions as they are, and what was found
  -- under other names is found still.
  pub handle_call-register_rmi3 :
      (virtual_send_answer : NetInfo → Bytes → Result A) (name : Bytes) (t1 t2 t3 : Argument)
      (method : Method) (vs : Values) (net_info : NetInfo) (s : HandlerBase A)
      → FitsMembers (shapes (t1 ∷ t2 ∷ t3 ∷ [])) vs
      → let s1 = register_rmi3 virtual_send_answer name t1 t2 t3 method s in
        let (s', handled) = handle_call true name (serialize (an_object vs)) net_info s1 in
        (answer : Bytes) × (answer ++ (b'}' ∷ [])
          ≡ serialize (an_object (returned t1 t2 t3 (method vs))))
        × (handled ≡ answered (virtual_send_answer net_info answer))
        × (s'.functions ≡ s1.functions)
        × ((other : Bytes)
            → (equal other name ≡ true)
              ⊎ (find_name other s1.functions ≡ find_name other s.functions))
  unfolding register_rmi3 register_function
  handle_call-register_rmi3 virtual_send_answer name t1 t2 t3 method vs net_info s fits =
      let function = register_rmi virtual_send_answer t1 t2 t3 method in
      let s1 = register_function name function s in
      let (answer, whole, sent) =
        register_rmi-serialize virtual_send_answer t1 t2 t3 method vs net_info fits in
      let calls =
        handle_call-register_function name function (serialize (an_object vs)) net_info s in
      let (result, same) =
        after_function-answered net_info (function (serialize (an_object vs)) net_info) s1 in
      (
        answer,
        whole,
        ap (λ r. r.1) calls ∙ result ∙ ap answered sent,
        ap (λ r. r.0.functions) calls ∙ same,
        λ other. elim (Bool-cases (equal other name)) [
          | inl named ↦ inl named
          | inr apart ↦ inr (find_name-assign_name other name function s.functions ∙ rw apart refl)
        ],
      )
