-- ===== src/Handlers/Methods.antt =====
-- lib/handlerbase.h and lib/handlerbase.cpp: the methods of a handler, which `REGISTER_RMI3` registers, and
-- the call of one. The macros `REGISTER_RMI0` to `REGISTER_RMI2` cannot be used: they call overloads of
-- `serialiseAnswer` that are not there.
pub mod Calls
use mathlib.Core.List.{List}
use netframework.Base.{
  Bool, true, false, Bool-cases, inl, inr, Option, none, some, [], ◌∷◌, if◌then◌else◌, Bytes, equal,
  equal_iff, Result, ok, err, thrown, length, ◌≤◌, arith, ◌>>=◌, ◌≡◌, refl, ◌∙◌, sym, ap, subst,
}
use netframework.Serialisation.Value.{Value, Values, an_object, nil, cons}
use netframework.Serialisation.Value.Write.{serialize}
use netframework.Serialisation.Value.Fits.{FitsMembers}
use netframework.Rpc.Call.{Argument, shapes, serialise_answer}
use netframework.Handlers.{NetInfo, new_net_info, find_name, send_answer, Method, register_rmi}

-- What a registered function does; `A` is what the virtual method `sendAnswer` leaves behind.
abbrev pub Function : Type 0 → Type 0
Function A = Bytes → NetInfo → Result A

pub record HandlerBase (A : Type 0) : Type 0 where
  pub handler_name : Bytes
  pub functions : List (Bytes × Function A)
  pub curr_net_info : NetInfo

-- The assignment to `functions_[name]`, which replaces what is there.
unfoldable pub assign_name {ℓ} : {A : Type ℓ} → Bytes → A → List (Bytes × A) → List (Bytes × A)
assign_name name item [] = (name, item) ∷ []
assign_name name item ((key, other) ∷ items) =
    let rest = assign_name name item items in
    if equal name key then (key, item) ∷ items else (key, other) ∷ rest

-- What a call does: from another thread it is left to the handler's own, a name that is not registered
-- does nothing, and a function returns or throws.
pub data Handled (A : Type 0) : Type 0 where
  posted unknown : Handled A
  answered : Result A → Handled A

module _ {A : Type 0} where
  -- `HandlerBase::HandlerBase`
  abbrev pub new_handler : Bytes → HandlerBase A
  new_handler name = record { handler_name = name; functions = []; curr_net_info = new_net_info }

  unfoldable pub register_function : Bytes → Function A → HandlerBase A → HandlerBase A
  unfolding assign_name
  register_function name function s = record s { functions = assign_name name function s.functions }

  unfoldable pub register_rmi3 :
      (NetInfo → Bytes → Result A)
      → Bytes
      → Argument
      → Argument
      → Argument
      → Method
      → HandlerBase A
      → HandlerBase A
  unfolding register_function
  register_rmi3 virtual_send_answer name t1 t2 t3 method s =
      register_function name (register_rmi virtual_send_answer t1 t2 t3 method) s

  -- `currNetInfo_` is set back only where the function returns.
  unfoldable pub after_function : NetInfo → Result A → HandlerBase A → HandlerBase A × Handled A
  after_function net_info (ok answer) s =
      (record s { curr_net_info = new_net_info }, answered (ok answer))
  after_function net_info (err fault) s =
      (record s { curr_net_info = net_info }, answered (err fault))

  unfoldable pub call_function :
      Option (Function A) → Bytes → NetInfo → HandlerBase A → HandlerBase A × Handled A
  unfolding after_function
  call_function none text net_info s = (s, unknown)
  call_function (some function) text net_info s = after_function net_info (function text net_info) s

  -- `HandlerBase::handleCall`; the flag is what `checkThread` returns.
  unfoldable pub handle_call :
      Bool → Bytes → Bytes → NetInfo → HandlerBase A → HandlerBase A × Handled A
  unfolding call_function find_name
  handle_call false signature text net_info s = (s, posted)
  handle_call true signature text net_info s =
      call_function (find_name signature s.functions) text net_info s
