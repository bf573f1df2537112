-- ===== src/Handlers/Answers.antt =====
-- What comes back from a handler.
use mathlib.Core.List.{List}
use netframework.Base.{
  false, Bool-cases, Option, none, some, [], ◌∷◌, ℤ, if◌then◌else◌, Bytes, All, Result, ◌++◌, ok,
  err, thrown, ◌≡◌, refl, ◌∙◌, ap, sym, subst, inl, inr, Result-cases,
}
use netframework.Stream.{stream}
use netframework.Serialisation.Value.{Value, Values, an_object, cons}
use netframework.Serialisation.Value.Write.{serialize}
use netframework.Serialisation.Value.Fits.{FitsMembers}
use netframework.Rpc.Packet.{RmiPacket, deserialize_packet}
use netframework.Rpc.Call.{Argument, shapes, serialise_answer}
use netframework.Rpc.Answer.{returned_values, serialise_answer-append, read_data-serialize}
use netframework.Handlers.{
  NetInfo, net_info_at, same_id, HandlerManager, Call, new_manager, register_handler, call_handler,
  handle_packet, find_name, send_answer, Method, with_value, register_rmi,
}

-- The value that a method returns, and those that it leaves in the arguments that go back.
abbrev pub returned : Argument → Argument → Argument → Value × Value × Value × Value → Values
returned t1 t2 t3 (retval, v1, v2, v3) =
    cons retval (returned_values (with_value t1 v1 ∷ with_value t2 v2 ∷ with_value t3 v3 ∷ []))

-- A method that is given the whole text of arguments that fit runs on them, and what `sendAnswer` gets
-- is the text of its return value and of the arguments that go back, without the brace that closes it.
pub register_rmi-serialize :
    {A : Type 0} (virtual_send_answer : NetInfo → Bytes → Result A) (t1 t2 t3 : Argument)
    (method : Method) (vs : Values) (net_info : NetInfo)
    → FitsMembers (shapes (t1 ∷ t2 ∷ t3 ∷ [])) vs
    → (answer : Bytes) × (answer ++ (b'}' ∷ [])
        ≡ serialize (an_object (returned t1 t2 t3 (method vs))))
      × (register_rmi virtual_send_answer t1 t2 t3 method (serialize (an_object vs)) net_info
          ≡ virtual_send_answer net_info answer)
unfolding register_rmi
register_rmi-serialize virtual_send_answer t1 t2 t3 method vs net_info fits =
    let (retval, v1, v2, v3) = method vs in
    (
      serialise_answer retval (with_value t1 v1) (with_value t2 v2) (with_value t3 v3),
      serialise_answer-append retval (with_value t1 v1) (with_value t2 v2) (with_value t3 v3),
      rw (read_data-serialize vs (shapes (t1 ∷ t2 ∷ t3 ∷ [])) fits) refl,
    )

-- No entry of the map has a callback.
abbrev pub IsSilent : List (ℤ × NetInfo) → Type 0
IsSilent infos = All (λ entry. entry.1.has_callback ≡ false) infos

pub net_info_at-IsSilent :
    (id : ℤ) (infos : List (ℤ × NetInfo))
    → IsSilent infos
    → ((net_info_at id infos).0.has_callback ≡ false) × IsSilent (net_info_at id infos).1
unfolding net_info_at
net_info_at-IsSilent id [] silent = (refl, (refl, tt))
net_info_at-IsSilent id ((key, info) ∷ infos) silent = elim (Bool-cases (same_id id key)) [
  | inl here ↦ rw here (silent.0, silent)
  | inr further ↦
      let later = net_info_at-IsSilent id infos silent.1 in
      rw further (later.0, (silent.0, later.1))
]

module _ {H : Type 0} where
  -- The runs of a manager.
  pub data Serves : HandlerManager H → Type 0 where
    constructed : Serves new_manager
    registered :
        {m : HandlerManager H} (handler : Option (Bytes × H))
        → Serves m
        → Serves (register_handler handler m)
    handled :
        {m m' : HandlerManager H} {called : Option (Call H)} (text : Bytes) (id : ℤ)
        → Serves m
        → handle_packet text id m ≡ ok (m', called)
        → Serves m'

  -- A call without a callback for its answer.
  abbrev pub IsSilentCall : Option (Call H) → Type 0
  IsSilentCall none = Unit
  IsSilentCall (some call) = call.net_info.has_callback ≡ false

  pub call_handler-IsSilent :
      (found : Option H) (pkg : RmiPacket) (id : ℤ) (m : HandlerManager H)
      → IsSilent m.net_infos
      → IsSilent (call_handler found pkg id m).0.net_infos
        × IsSilentCall (call_handler found pkg id m).1
  unfolding call_handler
  call_handler-IsSilent none pkg id m silent = (silent, tt)
  call_handler-IsSilent (some h) pkg id m silent =
      let both = net_info_at-IsSilent id m.net_infos silent in (both.1, both.0)

  handle_packet-IsSilent :
      (text : Bytes) (id : ℤ) (m m' : HandlerManager H) (called : Option (Call H))
      → handle_packet text id m ≡ ok (m', called)
      → IsSilent m.net_infos
      → IsSilent m'.net_infos × IsSilentCall called
  unfolding handle_packet
  handle_packet-IsSilent text id m m' called e silent =
      elim (Result-cases (deserialize_packet (stream text))) [
        | inl ((pkg, s), read) ↦
            let made : handle_packet text id m
                ≡ ok (call_handler (find_name pkg.handler_name m.handlers) pkg id m) =
              rw (handle_packet, read) refl in
            let same : call_handler (find_name pkg.handler_name m.handlers) pkg id m
                ≡ (m', called) =
              cc (sym made ∙ e) in
            subst (λ x. IsSilent x.0.net_infos × IsSilentCall x.1) same
              (call_handler-IsSilent (find_name pkg.handler_name m.handlers) pkg id m silent)
        | inr (fault, read) ↦
            let made : handle_packet text id m ≡ err fault = rw (handle_packet, read) refl in
            absurd (cc (sym made ∙ e))
      ]

  Serves-IsSilent : (m : HandlerManager H) → Serves m → IsSilent m.net_infos
  unfolding register_handler
  Serves-IsSilent m constructed = tt
  Serves-IsSilent m (registered {m = m'} none run) = Serves-IsSilent m' run
  Serves-IsSilent m (registered {m = m'} (some named) run) = Serves-IsSilent m' run
  Serves-IsSilent m (handled {m = before} {m' = after} {called = called} text id run e) =
      (handle_packet-IsSilent text id before after called e (Serves-IsSilent before run)).0

-- In every run of a handler manager, whichever handlers are registered and packets arrive, and where
-- `netInfos_` is changed by the operations of the manager alone, `HandlerBase::sendAnswer` throws when it
-- gets the `NetInfo` of a call that the manager makes: a handler that does not override it cannot answer.
pub send_answer_thrown :
    {H : Type 0} (text : Bytes) (id : ℤ) (m m' : HandlerManager H) (call : Call H) (answer : Bytes)
    → Serves m
    → handle_packet text id m ≡ ok (m', some call)
    → send_answer call.net_info answer ≡ err thrown
unfolding send_answer
send_answer_thrown text id m m' call answer run e =
    let silent = (handle_packet-IsSilent text id m m' (some call) e (Serves-IsSilent m run)).1 in
    ap (λ flag. if flag then ok (call.net_info, answer) else err thrown) silent
