-- ===== src/Handlers/Examples.antt =====
-- A manager with one handler, and a packet for it. Handlers are numbers here.
use netframework.Base.{
  ℕ, Result, ◌++◌, ◌⊎◌, Bytes, true, false, some, [], ◌∷◌, pos, codes, equal, ok, err, thrown, ◌≡◌,
  arith,
}
use netframework.Serialisation.Value.{Values, string, an_int, a_string, an_object, nil, cons}
use netframework.Rpc.Packet.{RmiPacket, serialize_packet}
use netframework.Rpc.Call.{Argument}
use netframework.Rpc.Answer.{returned_values}
use netframework.Serialisation.Value.Write.{serialize}
use netframework.Serialisation.Value.Fits.{Fits}
use netframework.Handlers.{
  NetInfo, new_net_info, net_info_at, HandlerManager, Call, new_manager, register_handler,
  insert_name, find_name, call_handler, handle_packet, send_answer, Method,
}
use netframework.Handlers.Methods.{
  HandlerBase, new_handler, Handled, register_rmi3, handle_call, answered,
}
use netframework.Handlers.Methods.Calls.{handle_call-register_rmi3}
use netframework.Handlers.Dispatch.{handle_packet-serialize_packet}
use netframework.Handlers.Answers.{constructed, registered, send_answer_thrown}

abbrev pkg : RmiPacket
pkg = record {
  handler_name = codes "h";
  signature = codes "s";
  request_id = pos 4;
  data_ = codes "d";
}

abbrev manager : HandlerManager ℕ
manager = register_handler (some (codes "h", 5)) new_manager

abbrev called : Call ℕ
called = record {
  handler = 5;
  signature = codes "s";
  data_ = codes "d";
  net_info = record { client_id = some (pos 3); has_callback = false };
}

abbrev after : HandlerManager ℕ
after = record { handlers = manager.handlers; net_infos = (pos 3, new_net_info) ∷ [] }

send_answer_thrown_example : send_answer called.net_info (codes "{1") ≡ err thrown
unfolding handle_packet find_name register_handler insert_name equal call_handler net_info_at
send_answer_thrown_example =
    send_answer_thrown (serialize_packet pkg) (pos 3) manager after called (codes "{1")
      (registered (some (codes "h", 5)) constructed)
      (handle_packet-serialize_packet pkg (pos 3) manager (ground arith))

-- A handler with a method of a text that goes back and two that do not, and an override of `sendAnswer`
-- that keeps the answer.
abbrev constant : Argument
constant = record { shape = string; returned = false; value = a_string [] }

abbrev reference : Argument
reference = record { shape = string; returned = true; value = a_string [] }

abbrev keep_answer : NetInfo → Bytes → Result Bytes
keep_answer net_info answer = ok answer

abbrev add_user : Method
add_user vs = (an_int (pos 55), a_string (codes "u"), a_string (codes "salt"), a_string (codes "p"))

-- The name is registered before.
abbrev registering : HandlerBase Bytes
registering =
    register_rmi3 keep_answer (codes "addUser") constant constant constant add_user
      (new_handler (codes "h"))

abbrev texts : Values
texts = cons (a_string (codes "u")) (cons (a_string []) (cons (a_string (codes "p")) nil))

abbrev admin : HandlerBase Bytes
admin = register_rmi3 keep_answer (codes "addUser") constant reference constant add_user registering

abbrev reply : HandlerBase Bytes × Handled Bytes
reply = handle_call true (codes "addUser") (serialize (an_object texts)) new_net_info admin

handle_call-register_rmi3_example :
    (answer : Bytes) × (answer ++ (b'}' ∷ [])
      ≡ serialize (an_object (cons (an_int (pos 55)) (cons (a_string (codes "salt")) nil))))
    × (reply.1 ≡ answered (ok answer))
    × (reply.0.functions ≡ admin.functions)
    × ((other : Bytes)
        → (equal other (codes "addUser") ≡ true)
          ⊎ (find_name other admin.functions ≡ find_name other registering.functions))
unfolding Fits returned_values
handle_call-register_rmi3_example =
    handle_call-register_rmi3 keep_answer (codes "addUser") constant reference constant add_user
      texts new_net_info registering (ground arith)
