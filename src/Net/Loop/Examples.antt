-- ===== src/Net/Loop/Examples.antt =====
-- A server that accepts one client, and what its reads bring.
use mathlib.Core.List.{flatten}
use netframework.Base.{
  ℕ, equal, update, false, true, some, none, [], ◌∷◌, ◌++◌, codes, length, Bytes, ok, err,
  invalid_argument, arith, replicate, pos, List, ◌≡◌, refl,
}
use netframework.CoreProto.Host.{network_order}
use netframework.CoreProto.LittleEndian.{little_endian}
use netframework.CoreProto.Frame.{create_packet}
use netframework.Session.{Session, new_session, start}
use netframework.Rpc.Packet.{RmiPacket, serialize_packet}
use netframework.Serialisation.Value.Write.{serialize}
use netframework.Handlers.{Call, find_name}
use netframework.Net.{handle_accept}
use netframework.Net.Loop.{
  Operation, accepting, handshaking, Pending, NetBase, Completion, start_accept, act, act_all,
  on_session, with_client_id, perform, perform_all, accepted, complete, new_net_base,
}
use netframework.Net.Loop.Validity.{IsValid}
use netframework.Net.Loop.Runs.{Runs, started, completed, Runs-IsValid}
use netframework.Net.Loop.Failure.{Ends, complete-Ends}
use netframework.Net.Loop.Traffic.{reads}
use netframework.Net.Loop.Calls.{IsShortPacket, packet_of, calls_of, reads-calls_of}
use netframework.Net.Loop.Delivery.{reads-large}

abbrev memory : Bytes
memory = replicate 1024 0

-- The handlers are numbers.
abbrev begun : NetBase ℕ
unfolding start_accept
begun = start_accept 40 memory new_net_base

abbrev op : Operation → ℕ → Pending
op operation pointer = record { operation = operation; pointer = pointer }

abbrev arrives : Completion
arrives = record { error = false; chunk = []; fresh = 41; memory = memory }

abbrev fails : Completion
fails = record { error = true; chunk = []; fresh = 42; memory = memory }

abbrev client : Session
client = record (new_session memory) { client_id = pos 0 }

abbrev joined : NetBase ℕ
joined = record {
  impl = record { sessions = record { pointer = 40; client_id = 0 } ∷ []; next_id = 1 };
  objects =
      update
        (update (update (update (λ pointer. none) 40 (some (new_session memory))) 40 (some client))
          40 (some client))
        41 (some (new_session memory));
  pending = op handshaking 40 ∷ op accepting 41 ∷ [];
  manager = record { handlers = []; net_infos = [] };
  calls = [];
}

joined-Runs : Runs little_endian joined
unfolding complete start_accept accepted handle_accept perform_all perform on_session with_client_id
    act_all act start
joined-Runs =
    completed [] (op accepting 40) [] arrives begun joined (started [] 40 memory) refl refl refl

Runs-IsValid_example : IsValid 1 joined
Runs-IsValid_example = Runs-IsValid little_endian joined joined-Runs

complete-Ends_example :
    Ends 40
      (record joined { pending = op accepting 41 ∷ [] })
      (complete little_endian handshaking fails 40
        (record joined { pending = op accepting 41 ∷ [] }))
complete-Ends_example =
    complete-Ends little_endian [] (op handshaking 40) (op accepting 41 ∷ []) fails joined
      joined-Runs refl refl refl

abbrev others : List Pending
others = op accepting 41 ∷ []

abbrev large : Bytes
large = replicate 1100 7

abbrev first_chunk : Bytes
first_chunk = b'N' ∷ b'F' ∷ (network_order 1100 ++ replicate 1000 7)

reads-large_example :
    reads little_endian others 40 (first_chunk ∷ replicate 60 7 ∷ replicate 40 7 ∷ []) joined
    ≡ err invalid_argument
unfolding new_session
reads-large_example =
    reads-large little_endian others 40 client large first_chunk (replicate 40 7)
      (replicate 60 7 ∷ []) joined refl refl refl (unfold create_packet flatten in refl)
      (omega arith) (omega arith) (omega arith) (omega arith) (omega arith)

abbrev ping : RmiPacket
ping = record {
  handler_name = codes "calc";
  signature = codes "ping";
  request_id = pos 1;
  data_ = [];
}

ping_length : length (serialize_packet ping) ≡ 20
unfolding serialize_packet serialize
ping_length = refl

abbrev serving : NetBase ℕ
serving = record begun { manager = record { handlers = (codes "calc", 7) ∷ []; net_infos = [] } }

-- A server with a handler, whose client pings it twice.
abbrev pinged : NetBase ℕ
pinged = record joined { manager = record { handlers = (codes "calc", 7) ∷ []; net_infos = [] } }

abbrev pinging : Call ℕ
pinging = record {
  handler = 7;
  signature = codes "ping";
  data_ = [];
  net_info = record { client_id = some (pos 0); has_callback = false };
}

reads-calls_of_example :
    (s' : NetBase ℕ) × (reads little_endian others 40
        (packet_of little_endian ping ∷ packet_of little_endian ping ∷ [])
        pinged
      ≡ ok s')
    × (s'.calls ≡ pinging ∷ pinging ∷ [])
    × (s'.manager.handlers ≡ (codes "calc", 7) ∷ [])
unfolding new_session calls_of find_name equal
reads-calls_of_example =
    let short : IsShortPacket ping = (ground arith, omega (arith, ping_length)) in
    reads-calls_of little_endian others 40 (ping ∷ ping ∷ []) client pinged refl refl tt
      (short, (short, tt))
