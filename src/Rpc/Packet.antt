-- ===== src/Rpc/Packet.antt =====
-- lib/rmipacket.h: `RMIPacket`, which carries a call to a handler.
pub mod RoundTrip
use netframework.Base.{Bytes, ℤ, negsuc, [], Result, ok, err, undefined, ◌>>=◌}
use netframework.Stream.{IStream}
use netframework.Serialisation.Value.{
  Shape, int, string, object, end, member, Value, an_int, a_string, an_object, nil, cons,
}
use netframework.Serialisation.Value.Write.{serialize}
use netframework.Serialisation.Value.Read.{deserialize}

pub record RmiPacket : Type 0 where
  pub handler_name : Bytes
  pub signature : Bytes
  pub request_id : ℤ
  pub data_ : Bytes

-- `RMIPacket()`
abbrev pub new_packet : RmiPacket
new_packet = record { handler_name = []; signature = []; request_id = negsuc 0; data_ = [] }

-- The members, in the order of both functions.
abbrev pub packet_shape : Shape
packet_shape = object (member string (member string (member int (member string end))))

abbrev pub packet_value : RmiPacket → Value
packet_value p = an_object (
    cons (a_string p.handler_name)
      (cons (a_string p.signature) (cons (an_int p.request_id) (cons (a_string p.data_) nil))))

-- Only a value of the packet's shape is asked for, which is all that `deserialize` returns for it.
abbrev pub packet_of : Value → Result RmiPacket
packet_of
      (an_object
        (cons (a_string h) (cons (a_string s) (cons (an_int r) (cons (a_string d) nil))))) =
    ok record { handler_name = h; signature = s; request_id = r; data_ = d }
packet_of _ = err undefined

unfoldable pub serialize_packet : RmiPacket → Bytes
serialize_packet p = serialize (packet_value p)

unfoldable pub deserialize_packet : IStream → Result (RmiPacket × IStream)
deserialize_packet s = do (v, s') ← deserialize packet_shape s; p ← packet_of v; ok (p, s')
