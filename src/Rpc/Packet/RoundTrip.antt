-- ===== src/Rpc/Packet/RoundTrip.antt =====
-- A packet that is written is read back.
use netframework.Base.{All, ◌≡◌, ◌++◌, [], append-nil, ok, ◌>>=◌, ap, ◌∙◌, sym}
use netframework.Stream.{stream, at_end}
use netframework.Serialisation.Number.RoundTrip.{IsInt}
use netframework.Serialisation.Value.Read.{deserialize}
use netframework.Serialisation.Value.Write.{serialize}
use netframework.Serialisation.Value.Fits.{Fits, IsPlain}
use netframework.Serialisation.Value.RoundTrip.{deserialize-serialize}
use netframework.Serialisation.Value.Tokens.{last}
use netframework.Rpc.Packet.{
  packet_of, RmiPacket, packet_value, packet_shape, serialize_packet, deserialize_packet,
}

-- The names and the data hold no quote, backslash or brace.
abbrev pub IsPlainPacket : RmiPacket → Type 0
IsPlainPacket p =
    All IsPlain p.handler_name × All IsPlain p.signature × IsInt p.request_id × All IsPlain p.data_

packet-Fits : (p : RmiPacket) → IsPlainPacket p → Fits packet_shape (packet_value p)
unfolding Fits
packet-Fits p (h, s, r, d) = (h, (s, (r, (d, tt))))

-- A packet whose names and data hold no quote, backslash or brace, and whose request number is an
-- `int`, is read back from what `serialize` writes for it, to the end of the text.
pub deserialize_packet-serialize_packet :
    (p : RmiPacket)
    → IsPlainPacket p
    → deserialize_packet (stream (serialize_packet p)) ≡ ok (p, at_end)
unfolding deserialize_packet serialize_packet
deserialize_packet-serialize_packet p plain =
    let whole =
      deserialize-serialize (packet_value p) packet_shape [] at_end (packet-Fits p plain) last in
    let text : serialize (packet_value p) ++ [] ≡ serialize (packet_value p) = append-nil _ in
    let read : deserialize packet_shape (stream (serialize (packet_value p)))
        ≡ ok (packet_value p, at_end) =
      ap (λ t. deserialize packet_shape (stream t)) (sym text) ∙ whole in
    ap (λ r. r >>= λ x. packet_of x.0 >>= λ q. ok (q, x.1)) read
