-- ===== src/CoreProto/Examples.antt =====
-- The theorems about packets applied on a little-endian machine, and runs of the code.
use netframework.Base.{◌≡◌, refl, true, none, some, [], ◌∷◌, ◌++◌, Bytes, codes, ok, arith}
use netframework.CoreProto.LittleEndian.{little_endian}
use netframework.CoreProto.Frame.{create_packet, is_packet_complete}
use netframework.CoreProto.PacketArray.{is_packet_complete_array, fetch_data_array}
use netframework.CoreProto.RoundTrip.{fetch_data_array-create_packet}

abbrev packet : Bytes
packet = b'N' ∷ b'F' ∷ 0 ∷ 0 ∷ 0 ∷ 3 ∷ codes "abc"

create_packet-test : create_packet little_endian (codes "abc") ≡ packet
unfolding create_packet
create_packet-test = refl

is_packet_complete-test : is_packet_complete little_endian packet none ≡ (true, some 3)
unfolding is_packet_complete
is_packet_complete-test = refl

is_packet_complete_array-test : is_packet_complete_array little_endian packet none ≡ (true, some 3)
unfolding is_packet_complete_array
is_packet_complete_array-test = refl

fetch_data_array-create_packet_example :
    (is_packet_complete_array little_endian
        (create_packet little_endian (codes "abc") ++ 0 ∷ 0 ∷ [])
        none
      ≡ (true, some 3))
    × (fetch_data_array (create_packet little_endian (codes "abc") ++ 0 ∷ 0 ∷ []) 3
        ≡ ok (codes "abc"))
fetch_data_array-create_packet_example =
    fetch_data_array-create_packet little_endian (codes "abc") (0 ∷ 0 ∷ []) none (omega arith)
