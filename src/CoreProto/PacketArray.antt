-- ===== src/CoreProto/PacketArray.antt =====
-- `isPacketComplete` and `fetchData` on `const char (&data)[size]`. The list is the whole array:
-- `size` is a constant of the type, and no count of received bytes takes part.
use netframework.Base.{
  ℕ, ◌+◌, ◌%◌, ◌^◌, ◌≡◌, Bool, true, false, not, Option, some, [], ltb, if◌then◌else◌, length, take,
  drop, Bytes, Result, ok, arith,
}
use netframework.CoreProto.Host.{Host}
use netframework.CoreProto.Frame.{header_size, max_packet_size, has_magic, read_bytes, read_size}

unfoldable pub is_packet_complete_array : Host → Bytes → Option ℕ → Bool × Option ℕ
is_packet_complete_array h bs pkg_size =
    if not (has_magic bs)
    then (false, pkg_size)
    else if ltb max_packet_size (read_size h bs)
    then (false, some (read_size h bs))
    else if ltb (length bs) ((read_size h bs + header_size) % 2 ^ 32)
    then (false, some (read_size h bs))
    else (true, some (read_size h bs))

unfoldable pub fetch_data_array : Bytes → ℕ → Result Bytes
fetch_data_array bs bytes =
    if ltb (length bs + header_size) bytes then ok [] else read_bytes bs header_size bytes

-- Where `isPacketComplete` holds of an array, `fetchData` with the size that it set reads inside
-- the array, and gives that many bytes from behind the header.
pub fetch_data_array_complete :
    (h : Host) (bs : Bytes) (p : Option ℕ) (n : ℕ)
    → is_packet_complete_array h bs p ≡ (true, some n)
    → fetch_data_array bs n ≡ ok (take n (drop header_size bs))
unfolding is_packet_complete_array fetch_data_array
fetch_data_array_complete h bs p n e = ground arith
