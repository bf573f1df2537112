-- ===== src/CoreProto/Frame.antt =====
-- `createPacket`, `isPacketComplete` and `fetchData` on `std::vector<char>`, and `isPacketStart`.
use netframework.Base.{
  ℕ, ◌+◌, ◌%◌, ◌^◌, Bool, true, false, not, ◌&&◌, Option, some, [], ◌∷◌, ◌++◌, ltb, ◌==◌,
  if◌then◌else◌, length, take, drop, Bytes, Result, ok, err, undefined,
}
use netframework.CoreProto.Host.{Host}

abbrev pub header_size : ℕ
header_size = 6

abbrev pub magic_size : ℕ
magic_size = 2

-- 0x3FFFFFFF, 1GB
abbrev pub max_packet_size : ℕ
max_packet_size = 0x3fff_ffff

-- A write of `ws` into `bs` from index `i`.
abbrev pub write_at : ℕ → Bytes → Bytes → Bytes
write_at i ws bs = take i bs ++ (ws ++ drop (i + length ws) bs)

-- `data[0] == 'N' && data[1] == 'F'`
abbrev pub has_magic : Bytes → Bool
has_magic (a ∷ b ∷ _) = a == b'N' && b == b'F'
has_magic _ = false

-- `n` bytes from `&data[i]`: undefined where they reach behind the end.
abbrev pub read_bytes : Bytes → ℕ → ℕ → Result Bytes
read_bytes bs i n = if ltb (length bs) (i + n) then err undefined else ok (take n (drop i bs))

module _ (h : Host) where
  -- `ntohl(*reinterpret_cast<const uint32_t*>(&data[magicSize]))`
  abbrev pub read_size : Bytes → ℕ
  read_size bs = h.ntohl (h.load32 (take 4 (drop magic_size bs)))

  unfoldable pub create_packet : Bytes → Bytes
  create_packet bytes =
      let ret : Bytes = b'N' ∷ b'F' ∷ 0 ∷ 0 ∷ 0 ∷ 0 ∷ [] in
      write_at magic_size (h.store32 (h.htonl (length bytes % 2 ^ 32))) ret ++ bytes

  -- The result, and `pkgSize` after the call; `none` is a variable that nothing has set.
  unfoldable pub is_packet_complete : Bytes → Option ℕ → Bool × Option ℕ
  is_packet_complete bs pkg_size =
      if ltb (length bs) header_size
      then (false, pkg_size)
      else if not (has_magic bs)
      then (false, pkg_size)
      else if ltb max_packet_size (read_size bs)
      then (false, some (read_size bs))
      else if ltb (length bs) ((read_size bs + header_size) % 2 ^ 32)
      then (false, some (read_size bs))
      else (true, some (read_size bs))

unfoldable pub fetch_data : Bytes → ℕ → Result Bytes
fetch_data bs bytes =
    if ltb header_size (length bs)
    then ok []
    else if ltb (length bs + header_size) bytes
    then ok []
    else read_bytes bs header_size bytes

-- On `char[size]`; `size` is the length of the list.
unfoldable pub is_packet_start : Bytes → Bool
is_packet_start bs =
    if ltb (length bs) header_size then false else if not (has_magic bs) then false else true
