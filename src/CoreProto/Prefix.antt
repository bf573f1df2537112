-- ===== src/CoreProto/Prefix.antt =====
-- What `isPacketComplete` says of a packet that `createPacket` made, of its prefixes and of its
-- continuations, and what `fetchData` on a vector gives.
use netframework.Base.{
  ℕ, ◌+◌, ◌%◌, ◌^◌, ◌≤◌, ◌<◌, ◌≡◌, sym, ◌∙◌, true, false, Option, some, [], ◌∷◌, ◌++◌, length,
  length-append, ap, Bytes, ok, arith,
}
use netframework.CoreProto.Host.{Host, network_order}
use netframework.CoreProto.Frame.{
  header_size, max_packet_size, has_magic, read_size, create_packet, is_packet_complete, fetch_data,
}

-- A beginning of a packet that reaches behind the header is the header and a part of the payload.
pub header_split :
    (n : ℕ) (bytes pre post : Bytes)
    → header_size ≤ length pre
    → pre ++ post ≡ b'N' ∷ b'F' ∷ (network_order n ++ bytes)
    → (got : Bytes) × (pre ≡ b'N' ∷ b'F' ∷ (network_order n ++ got)) × (bytes ≡ got ++ post)
header_split n bytes (a ∷ b ∷ c ∷ d ∷ e ∷ f ∷ got) post headed eq = (got, cc, cc)
header_split n bytes (a ∷ b ∷ c ∷ d ∷ e ∷ []) post headed eq = absurd (omega arith)
header_split n bytes (a ∷ b ∷ c ∷ d ∷ []) post headed eq = absurd (omega arith)
header_split n bytes (a ∷ b ∷ c ∷ []) post headed eq = absurd (omega arith)
header_split n bytes (a ∷ b ∷ []) post headed eq = absurd (omega arith)
header_split n bytes (a ∷ []) post headed eq = absurd (omega arith)
header_split n bytes [] post headed eq = absurd (omega arith)

module _ (h : Host) where
  -- The wire format: the magic, the length in network byte order, and the payload.
  pub create_packet_format :
      (bytes : Bytes)
      → length bytes < 2 ^ 32
      → create_packet h bytes ≡ b'N' ∷ b'F' ∷ (network_order (length bytes) ++ bytes)
  unfolding create_packet
  create_packet_format bytes lt =
      let small : length bytes % 2 ^ 32 ≡ length bytes = omega arith in
      rw (small, h.store32-htonl (length bytes) lt)

  pub length-create_packet :
      (bytes : Bytes)
      → length bytes < 2 ^ 32
      → length (create_packet h bytes) ≡ header_size + length bytes
  length-create_packet bytes lt = rw (create_packet_format bytes lt) (omega arith)

  pub read_size_network :
      (n : ℕ) (rest : Bytes)
      → n < 2 ^ 32
      → read_size h (b'N' ∷ b'F' ∷ (network_order n ++ rest)) ≡ n
  read_size_network n rest lt =
      ap (λ (b : Bytes). h.ntohl (h.load32 b)) (sym (h.store32-htonl n lt))
      ∙ ap h.ntohl (h.load32-store32 (h.htonl n) (h.htonl-lt n lt))
      ∙ h.ntohl-htonl n lt

  -- A vector that is complete with size `n` begins with the magic and holds the header and `n` bytes
  -- behind it, and `n` is at most the maximum.
  pub is_packet_complete_sound :
      (bs : Bytes) (p : Option ℕ) (n : ℕ)
      → is_packet_complete h bs p ≡ (true, some n)
      → (has_magic bs ≡ true) × (n ≤ max_packet_size) × (header_size + n ≤ length bs)
  unfolding is_packet_complete
  is_packet_complete_sound bs p n e = ground arith

  -- A vector that begins with a whole packet is complete, whatever stands behind the packet.
  pub is_packet_complete-create_packet :
      (bytes rest : Bytes) (p : Option ℕ)
      → length bytes ≤ max_packet_size
      → is_packet_complete h (create_packet h bytes ++ rest) p ≡ (true, some (length bytes))
  unfolding is_packet_complete
  is_packet_complete-create_packet bytes rest p le = rw (create_packet_format bytes (omega arith)) (
      ground (
        arith,
        read_size_network (length bytes) (bytes ++ rest) (omega arith),
        length-append bytes rest,
      ))

  -- A vector with at least the header, but not the whole packet, is not complete; the size is set.
  pub is_packet_complete-prefix :
      (bytes pre post : Bytes) (p : Option ℕ)
      → length bytes ≤ max_packet_size
      → pre ++ post ≡ create_packet h bytes
      → header_size ≤ length pre
      → 0 < length post
      → is_packet_complete h pre p ≡ (false, some (length bytes))
  unfolding is_packet_complete
  is_packet_complete-prefix bytes pre post p le e headed more =
      let (got, begins, splits) =
        header_split (length bytes) bytes pre post headed
          (e ∙ create_packet_format bytes (omega arith)) in
      rw begins (
        ground (
          arith,
          read_size_network (length bytes) got (omega arith),
          ap length splits,
          length-append got post,
        ))

  -- `fetchData` on a vector drops the payload of every complete packet that has one.
  pub fetch_data_complete :
      (bs : Bytes) (p : Option ℕ) (n : ℕ)
      → is_packet_complete h bs p ≡ (true, some n)
      → 0 < n
      → fetch_data bs n ≡ ok []
  unfolding fetch_data
  fetch_data_complete bs p n e some_bytes = ground (arith, is_packet_complete_sound bs p n e)
