-- ===== src/Session/Read.antt =====
-- The input side of a session: `processRead` on what one `async_read_some` brought.
use netframework.Base.{
  ℕ, ◌+◌, ◌≤◌, ◌<◌, ◌≡◌, refl, ◌∙◌, true, false, some, none, [], ◌∷◌, ◌++◌, append_assoc, length,
  length-append, length-drop, take, drop, take-append, Bytes, ok, arith,
}
use netframework.CoreProto.Host.{Host, network_order}
use netframework.CoreProto.Frame.{max_packet_size, header_size, create_packet}
use netframework.CoreProto.PacketArray.{is_packet_complete_array, fetch_data_array}
use netframework.CoreProto.Prefix.{create_packet_format}
use netframework.CoreProto.RoundTrip.{is_packet_complete_array-header, fetch_data_array-header}
use netframework.Session.{
  Session, read_some, handle_packet, max_length, deliver, process_read, read_into, read_first,
}

-- The array keeps its size.
pub deliver-length :
    (s : Session) (chunk : Bytes)
    → length s.data_ ≡ max_length
    → length chunk ≤ max_length
    → length (deliver s chunk).data_ ≡ max_length
unfolding deliver
deliver-length s chunk full fits =
    omega
      (arith, length-append chunk (drop (length chunk) s.data_), length-drop (length chunk) s.data_)

module _ (h : Host) where
  -- An array that begins with a header for `n` bytes, and has room for them, is handed on at once.
  process_read_header :
      (s : Session) (n : ℕ) (rest : Bytes) (transferred : ℕ)
      → s.inc_buffer ≡ []
      → s.data_ ≡ b'N' ∷ b'F' ∷ (network_order n ++ rest)
      → n ≤ max_packet_size
      → n ≤ length rest
      → process_read h s false transferred ≡ ok (s, handle_packet (take n rest) ∷ read_some ∷ [])
  unfolding process_read
  process_read_header s n rest transferred empty e small enough =
      let whole : is_packet_complete_array h s.data_ none ≡ (true, some n) =
        rw e (is_packet_complete_array-header h n rest none small enough) in
      let fetched : fetch_data_array s.data_ n ≡ ok (take n rest) =
        rw e (fetch_data_array-header h n rest small enough) in
      rw (empty, read_into) (rw (whole, read_first) (rw fetched))

  -- A packet that one read brings whole is handed to the handler manager with its payload, and
  -- whatever the read brought behind it is dropped: nothing is kept for the next read.
  pub process_read-packet :
      (s : Session) (bytes behind : Bytes)
      → s.inc_buffer ≡ []
      → header_size + (length bytes + length behind) ≤ max_length
      → (let s' = deliver s (create_packet h bytes ++ behind) in
          process_read h s' false (length (create_packet h bytes ++ behind))
          ≡ ok (s', handle_packet bytes ∷ read_some ∷ []))
  unfolding deliver
  process_read-packet s bytes behind empty fits =
      let chunk = create_packet h bytes ++ behind in
      let kept = drop (length chunk) s.data_ in
      let begins : chunk ++ kept
          ≡ b'N' ∷ b'F' ∷ (network_order (length bytes) ++ (bytes ++ (behind ++ kept))) =
        rw (create_packet_format h bytes (omega arith), append_assoc) refl in
      process_read_header (deliver s chunk) (length bytes) (bytes ++ (behind ++ kept)) _ empty
        begins (omega arith) (omega (arith, length-append bytes (behind ++ kept)))
      ∙ rw (take-append bytes (behind ++ kept))

  -- A read that brings the header and only the first part of a payload that the array has room for
  -- is taken for the whole packet: the rest of the payload is what the array held before.
  pub process_read-stale :
      (s : Session) (n : ℕ) (got : Bytes)
      → s.inc_buffer ≡ []
      → length s.data_ ≡ max_length
      → length got < n
      → header_size + n ≤ max_length
      → (let chunk = b'N' ∷ b'F' ∷ (network_order n ++ got) in
          let s' = deliver s chunk in
          process_read h s' false (length chunk)
          ≡ ok (s', handle_packet (take n (got ++ drop (length chunk) s.data_)) ∷ read_some ∷ []))
  unfolding deliver
  process_read-stale s n got empty full partial fits =
      let chunk : Bytes = b'N' ∷ b'F' ∷ (network_order n ++ got) in
      let kept = drop (length chunk) s.data_ in
      process_read_header (deliver s chunk) n (got ++ kept) _ empty refl (omega arith)
        (omega (arith, length-append got kept, length-drop (length chunk) s.data_))
