-- ===== src/CoreProto/RoundTrip.antt =====
-- `fetchData` gives back what `createPacket` framed, on arrays.
use netframework.Base.{
  ℕ, ◌≤◌, ◌<◌, ◌≡◌, ◌++◌, ◌∷◌, ◌∙◌, true, false, Option, some, length, length-append, take,
  take-append, Bytes, ok, arith, ap,
}
use netframework.CoreProto.Host.{Host, network_order}
use netframework.CoreProto.Frame.{max_packet_size, create_packet}
use netframework.CoreProto.PacketArray.{
  is_packet_complete_array, fetch_data_array, fetch_data_array_complete,
}
use netframework.CoreProto.Prefix.{create_packet_format, read_size_network}

module _ (h : Host) where
  -- An array that holds a header for `n` bytes and at least `n` bytes behind it is complete.
  pub is_packet_complete_array-header :
      (n : ℕ) (rest : Bytes) (p : Option ℕ)
      → n ≤ max_packet_size
      → n ≤ length rest
      → is_packet_complete_array h (b'N' ∷ b'F' ∷ (network_order n ++ rest)) p ≡ (true, some n)
  unfolding is_packet_complete_array
  is_packet_complete_array-header n rest p le enough =
      ground (arith, read_size_network h n rest (omega arith))

  -- One with less behind it is not.
  pub is_packet_complete_array-short :
      (n : ℕ) (rest : Bytes) (p : Option ℕ)
      → n ≤ max_packet_size
      → length rest < n
      → is_packet_complete_array h (b'N' ∷ b'F' ∷ (network_order n ++ rest)) p ≡ (false, some n)
  unfolding is_packet_complete_array
  is_packet_complete_array-short n rest p le few =
      ground (arith, read_size_network h n rest (omega arith))

  pub fetch_data_array-header :
      (n : ℕ) (rest : Bytes)
      → n ≤ max_packet_size
      → n ≤ length rest
      → fetch_data_array (b'N' ∷ b'F' ∷ (network_order n ++ rest)) n ≡ ok (take n rest)
  fetch_data_array-header n rest le enough =
      fetch_data_array_complete h _ (some 0) n
        (is_packet_complete_array-header n rest (some 0) le enough)

  -- A packet that stands whole at the start of the array is found, with its size, and its payload is
  -- read back, whatever stands behind it.
  pub fetch_data_array-create_packet :
      (bytes rest : Bytes) (p : Option ℕ)
      → length bytes ≤ max_packet_size
      → (is_packet_complete_array h (create_packet h bytes ++ rest) p ≡ (true, some (length bytes)))
        × (fetch_data_array (create_packet h bytes ++ rest) (length bytes) ≡ ok bytes)
  fetch_data_array-create_packet bytes rest p le =
      let fits : length bytes ≤ length (bytes ++ rest) = omega (arith, length-append bytes rest) in
      rw (create_packet_format h bytes (omega arith)) (
        is_packet_complete_array-header (length bytes) (bytes ++ rest) p le fits,
        fetch_data_array-header (length bytes) (bytes ++ rest) le fits
            ∙ ap ok (take-append bytes rest),
      )
