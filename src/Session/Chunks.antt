-- ===== src/Session/Chunks.antt =====
-- A packet that arrives in several reads.
use mathlib.Core.List.{flatten}
use netframework.Base.{
  ℕ, ◌+◌, ◌≤◌, ◌<◌, ◌≡◌, refl, sym, ap, ◌∙◌, true, false, List, some, none, [], ◌∷◌, ◌++◌,
  append_assoc, append-nil, replicate, length, length-append, length-drop, drop, take-append, Bytes,
  Result, ok, arith, ◌>>=◌,
}
use netframework.CoreProto.Host.{Host, network_order}
use netframework.CoreProto.Frame.{
  max_packet_size, header_size, create_packet, is_packet_complete, fetch_data, is_packet_start,
}
use netframework.CoreProto.PacketArray.{is_packet_complete_array}
use netframework.CoreProto.Prefix.{
  header_split, create_packet_format, is_packet_complete-prefix, is_packet_complete-create_packet,
  fetch_data_complete,
}
use netframework.CoreProto.RoundTrip.{is_packet_complete_array-short}
use netframework.Session.{
  Session, read_some, handle_packet, max_length, deliver, process_read, read_into, read_first,
  read_more, check_size, Outcome, append_received, continue_reading,
}

module _ (h : Host) where
  -- Reads that succeed, one for each chunk, and what they ask for.
  unfoldable pub receive : Session → List Bytes → Result Outcome
  receive s [] = ok (s, [])
  receive s (chunk ∷ chunks) = do
    (s', now) ← process_read h (deliver s chunk) false (length chunk)
    (s'', later) ← receive s' chunks
    ok (s'', now ++ later)

  abbrev received : Session → Bytes → Bytes → Session
  received s pre chunk = record (deliver s chunk) { inc_buffer = pre ++ chunk }

  append_received-deliver :
      (s : Session) (chunk : Bytes)
      → append_received (deliver s chunk) (length chunk) ≡ received s s.inc_buffer chunk
  unfolding deliver
  append_received-deliver s chunk = rw (take-append chunk (drop (length chunk) s.data_))

  read_into_more :
      (inc : Bytes) (s : Session) (n : ℕ)
      → 0 < length inc
      → read_into h inc s n
        ≡ read_more
            (append_received s n)
            (is_packet_complete h (append_received s n).inc_buffer none)
  unfolding read_into
  read_into_more [] s n ne = absurd (omega arith)
  read_into_more (_ ∷ _) s n ne = refl

  process_read_more :
      (s : Session) (chunk : Bytes)
      → header_size ≤ length s.inc_buffer
      → process_read h (deliver s chunk) false (length chunk) ≡ (
          read_more
            (received s s.inc_buffer chunk)
            (is_packet_complete h (s.inc_buffer ++ chunk) none)
          >>= continue_reading)
  unfolding process_read
  process_read_more s chunk headed =
      ap (λ (r : Result Outcome). r >>= continue_reading)
        (read_into_more (deliver s chunk).inc_buffer (deliver s chunk) (length chunk)
          (unfold deliver in omega arith))
      ∙ ap
          (λ (s' : Session).
            read_more s' (is_packet_complete h s'.inc_buffer none) >>= continue_reading)
          (append_received-deliver s chunk)

  -- While the packet is not complete, a read appends what it brought.
  process_read-middle :
      (s : Session) (bytes chunk post : Bytes)
      → s.inc_buffer ++ (chunk ++ post) ≡ create_packet h bytes
      → length bytes ≤ max_packet_size
      → header_size ≤ length s.inc_buffer
      → 0 < length post
      → process_read h (deliver s chunk) false (length chunk)
        ≡ ok (received s s.inc_buffer chunk, read_some ∷ [])
  unfolding read_more
  process_read-middle s bytes chunk post e small headed more =
      let unfinished : is_packet_complete h (s.inc_buffer ++ chunk) none
          ≡ (false, some (length bytes)) =
        is_packet_complete-prefix h bytes (s.inc_buffer ++ chunk) post none small
          (append_assoc s.inc_buffer chunk post ∙ e)
          (omega (arith, length-append s.inc_buffer chunk)) more in
      process_read_more s chunk headed
      ∙ rw (unfinished, read_more) (unfold check_size in ground arith)

  -- The read that completes the packet hands on an empty payload.
  process_read-last :
      (s : Session) (bytes chunk : Bytes)
      → s.inc_buffer ++ chunk ≡ create_packet h bytes
      → length bytes ≤ max_packet_size
      → 0 < length bytes
      → header_size ≤ length s.inc_buffer
      → process_read h (deliver s chunk) false (length chunk)
        ≡ ok (record (deliver s chunk) { inc_buffer = [] }, handle_packet [] ∷ read_some ∷ [])
  unfolding read_more
  process_read-last s bytes chunk e small some_bytes headed =
      let whole : is_packet_complete h (s.inc_buffer ++ chunk) none ≡ (true, some (length bytes)) =
        rw (e, ← append-nil (create_packet h bytes))
          (is_packet_complete-create_packet h bytes [] none small) in
      let dropped : fetch_data (s.inc_buffer ++ chunk) (length bytes) ≡ ok [] =
        fetch_data_complete h _ none (length bytes) whole some_bytes in
      process_read_more s chunk headed ∙ rw (whole, read_more) (rw dropped)

  -- The first read of a packet that the array has no room for.
  process_read-first :
      (s : Session) (bytes chunk post : Bytes)
      → s.inc_buffer ≡ []
      → chunk ++ post ≡ create_packet h bytes
      → length bytes ≤ max_packet_size
      → length s.data_ ≡ max_length
      → length chunk ≤ max_length
      → header_size ≤ length chunk
      → max_length < header_size + length bytes
      → process_read h (deliver s chunk) false (length chunk)
        ≡ ok (received s [] chunk, read_some ∷ [])
  unfolding process_read deliver
  process_read-first s bytes chunk post empty e small full fits headed large =
      let n = length bytes in
      let kept = drop (length chunk) s.data_ in
      let (got, begins, splits) =
        header_split n bytes chunk post headed (e ∙ create_packet_format h bytes (omega arith)) in
      let filled : chunk ++ kept ≡ b'N' ∷ b'F' ∷ (network_order n ++ (got ++ kept)) =
        rw begins refl in
      let short : is_packet_complete_array h (chunk ++ kept) none ≡ (false, some n) = rw filled (
        is_packet_complete_array-short h n (got ++ kept) none small (
          omega (
            arith,
            ap length begins,
            length-append got kept,
            length-drop (length chunk) s.data_,
          ))) in
      let starts : is_packet_start (chunk ++ kept) ≡ true =
        rw filled (unfold is_packet_start in ground arith) in
      rw (empty, read_into) (rw (short, read_first) (rw starts (rw (take-append chunk kept))))

  receive_rest :
      (middle : List Bytes) (s : Session) (bytes last : Bytes)
      → s.inc_buffer ++ (flatten middle ++ last) ≡ create_packet h bytes
      → length bytes ≤ max_packet_size
      → 0 < length bytes
      → header_size ≤ length s.inc_buffer
      → 0 < length last
      → (s' : Session) × (receive s (middle ++ last ∷ [])
          ≡ ok (s', replicate (length middle) read_some ++ handle_packet [] ∷ read_some ∷ []))
        × (s'.inc_buffer ≡ [])
  unfolding receive flatten
  receive_rest [] s bytes last e small some_bytes headed more = (
    record (deliver s last) { inc_buffer = [] },
    rw (process_read-last s bytes last e small some_bytes headed),
    refl,
  )
  receive_rest (chunk ∷ middle) s bytes last e small some_bytes headed more =
      let next = received s s.inc_buffer chunk in
      let post : Bytes = flatten middle ++ last in
      let e' : s.inc_buffer ++ (chunk ++ post) ≡ create_packet h bytes =
        ap (◌++◌ s.inc_buffer) (sym (append_assoc chunk (flatten middle) last)) ∙ e in
      let (s', done, cleared) =
        receive_rest middle next bytes last (append_assoc s.inc_buffer chunk post ∙ e') small
          some_bytes (omega (arith, length-append s.inc_buffer chunk)) more in
      (
        s',
        rw (
          process_read-middle s bytes chunk post e' small headed
              (omega (arith, length-append (flatten middle) last)),
          done,
        ),
        cleared,
      )

  -- A packet that is larger than the array and arrives in several reads, the first of which brings
  -- the whole header: every read but the last asks only for the next one, and the last hands an
  -- empty payload to the handler manager in place of the one that was sent.
  pub receive-large :
      (s : Session) (bytes first last : Bytes) (middle : List Bytes)
      → s.inc_buffer ≡ []
      → length s.data_ ≡ max_length
      → first ++ (flatten middle ++ last) ≡ create_packet h bytes
      → length bytes ≤ max_packet_size
      → max_length < header_size + length bytes
      → header_size ≤ length first
      → length first ≤ max_length
      → 0 < length last
      → (s' : Session) × (receive s (first ∷ (middle ++ last ∷ []))
          ≡ ok (
            s',
            read_some ∷ (replicate (length middle) read_some ++ handle_packet [] ∷ read_some ∷ []),
          ))
        × (s'.inc_buffer ≡ [])
  unfolding receive
  receive-large s bytes first last middle empty full e small large headed fits more =
      let (s', done, cleared) =
        receive_rest middle (received s [] first) bytes last e small (omega arith) headed more in
      (
        s',
        rw (process_read-first s bytes first _ empty e small full fits headed large, done),
        cleared,
      )
