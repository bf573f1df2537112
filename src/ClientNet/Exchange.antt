-- ===== src/ClientNet/Exchange.antt =====
-- A request and its answer: what the client makes of one read, and the exchange with a session of the
-- server.
use netframework.Base.{
  ◌+◌, ◌≤◌, ◌<◌, ◌≡◌, ◌≢◌, refl, ◌∙◌, ap, false, Option, none, some, [], ◌∷◌, ◌++◌, append_assoc,
  append-nil, drop, length, length-drop, Bytes, ok, arith,
}
use netframework.CoreProto.Host.{Host}
use netframework.CoreProto.Frame.{header_size, max_packet_size, create_packet}
use netframework.CoreProto.PacketArray.{is_packet_complete_array}
use netframework.CoreProto.Prefix.{header_split, create_packet_format, length-create_packet}
use netframework.CoreProto.RoundTrip.{
  fetch_data_array-create_packet, is_packet_complete_array-short,
}
use netframework.Session
use netframework.Session.{
  Session, deliver, read_some, handle_packet, write, process_read, send_data,
}
use netframework.Session.Read.{process_read-packet}
use netframework.Session.Write.{send_data_idle}
use netframework.ClientNet.{max_length, ClientNet, read_reply, reply_payload, send_packet, send}

-- The client after a read.
abbrev pub replied : Bytes → ClientNet → ClientNet
replied chunk s = record s { reply = chunk ++ drop (length chunk) s.reply }

length-nil : (bytes : Bytes) → length bytes ≡ 0 → bytes ≡ []
length-nil [] none_left = refl
length-nil (b ∷ bytes) none_left = absurd (omega arith)

module _ (h : Host) where
  -- The packet of an answer that one read brings whole, with whatever behind it, gives that answer.
  pub send-answer :
      (request answer behind : Bytes) (s : ClientNet)
      → length answer ≤ max_packet_size
      → send h request (some (create_packet h answer ++ behind)) s
        ≡ (create_packet h request, ok (answer, replied (create_packet h answer ++ behind) s))
  unfolding send send_packet read_reply reply_payload
  send-answer request answer behind s le =
      let chunk = create_packet h answer ++ behind in
      let rest = drop (length chunk) s.reply in
      let (whole, fetched) = fetch_data_array-create_packet h answer (behind ++ rest) none le in
      let split : chunk ++ rest ≡ create_packet h answer ++ (behind ++ rest) =
        append_assoc (create_packet h answer) behind rest in
      rw (split, whole, fetched) refl

  -- With nothing behind the packet.
  answer_alone :
      (request answer : Bytes) (s : ClientNet)
      → length answer ≤ max_packet_size
      → send h request (some (create_packet h answer)) s
        ≡ (create_packet h request, ok (answer, replied (create_packet h answer) s))
  answer_alone request answer s le =
      let given = send-answer request answer [] s le in rw append-nil at given

  packet_alone :
      (request : Bytes) (session : Session)
      → session.inc_buffer ≡ []
      → header_size + length request ≤ Session.max_length
      → process_read h
          (deliver session (create_packet h request))
          false
          (length (create_packet h request))
        ≡ ok (deliver session (create_packet h request), handle_packet request ∷ read_some ∷ [])
  packet_alone request session empty fits =
      let given = process_read-packet h session request [] empty (omega arith) in
      rw append-nil at given

  create_packet-ne-nil :
      (bytes : Bytes) → length bytes ≤ max_packet_size → create_packet h bytes ≢ []
  create_packet-ne-nil bytes le =
      λ e. omega (arith, length-create_packet h bytes (omega arith), ap length e)

  -- A request that fits the array of a session with empty buffers and no write in progress, and an
  -- answer that is no larger than a packet may be: what the client writes makes the session hand
  -- the request to the handler manager and read on; what the session writes for the answer is one
  -- packet; and that packet, read at once, is the answer that the client returns.
  pub send-process_read :
      (request answer : Bytes) (session : Session) (client : ClientNet) (read : Option Bytes)
      → session.inc_buffer ≡ []
      → session.out_buffer ≡ []
      → session.out_buffer_processing ≡ []
      → header_size + length request ≤ Session.max_length
      → length answer ≤ max_packet_size
      → (process_read h
            (deliver session (send h request read client).0)
            false
            (length (send h request read client).0)
          ≡ ok (
            deliver session (send h request read client).0,
            handle_packet request ∷ read_some ∷ [],
          ))
        × ((send_data session (create_packet h answer)).1 ≡ write (create_packet h answer) ∷ [])
        × (send h request (some (create_packet h answer)) client
            ≡ (create_packet h request, ok (answer, replied (create_packet h answer) client)))
  unfolding send send_packet
  send-process_read request answer session client read empty drained idle fits le = (
    packet_alone request session empty fits,
    rw
        (
          send_data_idle session (create_packet h answer) idle
              (rw drained (create_packet-ne-nil answer le)),
          drained,
        )
        refl,
    answer_alone request answer client le,
  )

  -- An answer that is larger than the array, but no larger than a packet may be, is lost: the read
  -- fills the array with its beginning, and the client returns the empty string.
  pub send-large :
      (request answer chunk post : Bytes) (s : ClientNet)
      → length s.reply ≡ max_length
      → max_length < header_size + length answer
      → length answer ≤ max_packet_size
      → chunk ++ post ≡ create_packet h answer
      → length chunk ≡ max_length
      → send h request (some chunk) s ≡ (create_packet h request, ok ([], record { reply = chunk }))
  unfolding send send_packet read_reply reply_payload
  send-large request answer chunk post s full large le split fills =
      let (got, begins, parts) =
        header_split (length answer) answer chunk post (omega (arith, fills))
          (split ∙ create_packet_format h answer (omega arith)) in
      let nothing_old : drop (length chunk) s.reply ≡ [] =
        length-nil _ (omega (arith, length-drop (length chunk) s.reply, fills, full)) in
      let few : length got < length answer = omega (arith, ap length begins, fills) in
      let partial : is_packet_complete_array h chunk none ≡ (false, some (length answer)) =
        rw begins (is_packet_complete_array-short h (length answer) got none le few) in
      rw (nothing_old, append-nil, partial) refl
