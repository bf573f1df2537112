-- ===== src/ClientNet/Examples.antt =====
-- A client that asks "hi" and is answered "yes".
use netframework.Base.{
  ℕ, ◌≡◌, refl, false, true, pos, ◌&&◌, some, none, [], ◌∷◌, Bytes, codes, length, ok, arith,
  replicate, negsuc,
}
use netframework.CoreProto.LittleEndian.{little_endian}
use netframework.CoreProto.Frame.{create_packet}
use netframework.Session.{
  Session, deliver, read_some, handle_packet, write, process_read, send_data,
}
use netframework.ClientNet.{max_length, ClientNet, send}
use netframework.ClientNet.Connect.{Library, connect, connect-verify_certificate}
use netframework.ClientNet.Exchange.{replied, send-process_read}

abbrev idle : Session
idle = record {
  client_id = negsuc 0;
  data_ = replicate 1024 0;
  inc_buffer = [];
  out_buffer = [];
  out_buffer_processing = [];
}

abbrev blank_array : ℕ → Bytes
blank_array n = replicate n 0

abbrev blank : ClientNet
blank = record { reply = blank_array max_length }

abbrev question : Bytes
question = create_packet little_endian (codes "hi")

abbrev answer : Bytes
answer = create_packet little_endian (codes "yes")

send-process_read_example :
    (process_read little_endian (deliver idle question) false (length question)
      ≡ ok (deliver idle question, handle_packet (codes "hi") ∷ read_some ∷ []))
    × ((send_data idle answer).1 ≡ write answer ∷ [])
    × (send little_endian (codes "hi") (some answer) blank
        ≡ (question, ok (codes "yes", replied answer blank)))
unfolding send
send-process_read_example =
    send-process_read little_endian (codes "hi") (codes "yes") idle blank none refl refl refl
      (omega arith) (omega arith)

-- One server, whose certificate the library finds wrong.
abbrev distrusted : Library ℕ
distrusted = record {
  load_verify_file = λ name. true;
  resolve = λ hostname port. some 1;
  connects = λ peer. true;
  handshake = λ peer callback. callback false && true;
}

connect-verify_certificate_example : connect distrusted (codes "localhost") (pos 5000) ≡ ok 1
connect-verify_certificate_example =
    connect-verify_certificate distrusted (λ peer. false ∷ []) (λ peer. true) (codes "localhost")
      (pos 5000) 1 (λ peer callback. refl) refl refl refl
