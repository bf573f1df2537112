-- ===== src/Session/Examples.antt =====
-- The theorems about a session applied to sessions and reads.
use mathlib.Core.List.{flatten}
use netframework.Base.{
  ◌≡◌, ◌≢◌, refl, false, [], ◌∷◌, ◌++◌, Bytes, codes, length, ok, arith, replicate, negsuc,
}
use netframework.CoreProto.LittleEndian.{little_endian}
use netframework.CoreProto.Frame.{create_packet}
use netframework.Session.{
  Session, deliver, read_some, handle_packet, write, process_read, handle_write,
}
use netframework.Session.Read.{process_read-packet}
use netframework.Session.Write.{send_all, send_all-burst, completions, handle_write-forever}

-- A new session whose array holds zeros.
abbrev fresh : Session
fresh = record {
  client_id = negsuc 0;
  data_ = replicate 1024 0;
  inc_buffer = [];
  out_buffer = [];
  out_buffer_processing = [];
}

abbrev hello : Bytes
hello = create_packet little_endian (codes "hello")

process_read-packet_example :
    process_read little_endian
      (deliver fresh (hello ++ codes "NF"))
      false
      (length (hello ++ codes "NF"))
    ≡ ok (deliver fresh (hello ++ codes "NF"), handle_packet (codes "hello") ∷ read_some ∷ [])
process_read-packet_example =
    process_read-packet little_endian fresh (codes "hello") (codes "NF") refl (omega arith)

send_all-burst_example :
    ((send_all fresh (codes "a" ∷ codes "b" ∷ codes "c" ∷ [])).1 ≡ write (codes "a") ∷ [])
    × ((handle_write (send_all fresh (codes "a" ∷ codes "b" ∷ codes "c" ∷ [])).0 false).1
        ≡ write (codes "bc") ∷ [])
unfolding flatten
send_all-burst_example =
    send_all-burst fresh (codes "a") (codes "b" ∷ codes "c" ∷ []) refl refl (λ e. cc) (λ e. cc)

-- A session that has sent "a" and was given "b" meanwhile.
abbrev overtaken : Session
overtaken = record fresh { out_buffer = codes "b"; out_buffer_processing = codes "a" }

handle_write-forever_example :
    (bs : Bytes) × (bs ≢ []) × ((handle_write (completions 1000 overtaken) false).1 ≡ write bs ∷ [])
handle_write-forever_example = handle_write-forever 1000 overtaken (λ e. cc) (λ e. cc)
