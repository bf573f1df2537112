-- ===== src/Server/Sending.antt =====
-- What `sendDataToSocket` does with each result of `send`.
use netframework.Base.{
  ℕ, ◌^◌, ◌<◌, false, Option, none, some, [], ◌∷◌, ◌==◌, length, take, ltb, Bool, ◌-◌, Bytes, ok,
  ◌≡◌, ◌≢◌, refl, arith,
}
use netframework.Server.{Connection, Sent, send_bytes, send_data_to_socket}

abbrev emptied : Connection → Bytes → Bool → Bool → Sent
emptied conn bytes none_sent part_sent = record {
  connection = record conn { data_to_send = [] };
  bytes = bytes;
  could_not_send = none_sent;
  could_only_send = part_sent;
}

send_bytes_failed :
    (send : Bytes → Option ℕ) (waiting : Bytes) (conn : Connection)
    → waiting ≢ []
    → length waiting < 2 ^ 32
    → send waiting ≡ none
    → send_bytes send waiting conn ≡ ok (emptied conn [] false false)
unfolding send_bytes
send_bytes_failed send [] conn waits small fails = absurd (waits refl)
send_bytes_failed send (b ∷ bs) conn waits small fails =
    let whole : ltb (2 ^ 32 - 1) (length (b ∷ bs)) ≡ false = ground arith in rw (fails, whole) refl

send_bytes_taken :
    (send : Bytes → Option ℕ) (waiting : Bytes) (n : ℕ) (conn : Connection)
    → waiting ≢ []
    → send waiting ≡ some n
    → send_bytes send waiting conn
      ≡ ok (emptied conn (take n waiting) (n == 1) (ltb n (length waiting)))
unfolding send_bytes
send_bytes_taken send [] n conn waits takes = absurd (waits refl)
send_bytes_taken send (b ∷ bs) n conn waits takes = rw takes refl

-- Where bytes wait, fewer than 2^32, and `send` fails, they are thrown away, and neither message is
-- printed: -1 is kept as the greatest `unsigned int`, which is not `SOCKET_ERROR` and not below the
-- number of bytes.
pub send_data_to_socket_failed :
    (send : Bytes → Option ℕ) (conn : Connection)
    → conn.data_to_send ≢ []
    → length conn.data_to_send < 2 ^ 32
    → send conn.data_to_send ≡ none
    → send_data_to_socket send conn
      ≡ ok record {
        connection = record conn { data_to_send = [] };
        bytes = [];
        could_not_send = false;
        could_only_send = false;
      }
unfolding send_data_to_socket
send_data_to_socket_failed send conn waits small fails =
    send_bytes_failed send conn.data_to_send conn waits small fails

-- Where `send` takes `n` bytes, the first `n` of what waits are sent, the others are thrown away with
-- them, which is reported where there are any; and a byte sent alone is reported as a failure.
pub send_data_to_socket_taken :
    (send : Bytes → Option ℕ) (n : ℕ) (conn : Connection)
    → conn.data_to_send ≢ []
    → send conn.data_to_send ≡ some n
    → send_data_to_socket send conn
      ≡ ok record {
        connection = record conn { data_to_send = [] };
        bytes = take n conn.data_to_send;
        could_not_send = n == 1;
        could_only_send = ltb n (length conn.data_to_send);
      }
unfolding send_data_to_socket
send_data_to_socket_taken send n conn waits takes =
    send_bytes_taken send conn.data_to_send n conn waits takes
