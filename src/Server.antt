-- ===== src/Server.antt =====
-- lib/server.cpp, `ClientConnection`: the bytes that came and the bytes that wait for one client. What
-- `recv` and `send` return is an argument.
pub mod Poll
pub mod Stream
pub mod Packets
pub mod Sending
pub mod Validity
pub mod Keeping
pub mod Steps
pub mod Emptied
pub mod WsaPoll
pub mod Runs
pub mod Dangling
pub mod Requests
mod Examples
use mathlib.Core.List.{List}
use netframework.Base.{
  ℕ, ◌-◌, ◌^◌, Bool, true, false, Option, none, some, [], ◌∷◌, ◌++◌, ltb, ◌==◌, if◌then◌else◌,
  length, take, Bytes, Result, ok, err, undefined, length_error,
}

-- The members that change. A connection is known by its socket, which no other live one has.
pub record Connection : Type 0 where
  pub received_data : Bytes
  pub data_to_send : Bytes

abbrev pub new_connection : Connection
new_connection = record { received_data = []; data_to_send = [] }

-- `recv`: a negative result, or as many bytes as it says, none where the client has closed.
pub data Received : Type 0 where
  recv_failed : Received
  got : Bytes → Received

module _ (data_complete : Bytes → Bool) where
  -- What follows the test of `receivedData.empty()`: the connection, and the calls of `_dataCallback`.
  unfoldable pub append_received : Bytes → Connection → Connection × List Bytes
  append_received buf conn =
      let all = conn.received_data ++ buf in
      if data_complete all
      then (record conn { received_data = [] }, all ∷ [])
      else (record conn { received_data = all }, [])

  unfoldable pub receive_into : Bytes → Bytes → Connection → Connection × List Bytes
  unfolding append_received
  receive_into [] buf conn =
      if data_complete buf then (conn, buf ∷ []) else append_received buf conn
  receive_into (_ ∷ _) buf conn = append_received buf conn

  -- `false` is a client that has closed. A negative size does not fit `buf.resize`.
  unfoldable pub receive_data_from_socket :
      Received → Connection → Result (Bool × (Connection × List Bytes))
  unfolding receive_into
  receive_data_from_socket recv_failed conn = err length_error
  receive_data_from_socket (got []) conn = ok (false, (conn, []))
  receive_data_from_socket (got (b ∷ bs)) conn =
      ok (true, receive_into conn.received_data (b ∷ bs) conn)

-- The part of `sendData` that concerns the connection.
unfoldable pub add_data : Bytes → Connection → Connection
add_data bytes conn = record conn { data_to_send = conn.data_to_send ++ bytes }

-- What `sendDataToSocket` leaves and does: the connection, the bytes that the socket took, and whether
-- each of the two messages was printed.
pub record Sent : Type 0 where
  pub connection : Connection
  pub bytes : Bytes
  pub could_not_send : Bool
  pub could_only_send : Bool

-- The result of `send`, `none` for -1, as the `unsigned int` that it is kept in.
abbrev pub unsigned_result : Option ℕ → ℕ
unsigned_result none = 2 ^ 32 - 1
unsigned_result (some n) = n

abbrev pub taken : Option ℕ → ℕ
taken none = 0
taken (some n) = n

-- `SOCKET_ERROR` where there is no `winsock2.h`.
abbrev pub socket_error : ℕ
socket_error = 1

-- `&data[0]` of an empty vector is undefined.
unfoldable pub send_bytes : (Bytes → Option ℕ) → Bytes → Connection → Result Sent
send_bytes send [] conn = err undefined
send_bytes send (b ∷ bs) conn =
    let result = send (b ∷ bs) in
    ok record {
      connection = record conn { data_to_send = [] };
      bytes = take (taken result) (b ∷ bs);
      could_not_send = unsigned_result result == socket_error;
      could_only_send = ltb (unsigned_result result) (length (b ∷ bs));
    }

unfoldable pub send_data_to_socket : (Bytes → Option ℕ) → Connection → Result Sent
unfolding send_bytes
send_data_to_socket send conn = send_bytes send conn.data_to_send conn
