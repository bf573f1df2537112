-- ===== src/Session.antt =====
-- lib/netbase.cpp, `SessionImpl`: one connection of the server. Its members are in `Session`; what
-- a handler asks of the socket and of the handler manager is its list of actions, in order.
pub mod Read
pub mod Chunks
pub mod Write
pub mod Actions
mod Examples
use netframework.Base.{
  ℕ, ◌+◌, ◌^◌, ◌%◌, ◌≤◌, Bool, true, false, List, [], ◌∷◌, ◌++◌, Option, none, some, ltb,
  if◌then◌else◌, take, drop, length, Bytes, ℤ, negsuc, Result, ok, err, undefined, ◌>>=◌,
}
use netframework.CoreProto.Host.{Host}
use netframework.CoreProto.Frame.{max_packet_size, is_packet_complete, fetch_data, is_packet_start}
use netframework.CoreProto.PacketArray.{is_packet_complete_array, fetch_data_array}

-- `SessionImpl::max_length`
abbrev pub max_length : ℕ
max_length = 1024

-- `data` is the array `data_`, with `max_length` bytes.
pub record Session : Type 0 where
  pub client_id : ℤ
  pub data_ : Bytes
  pub inc_buffer : Bytes
  pub out_buffer : Bytes
  pub out_buffer_processing : Bytes

-- `async_handshake`, `async_read_some`, `async_write`, `HandlerManager::handlePacket` and
-- `delete this`.
pub data Action : Type 0 where
  handshake read_some deleted : Action
  write handle_packet : Bytes → Action

abbrev pub Outcome : Type 0
Outcome = Session × List Action

-- The constructor; the array comes with whatever the memory held.
unfoldable pub new_session : Bytes → Session
new_session memory = record {
  client_id = negsuc 0;
  data_ = memory;
  inc_buffer = [];
  out_buffer = [];
  out_buffer_processing = [];
}

unfoldable pub start : Session → Outcome
start s = (s, handshake ∷ [])

-- The flag says that `error` is set.
unfoldable pub handle_handshake : Session → Bool → Outcome
handle_handshake s false = (s, read_some ∷ [])
handle_handshake s true = (s, deleted ∷ [])

-- What `async_read_some` does with `buffer(data_, max_length)` when `chunk` arrives.
unfoldable pub deliver : Session → Bytes → Session
deliver s chunk = record s { data_ = chunk ++ drop (length chunk) s.data_ }

abbrev pub append_received : Session → ℕ → Session
append_received s bytes_transferred = record s {
  inc_buffer = s.inc_buffer ++ take bytes_transferred s.data_;
}

-- `pkgSize > maxPacketSize`, on a `pkgSize` that may never have been set.
check_size : Session → Option ℕ → Result Outcome
check_size s none = err undefined
check_size s (some pkg_size) =
    if ltb max_packet_size pkg_size then ok (record s { inc_buffer = [] }, []) else ok (s, [])

-- After `isPacketComplete(data_, pkgSize)`.
read_first : Session → ℕ → Bool × Option ℕ → Result Outcome
read_first s bytes_transferred (true, some pkg_size) = do
  packet ← fetch_data_array s.data_ pkg_size
  ok (s, handle_packet packet ∷ [])
read_first s bytes_transferred (true, none) = err undefined
read_first s bytes_transferred (false, _) =
    if is_packet_start s.data_ then ok (append_received s bytes_transferred, []) else ok (s, [])

-- After `isPacketComplete(incBuffer_, pkgSize)`.
read_more : Session → Bool × Option ℕ → Result Outcome
unfolding check_size
read_more s (true, some pkg_size) = do
  packet ← fetch_data s.inc_buffer pkg_size
  ok (record s { inc_buffer = [] }, handle_packet packet ∷ [])
read_more s (true, none) = err undefined
read_more s (false, pkg_size) = check_size s pkg_size

-- The next `async_read_some`.
abbrev pub continue_reading : Outcome → Result Outcome
continue_reading (s, actions) = ok (s, actions ++ read_some ∷ [])

module _ (h : Host) where
  pub read_into : Bytes → Session → ℕ → Result Outcome
  unfolding read_first read_more
  read_into [] s n = read_first s n (is_packet_complete_array h s.data_ none)
  read_into (_ ∷ _) s n =
      let s' = append_received s n in read_more s' (is_packet_complete h s'.inc_buffer none)

  unfoldable pub process_read : Session → Bool → ℕ → Result Outcome
  unfolding read_into
  process_read s true bytes_transferred = ok (s, deleted ∷ [])
  process_read s false bytes_transferred =
      read_into s.inc_buffer s bytes_transferred >>= continue_reading

-- After the swap in `handleWrite`.
write_processing : Session → Bytes → Outcome
write_processing s [] = (s, [])
write_processing s (b ∷ bs) = (s, write (b ∷ bs) ∷ [])

unfoldable pub handle_write : Session → Bool → Outcome
unfolding write_processing
handle_write s true = (s, deleted ∷ [])
handle_write s false =
    write_processing
      (record s { out_buffer = s.out_buffer_processing; out_buffer_processing = s.out_buffer })
      s.out_buffer

send_to : Bytes → Session → Outcome
send_to [] s = handle_write s false
send_to (_ ∷ _) s = (s, [])

unfoldable pub send_data : Session → Bytes → Outcome
unfolding send_to handle_write
send_data s bytes =
    send_to s.out_buffer_processing (record s { out_buffer = s.out_buffer ++ bytes })
