-- ===== src/ClientNet.antt =====
-- lib/clientnet.cpp, `ClientNet`: a request to the server and the answer that one read brings. The
-- stream of boost::asio is a parameter: what `read_some` gives, or that it throws.
pub mod Connect
pub mod Exchange
mod Examples
use netframework.Base.{
  ℕ, ◌*◌, Bool, true, false, Option, none, some, [], ◌++◌, drop, length, if◌then◌else◌, Bytes,
  Result, ok, err, undefined, thrown, ◌>>=◌,
}
use netframework.CoreProto.Host.{Host}
use netframework.CoreProto.Frame.{create_packet}
use netframework.CoreProto.PacketArray.{is_packet_complete_array, fetch_data_array}

-- The size of `reply_`.
abbrev pub max_length : ℕ
max_length = 16 * 1024

-- `reply_`, which keeps its bytes from one call to the next.
pub record ClientNet : Type 0 where
  pub reply : Bytes

-- `verify_certificate`, whatever the library found before.
unfoldable pub verify_certificate : Bool → Bool
verify_certificate preverified = true

-- `read_some` into `reply_`; `none` is an exception.
unfoldable pub read_reply : Option Bytes → ClientNet → Result ClientNet
read_reply none s = err thrown
read_reply (some chunk) s = ok record s { reply = chunk ++ drop (length chunk) s.reply }

module _ (h : Host) where
  -- `fetchData` where the packet is complete. A size that is not set cannot come with it.
  unfoldable pub reply_payload : Bool × Option ℕ → Bytes → Result Bytes
  unfolding fetch_data_array
  reply_payload (true, some pkg_size) reply = fetch_data_array reply pkg_size
  reply_payload (true, none) reply = err undefined
  reply_payload (false, pkg_size) reply = ok []

  -- `Impl::send`: the bytes written, and the answer with the client after it. The error of the write
  -- is not looked at.
  unfoldable pub send_packet : Bytes → Option Bytes → ClientNet → Bytes × Result (Bytes × ClientNet)
  unfolding read_reply reply_payload is_packet_complete_array
  send_packet packet read s = (
    packet,
    (do
      s' ← read_reply read s
      answer ← reply_payload (is_packet_complete_array h s'.reply none) s'.reply
      ok (answer, s')),
  )

  -- `ClientNet::send`
  unfoldable pub send : Bytes → Option Bytes → ClientNet → Bytes × Result (Bytes × ClientNet)
  unfolding send_packet
  send request read s = send_packet (create_packet h request) read s
