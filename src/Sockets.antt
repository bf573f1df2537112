-- ===== src/Sockets.antt =====
-- lib/client.cpp, `Client::connect`; lib/server.cpp, `Server::init` and `Server::listen`; lib/netutil.h,
-- the constants and `addrString`. What the socket functions of the system return is an argument.
pub mod Connect
mod Examples
use mathlib.Core.List.{List}
use netframework.Base.{
  ℕ, ◌*◌, Bool, true, false, [], ◌∷◌, ◌++◌, ◌==◌, if◌then◌else◌, Bytes, ℤ, pos, negsuc,
}

-- `MAX_PATH`, `NULLSOCKET` and `SOCKET_ERROR`, where there is no `winsock2.h`.
abbrev pub max_path : ℕ
max_path = 1024 * 64

abbrev pub null_socket : ℕ
null_socket = 0

abbrev pub socket_error : ℕ
socket_error = 1

-- Comparison of an `int` with a constant.
abbrev pub is_constant : ℤ → ℕ → Bool
is_constant (pos n) constant = n == constant
is_constant (negsuc n) constant = false

-- The parts of an `addrinfo` that `addrString` reads: the family, and the address as the two kinds of
-- socket address have it.
pub record AddrInfo : Type 0 where
  pub ai_family : ℕ
  pub sin_addr : Bytes
  pub sin6_addr : Bytes

-- `inet_ntop` and `AF_INET` are the system's.
unfoldable pub addr_string : (ℕ → Bytes → Bytes) → ℕ → AddrInfo → Bytes
addr_string inet_ntop af_inet ptr =
    if ptr.ai_family == af_inet
    then inet_ntop ptr.ai_family ptr.sin_addr
    else inet_ntop ptr.ai_family ptr.sin6_addr

-- What `socket` and `::connect` return for an address.
pub record Attempt : Type 0 where
  pub address : AddrInfo
  pub socket_result : ℤ
  pub connect_result : ℤ

-- What is printed about an address.
pub data Message : Type 0 where
  could_not_connect connected_to : Bytes → Message
  socket_failed getaddrinfo_failed : Message

-- What `connect` leaves: its result, `connectSocket`, the sockets that `socket` gave and nothing
-- closed, and what was printed.
pub record Connected : Type 0 where
  pub result : Bool
  pub connect_socket : ℤ
  pub opened : List ℤ
  pub printed : List Message

module _ (show : AddrInfo → Bytes) where
  -- An address that is passed over.
  abbrev pub passed : Attempt → Connected → Connected
  passed a later = record later {
    opened = a.socket_result ∷ later.opened;
    printed = could_not_connect (show a.address) ∷ later.printed;
  }

  -- The loop over the addresses, from the socket that is kept so far.
  unfoldable pub connect_loop : ℤ → List Attempt → Connected
  connect_loop current [] = record {
    result = true;
    connect_socket = current;
    opened = [];
    printed = [];
  }
  connect_loop current (a ∷ attempts) =
      let later = passed a (connect_loop a.socket_result attempts) in
      if is_constant a.socket_result null_socket
      then record {
        result = false;
        connect_socket = a.socket_result;
        opened = [];
        printed = socket_failed ∷ [];
      }
      else if is_constant a.connect_result null_socket
      then later
      else record {
        result = true;
        connect_socket = a.socket_result;
        opened = a.socket_result ∷ [];
        printed = connected_to (show a.address) ∷ [];
      }

  -- The first argument is what `getaddrinfo` returns, the list the addresses that it gives.
  unfoldable pub connect : ℤ → List Attempt → Connected
  unfolding connect_loop
  connect resolved attempts =
      if is_constant resolved 0 then connect_loop (pos null_socket) attempts else record {
        result = false;
        connect_socket = pos null_socket;
        opened = [];
        printed = getaddrinfo_failed ∷ [];
      }

-- What `getaddrinfo`, `socket` and `bind` return; the result, and `listenSocket` after the call.
-- A failed `bind` returns 1, which is `true`.
unfoldable pub init : ℤ → ℤ → ℤ → Bool × ℤ
init resolved socket_result bind_result =
    if is_constant resolved 0
    then (if is_constant socket_result null_socket
        then (false, socket_result)
        else if is_constant bind_result socket_error
        then (true, socket_result)
        else (true, socket_result))
    else (false, pos null_socket)

unfoldable pub listen : ℤ → Bool
listen listen_result = if is_constant listen_result socket_error then false else true
