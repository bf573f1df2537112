-- ===== src/Server/Poll.antt =====
-- lib/server.cpp, `Server::Impl`, `ClientConnection::sendData` and `Server::poll` with `select`. The map
-- from sockets to connections is a function, since a missing entry and a null pointer read alike by
-- `operator[]`; what the operating system answers in a round is an argument.
use mathlib.Core.List.{List}
use netframework.Base.{
  update, ℕ, zero, suc, Bool, true, false, ◌&&◌, ◌||◌, Option, none, some, [], ◌∷◌, ◌++◌, ltb, ◌==◌,
  if◌then◌else◌, Bytes, Result, ok, err, undefined, ◌>>=◌,
}
use netframework.Server.{
  Connection, new_connection, Received, receive_data_from_socket, add_data, send_data_to_socket,
}

-- What the functions that the server is given do in one round, where the same arguments give the same
-- answer; a run has others in each round, since a `std::function` may keep a state. What a callback does
-- to the server is the list of its calls of `sendData`, each with the socket of the connection. A pointer
-- in `writingSockets` is that socket too: one that dangles reads as a new connection, where the same round
-- accepts it on the socket.
pub record Callbacks : Type 0 where
  pub data_complete : Bytes → Bool
  pub data_ : Bytes → ℕ → List (ℕ × Bytes)
  pub connected : ℕ → List (ℕ × Bytes)
  pub disconnected : ℕ → List (ℕ × Bytes)

-- The callbacks that were made, the last of them with a null pointer, the bytes that were sent and the
-- sockets that were closed.
pub data Event : Type 0 where
  client_connected client_disconnected closed : ℕ → Event
  null_disconnected : Event
  data_arrived sent : ℕ → Bytes → Event

pub record Impl : Type 0 where
  pub listen_socket : ℕ
  pub client_sockets : ℕ → Option Connection
  pub writing_sockets : List ℕ
  pub active_fd_set : ℕ → Bool
  pub events : List Event

-- What the calls of a round return: `select`, with the sockets that it finds ready; `accept`, `none`
-- for a negative number; `recv` and `send` on each socket.
pub record Os : Type 0 where
  pub select_fails : Bool
  pub readable : ℕ → Bool
  pub writable : ℕ → Bool
  pub accepted : Option ℕ
  pub recv : ℕ → Received
  pub send : ℕ → Bytes → Option ℕ

abbrev pub fd_setsize : ℕ
fd_setsize = 1024

-- `std::set`, as a list without order.
unfoldable pub contains : List ℕ → ℕ → Bool
contains [] fd = false
contains (other ∷ fds) fd = other == fd || contains fds fd

unfoldable pub insert : ℕ → List ℕ → List ℕ
unfolding contains
insert fd fds = if contains fds fd then fds else fd ∷ fds

unfoldable pub erase : ℕ → List ℕ → List ℕ
erase fd [] = []
erase fd (other ∷ fds) = let rest = erase fd fds in if other == fd then rest else other ∷ rest

-- What `poll` starts with on the socket that listens.
abbrev pub listening : ℕ → Impl
listening listen_socket = record {
  listen_socket = listen_socket;
  client_sockets = λ fd. none;
  writing_sockets = [];
  active_fd_set = λ fd. listen_socket == fd;
  events = [];
}

abbrev pub put_connection : ℕ → Connection → Impl → Impl
put_connection fd conn s = record s { client_sockets = update s.client_sockets fd (some conn) }

abbrev pub add_event : Event → Impl → Impl
add_event event s = record s { events = s.events ++ (event ∷ []) }

-- `sendData`, through a pointer that must be alive.
unfoldable pub send_data_on : Option Connection → ℕ → Bytes → Impl → Result Impl
unfolding insert add_data
send_data_on none fd bytes s = err undefined
send_data_on (some conn) fd bytes s = ok record (put_connection fd (add_data bytes conn) s) {
  writing_sockets = insert fd s.writing_sockets;
}

unfoldable pub send_data : ℕ → Bytes → Impl → Result Impl
unfolding send_data_on
send_data fd bytes s = send_data_on (s.client_sockets fd) fd bytes s

unfoldable pub send_all : List (ℕ × Bytes) → Impl → Result Impl
unfolding send_data
send_all [] s = ok s
send_all ((fd, bytes) ∷ calls) s = send_data fd bytes s >>= send_all calls

-- `FD_SET` of the connections in `connectionsToWrite`, through their pointers.
unfoldable pub mark_writers : (ℕ → Option Connection) → List ℕ → Result (ℕ → Bool)
mark_writers clients [] = ok (λ fd. false)
mark_writers clients (fd ∷ fds) = elim (clients fd) [
  | none ↦ err undefined
  | some conn ↦ mark_writers clients fds >>= λ set.
      if ltb fd fd_setsize then ok (update set fd true) else err undefined
]

-- Whether `poll` goes on, and `deleteSocket`.
abbrev pub Serviced : Type 0
Serviced = Bool × (Bool × Impl)

-- What `poll` does about a client that has closed, but for the socket.
abbrev pub disconnect : ℕ → Impl → Impl
disconnect fd s = add_event (client_disconnected fd) (record s {
  client_sockets = update s.client_sockets fd none;
  writing_sockets = erase fd s.writing_sockets;
  active_fd_set = update s.active_fd_set fd false;
})

-- The calls of `sendData` by the callback for a disconnected client, whose connection `gone` is in
-- `clientSockets` no more and is deleted after them: what the calls leave of it is its pointer in
-- `writingSockets`.
unfoldable pub send_after : ℕ → List (ℕ × Bytes) → Impl → Result Impl
unfolding insert send_data
send_after gone [] s = ok s
send_after gone ((fd, bytes) ∷ calls) s =
    (if fd == gone
      then ok (record s { writing_sockets = insert fd s.writing_sockets })
      else send_data fd bytes s)
    >>= send_after gone calls

module _ (callbacks : Callbacks) where
  unfoldable pub accept_client : Option ℕ → Impl → Result Serviced
  unfolding send_all
  accept_client none s = ok (false, (false, s))
  accept_client (some fd) s =
      if ltb fd fd_setsize
      then (send_all (callbacks.connected fd) (
            add_event (client_connected fd) (
              put_connection fd new_connection
                (record s { active_fd_set = update s.active_fd_set fd true })))
          >>= λ s'. ok (true, (false, s')))
      else err undefined

  -- The calls of `_dataCallback` and what these do.
  unfoldable pub data_callbacks : ℕ → List Bytes → Impl → Result Impl
  unfolding send_all
  data_callbacks fd [] s = ok s
  data_callbacks fd (bytes ∷ rest) s =
      send_all (callbacks.data_ bytes fd) (add_event (data_arrived fd bytes) s)
      >>= data_callbacks fd rest

  unfoldable pub after_receive : ℕ → Bool × (Connection × List Bytes) → Impl → Result Serviced
  unfolding data_callbacks erase send_after
  after_receive fd (false, rest) s =
      send_after fd (callbacks.disconnected fd) (disconnect fd s) >>= λ s'. ok (true, (true, s'))
  after_receive fd (true, (conn, calls)) s =
      data_callbacks fd calls (put_connection fd conn s) >>= λ s'. ok (true, (false, s'))

  unfoldable pub read_client : Received → ℕ → Option Connection → Impl → Result Serviced
  unfolding after_receive receive_data_from_socket
  read_client received fd none s = ok (true, (false, s))
  read_client received fd (some conn) s =
      receive_data_from_socket callbacks.data_complete received conn >>= λ r. after_receive fd r s

  unfoldable pub service_read : Os → ℕ → Impl → Result Serviced
  unfolding accept_client read_client
  service_read os fd s =
      if fd == s.listen_socket
      then accept_client os.accepted s
      else read_client (os.recv fd) fd (s.client_sockets fd) s

unfoldable pub write_client : (Bytes → Option ℕ) → ℕ → Option Connection → Impl → Result Impl
unfolding send_data_to_socket
write_client send fd none s = ok s
write_client send fd (some conn) s = send_data_to_socket send conn >>= λ r.
    ok (add_event (sent fd r.bytes) (put_connection fd r.connection s))

-- The rest of a socket's turn: writing, and closing.
unfoldable pub service_write : Os → Bool → ℕ → Serviced → Result (Bool × Impl)
unfolding write_client
service_write os wants fd (false, (deleted, s)) = ok (false, s)
service_write os wants fd (true, (deleted, s)) =
    (if wants && os.writable fd then write_client (os.send fd) fd (s.client_sockets fd) s else ok s)
    >>= λ s'. ok (true, if deleted then add_event (closed fd) s' else s')

-- What follows a socket's turn, with the turns of the later sockets.
abbrev pub go_on : (Impl → Result (Bool × Impl)) → Bool × Impl → Result (Bool × Impl)
go_on later (false, s) = ok (false, s)
go_on later (true, s) = later s

module _ (callbacks : Callbacks) (os : Os) (readers writers : ℕ → Bool) where
  -- The body of the loop over the sockets.
  unfoldable pub service : ℕ → Impl → Result (Bool × Impl)
  unfolding service_read service_write
  service fd s =
      (if readers fd && os.readable fd
        then service_read callbacks os fd s
        else ok (true, (false, s)))
      >>= service_write os (writers fd) fd

  unfoldable pub service_from : ℕ → ℕ → Impl → Result (Bool × Impl)
  unfolding service
  service_from zero fd s = ok (true, s)
  service_from (suc left) fd s = service fd s >>= go_on (service_from left (suc fd))

-- One round of `while (1)`; the flag says that `poll` has not returned.
unfoldable pub round : Callbacks → Os → Impl → Result (Bool × Impl)
unfolding mark_writers service_from
round callbacks os s = mark_writers s.client_sockets s.writing_sockets >>= λ writers.
    (if os.select_fails
      then ok (false, record s { writing_sockets = [] })
      else service_from callbacks os s.active_fd_set writers fd_setsize 0
          (record s { writing_sockets = [] }))
