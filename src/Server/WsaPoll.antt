-- ===== src/Server/WsaPoll.antt =====
-- lib/server.cpp, the part of `Server::poll` for Windows, with `WSAPoll`. The state is that of
-- `Server.Poll`, of which `active_fd_set` is not used here, and the vector `pollfds`.
pub mod Validity
pub mod Runs
pub mod Null
mod Examples
use mathlib.Core.List.{List}
use netframework.Base.{
  ℕ, suc, Bool, true, false, Option, none, some, [], ◌∷◌, ◌++◌, if◌then◌else◌, update, Bytes,
  Result, ok, err, undefined, ◌>>=◌,
}
use netframework.Server.{Connection, new_connection, Received, receive_data_from_socket}
use netframework.Server.Poll.{
  Callbacks, Impl, client_connected, client_disconnected, null_disconnected, erase, listening,
  put_connection, add_event, send_all, data_callbacks, send_after, write_client,
}

-- `POLLRDNORM` or `POLLWRNORM`, and `POLLHUP`.
pub record Revents : Type 0 where
  pub ready : Bool
  pub hung_up : Bool

-- `WSAPOLLFD`
pub record PollFd : Type 0 where
  pub fd : ℕ
  pub revents : Revents

pub record Polling : Type 0 where
  pub impl : Impl
  pub pollfds : List PollFd

-- What the calls of a round return: both calls of `WSAPoll`, with the `revents` of each entry, and `none`
-- for `SOCKET_ERROR`; `accept`, with `none` for `INVALID_SOCKET`; `recv` and `send` for each entry.
-- `fresh` is what `revents` of a new entry holds, which is not set.
pub record Os : Type 0 where
  pub polled : Option (ℕ → Revents)
  pub accepted : Option ℕ
  pub fresh : Revents
  pub recv : ℕ → Received
  pub polled_writers : Option (ℕ → Revents)
  pub send : ℕ → Bytes → Option ℕ

-- The entries after `WSAPoll`; the number is the index of the first.
unfoldable pub set_revents : (ℕ → Revents) → ℕ → List PollFd → List PollFd
set_revents revents i [] = []
set_revents revents i (entry ∷ entries) =
    record entry { revents = revents i } ∷ set_revents revents (suc i) entries

-- What `poll` starts with; `memory` is what `revents` of the entry holds.
abbrev pub start_polling : ℕ → Revents → Polling
start_polling listen_socket memory = record {
  impl = listening listen_socket;
  pollfds = record { fd = listen_socket; revents = memory } ∷ [];
}

-- `true` with the state where `poll` has not returned.
abbrev pub Polled : Type 0
Polled = Bool × Polling

abbrev pub continue_polling : (Polling → Result Polled) → Polled → Result Polled
continue_polling next (false, s) = ok (false, s)
continue_polling next (true, s) = next s

-- The connection of a socket that hung up is no more, but its entry stays.
abbrev pub leave : ℕ → Impl → Impl
leave fd s = add_event (client_disconnected fd) (record s {
  client_sockets = update s.client_sockets fd none;
  writing_sockets = erase fd s.writing_sockets;
})

module _ (callbacks : Callbacks) where
  unfoldable pub accept_polled : Os → Option ℕ → Polling → Result Polled
  unfolding send_all
  accept_polled os none s = ok (false, s)
  accept_polled os (some asock) s =
      send_all (callbacks.connected asock)
        (add_event (client_connected asock) (put_connection asock new_connection s.impl))
      >>= λ impl. ok (
        true,
        record {
          impl = impl;
          pollfds = s.pollfds ++ (record { fd = asock; revents = os.fresh } ∷ []);
        },
      )

  -- The test of `pollfds[0]`.
  unfoldable pub accept_if_ready : Os → List PollFd → Polling → Result Polled
  unfolding accept_polled
  accept_if_ready os [] s = err undefined
  accept_if_ready os (first ∷ entries) s =
      if first.revents.ready then accept_polled os os.accepted s else ok (true, s)

  -- What follows `receiveDataFromSocket`, whose result is not used.
  unfoldable pub after_receive : ℕ → Bool × (Connection × List Bytes) → Impl → Result Impl
  unfolding data_callbacks
  after_receive fd (false, rest) s = ok s
  after_receive fd (true, (conn, calls)) s =
      data_callbacks callbacks fd calls (put_connection fd conn s)

  unfoldable pub receive : Received → ℕ → Option Connection → Impl → Result Impl
  unfolding receive_data_from_socket after_receive
  receive received fd none s = ok s
  receive received fd (some conn) s =
      receive_data_from_socket callbacks.data_complete received conn >>= λ r. after_receive fd r s

-- `on_null` is what `_clientStateChangedCallback` sends where it is given a null pointer.
module _ (callbacks : Callbacks) (on_null : List (ℕ × Bytes)) where
  -- Where there is no connection, the callback is given a null pointer.
  unfoldable pub hang_up : ℕ → Option Connection → Impl → Result Impl
  unfolding send_after send_all
  hang_up fd none s = send_all on_null (add_event null_disconnected s)
  hang_up fd (some conn) s = send_after fd (callbacks.disconnected fd) (leave fd s)

  -- The turn of an entry.
  unfoldable pub turn : Received → PollFd → Impl → Result Impl
  unfolding receive hang_up
  turn received entry s =
      if entry.revents.ready
      then receive callbacks received entry.fd (s.client_sockets entry.fd) s
      else if entry.revents.hung_up
      then hang_up entry.fd (s.client_sockets entry.fd) s
      else ok s

  unfoldable pub turns : (ℕ → Received) → ℕ → List PollFd → Impl → Result Impl
  unfolding turn
  turns recv i [] s = ok s
  turns recv i (entry ∷ entries) s = turn (recv i) entry s >>= turns recv (suc i) entries

-- `conn->_fd` of the connections in `connectionsToWrite`, through their pointers.
unfoldable pub writer_fds : (ℕ → Option Connection) → List ℕ → Result (List ℕ)
writer_fds clients [] = ok []
writer_fds clients (fd ∷ fds) = elim (clients fd) [
  | none ↦ err undefined
  | some conn ↦ writer_fds clients fds >>= λ rest. ok (fd ∷ rest)
]

unfoldable pub write_turns :
    (ℕ → Revents) → (ℕ → Bytes → Option ℕ) → ℕ → List ℕ → Impl → Result Impl
unfolding write_client
write_turns revents send i [] s = ok s
write_turns revents send i (fd ∷ fds) s =
    (if (revents i).ready then write_client (send i) fd (s.client_sockets fd) s else ok s)
    >>= write_turns revents send (suc i) fds

-- The second call of `WSAPoll`, where a connection asks to be written.
unfoldable pub poll_writers : Os → Option (ℕ → Revents) → List ℕ → Polling → Result Polled
unfolding write_turns
poll_writers os answer [] s = ok (true, s)
poll_writers os none (fd ∷ fds) s = ok (false, s)
poll_writers os (some revents) (fd ∷ fds) s =
    write_turns revents os.send 0 (fd ∷ fds) s.impl >>= λ impl. ok (true, record s { impl = impl })

-- The part of a round that sends.
unfoldable pub write_phase : Os → Polling → Result Polled
unfolding writer_fds poll_writers
write_phase os s =
    let taken : Polling = record s { impl = record s.impl { writing_sockets = [] } } in
    writer_fds s.impl.client_sockets s.impl.writing_sockets >>= λ fds.
    poll_writers os os.polled_writers fds taken

module _ (callbacks : Callbacks) (on_null : List (ℕ × Bytes)) where
  -- The loop over the entries, and what follows it.
  unfoldable pub service : Os → Polling → Result Polled
  unfolding turns write_phase
  service os s = turns callbacks on_null os.recv 0 s.pollfds s.impl >>= λ impl.
      write_phase os (record s { impl = impl })

  unfoldable pub after_poll : Os → Polling → Result Polled
  unfolding accept_if_ready service
  after_poll os s = accept_if_ready callbacks os s.pollfds s >>= continue_polling (service os)

  -- One round of `while (true)`.
  unfoldable pub round : Os → Option (ℕ → Revents) → Polling → Result Polled
  unfolding set_revents after_poll
  round os none s = ok (false, s)
  round os (some revents) s = after_poll os (record s { pollfds = set_revents revents 0 s.pollfds })
