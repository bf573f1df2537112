-- ===== src/Server/WsaPoll/Examples.antt =====
-- A server on Windows with one client.
use netframework.Base.{
  ℕ, update, true, false, some, none, ◌==◌, [], ◌∷◌, codes, ok, ◌>>=◌, not, ◌&&◌, ◌≡◌, refl,
}
use netframework.Server.{new_connection, got, add_data}
use netframework.Server.Poll.{
  Callbacks, Impl, client_connected, client_disconnected, null_disconnected, insert, contains,
  send_all, send_data,
}
use netframework.Server.Validity.{is_live}
use netframework.Server.WsaPoll.{
  Revents, Polling, Os, start_polling, set_revents, continue_polling, writer_fds, round, after_poll,
  service, accept_if_ready, accept_polled, turns, turn,
}
use netframework.Server.WsaPoll.Validity.{fds}
use netframework.Server.WsaPoll.Runs.{started, Runs-writer_fds}
use netframework.Server.WsaPoll.Null.{only, round-continue_polling}

abbrev quiet : Revents
quiet = record { ready = false; hung_up = false }

-- The callback for a new client asks to send a greeting.
abbrev greeting : Callbacks
greeting = record {
  data_complete = λ bytes. true;
  data_ = λ bytes fd. [];
  connected = λ fd. (fd, codes "hi") ∷ [];
  disconnected = λ fd. [];
}

-- A client is accepted on the socket 9, and `WSAPoll` for its greeting finds it not ready.
abbrev arrival : Os
arrival = record {
  polled = some (λ i. record { ready = true; hung_up = false });
  accepted = some 9;
  fresh = quiet;
  recv = λ i. got [];
  polled_writers = some (λ i. quiet);
  send = λ i bytes. none;
}

abbrev one_client : Polling
one_client = record {
  impl = record {
    listen_socket = 3;
    client_sockets =
        update (update (λ fd. none) 9 (some new_connection)) 9
          (some (add_data (codes "hi") new_connection));
    writing_sockets = [];
    active_fd_set = λ fd. 3 == fd;
    events = client_connected 9 ∷ [];
  };
  pollfds =
      record { fd = 3; revents = record { ready = true; hung_up = false } }
      ∷ record { fd = 9; revents = quiet }
      ∷ [];
}

-- The client is accepted, and its greeting waits.
abbrev greeted : Impl
greeted = record one_client.impl { writing_sockets = 9 ∷ [] }

Runs-writer_fds_example :
    (writer_fds greeted.client_sockets (9 ∷ []) ≡ ok (9 ∷ []))
    × ((fd : ℕ)
        → (is_live (greeted.client_sockets fd) && not (contains (fds one_client.pollfds) fd))
          ≡ false)
unfolding round after_poll service accept_if_ready accept_polled turns turn set_revents send_all
    send_data insert add_data
Runs-writer_fds_example =
    Runs-writer_fds [] greeting [] arrival (λ i. record { ready = true; hung_up = false })
      (start_polling 3 quiet) (record one_client { impl = greeted }) greeted ((λ fd. tt), tt)
      (started 3 quiet) refl refl

round-continue_polling_example :
    (s' : Polling) × ((round greeting [] arrival (some (only 1)) one_client
        >>= continue_polling (round greeting [] arrival (some (only 1))))
      ≡ ok (true, s'))
    × (s'.impl.events ≡ client_connected 9 ∷ client_disconnected 9 ∷ null_disconnected ∷ [])
round-continue_polling_example =
    round-continue_polling greeting arrival
      (record { fd = 3; revents = record { ready = true; hung_up = false } } ∷ [])
      (record { fd = 9; revents = quiet }) [] (add_data (codes "hi") new_connection) one_client refl
      refl refl refl
