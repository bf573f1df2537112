-- ===== src/Server/Examples.antt =====
-- A server that listens on socket 3 and greets its clients, and the client on socket 4.
use mathlib.Core.List.{flatten}
use netframework.Base.{
  update, ℕ, ◌==◌, Bool, true, false, not, ◌&&◌, none, some, [], ◌∷◌, ◌++◌, Bytes, codes, ok, err,
  undefined, ◌≡◌, refl, arith,
}
use netframework.CoreProto.LittleEndian.{little_endian}
use netframework.CoreProto.Frame.{create_packet}
use netframework.Server.{Connection, got}
use netframework.Server.Poll.{
  Callbacks, Impl, Os, client_connected, contains, mark_writers, listening, round, after_receive,
  service,
}
use netframework.Server.Stream.{reassemble, receive_each, receive_each-reassemble}
use netframework.Server.Packets.{packet_complete, receive_each-create_packet}
use netframework.Server.Validity.{is_live}
use netframework.Server.Runs.{started, polled, Runs-writers}
use netframework.Server.Dangling.{left_dangling, after_receive-mark_writers}
use netframework.Server.Emptied.{service-send_data_to_socket}

abbrev greeting : Callbacks
greeting = record {
  data_complete = λ bytes. true;
  data_ = λ bytes fd. [];
  connected = λ fd. (fd, codes "hi") ∷ [];
  disconnected = λ fd. [];
}

abbrev quiet : Callbacks
quiet = record {
  data_complete = λ bytes. true;
  data_ = λ bytes fd. [];
  connected = λ fd. [];
  disconnected = λ fd. [];
}

-- A client arrives on socket 4.
abbrev arrival : Os
arrival = record {
  select_fails = false;
  readable = λ fd. fd == 3;
  writable = λ fd. false;
  accepted = some 4;
  recv = λ fd. got [];
  send = λ fd bytes. none;
}

abbrev greeted : Connection
greeted = record { received_data = []; data_to_send = codes "hi" }

abbrev after_arrival : Impl
after_arrival = record {
  listen_socket = 3;
  client_sockets =
      update (update (λ fd. none) 4 (some record { received_data = []; data_to_send = [] })) 4
        (some greeted);
  writing_sockets = 4 ∷ [];
  active_fd_set = update (λ fd. 3 == fd) 4 true;
  events = client_connected 4 ∷ [];
}

arrival-round : round greeting arrival (listening 3) ≡ ok (true, after_arrival)
unfolding round
arrival-round = refl

Runs-writers_example :
    ((writers : ℕ → Bool) × (mark_writers after_arrival.client_sockets (4 ∷ []) ≡ ok writers)
      × ((fd : ℕ) → writers fd ≡ contains (4 ∷ []) fd))
    × ((fd : ℕ)
        → (is_live (after_arrival.client_sockets fd) && not (after_arrival.active_fd_set fd))
          ≡ false)
Runs-writers_example =
    Runs-writers (greeting ∷ []) after_arrival ((λ gone. tt), tt)
      (polled greeting arrival (started 3) arrival-round)

-- A round in which no socket is ready.
abbrev nothing_ready : Os
nothing_ready = record arrival { readable = λ fd. false; accepted = none }

abbrev after_nothing : Impl
after_nothing = record after_arrival { writing_sockets = [] }

-- A callback that wants three bytes.
abbrev three : Bytes → Bool
three (a ∷ b ∷ c ∷ rest) = true
three bytes = false

receive_each-reassemble_example :
    (receive_each three
        (codes "ab" ∷ codes "cd" ∷ codes "e" ∷ [])
        (record { received_data = []; data_to_send = codes "x" })
      ≡ ok (record { received_data = codes "e"; data_to_send = codes "x" }, codes "abcd" ∷ []))
    × (flatten (codes "abcd" ∷ []) ++ codes "e" ≡ codes "abcde")
unfolding reassemble flatten
receive_each-reassemble_example =
    receive_each-reassemble three (codes "ab" ∷ codes "cd" ∷ codes "e" ∷ [])
      (record { received_data = []; data_to_send = codes "x" })
      ((λ e. cc e), ((λ e. cc e), ((λ e. cc e), tt)))

receive_each-create_packet_example :
    receive_each
      (packet_complete little_endian)
      (codes "NF" ∷ (0 ∷ 0 ∷ 0 ∷ 2 ∷ codes "h") ∷ codes "i" ∷ [])
      (record { received_data = []; data_to_send = [] })
    ≡ ok (
      record { received_data = []; data_to_send = [] },
      create_packet little_endian (codes "hi") ∷ [],
    )
unfolding flatten create_packet
receive_each-create_packet_example =
    receive_each-create_packet little_endian (codes "hi")
      (codes "NF" ∷ (0 ∷ 0 ∷ 0 ∷ 2 ∷ codes "h") ∷ codes "i" ∷ []) [] (omega arith)
      ((λ e. cc e), ((λ e. cc e), ((λ e. cc e), tt))) refl

abbrev parting : Callbacks
parting = record quiet { disconnected = λ fd. (fd, codes "bye") ∷ [] }

after_receive-mark_writers_example :
    (after_receive parting 4 (false, (greeted, [])) after_arrival
      ≡ ok (true, (true, left_dangling 4 after_arrival)))
    × (mark_writers
          (left_dangling 4 after_arrival).client_sockets
          (left_dangling 4 after_arrival).writing_sockets
        ≡ err undefined)
after_receive-mark_writers_example =
    after_receive-mark_writers parting 4 (codes "bye") (greeted, []) after_arrival refl

-- Answers "yo" to all that comes.
abbrev answering : Callbacks
answering = record {
  data_complete = λ bytes. true;
  data_ = λ bytes fd. (fd, codes "yo") ∷ [];
  connected = λ fd. [];
  disconnected = λ fd. [];
}

-- The client on socket 4 sends "a", and can be written.
abbrev both_ready : Os
both_ready = record {
  select_fails = false;
  readable = λ fd. fd == 4;
  writable = λ fd. fd == 4;
  accepted = none;
  recv = λ fd. got (codes "a");
  send = λ fd bytes. some 4;
}

abbrev only_writable : Os
only_writable = record {
  select_fails = false;
  readable = λ fd. false;
  writable = λ fd. fd == 4;
  accepted = none;
  recv = λ fd. got [];
  send = λ fd bytes. some 0;
}

service-send_data_to_socket_example :
    (s' : Impl) × (service answering both_ready (λ fd. true) (λ fd. fd == 4) 4 after_arrival
      ≡ ok (true, s'))
    × (contains s'.writing_sockets 4 ≡ true)
    × (service answering only_writable (λ fd. true) (λ fd. fd == 4) 4 s' ≡ err undefined)
service-send_data_to_socket_example =
    service-send_data_to_socket answering (λ fd. true) (λ fd. fd == 4) (λ fd. true) (λ fd. fd == 4)
      4 both_ready only_writable b'a' b'h' b'y' [] (codes "i") (codes "o") after_arrival refl refl
      refl refl refl refl refl refl refl
