-- ===== src/Server/Steps.antt =====
-- Each part of a round of `poll`, and `sendData`, keeps the server valid.
use mathlib.Core.List.{List}
use netframework.Base.{
  update, All, ℕ, zero, suc, ◌&&◌, Bool, true, false, Bool-cases, inl, inr, Option, none, some, [],
  ◌==◌, ltb, if◌then◌else◌, Bytes, Result, ok, Ensures, Ensures->>=, Ensures-any, ◌≡◌, refl, ap,
  ltb→lt,
}
use netframework.Server.{Connection, new_connection, Received, receive_data_from_socket}
use netframework.Server.Poll.{
  Callbacks, Impl, Os, client_connected, closed, fd_setsize, put_connection, add_event, send_data,
  send_all, mark_writers, Serviced, accept_client, data_callbacks, send_after, disconnect,
  after_receive, read_client, service_read, write_client, service_write, service, service_from,
  go_on, round,
}
use netframework.Server.Keeping.{
  IsKept, send_data_keeps, send_all_keeps, data_callbacks_keeps, send_after_keeps,
  write_client_keeps,
}
use netframework.Server.Validity.{
  is_live, IsLive, IsValid, All-insert, put_connection-IsValid, disconnect-IsValid, accept-IsValid,
  add_event-IsValid,
}

IsValid-IsKept : IsKept IsValid
IsValid-IsKept = record {
  changed = put_connection-IsValid;
  asked = λ fd s live v. record {
    writers = All-insert s.client_sockets fd s.writing_sockets live v.writers;
    watched = v.watched;
    small = v.small;
  };
  noted = add_event-IsValid;
}

pub send_data-IsValid :
    (fd : ℕ) (bytes : Bytes) (s : Impl) → IsValid s → Ensures IsValid (send_data fd bytes s)
send_data-IsValid = send_data_keeps IsValid IsValid-IsKept

-- The state of a socket's turn, or of a round.
abbrev pub TurnIsValid : Serviced → Type 0
TurnIsValid turn = IsValid turn.1.1

abbrev pub RoundIsValid : Bool × Impl → Type 0
RoundIsValid r = IsValid r.1

accept_client-IsValid :
    (callbacks : Callbacks) (accepted : Option ℕ) (s : Impl)
    → IsValid s
    → Ensures TurnIsValid (accept_client callbacks accepted s)
unfolding accept_client
accept_client-IsValid callbacks none s v = v
accept_client-IsValid callbacks (some fd) s v = elim (Bool-cases (ltb fd fd_setsize)) [
  | inl fits ↦ rw fits (
      Ensures->>= IsValid TurnIsValid
        (send_all (callbacks.connected fd) (
          add_event (client_connected fd) (
            put_connection fd new_connection
              (record s { active_fd_set = update s.active_fd_set fd true }))))
        (λ s'. ok (true, (false, s')))
        (send_all_keeps IsValid IsValid-IsKept (callbacks.connected fd) _
          (accept-IsValid fd s (client_connected fd) (ltb→lt fd fd_setsize fits) v))
        (λ s' v'. v'))
  | inr large ↦ rw large tt
]

-- The callback for a disconnected client does not send to that client.
abbrev pub IsCareful : Callbacks → Type 0
IsCareful callbacks =
    (gone : ℕ) → All (λ (call : ℕ × Bytes). (call.0 == gone) ≡ false) (callbacks.disconnected gone)

after_receive-IsValid :
    (callbacks : Callbacks) (careful : IsCareful callbacks) (fd : ℕ)
    (r : Bool × (Connection × List Bytes)) (s : Impl)
    → IsLive s.client_sockets fd
    → IsValid s
    → Ensures TurnIsValid (after_receive callbacks fd r s)
unfolding after_receive
after_receive-IsValid callbacks careful fd (false, rest) s live v =
    Ensures->>= IsValid TurnIsValid (send_after fd (callbacks.disconnected fd) (disconnect fd s))
      (λ s'. ok (true, (true, s')))
      (send_after_keeps IsValid IsValid-IsKept fd (callbacks.disconnected fd) _ (careful fd)
        (disconnect-IsValid fd s v))
      (λ s' v'. v')
after_receive-IsValid callbacks careful fd (true, (conn, calls)) s live v =
    Ensures->>= IsValid TurnIsValid (data_callbacks callbacks fd calls (put_connection fd conn s))
      (λ s'. ok (true, (false, s')))
      (data_callbacks_keeps IsValid IsValid-IsKept callbacks fd calls _
        (put_connection-IsValid fd conn s live v))
      (λ s' v'. v')

read_client-IsValid :
    (callbacks : Callbacks) (careful : IsCareful callbacks) (received : Received) (fd : ℕ)
    (found : Option Connection) (s : Impl)
    → s.client_sockets fd ≡ found
    → IsValid s
    → Ensures TurnIsValid (read_client callbacks received fd found s)
unfolding read_client
read_client-IsValid callbacks careful received fd none s at v = v
read_client-IsValid callbacks careful received fd (some conn) s at v =
    Ensures->>= (λ r. Unit {0}) TurnIsValid
      (receive_data_from_socket callbacks.data_complete received conn)
      (λ r. after_receive callbacks fd r s)
      (Ensures-any (receive_data_from_socket callbacks.data_complete received conn))
      (λ r any. after_receive-IsValid callbacks careful fd r s (ap is_live at) v)

service_read-IsValid :
    (callbacks : Callbacks) (careful : IsCareful callbacks) (os : Os) (fd : ℕ) (s : Impl)
    → IsValid s
    → Ensures TurnIsValid (service_read callbacks os fd s)
unfolding service_read
service_read-IsValid callbacks careful os fd s v = elim (Bool-cases (fd == s.listen_socket)) [
  | inl listens ↦ rw listens (accept_client-IsValid callbacks os.accepted s v)
  | inr client ↦
      rw client
        (read_client-IsValid callbacks careful (os.recv fd) fd (s.client_sockets fd) s refl v)
]

write_if-IsValid :
    (os : Os) (wants : Bool) (fd : ℕ) (s : Impl)
    → IsValid s
    → Ensures IsValid (if wants then write_client (os.send fd) fd (s.client_sockets fd) s else ok s)
write_if-IsValid os true fd s v =
    write_client_keeps IsValid IsValid-IsKept (os.send fd) fd (s.client_sockets fd) s refl v
write_if-IsValid os false fd s v = v

closed_if-IsValid :
    (deleted : Bool) (fd : ℕ) (s : Impl)
    → IsValid s
    → IsValid (if deleted then add_event (closed fd) s else s)
closed_if-IsValid true fd s v = add_event-IsValid (closed fd) s v
closed_if-IsValid false fd s v = v

service_write-IsValid :
    (os : Os) (wants : Bool) (fd : ℕ) (turn : Serviced)
    → TurnIsValid turn
    → Ensures RoundIsValid (service_write os wants fd turn)
unfolding service_write
service_write-IsValid os wants fd (false, (deleted, s)) v = v
service_write-IsValid os wants fd (true, (deleted, s)) v =
    Ensures->>= IsValid RoundIsValid
      (if wants && os.writable fd
        then write_client (os.send fd) fd (s.client_sockets fd) s
        else ok s)
      (λ s'. ok (true, if deleted then add_event (closed fd) s' else s'))
      (write_if-IsValid os (wants && os.writable fd) fd s v)
      (λ s' v'. closed_if-IsValid deleted fd s' v')

unasked-IsValid : (s : Impl) → IsValid s → IsValid (record s { writing_sockets = [] })
unasked-IsValid s v = record { writers = tt; watched = v.watched; small = v.small }

go_on-IsValid :
    (later : Impl → Result (Bool × Impl))
    → ((s : Impl) → IsValid s → Ensures RoundIsValid (later s))
    → (r : Bool × Impl) → RoundIsValid r
    → Ensures RoundIsValid (go_on later r)
go_on-IsValid later keeps (true, s) v = keeps s v
go_on-IsValid later keeps (false, s) v = v

module _ (callbacks : Callbacks) (careful : IsCareful callbacks) (os : Os)
    (readers writers : ℕ → Bool) where
  read_if-IsValid :
      (ready : Bool) (fd : ℕ) (s : Impl)
      → IsValid s
      → Ensures TurnIsValid
          (if ready then service_read callbacks os fd s else ok (true, (false, s)))
  read_if-IsValid true fd s v = service_read-IsValid callbacks careful os fd s v
  read_if-IsValid false fd s v = v

  service-IsValid :
      (fd : ℕ) (s : Impl)
      → IsValid s
      → Ensures RoundIsValid (service callbacks os readers writers fd s)
  unfolding service
  service-IsValid fd s v =
      Ensures->>= TurnIsValid RoundIsValid
        (if readers fd && os.readable fd
          then service_read callbacks os fd s
          else ok (true, (false, s)))
        (service_write os (writers fd) fd) (read_if-IsValid (readers fd && os.readable fd) fd s v)
        (service_write-IsValid os (writers fd) fd)

  service_from-IsValid :
      (left fd : ℕ) (s : Impl)
      → IsValid s
      → Ensures RoundIsValid (service_from callbacks os readers writers left fd s)
  unfolding service_from
  service_from-IsValid zero fd s v = v
  service_from-IsValid (suc left) fd s v =
      Ensures->>= RoundIsValid RoundIsValid (service callbacks os readers writers fd s)
        (go_on (service_from callbacks os readers writers left (suc fd))) (service-IsValid fd s v)
        (go_on-IsValid (service_from callbacks os readers writers left (suc fd))
          (service_from-IsValid left (suc fd)))

pub round-IsValid :
    (callbacks : Callbacks) (careful : IsCareful callbacks) (os : Os) (s : Impl)
    → IsValid s
    → Ensures RoundIsValid (round callbacks os s)
unfolding round
round-IsValid callbacks careful os s v =
    Ensures->>= (λ writers. Unit {0}) RoundIsValid (mark_writers s.client_sockets s.writing_sockets)
      _ (Ensures-any (mark_writers s.client_sockets s.writing_sockets))
      (λ writers any. elim (Bool-cases os.select_fails) [
        | inl fails ↦ rw fails (unasked-IsValid s v)
        | inr works ↦ rw works (
            service_from-IsValid callbacks careful os s.active_fd_set writers fd_setsize 0
              (record s { writing_sockets = [] }) (unasked-IsValid s v))
      ])
