-- ===== src/Server/Emptied.antt =====
-- A callback that sends to its client in a turn in which the client's socket is written.
use mathlib.Core.List.{List}
use netframework.Base.{
  ℕ, ◌==◌, ◌&&◌, Bool, true, false, Bool-cases, inl, inr, some, take, [], ◌∷◌, ◌++◌, Bytes, ok, err,
  undefined, ◌≡◌, refl, arith,
}
use netframework.Server.{
  Connection, got, receive_data_from_socket, receive_into, add_data, send_data_to_socket,
  send_bytes, taken,
}
use netframework.Server.Poll.{
  Callbacks, Impl, Os, contains, insert, put_connection, add_event, data_arrived, sent,
  send_data_on, send_data, send_all, data_callbacks, after_receive, read_client, service_read,
  write_client, service_write, service,
}

contains-insert : (fd : ℕ) (fds : List ℕ) → contains (insert fd fds) fd ≡ true
unfolding contains insert
contains-insert fd fds = elim (Bool-cases (contains fds fd)) [
  | inl old ↦ rw (old, old) refl
  | inr new ↦ rw new (ground arith)
]

module _ (callbacks : Callbacks) (readers writers : ℕ → Bool) (fd : ℕ) where
  -- The turn of a socket that is read and written.
  served :
      (os : Os) (b d r : ℕ) (bs ds rs : Bytes) (s : Impl)
      → (fd == s.listen_socket) ≡ false
      → s.client_sockets fd ≡ some (record { received_data = []; data_to_send = d ∷ ds })
      → os.recv fd ≡ got (b ∷ bs)
      → callbacks.data_complete (b ∷ bs) ≡ true
      → callbacks.data_ (b ∷ bs) fd ≡ (fd, r ∷ rs) ∷ []
      → (readers fd && os.readable fd) ≡ true
      → (writers fd && os.writable fd) ≡ true
      → (s' : Impl) × (service callbacks os readers writers fd s ≡ ok (true, s'))
        × (s'.client_sockets fd ≡ some (record { received_data = []; data_to_send = [] }))
        × (contains s'.writing_sockets fd ≡ true)
  unfolding service service_read read_client receive_data_from_socket receive_into after_receive
      data_callbacks send_all send_data send_data_on add_data service_write write_client
      send_data_to_socket send_bytes
  served os b d r bs ds rs s client here arrives complete replies reads writes =
      let own : (fd == fd) ≡ true = ground arith in
      let conn : Connection = record { received_data = []; data_to_send = d ∷ ds } in
      let asked : Impl =
        record (put_connection fd (add_data (r ∷ rs) conn)
          (add_event (data_arrived fd (b ∷ bs)) (put_connection fd conn s))) {
            writing_sockets = insert fd s.writing_sockets;
          } in
      (
        add_event (sent fd (take (taken (os.send fd (d ∷ (ds ++ r ∷ rs)))) (d ∷ (ds ++ r ∷ rs))))
            (put_connection fd (record { received_data = []; data_to_send = [] }) asked),
        rw (reads, client, here, arrives, complete, replies, own, writes) (rw own refl),
        rw own refl,
        contains-insert fd s.writing_sockets,
      )

empty_turn :
    (callbacks : Callbacks) (os : Os) (readers writers : ℕ → Bool) (fd : ℕ) (s : Impl)
    → s.client_sockets fd ≡ some (record { received_data = []; data_to_send = [] })
    → (readers fd && os.readable fd) ≡ false
    → (writers fd && os.writable fd) ≡ true
    → service callbacks os readers writers fd s ≡ err undefined
unfolding service service_write write_client send_data_to_socket send_bytes
empty_turn callbacks os readers writers fd s here idle writes = rw (idle, writes, here) refl

-- Where a client's bytes are complete and the callback that is given them answers the client, in a turn in
-- which the socket of the client is both read and written, and something waited to be sent, the turn sends
-- the answer too but leaves the connection in `writingSockets`: its next turn in which the socket is
-- marked and ready for writing, and not for reading, sends from an empty vector, which is undefined.
pub service-send_data_to_socket :
    (callbacks : Callbacks) (readers writers readers' writers' : ℕ → Bool) (fd : ℕ) (os os' : Os)
    (b d r : ℕ) (bs ds rs : Bytes) (s : Impl)
    → (fd == s.listen_socket) ≡ false
    → s.client_sockets fd ≡ some (record { received_data = []; data_to_send = d ∷ ds })
    → os.recv fd ≡ got (b ∷ bs)
    → callbacks.data_complete (b ∷ bs) ≡ true
    → callbacks.data_ (b ∷ bs) fd ≡ (fd, r ∷ rs) ∷ []
    → (readers fd && os.readable fd) ≡ true
    → (writers fd && os.writable fd) ≡ true
    → (readers' fd && os'.readable fd) ≡ false
    → (writers' fd && os'.writable fd) ≡ true
    → (s' : Impl) × (service callbacks os readers writers fd s ≡ ok (true, s'))
      × (contains s'.writing_sockets fd ≡ true)
      × (service callbacks os' readers' writers' fd s' ≡ err undefined)
service-send_data_to_socket callbacks readers writers readers' writers' fd os os' b d r bs ds rs s
      client here arrives complete replies reads writes idle marked =
    let (s', turn, left, asks) =
      served callbacks readers writers fd os b d r bs ds rs s client here arrives complete replies
        reads writes in
    (s', turn, asks, empty_turn callbacks os' readers' writers' fd s' left idle marked)
