-- ===== src/Server/Dangling.antt =====
-- A callback for a disconnected client that sends to that client.
use mathlib.Core.List.{List}
use netframework.Base.{
  ℕ, ◌==◌, true, false, Bool-cases, inl, inr, [], ◌∷◌, Bytes, ok, err, undefined, ◌≡◌, refl, arith,
}
use netframework.Server.{Connection}
use netframework.Server.Poll.{
  Callbacks, Impl, contains, insert, erase, mark_writers, disconnect, send_after, after_receive,
}

contains-erase : (fd : ℕ) (fds : List ℕ) → contains (erase fd fds) fd ≡ false
unfolding contains erase
contains-erase fd [] = refl
contains-erase fd (other ∷ fds) = elim (Bool-cases (other == fd)) [
  | inl same ↦ rw same (contains-erase fd fds)
  | inr apart ↦ rw apart (rw apart (contains-erase fd fds))
]

-- The server after the client on `fd` has gone and its callback has sent to it.
abbrev pub left_dangling : ℕ → Impl → Impl
left_dangling fd s = record (disconnect fd s) { writing_sockets = fd ∷ erase fd s.writing_sockets }

-- Where a client has closed, and the callback that is told so sends to it, the turn goes on without a
-- failure, but the pointer to the connection, which is then deleted, stays in `writingSockets`: the
-- loop that sets up `write_fd_set` in the next round reads through it.
pub after_receive-mark_writers :
    (callbacks : Callbacks) (fd : ℕ) (bytes : Bytes) (rest : Connection × List Bytes) (s : Impl)
    → callbacks.disconnected fd ≡ (fd, bytes) ∷ []
    → (after_receive callbacks fd (false, rest) s ≡ ok (true, (true, left_dangling fd s)))
      × (mark_writers (left_dangling fd s).client_sockets (left_dangling fd s).writing_sockets
          ≡ err undefined)
unfolding after_receive send_after insert mark_writers
after_receive-mark_writers callbacks fd bytes rest s sends =
    let own : (fd == fd) ≡ true = ground arith in
    (rw sends (rw (own, contains-erase fd s.writing_sockets) refl), rw (mark_writers, own) refl)
