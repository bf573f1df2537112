-- ===== src/Server/Runs.antt =====
-- The runs of a server: in all of them the connections that ask to be written are alive.
use mathlib.Core.List.{List}
use netframework.Base.{
  update, ℕ, ◌<◌, ◌&&◌, not, Bool, true, false, Bool-cases, inl, inr, Option, [], ◌∷◌, ltb, All,
  Bytes, ok, Ensures, ◌≡◌, refl, ◌∙◌, sym, ap, subst, arith, lt→ltb, Option-cases,
}
use netframework.Server.{Connection}
use netframework.Server.Poll.{
  Callbacks, Impl, Os, fd_setsize, contains, send_data, mark_writers, round, listening,
}
use netframework.Server.Steps.{IsCareful, RoundIsValid, round-IsValid, send_data-IsValid}
use netframework.Server.Validity.{is_live, IsLive, IsValid}

-- The runs of a server that listens on a socket: rounds of `poll`, and calls of `sendData` by other
-- threads between them. A callback may answer otherwise each time: every round has functions of its own,
-- of which the index is the list, the last first.
pub data Runs : List Callbacks → Impl → Type 0 where
  started : (listen_socket : ℕ) → Runs [] (listening listen_socket)
  polled :
      {used : List Callbacks} {s s' : Impl} (callbacks : Callbacks) (os : Os)
      → Runs used s
      → round callbacks os s ≡ ok (true, s')
      → Runs (callbacks ∷ used) s'
  asked :
      {used : List Callbacks} {s s' : Impl} (fd : ℕ) (bytes : Bytes)
      → Runs used s
      → send_data fd bytes s ≡ ok s'
      → Runs used s'

Runs-IsValid : {used : List Callbacks} (s : Impl) → All IsCareful used → Runs used s → IsValid s
Runs-IsValid s careful (started listen_socket) = record {
  writers = tt;
  watched = λ fd live. cc live;
  small = λ fd live. absurd (cc live);
}
Runs-IsValid s careful (polled {s = before} {s' = after} callbacks os run e) =
    subst (Ensures RoundIsValid) e
      (round-IsValid callbacks careful.0 os before (Runs-IsValid before careful.1 run))
Runs-IsValid s careful (asked {s = before} {s' = after} fd bytes run e) =
    subst (Ensures IsValid) e (send_data-IsValid fd bytes before (Runs-IsValid before careful run))

mark_writers-contains :
    (clients : ℕ → Option Connection) (fds : List ℕ)
    → All (IsLive clients) fds
    → ((fd : ℕ) → IsLive clients fd → fd < fd_setsize)
    → (writers : ℕ → Bool) × (mark_writers clients fds ≡ ok writers)
      × ((fd : ℕ) → writers fd ≡ contains fds fd)
unfolding mark_writers contains
mark_writers-contains clients [] live small = ((λ fd. false), refl, λ fd. refl)
mark_writers-contains clients (fd ∷ fds) live small =
    let (later, marks, same) = mark_writers-contains clients fds live.1 small in
    let fits : ltb fd fd_setsize ≡ true = lt→ltb fd fd_setsize (small fd live.0) in
    elim (Option-cases (clients fd)) [
      | inl gone ↦ absurd (cc (sym (ap is_live gone) ∙ live.0))
      | inr (conn, here) ↦ (
        update later fd true,
        rw (mark_writers, here, marks, fits) refl,
        λ other. ground (arith, same other),
      )
    ]

unwatched :
    (s : Impl) (fd : ℕ)
    → IsValid s
    → (is_live (s.client_sockets fd) && not (s.active_fd_set fd)) ≡ false
unwatched s fd v = elim (Bool-cases (is_live (s.client_sockets fd))) [
  | inl live ↦ rw (live, v.watched fd live) refl
  | inr dead ↦ rw dead refl
]

-- In every run, whatever the system calls return and the callbacks do, in each round anew, but for a
-- callback that sends to the very client of which it is told that it has disconnected, a connection that asks to be written
-- is not deleted: the loop that sets up `write_fd_set` reads no dangling pointer, writes inside the set,
-- and marks the sockets that ask and no other; and each socket of a connection is watched.
pub Runs-writers :
    (used : List Callbacks) (s : Impl)
    → All IsCareful used
    → Runs used s
    → ((writers : ℕ → Bool) × (mark_writers s.client_sockets s.writing_sockets ≡ ok writers)
        × ((fd : ℕ) → writers fd ≡ contains s.writing_sockets fd))
      × ((fd : ℕ) → (is_live (s.client_sockets fd) && not (s.active_fd_set fd)) ≡ false)
Runs-writers used s careful run =
    let v = Runs-IsValid s careful run in
    (
      mark_writers-contains s.client_sockets s.writing_sockets v.writers v.small,
      λ fd. unwatched s fd v,
    )
