-- ===== src/Server/WsaPoll/Runs.antt =====
-- The runs of `poll` with `WSAPoll`: no connection is without an entry, no pointer to a deleted
-- connection is kept, and no entry goes.
use mathlib.Core.List.{List}
use netframework.Base.{
  ℕ, suc, All, ◌&&◌, not, Bool, true, false, Bool-cases, inl, inr, Option, Option-cases, none, some,
  [], ◌∷◌, ◌++◌, append-nil, Bytes, ok, Ensures, Ensures->>=, Ensures-any, Ensures-weaken, ◌≡◌,
  refl, ◌∙◌, sym, ap, subst, arith,
}
use netframework.Server.{Connection, new_connection}
use netframework.Server.Poll.{
  Callbacks, Impl, client_connected, contains, put_connection, add_event, send_data, send_all,
  write_client,
}
use netframework.Server.Validity.{is_live, IsLive}
use netframework.Server.Steps.{IsCareful}
use netframework.Server.Keeping.{send_data_keeps, send_all_keeps, write_client_keeps}
use netframework.Server.WsaPoll.Validity.{
  fds, Polls, fds-set_revents, fds-append, Polls-IsKept, accepted-Polls, turns-Polls,
}
use netframework.Server.WsaPoll.{
  Revents, PollFd, Polling, Os, set_revents, start_polling, Polled, continue_polling, accept_polled,
  accept_if_ready, turns, writer_fds, write_turns, poll_writers, write_phase, service, after_poll,
  round,
}

write_turns-Polls :
    (known : List ℕ) (revents : ℕ → Revents) (send : ℕ → Bytes → Option ℕ) (i : ℕ)
    (writers : List ℕ) (s : Impl)
    → Polls known s
    → Ensures (Polls known) (write_turns revents send i writers s)
unfolding write_turns
write_turns-Polls known revents send i [] s v = v
write_turns-Polls known revents send i (fd ∷ writers) s v = elim (Bool-cases (revents i).ready) [
  | inl ready ↦ rw ready (
      Ensures->>= (Polls known) (Polls known) (write_client (send i) fd (s.client_sockets fd) s)
        (write_turns revents send (suc i) writers)
        (write_client_keeps (Polls known) (Polls-IsKept known) (send i) fd (s.client_sockets fd) s
          refl v)
        (write_turns-Polls known revents send (suc i) writers))
  | inr idle ↦ rw idle (write_turns-Polls known revents send (suc i) writers s v)
]

-- The entries are the `known` ones and later ones, in this order, and the state is valid for them.
abbrev pub Stays : List ℕ → Polled → Type 0
Stays known (goes, s) =
    (later : List ℕ) × (fds s.pollfds ≡ known ++ later) × Polls (known ++ later) s.impl

abbrev pub StaysAs : List ℕ → Polled → Type 0
StaysAs known (goes, s) = (fds s.pollfds ≡ known) × Polls known s.impl

unchanged :
    (goes : Bool) (s : Polling) → Polls (fds s.pollfds) s.impl → Stays (fds s.pollfds) (goes, s)
unchanged goes s v =
    let same : fds s.pollfds ≡ fds s.pollfds ++ [] = sym (append-nil (fds s.pollfds)) in
    ([], same, subst (λ known. Polls known s.impl) same v)

poll_writers-StaysAs :
    (known : List ℕ) (os : Os) (answer : Option (ℕ → Revents)) (writers : List ℕ) (s : Polling)
    → fds s.pollfds ≡ known
    → Polls known s.impl
    → Ensures (StaysAs known) (poll_writers os answer writers s)
unfolding poll_writers
poll_writers-StaysAs known os answer [] s same v = (same, v)
poll_writers-StaysAs known os none (fd ∷ writers) s same v = (same, v)
poll_writers-StaysAs known os (some revents) (fd ∷ writers) s same v =
    Ensures->>= (Polls known) (StaysAs known) (write_turns revents os.send 0 (fd ∷ writers) s.impl)
      _ (write_turns-Polls known revents os.send 0 (fd ∷ writers) s.impl v) (λ impl v'. (same, v'))

write_phase-StaysAs :
    (known : List ℕ) (os : Os) (s : Polling)
    → fds s.pollfds ≡ known
    → Polls known s.impl
    → Ensures (StaysAs known) (write_phase os s)
unfolding write_phase
write_phase-StaysAs known os s same v =
    Ensures->>= (λ writers. Unit {0}) (StaysAs known)
      (writer_fds s.impl.client_sockets s.impl.writing_sockets) _
      (Ensures-any (writer_fds s.impl.client_sockets s.impl.writing_sockets))
      (λ writers any.
        poll_writers-StaysAs known os os.polled_writers writers
          (record s { impl = record s.impl { writing_sockets = [] } }) same
          (record { writers = tt; entered = v.entered }))

module _ (callbacks : Callbacks) (careful : IsCareful callbacks) (on_null : List (ℕ × Bytes)) where
  service-StaysAs :
      (known : List ℕ) (os : Os) (s : Polling)
      → fds s.pollfds ≡ known
      → Polls known s.impl
      → Ensures (StaysAs known) (service callbacks on_null os s)
  unfolding service
  service-StaysAs known os s same v =
      Ensures->>= (Polls known) (StaysAs known) (turns callbacks on_null os.recv 0 s.pollfds s.impl)
        _ (turns-Polls callbacks careful on_null known os.recv 0 s.pollfds s.impl v)
        (λ impl v'. write_phase-StaysAs known os (record s { impl = impl }) same v')

  accept_polled-Stays :
      (os : Os) (accepted : Option ℕ) (s : Polling)
      → Polls (fds s.pollfds) s.impl
      → Ensures (Stays (fds s.pollfds)) (accept_polled callbacks os accepted s)
  unfolding accept_polled
  accept_polled-Stays os none s v = unchanged false s v
  accept_polled-Stays os (some asock) s v =
      let known = fds s.pollfds ++ (asock ∷ []) in
      Ensures->>= (Polls known) (Stays (fds s.pollfds))
        (send_all (callbacks.connected asock)
          (add_event (client_connected asock) (put_connection asock new_connection s.impl)))
        _
        (send_all_keeps (Polls known) (Polls-IsKept known) (callbacks.connected asock) _ (
          let kept = Polls-IsKept known in
          kept.noted (client_connected asock) _ (accepted-Polls (fds s.pollfds) asock s.impl v)))
        (λ impl v'.
          (asock ∷ [], fds-append s.pollfds (record { fd = asock; revents = os.fresh }), v'))

  accept_if_ready-Stays :
      (os : Os) (entries : List PollFd) (s : Polling)
      → Polls (fds s.pollfds) s.impl
      → Ensures (Stays (fds s.pollfds)) (accept_if_ready callbacks os entries s)
  unfolding accept_if_ready
  accept_if_ready-Stays os [] s v = tt
  accept_if_ready-Stays os (first ∷ entries) s v = elim (Bool-cases first.revents.ready) [
    | inl ready ↦ rw ready (accept_polled-Stays os os.accepted s v)
    | inr idle ↦ rw idle (unchanged true s v)
  ]

  continue_polling-Stays :
      (known : List ℕ) (os : Os) (r : Polled)
      → Stays known r
      → Ensures (Stays known) (continue_polling (service callbacks on_null os) r)
  continue_polling-Stays known os (false, s) v = v
  continue_polling-Stays known os (true, s) (later, same, v) =
      Ensures-weaken (StaysAs (known ++ later)) (Stays known) (service callbacks on_null os s)
        (service-StaysAs (known ++ later) os s same v) (λ r v'. (later, v'.0, v'.1))

  pub round-Stays :
      (os : Os) (answer : Option (ℕ → Revents)) (s : Polling)
      → Polls (fds s.pollfds) s.impl
      → Ensures (Stays (fds s.pollfds)) (round callbacks on_null os answer s)
  unfolding round after_poll
  round-Stays os none s v = unchanged false s v
  round-Stays os (some revents) s v =
      let s' : Polling = record s { pollfds = set_revents revents 0 s.pollfds } in
      let same : fds s'.pollfds ≡ fds s.pollfds = fds-set_revents revents 0 s.pollfds in
      let v' : Polls (fds s'.pollfds) s'.impl = subst (λ known. Polls known s.impl) (sym same) v in
      subst (λ known. Ensures (Stays known) (round callbacks on_null os (some revents) s)) same
        (Ensures->>= (Stays (fds s'.pollfds)) (Stays (fds s'.pollfds))
          (accept_if_ready callbacks os s'.pollfds s') _ (accept_if_ready-Stays os s'.pollfds s' v')
          (continue_polling-Stays (fds s'.pollfds) os))

-- The runs of a server that listens on a socket: rounds of `poll`, each with callbacks of its own, of
-- which the index is the list, the last first, and calls of `sendData` by other threads between them.
pub data Runs : List Callbacks → Polling → Type 0 where
  started : (listen_socket : ℕ) (memory : Revents) → Runs [] (start_polling listen_socket memory)
  polled :
      {used : List Callbacks} {s s' : Polling} (callbacks : Callbacks) (on_null : List (ℕ × Bytes))
      (os : Os)
      → Runs used s
      → round callbacks on_null os os.polled s ≡ ok (true, s')
      → Runs (callbacks ∷ used) s'
  asked :
      {used : List Callbacks} {s : Polling} {impl : Impl} (fd : ℕ) (bytes : Bytes)
      → Runs used s
      → send_data fd bytes s.impl ≡ ok impl
      → Runs used (record s { impl = impl })

Runs-Polls :
    {used : List Callbacks} (s : Polling)
    → All IsCareful used
    → Runs used s
    → Polls (fds s.pollfds) s.impl
Runs-Polls s careful (started listen_socket memory) = record {
  writers = tt;
  entered = λ fd live. absurd (cc live);
}
Runs-Polls s careful (polled {s = before} {s' = after} callbacks on_null os run e) =
    let (later, same, v) = subst (Ensures (Stays (fds before.pollfds))) e (
      round-Stays callbacks careful.0 on_null os os.polled before
        (Runs-Polls before careful.1 run)) in
    subst (λ known. Polls known after.impl) (sym same) v
Runs-Polls s careful (asked {s = before} {impl = impl} fd bytes run e) =
    subst (Ensures (Polls (fds before.pollfds))) e (
      send_data_keeps (Polls (fds before.pollfds)) (Polls-IsKept (fds before.pollfds)) fd bytes
        before.impl (Runs-Polls before careful run))

writer_fds-live :
    (clients : ℕ → Option Connection) (writers : List ℕ)
    → All (IsLive clients) writers
    → writer_fds clients writers ≡ ok writers
unfolding writer_fds
writer_fds-live clients [] live = refl
writer_fds-live clients (fd ∷ writers) live = elim (Option-cases (clients fd)) [
  | inl gone ↦ absurd (cc (sym (ap is_live gone) ∙ live.0))
  | inr (conn, here) ↦ rw (writer_fds, here, writer_fds-live clients writers live.1) refl
]

-- In every run of `poll` with `WSAPoll`, whatever the system calls return and the callbacks do, in each
-- round anew, but for a callback that sends to the very client of which it is told that it has disconnected: where a round
-- has accepted and served its entries, no pointer in `writingSockets` dangles, so that the part of the
-- round that sends finds the sockets of all of them, and each connection has an entry in `pollfds`.
pub Runs-writer_fds :
    (used : List Callbacks) (callbacks : Callbacks) (on_null : List (ℕ × Bytes)) (os : Os)
    (revents : ℕ → Revents) (s s1 : Polling) (impl : Impl)
    → All IsCareful (callbacks ∷ used)
    → Runs used s
    → accept_if_ready callbacks os
        (set_revents revents 0 s.pollfds)
        (record s { pollfds = set_revents revents 0 s.pollfds })
      ≡ ok (true, s1)
    → turns callbacks on_null os.recv 0 s1.pollfds s1.impl ≡ ok impl
    → (writer_fds impl.client_sockets impl.writing_sockets ≡ ok impl.writing_sockets)
      × ((fd : ℕ)
          → (is_live (impl.client_sockets fd) && not (contains (fds s1.pollfds) fd)) ≡ false)
Runs-writer_fds used callbacks on_null os revents s s1 impl careful run accepts serves =
    let entries = set_revents revents 0 s.pollfds in
    let polled_s : Polling = record s { pollfds = entries } in
    let v : Polls (fds entries) s.impl =
      subst (λ known. Polls known s.impl) (sym (fds-set_revents revents 0 s.pollfds))
        (Runs-Polls s careful.1 run) in
    let (later, same, v1) =
      subst (Ensures (Stays (fds entries))) accepts
        (accept_if_ready-Stays callbacks careful.0 on_null os entries polled_s v) in
    let v2 : Polls (fds s1.pollfds) impl = subst (Ensures (Polls (fds s1.pollfds))) serves (
      turns-Polls callbacks careful.0 on_null (fds s1.pollfds) os.recv 0 s1.pollfds s1.impl
        (subst (λ known. Polls known s1.impl) (sym same) v1)) in
    (
      writer_fds-live impl.client_sockets impl.writing_sockets v2.writers,
      λ fd. ground (arith, v2.entered fd),
    )
