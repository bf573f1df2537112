-- ===== src/Server/WsaPoll/Null.antt =====
-- An entry whose client has hung up before.
use mathlib.Core.List.{List}
use netframework.Base.{
  ℕ, suc, ◌+◌, ◌==◌, ltb, true, false, none, some, [], ◌∷◌, ◌++◌, length, Result, ok, err,
  append_assoc, ◌>>=◌, ◌≡◌, refl, ◌∙◌, sym, ap, subst, arith,
}
use netframework.Server.{Connection, Received}
use netframework.Server.Poll.{
  Callbacks, Impl, null_disconnected, client_disconnected, erase, add_event, send_all, send_after,
}
use netframework.Server.WsaPoll.{
  Revents, PollFd, Polling, Os, set_revents, continue_polling, leave, accept_if_ready, hang_up,
  turn, turns, writer_fds, poll_writers, write_phase, service, after_poll, round,
}

-- `WSAPoll` finds that one entry has hung up, and nothing else.
abbrev pub only : ℕ → ℕ → Revents
only place i = record { ready = false; hung_up = i == place }

module _ (callbacks : Callbacks) (place : ℕ) (recv : ℕ → Received) where
  before_only :
      (i : ℕ) (before rest : List PollFd) (s : Impl)
      → i + length before ≡ place
      → turns callbacks [] recv i (set_revents (only place) i (before ++ rest)) s
        ≡ turns callbacks [] recv place (set_revents (only place) place rest) s
  unfolding turns turn set_revents
  before_only i [] rest s at =
      let here : i ≡ place = omega (arith, at) in
      subst
        (λ k.
          turns callbacks [] recv k (set_revents (only place) k rest) s
          ≡ turns callbacks [] recv place (set_revents (only place) place rest) s)
        (sym here) refl
  before_only i (entry ∷ before) rest s at =
      let apart : (i == place) ≡ false = ground (arith, at) in
      rw apart (before_only (suc i) before rest s (omega (arith, at)))

  after_only :
      (i : ℕ) (entries : List PollFd) (s : Impl)
      → ltb place i ≡ true
      → turns callbacks [] recv i (set_revents (only place) i entries) s ≡ ok s
  unfolding turns turn set_revents
  after_only i [] s past = refl
  after_only i (entry ∷ entries) s past =
      let apart : (i == place) ≡ false = ground (arith, past) in
      rw apart (after_only (suc i) entries s (ground (arith, past)))

then_unchanged :
    (m : Result Impl) (next : Impl → Result Impl) → ((s : Impl) → next s ≡ ok s) → (m >>= next) ≡ m
then_unchanged (ok s) next same = same s
then_unchanged (err fault) next same = refl

set_revents_again :
    (first second : ℕ → Revents) (i : ℕ) (entries : List PollFd)
    → set_revents second i (set_revents first i entries) ≡ set_revents second i entries
unfolding set_revents
set_revents_again first second i [] = refl
set_revents_again first second i (entry ∷ entries) =
    ap (λ (later : List PollFd). record entry { revents = second i } ∷ later)
      (set_revents_again first second (suc i) entries)

write_phase-none :
    (os : Os) (s : Polling)
    → s.impl.writing_sockets ≡ []
    → write_phase os s ≡ ok (true, record s { impl = record s.impl { writing_sockets = [] } })
unfolding write_phase writer_fds poll_writers
write_phase-none os s none_asks = rw none_asks refl

module _ (callbacks : Callbacks) (os : Os) where
  accept-only :
      (place : ℕ) (before : List PollFd) (entry : PollFd) (after : List PollFd) (s : Polling)
      → accept_if_ready callbacks os (set_revents (only place) 0 (before ++ (entry ∷ after))) s
        ≡ ok (true, s)
  unfolding accept_if_ready set_revents
  accept-only place [] entry after s = refl
  accept-only place (first ∷ before) entry after s = refl

  turns-only :
      (recv : ℕ → Received) (before : List PollFd) (entry : PollFd) (after : List PollFd) (s : Impl)
      → turns callbacks [] recv 0
          (set_revents (only (length before)) 0 (before ++ (entry ∷ after)))
          s
        ≡ hang_up callbacks [] entry.fd (s.client_sockets entry.fd) s
  unfolding turns turn set_revents
  turns-only recv before entry after s =
      let place = length before in
      let own : (place == place) ≡ true = ground arith in
      before_only callbacks place recv 0 before (entry ∷ after) s (omega arith)
      ∙ rw own (
          then_unchanged _ _
            (λ s'. after_only callbacks place recv (suc place) after s' (ground arith)))

  -- A round in which one entry has hung up, and nothing else is to do.
  round-only :
      (before : List PollFd) (entry : PollFd) (after : List PollFd) (s : Polling)
      → set_revents (only (length before)) 0 s.pollfds
        ≡ set_revents (only (length before)) 0 (before ++ (entry ∷ after))
      → round callbacks [] os (some (only (length before))) s ≡ (
          hang_up callbacks [] entry.fd (s.impl.client_sockets entry.fd) s.impl >>= λ impl.
          write_phase os
            (record { impl = impl; pollfds = set_revents (only (length before)) 0 s.pollfds }))
  unfolding round after_poll service
  round-only before entry after s same =
      rw
        (
          same,
          accept-only (length before) before entry after _,
          turns-only os.recv before entry after s.impl,
        )
        refl

  hang_up_silent :
      (fd : ℕ) (conn : Connection) (s : Impl)
      → callbacks.disconnected fd ≡ []
      → hang_up callbacks [] fd (some conn) s ≡ ok (leave fd s)
  unfolding hang_up send_after
  hang_up_silent fd conn s silent = rw silent refl

  -- Where a client hangs up, and `WSAPoll` says so in two rounds and nothing else, while nothing is to be
  -- written and the callbacks send nothing, the second round calls `_clientStateChangedCallback` with a null
  -- pointer: the entry of the client is still there.
  pub round-continue_polling :
      (before : List PollFd) (entry : PollFd) (after : List PollFd) (conn : Connection)
      (s : Polling)
      → s.pollfds ≡ before ++ (entry ∷ after)
      → s.impl.client_sockets entry.fd ≡ some conn
      → s.impl.writing_sockets ≡ []
      → callbacks.disconnected entry.fd ≡ []
      → (s' : Polling) × ((round callbacks [] os (some (only (length before))) s
            >>= continue_polling (round callbacks [] os (some (only (length before)))))
          ≡ ok (true, s'))
        × (s'.impl.events
            ≡ s.impl.events ++ (client_disconnected entry.fd ∷ null_disconnected ∷ []))
  unfolding hang_up send_all erase
  round-continue_polling before entry after conn s split here none_asks silent =
      let place = length before in
      let entries = set_revents (only place) 0 s.pollfds in
      let left : Polling = record {
        impl = record (leave entry.fd s.impl) { writing_sockets = [] };
        pollfds = entries;
      } in
      let told : Polling = record {
        impl = add_event null_disconnected left.impl;
        pollfds = set_revents (only place) 0 entries;
      } in
      let first : round callbacks [] os (some (only place)) s ≡ ok (true, left) =
        round-only before entry after s (ap (set_revents (only place) 0) split)
        ∙ rw (here, hang_up_silent entry.fd conn s.impl silent)
            (write_phase-none os (record { impl = leave entry.fd s.impl; pollfds = entries })
              (rw none_asks refl)) in
      let gone : left.impl.client_sockets entry.fd ≡ none =
        (let own : (entry.fd == entry.fd) ≡ true = ground arith in rw own refl) in
      let second : round callbacks [] os (some (only place)) left
          ≡ ok (true, record told { impl = record told.impl { writing_sockets = [] } }) =
        round-only before entry after left (
          set_revents_again (only place) (only place) 0 s.pollfds
          ∙ ap (set_revents (only place) 0) split)
        ∙ rw gone (write_phase-none os told refl) in
      (
        record told { impl = record told.impl { writing_sockets = [] } },
        rw (first, second) refl,
        append_assoc s.impl.events (client_disconnected entry.fd ∷ []) (null_disconnected ∷ []),
      )
