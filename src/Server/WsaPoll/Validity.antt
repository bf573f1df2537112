-- ===== src/Server/WsaPoll/Validity.antt =====
-- What holds between the entries of `pollfds` and the connections, and that the turns of a round keep it.
use mathlib.Core.List.{List, map}
use netframework.Base.{
  ℕ, suc, All, Bool, true, false, Bool-cases, inl, inr, Option, none, some, [], ◌∷◌, ◌++◌, ◌==◌,
  if◌then◌else◌, Bytes, Ensures, Ensures->>=, Ensures-any, ◌≡◌, refl, ◌∙◌, ap, arith,
}
use netframework.Server.{Connection, new_connection, Received, receive_data_from_socket}
use netframework.Server.Poll.{
  Callbacks, Impl, null_disconnected, contains, put_connection, add_event,
}
use netframework.Server.Validity.{
  is_live, IsLive, All-update, All-insert, All-erase, IsLive-before, IsLive-left,
}
use netframework.Server.Steps.{IsCareful}
use netframework.Server.Keeping.{IsKept, send_all_keeps, data_callbacks_keeps, send_after_keeps}
use netframework.Server.WsaPoll.{
  Revents, PollFd, set_revents, leave, after_receive, receive, hang_up, turn, turns,
}

abbrev pub fds : List PollFd → List ℕ
fds = map (λ entry. entry.fd)

-- Where `known` are the sockets with an entry.
pub record Polls (known : List ℕ) (s : Impl) : Type 0 where
  pub writers : All (IsLive s.client_sockets) s.writing_sockets
  pub entered : (fd : ℕ) → IsLive s.client_sockets fd → contains known fd ≡ true

pub fds-set_revents :
    (revents : ℕ → Revents) (i : ℕ) (entries : List PollFd)
    → fds (set_revents revents i entries) ≡ fds entries
unfolding set_revents
fds-set_revents revents i [] = refl
fds-set_revents revents i (entry ∷ entries) =
    ap (λ (later : List ℕ). entry.fd ∷ later) (fds-set_revents revents (suc i) entries)

pub fds-append :
    (entries : List PollFd) (entry : PollFd)
    → fds (entries ++ (entry ∷ [])) ≡ fds entries ++ (entry.fd ∷ [])
fds-append [] entry = refl
fds-append (other ∷ entries) entry =
    ap (λ (later : List ℕ). other.fd ∷ later) (fds-append entries entry)

pub contains-append :
    (fds : List ℕ) (last fd : ℕ)
    → contains (fds ++ (last ∷ [])) fd ≡ (if last == fd then true else contains fds fd)
unfolding contains
contains-append [] last fd = ground arith
contains-append (other ∷ fds) last fd = ground (arith, contains-append fds last fd)

module _ (known : List ℕ) where
  pub Polls-IsKept : IsKept (Polls known)
  Polls-IsKept = record {
    changed = λ fd conn s live v. record {
      writers = All-update s.client_sockets fd conn s.writing_sockets v.writers;
      entered = λ other h. v.entered other (IsLive-before s.client_sockets fd other conn live h);
    };
    asked = λ fd s live v. record {
      writers = All-insert s.client_sockets fd s.writing_sockets live v.writers;
      entered = v.entered;
    };
    noted = λ event s v. record { writers = v.writers; entered = v.entered };
  }

  leave-Polls : (fd : ℕ) (s : Impl) → Polls known s → Polls known (leave fd s)
  leave-Polls fd s v = record {
    writers = All-erase s.client_sockets fd s.writing_sockets v.writers;
    entered = λ other h. v.entered other (IsLive-left s.client_sockets fd other h).1;
  }

  -- The connection that is accepted gets an entry.
  pub accepted-Polls :
      (asock : ℕ) (s : Impl)
      → Polls known s
      → Polls (known ++ (asock ∷ [])) (put_connection asock new_connection s)
  accepted-Polls asock s v = record {
    writers = All-update s.client_sockets asock new_connection s.writing_sockets v.writers;
    entered = λ other h. elim (Bool-cases (asock == other)) [
      | inl same ↦ contains-append known asock other ∙ rw same refl
      | inr apart ↦ contains-append known asock other ∙ rw apart (v.entered other (rw apart at h))
    ];
  }

module _ (callbacks : Callbacks) (careful : IsCareful callbacks) (on_null : List (ℕ × Bytes))
    (known : List ℕ) where
  after_receive-Polls :
      (fd : ℕ) (r : Bool × (Connection × List Bytes)) (s : Impl)
      → IsLive s.client_sockets fd
      → Polls known s
      → Ensures (Polls known) (after_receive callbacks fd r s)
  unfolding after_receive
  after_receive-Polls fd (false, rest) s live v = v
  after_receive-Polls fd (true, (conn, calls)) s live v =
      let kept = Polls-IsKept known in
      data_callbacks_keeps (Polls known) kept callbacks fd calls (put_connection fd conn s)
        (kept.changed fd conn s live v)

  receive-Polls :
      (received : Received) (fd : ℕ) (found : Option Connection) (s : Impl)
      → s.client_sockets fd ≡ found
      → Polls known s
      → Ensures (Polls known) (receive callbacks received fd found s)
  unfolding receive after_receive
  receive-Polls received fd none s at v = v
  receive-Polls received fd (some conn) s at v =
      Ensures->>= (λ r. Unit {0}) (Polls known)
        (receive_data_from_socket callbacks.data_complete received conn)
        (λ r. after_receive callbacks fd r s)
        (Ensures-any (receive_data_from_socket callbacks.data_complete received conn))
        (λ r any. after_receive-Polls fd r s (ap is_live at) v)

  hang_up-Polls :
      (fd : ℕ) (found : Option Connection) (s : Impl)
      → Polls known s
      → Ensures (Polls known) (hang_up callbacks on_null fd found s)
  unfolding hang_up
  hang_up-Polls fd none s v =
      send_all_keeps (Polls known) (Polls-IsKept known) on_null (add_event null_disconnected s)
        (record { writers = v.writers; entered = v.entered })
  hang_up-Polls fd (some conn) s v =
      send_after_keeps (Polls known) (Polls-IsKept known) fd (callbacks.disconnected fd)
        (leave fd s) (careful fd) (leave-Polls known fd s v)

  turn-Polls :
      (received : Received) (entry : PollFd) (s : Impl)
      → Polls known s
      → Ensures (Polls known) (turn callbacks on_null received entry s)
  unfolding turn
  turn-Polls received entry s v = elim (Bool-cases entry.revents.ready) [
    | inl ready ↦ rw ready (receive-Polls received entry.fd (s.client_sockets entry.fd) s refl v)
    | inr idle ↦ elim (Bool-cases entry.revents.hung_up) [
      | inl gone ↦ rw (idle, gone) (hang_up-Polls entry.fd (s.client_sockets entry.fd) s v)
      | inr quiet ↦ rw (idle, quiet) v
    ]
  ]

  pub turns-Polls :
      (recv : ℕ → Received) (i : ℕ) (entries : List PollFd) (s : Impl)
      → Polls known s
      → Ensures (Polls known) (turns callbacks on_null recv i entries s)
  unfolding turns
  turns-Polls recv i [] s v = v
  turns-Polls recv i (entry ∷ entries) s v =
      Ensures->>= (Polls known) (Polls known) (turn callbacks on_null (recv i) entry s)
        (turns callbacks on_null recv (suc i) entries) (turn-Polls (recv i) entry s v)
        (turns-Polls recv (suc i) entries)
