-- ===== src/Server/Validity.antt =====
-- No pointer to a deleted connection is kept, in any run of `poll`.
use mathlib.Core.List.{List}
use netframework.Base.{
  update, ℕ, ◌<◌, Bool, true, false, Bool-cases, inl, inr, Option, none, some, [], ◌∷◌, ◌==◌, All,
  ◌≡◌, refl, subst, arith,
}
use netframework.Server.{Connection, new_connection}
use netframework.Server.Poll.{
  Impl, Event, fd_setsize, contains, insert, erase, put_connection, add_event, disconnect,
}

abbrev pub is_live : Option Connection → Bool
is_live none = false
is_live (some conn) = true

-- The socket has a connection that is not deleted.
abbrev pub IsLive : (ℕ → Option Connection) → ℕ → Type 0
IsLive clients fd = is_live (clients fd) ≡ true

-- Every connection that asks to be written is alive, and the sockets of connections are watched and
-- fit an `fd_set`.
pub record IsValid (s : Impl) : Type 0 where
  pub writers : All (IsLive s.client_sockets) s.writing_sockets
  pub watched : (fd : ℕ) → IsLive s.client_sockets fd → s.active_fd_set fd ≡ true
  pub small : (fd : ℕ) → IsLive s.client_sockets fd → fd < fd_setsize

IsLive-update :
    (clients : ℕ → Option Connection) (fd other : ℕ) (conn : Connection)
    → IsLive clients other
    → IsLive (update clients fd (some conn)) other
IsLive-update clients fd other conn live = ground (arith, live)

pub All-update :
    (clients : ℕ → Option Connection) (fd : ℕ) (conn : Connection) (fds : List ℕ)
    → All (IsLive clients) fds
    → All (IsLive (update clients fd (some conn))) fds
All-update clients fd conn [] live = tt
All-update clients fd conn (other ∷ fds) live =
    (IsLive-update clients fd other conn live.0, All-update clients fd conn fds live.1)

pub All-insert :
    (clients : ℕ → Option Connection) (fd : ℕ) (fds : List ℕ)
    → IsLive clients fd
    → All (IsLive clients) fds
    → All (IsLive clients) (insert fd fds)
unfolding insert
All-insert clients fd fds live all = elim (Bool-cases (contains fds fd)) [
  | inl old ↦ rw old all
  | inr new ↦ rw new (live, all)
]

pub All-erase :
    (clients : ℕ → Option Connection) (fd : ℕ) (fds : List ℕ)
    → All (IsLive clients) fds
    → All (IsLive (update clients fd none)) (erase fd fds)
unfolding erase
All-erase clients fd [] all = tt
All-erase clients fd (other ∷ fds) all = elim (Bool-cases (other == fd)) [
  | inl same ↦ rw same (All-erase clients fd fds all.1)
  | inr apart ↦
      let swapped : (fd == other) ≡ false = ground arith in
      rw apart (rw swapped all.0, All-erase clients fd fds all.1)
]

pub IsLive-before :
    (clients : ℕ → Option Connection) (fd other : ℕ) (conn : Connection)
    → IsLive clients fd
    → IsLive (update clients fd (some conn)) other
    → IsLive clients other
IsLive-before clients fd other conn live h = elim (Bool-cases (fd == other)) [
  | inl same ↦ let e : fd ≡ other = ground arith in subst (IsLive clients) e live
  | inr apart ↦ rw apart at h
]

pub IsLive-left :
    (clients : ℕ → Option Connection) (fd other : ℕ)
    → IsLive (update clients fd none) other
    → ((fd == other) ≡ false) × IsLive clients other
IsLive-left clients fd other h = elim (Bool-cases (fd == other)) [
  | inl same ↦ absurd (cc (rw same at h))
  | inr apart ↦ (apart, rw apart at h)
]

pub put_connection-IsValid :
    (fd : ℕ) (conn : Connection) (s : Impl)
    → IsLive s.client_sockets fd
    → IsValid s
    → IsValid (put_connection fd conn s)
put_connection-IsValid fd conn s live v = record {
  writers = All-update s.client_sockets fd conn s.writing_sockets v.writers;
  watched = λ other h. v.watched other (IsLive-before s.client_sockets fd other conn live h);
  small = λ other h. v.small other (IsLive-before s.client_sockets fd other conn live h);
}

pub disconnect-IsValid : (fd : ℕ) (s : Impl) → IsValid s → IsValid (disconnect fd s)
disconnect-IsValid fd s v = record {
  writers = All-erase s.client_sockets fd s.writing_sockets v.writers;
  watched = λ other h.
      let (apart, live) = IsLive-left s.client_sockets fd other h in
      rw apart (v.watched other live);
  small = λ other h. v.small other (IsLive-left s.client_sockets fd other h).1;
}

pub accept-IsValid :
    (fd : ℕ) (s : Impl) (event : Event)
    → fd < fd_setsize
    → IsValid s
    → IsValid (
        add_event event (
          put_connection fd new_connection
            (record s { active_fd_set = update s.active_fd_set fd true })))
accept-IsValid fd s event fits v = record {
  writers = All-update s.client_sockets fd new_connection s.writing_sockets v.writers;
  watched = λ other h. elim (Bool-cases (fd == other)) [
    | inl same ↦ rw same refl
    | inr apart ↦ rw apart (v.watched other (rw apart at h))
  ];
  small = λ other h. elim (Bool-cases (fd == other)) [
    | inl same ↦ let e : fd ≡ other = ground arith in subst (λ k. k < fd_setsize) e fits
    | inr apart ↦ v.small other (rw apart at h)
  ];
}

pub add_event-IsValid : (event : Event) (s : Impl) → IsValid s → IsValid (add_event event s)
add_event-IsValid event s v = record { writers = v.writers; watched = v.watched; small = v.small }
