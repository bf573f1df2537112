-- ===== src/Server/Requests.antt =====
-- What becomes of a request to write when the round finds the socket not ready.
use mathlib.Core.List.{List}
use netframework.Base.{ℕ, Bool, Option, [], Bytes, ◌≡◌}
use netframework.Server.{Connection}
use netframework.Server.Poll.{Callbacks, Impl, Serviced}

-- Callbacks that call `sendData` on no connection.
abbrev pub IsQuiet : Callbacks → Type 0
IsQuiet callbacks =
    ((bytes : Bytes) (fd : ℕ) → callbacks.data_ bytes fd ≡ [])
    × ((fd : ℕ) → callbacks.connected fd ≡ [])
    × ((fd : ℕ) → callbacks.disconnected fd ≡ [])

-- A state in which no connection asks to be written and the socket `fd` has the connection `found`.
abbrev Unasked : ℕ → Option Connection → Impl → Type 0
Unasked fd found s = (s.writing_sockets ≡ []) × (s.client_sockets fd ≡ found)

module _ (callbacks : Callbacks) (quiet : IsQuiet callbacks) (fd : ℕ)
    (found : Option Connection) where
  abbrev TurnUnasked : Serviced → Type 0
  TurnUnasked turn = Unasked fd found turn.1.1

  abbrev RoundUnasked : Bool × Impl → Type 0
  RoundUnasked r = Unasked fd found r.1
