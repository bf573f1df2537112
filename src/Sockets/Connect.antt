-- ===== src/Sockets/Connect.antt =====
-- Which socket a client keeps, and which failures of the system the server sees.
use mathlib.Core.List.{List, map}
use netframework.Base.{
  ◌≡◌, refl, ap, true, false, Bool-cases, inl, inr, [], ◌∷◌, ◌++◌, All, Bytes, ℤ, pos, negsuc,
}
use netframework.Sockets.{
  is_constant, null_socket, socket_error, AddrInfo, Attempt, could_not_connect, connected_to,
  passed, connect_loop, connect, init, listen,
}

-- An address with a socket that is not 0, to which `::connect` succeeds: it returns 0.
abbrev pub Succeeds : Attempt → Type 0
Succeeds a =
    (is_constant a.socket_result null_socket ≡ false)
    × (is_constant a.connect_result null_socket ≡ true)

-- One to which it fails.
abbrev pub Fails : Attempt → Type 0
Fails a =
    (is_constant a.socket_result null_socket ≡ false)
    × (is_constant a.connect_result null_socket ≡ false)

connect_loop-Fails :
    (show : AddrInfo → Bytes) (current : ℤ) (good : List Attempt) (bad : Attempt)
    (others : List Attempt)
    → All Succeeds good
    → Fails bad
    → connect_loop show current (good ++ (bad ∷ others)) ≡ record {
      result = true;
      connect_socket = bad.socket_result;
      opened = map (λ (a : Attempt). a.socket_result) good ++ (bad.socket_result ∷ []);
      printed =
          map (λ (a : Attempt). could_not_connect (show a.address)) good
          ++ (connected_to (show bad.address) ∷ []);
    }
unfolding connect_loop
connect_loop-Fails show current [] bad others all fails = rw (connect_loop, fails.0, fails.1) refl
connect_loop-Fails show current (a ∷ good) bad others all fails =
    rw (connect_loop, all.0.0, all.0.1)
      (ap (passed show a) (connect_loop-Fails show a.socket_result good bad others all.1 fails))

connect_loop-Succeeds :
    (show : AddrInfo → Bytes) (current : ℤ) (good : List Attempt) (a : Attempt)
    → All Succeeds good
    → Succeeds a
    → connect_loop show current (good ++ (a ∷ [])) ≡ record {
      result = true;
      connect_socket = a.socket_result;
      opened = map (λ (b : Attempt). b.socket_result) good ++ (a.socket_result ∷ []);
      printed =
          map (λ (b : Attempt). could_not_connect (show b.address)) good
          ++ (could_not_connect (show a.address) ∷ []);
    }
unfolding connect_loop
connect_loop-Succeeds show current [] a all good = rw (connect_loop, good.0, good.1) refl
connect_loop-Succeeds show current (b ∷ others) a all good =
    rw (connect_loop, all.0.0, all.0.1)
      (ap (passed show b) (connect_loop-Succeeds show b.socket_result others a all.1 good))

-- `Client::connect` takes success for failure: it passes over every address to which the system
-- connects, reports that it could not connect and leaves the socket open, and at the first address to
-- which the system does not connect it stops, reports a connection, keeps that socket and returns
-- `true`.
pub connect-Fails :
    (show : AddrInfo → Bytes) (good : List Attempt) (bad : Attempt) (others : List Attempt)
    → All Succeeds good
    → Fails bad
    → connect show (pos 0) (good ++ (bad ∷ others)) ≡ record {
      result = true;
      connect_socket = bad.socket_result;
      opened = map (λ (a : Attempt). a.socket_result) good ++ (bad.socket_result ∷ []);
      printed =
          map (λ (a : Attempt). could_not_connect (show a.address)) good
          ++ (connected_to (show bad.address) ∷ []);
    }
unfolding connect
connect-Fails show good bad others all fails =
    connect_loop-Fails show (pos null_socket) good bad others all fails

-- Where the system connects to every address, `Client::connect` reports for each that it could not,
-- returns `true` and keeps the last of the sockets, all of which stay open.
pub connect-Succeeds :
    (show : AddrInfo → Bytes) (good : List Attempt) (a : Attempt)
    → All Succeeds good
    → Succeeds a
    → connect show (pos 0) (good ++ (a ∷ [])) ≡ record {
      result = true;
      connect_socket = a.socket_result;
      opened = map (λ (b : Attempt). b.socket_result) good ++ (a.socket_result ∷ []);
      printed =
          map (λ (b : Attempt). could_not_connect (show b.address)) good
          ++ (could_not_connect (show a.address) ∷ []);
    }
unfolding connect
connect-Succeeds show good a all connects =
    connect_loop-Succeeds show (pos null_socket) good a all connects

-- `Server::init` reports no failure of `bind`, and `Server::listen` none of `listen`, whose failures are
-- -1: the one returns `true` whenever the address resolves to a socket other than 0, the other always.
pub init-listen_unseen :
    (socket_result bind_result : ℤ)
    → is_constant socket_result null_socket ≡ false
    → (init (pos 0) socket_result bind_result ≡ (true, socket_result)) × (listen (negsuc 0) ≡ true)
unfolding init listen
init-listen_unseen socket_result bind_result given =
    elim (Bool-cases (is_constant bind_result socket_error)) [
      | inl same ↦ (rw (given, same) refl, refl)
      | inr other ↦ (rw (given, other) refl, refl)
    ]
