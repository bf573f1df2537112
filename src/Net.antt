-- ===== src/Net.antt =====
-- lib/netbase.cpp, `NetBase::Impl`: the sessions of a server. A session object is known by its pointer,
-- a number that the allocation gives; what boost::asio and the sessions are asked to do is a list.
pub mod Clients
pub mod Loop
mod Examples
use mathlib.Core.List.{List}
use netframework.Base.{
  ℕ, suc, ◌+◌, ◌-◌, ◌^◌, ltb, Bool, true, false, Option, none, some, [], ◌∷◌, ◌++◌, ◌==◌,
  if◌then◌else◌, Bytes, Result, ok, err, undefined,
}
use netframework.CoreProto.Host.{Host}
use netframework.CoreProto.Frame.{create_packet}

-- A member of `sessions_`: the pointer, and `clientId_`, which is -1 until the session is accepted
-- and never negative in the list.
pub record Entry : Type 0 where
  pub pointer : ℕ
  pub client_id : ℕ

-- The list, and the next value of the counter in `handleAccept`.
pub record Impl : Type 0 where
  pub sessions : List Entry
  pub next_id : ℕ

-- `async_accept`, `SessionImpl::start`, `delete` and `SessionImpl::sendData`, of a session.
pub data Request : Type 0 where
  accept_next : Request
  start_session delete_session : ℕ → Request
  send_to_session : ℕ → Bytes → Request

abbrev pub new_impl : Impl
new_impl = record { sessions = []; next_id = 0 }

-- `std::find` and `erase`: the first entry with the pointer goes.
unfoldable pub erase : ℕ → List Entry → List Entry
erase pointer [] = []
erase pointer (entry ∷ entries) =
    let rest = erase pointer entries in if entry.pointer == pointer then entries else entry ∷ rest

unfoldable pub client_session_destroyed : ℕ → Impl → Impl
unfolding erase
client_session_destroyed pointer impl = record impl { sessions = erase pointer impl.sessions }

-- The flag says that `error` is set. The counter is an `int`: a step past its maximum is undefined.
unfoldable pub handle_accept : ℕ → Bool → Impl → Result (Impl × List Request)
handle_accept pointer true impl = ok (impl, delete_session pointer ∷ accept_next ∷ [])
handle_accept pointer false impl =
    if ltb (impl.next_id + 1) (2 ^ 31)
    then ok (
      record {
        sessions = impl.sessions ++ (record { pointer = pointer; client_id = impl.next_id } ∷ []);
        next_id = impl.next_id + 1;
      },
      start_session pointer ∷ accept_next ∷ [],
    )
    else err undefined

-- `std::find_if` on the identity of the client.
unfoldable pub find_client : ℕ → List Entry → Option ℕ
find_client client_id [] = none
find_client client_id (entry ∷ entries) =
    let later = find_client client_id entries in
    if entry.client_id == client_id then some entry.pointer else later

-- The callback that the constructor gives to the handler manager.
unfoldable pub send_callback : Host → Bytes → ℕ → Impl → List Request
unfolding find_client create_packet
send_callback h payload client_id impl = elim (find_client client_id impl.sessions) [
  | none ↦ []
  | some pointer ↦ send_to_session pointer (create_packet h payload) ∷ []
]
