-- ===== src/Net/Loop.antt =====
-- lib/netbase.cpp, the server as `boost::asio::io_context::run` drives it: `NetBase::start` and the
-- handlers of `NetBase::Impl` and `SessionImpl`, each called when an operation that was started ends.
pub mod Validity
pub mod Changes
pub mod Runs
pub mod Failure
pub mod Traffic
pub mod Delivery
pub mod Calls
pub mod Served
mod Examples
use mathlib.Core.List.{List}
use netframework.Base.{
  ℕ, update, Bool, true, false, Option, none, some, [], ◌∷◌, ◌++◌, length, Bytes, ℤ, pos, Result,
  ok, err, undefined, ◌>>=◌,
}
use netframework.CoreProto.Host.{Host}
use netframework.Session.{
  Session, Action, handshake, read_some, deleted, write, handle_packet, Outcome, new_session, start,
  handle_handshake, deliver, process_read, handle_write, send_data,
}
use netframework.Handlers
use netframework.Handlers.{HandlerManager, Call, new_manager, register_handler}
use netframework.Net.{
  Impl, Request, accept_next, start_session, delete_session, send_to_session, new_impl,
  client_session_destroyed, handle_accept,
}

-- `async_accept`, `async_handshake`, `async_read_some` and `async_write`.
pub data Operation : Type 0 where
  accepting handshaking reading writing : Operation

-- An operation that was started, with the session whose handler its end calls.
pub record Pending : Type 0 where
  pub operation : Operation
  pub pointer : ℕ

-- `NetBase`: `objects` are the sessions that are not deleted, and `calls` the calls of handlers so far.
pub record NetBase (H : Type 0) : Type 0 where
  pub impl : Impl
  pub objects : ℕ → Option Session
  pub pending : List Pending
  pub manager : HandlerManager H
  pub calls : List (Call H)

-- How an operation ends: whether `error` is set, and the bytes that a read brought. After an accept
-- there are the address of the next session, and what its memory held.
pub record Completion : Type 0 where
  pub error : Bool
  pub chunk : Bytes
  pub fresh : ℕ
  pub memory : Bytes

module _ {H : Type 0} where
  abbrev pub put_pending : Operation → ℕ → NetBase H → NetBase H
  put_pending operation pointer s = record s {
    pending = s.pending ++ (record { operation = operation; pointer = pointer } ∷ []);
  }

  abbrev pub put_session : ℕ → Session → NetBase H → NetBase H
  put_session pointer session s = record s { objects = update s.objects pointer (some session) }

  -- `start_accept`, where `new` gives the address `fresh`.
  unfoldable pub start_accept : ℕ → Bytes → NetBase H → NetBase H
  start_accept fresh memory s =
      put_pending accepting fresh (put_session fresh (new_session memory) s)

  -- `delete this` of a session that was accepted, whose `destroyedFnc_` is set.
  unfoldable pub destroy : ℕ → NetBase H → NetBase H
  destroy pointer s = record s {
    impl = client_session_destroyed pointer s.impl;
    objects = update s.objects pointer none;
  }

  abbrev pub called : Option (Call H) → List (Call H)
  called none = []
  called (some call) = call ∷ []

  -- What a handler of the session asks for. An exception of the handler manager leaves `run`.
  unfoldable pub act : ℕ → ℤ → Action → NetBase H → Result (NetBase H)
  unfolding destroy
  act pointer id handshake s = ok (put_pending handshaking pointer s)
  act pointer id read_some s = ok (put_pending reading pointer s)
  act pointer id (write bytes) s = ok (put_pending writing pointer s)
  act pointer id deleted s = ok (destroy pointer s)
  act pointer id (handle_packet text) s = Handlers.handle_packet text id s.manager >>= λ r.
      ok (record s { manager = r.0; calls = s.calls ++ called r.1 })

  unfoldable pub act_all : ℕ → ℤ → List Action → NetBase H → Result (NetBase H)
  unfolding act
  act_all pointer id [] s = ok s
  act_all pointer id (action ∷ actions) s = act pointer id action s >>= act_all pointer id actions

  -- A handler of a session, through a pointer that must not be deleted.
  unfoldable pub on_session :
      (Session → Result Outcome) → ℕ → Option Session → NetBase H → Result (NetBase H)
  unfolding act_all
  on_session handler pointer none s = err undefined
  on_session handler pointer (some session) s =
      handler session >>= λ r. act_all pointer r.0.client_id r.1 (put_session pointer r.0 s)

  -- `newSession->clientId_ = clientId++`, where there is no error.
  unfoldable pub with_client_id : Bool → ℕ → Option Session → NetBase H → NetBase H
  with_client_id false pointer (some session) s =
      put_session pointer (record session { client_id = pos s.impl.next_id }) s
  with_client_id _ pointer _ s = s

  -- What `handleAccept` asks for.
  unfoldable pub perform : Completion → Request → NetBase H → Result (NetBase H)
  unfolding start_accept on_session
  perform c accept_next s = ok (start_accept c.fresh c.memory s)
  perform c (start_session pointer) s =
      on_session (λ session. ok (start session)) pointer (s.objects pointer) s
  perform c (delete_session pointer) s = ok record s { objects = update s.objects pointer none }
  perform c (send_to_session pointer bytes) s =
      on_session (λ session. ok (send_data session bytes)) pointer (s.objects pointer) s

  unfoldable pub perform_all : Completion → List Request → NetBase H → Result (NetBase H)
  unfolding perform
  perform_all c [] s = ok s
  perform_all c (request ∷ requests) s = perform c request s >>= perform_all c requests

  -- `handleAccept`; the flag says that `error` is set.
  unfoldable pub accepted : Bool → Completion → ℕ → NetBase H → Result (NetBase H)
  unfolding perform_all with_client_id
  accepted error c pointer s = handle_accept pointer error s.impl >>= λ r.
      perform_all c r.1 (record (with_client_id error pointer (s.objects pointer) s) { impl = r.0 })

  -- The handler that the end of an operation calls.
  unfoldable pub complete : Host → Operation → Completion → ℕ → NetBase H → Result (NetBase H)
  unfolding accepted on_session
  complete h accepting c pointer s = accepted c.error c pointer s
  complete h handshaking c pointer s =
      on_session (λ session. ok (handle_handshake session c.error)) pointer (s.objects pointer) s
  complete h reading c pointer s =
      on_session (λ session. process_read h (deliver session c.chunk) c.error (length c.chunk))
        pointer (s.objects pointer) s
  complete h writing c pointer s =
      on_session (λ session. ok (handle_write session c.error)) pointer (s.objects pointer) s

  abbrev pub new_net_base : NetBase H
  new_net_base = record {
    impl = new_impl;
    objects = λ pointer. none;
    pending = [];
    manager = new_manager;
    calls = [];
  }

  -- `registerHandler`
  abbrev pub with_handler : Option (Bytes × H) → NetBase H → NetBase H
  with_handler handler s = record s { manager = register_handler handler s.manager }
