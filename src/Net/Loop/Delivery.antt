-- ===== src/Net/Loop/Delivery.antt =====
-- What becomes of one packet, by its size.
use mathlib.Core.List.{List, flatten}
use netframework.Base.{
  ℕ, zero, suc, ◌+◌, ◌≤◌, ◌<◌, replicate, invalid_argument, Fault, false, Option, some, [], ◌∷◌,
  ◌++◌, append-nil, length, Bytes, ℤ, Result, ok, err, Ensures, ◌≡◌, refl, ◌∙◌, subst, arith,
}
use netframework.CoreProto.Host.{Host}
use netframework.CoreProto.Frame.{max_packet_size, header_size, create_packet}
use netframework.Session.{
  Session, Action, read_some, handle_packet, deliver, process_read, max_length,
}
use netframework.Session.Chunks.{receive, receive-large}
use netframework.Session.Read.{process_read-packet}
use netframework.Rpc.Packet.{RmiPacket, serialize_packet}
use netframework.Rpc.Packet.RoundTrip.{IsPlainPacket}
use netframework.Handlers.{HandlerManager, Call, call_handler, find_name}
use netframework.Handlers.Dispatch.{handle_packet-empty, handle_packet-serialize_packet}
use netframework.Net.Loop.{Pending, NetBase, called}
use netframework.Net.Loop.Traffic.{packets, traffic, hand_over, seen, reads, reads-hand_over}

packets-replicate :
    (n : ℕ) (actions : List Action) → packets (replicate n read_some ++ actions) ≡ packets actions
packets-replicate zero actions = refl
packets-replicate (suc n) actions = packets-replicate n actions

module _ {H : Type 0} where
  seen-err : (found : Result (NetBase H)) {e : Fault} → seen found ≡ err e → found ≡ err e
  seen-err (ok s) e = absurd (cc e)
  seen-err (err e) same = cc

  abbrev pub after_call :
      HandlerManager H × Option (Call H) → List (Call H) → HandlerManager H × List (Call H)
  after_call (m, call) calls = (m, calls ++ called call)

  hand_over-empty :
      (id : ℤ) (n : ℕ) (t : HandlerManager H × List (Call H))
      → hand_over id
          (packets (read_some ∷ (replicate n read_some ++ handle_packet [] ∷ read_some ∷ [])))
          t
        ≡ err invalid_argument
  unfolding hand_over
  hand_over-empty id n t =
      rw (packets-replicate n (handle_packet [] ∷ read_some ∷ []))
        (rw (handle_packet-empty id t.0) refl)

module _ {H : Type 0} (h : Host) (others : List Pending) (pointer : ℕ) where
  -- A packet that is larger than the array of a session, and arrives in several reads of which the first
  -- brings the whole header, ends the server: the handler manager is given an empty text, and
  -- `std::invalid_argument` leaves `NetBase::start`.
  pub reads-large :
      (session : Session) (bytes first last : Bytes) (middle : List Bytes) (s : NetBase H)
      → s.objects pointer ≡ some session
      → session.inc_buffer ≡ []
      → length session.data_ ≡ max_length
      → first ++ (flatten middle ++ last) ≡ create_packet h bytes
      → length bytes ≤ max_packet_size
      → max_length < header_size + length bytes
      → header_size ≤ length first
      → length first ≤ max_length
      → 0 < length last
      → reads h others pointer (first ∷ (middle ++ last ∷ [])) s ≡ err invalid_argument
  unfolding hand_over
  reads-large session bytes first last middle s here empty full cut small large headed fits more =
      let (s', done, _) =
        receive-large h session bytes first last middle empty full cut small large headed fits
          more in
      seen-err (reads h others pointer (first ∷ (middle ++ last ∷ [])) s) (
        subst (Ensures _) done
          (reads-hand_over h others pointer (first ∷ (middle ++ last ∷ [])) session s here)
        ∙ hand_over-empty session.client_id (length middle) (traffic s))

  -- A packet that a client wrote, with no quote, backslash or brace in its names and data, that one read
  -- brings to a session that has nothing in its buffer, and that fits into the array: the handler that
  -- is registered under its handler name is called with its signature, its data and the identity of the
  -- session; where there is no such handler, nothing is called.
  pub reads-serialize_packet :
      (session : Session) (p : RmiPacket) (s : NetBase H)
      → s.objects pointer ≡ some session
      → session.inc_buffer ≡ []
      → IsPlainPacket p
      → header_size + length (serialize_packet p) ≤ max_length
      → seen (reads h others pointer (create_packet h (serialize_packet p) ∷ []) s)
        ≡ ok (
            after_call
              (call_handler
                (find_name p.handler_name s.manager.handlers)
                p
                session.client_id
                s.manager)
              s.calls)
  unfolding receive hand_over
  reads-serialize_packet session p s here empty plain fits =
      let chunk = create_packet h (serialize_packet p) in
      let read : process_read h (deliver session (chunk ++ [])) false (length (chunk ++ []))
          ≡ ok
              (deliver session (chunk ++ []), handle_packet (serialize_packet p) ∷ read_some ∷ []) =
        process_read-packet h session (serialize_packet p) [] empty (omega arith) in
      let read' : receive h session (chunk ∷ [])
          ≡ ok (deliver session chunk, handle_packet (serialize_packet p) ∷ read_some ∷ []) =
        rw (rw append-nil at read) refl in
      subst (Ensures _) read' (reads-hand_over h others pointer (chunk ∷ []) session s here)
      ∙ rw (handle_packet-serialize_packet p session.client_id s.manager plain) refl
