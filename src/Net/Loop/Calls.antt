-- ===== src/Net/Loop/Calls.antt =====
-- The calls that a client makes one after another.
use mathlib.Core.List.{List, map}
use netframework.Base.{
  ℕ, ◌+◌, ◌≤◌, ◌==◌, Bool, true, false, Option, some, none, [], ◌∷◌, ◌++◌, append_assoc, append-nil,
  All, length, Bytes, ℤ, ok, ◌≡◌, refl, ◌∙◌, sym, ap, arith,
}
use netframework.CoreProto.Host.{Host}
use netframework.CoreProto.Frame.{header_size, create_packet}
use netframework.Session.{Session, max_length, deliver, process_read, read_some, handle_packet}
use netframework.Session.Read.{process_read-packet}
use netframework.Rpc.Packet.{RmiPacket, serialize_packet}
use netframework.Rpc.Packet.RoundTrip.{IsPlainPacket}
use netframework.Handlers.{HandlerManager, Call, call_handler, find_name}
use netframework.Handlers.Dispatch.{handle_packet-serialize_packet}
use netframework.Handlers.Answers.{IsSilent, net_info_at-IsSilent, call_handler-IsSilent}
use netframework.Net.Loop.{
  reading, Pending, NetBase, called, put_pending, put_session, act, act_all, on_session, complete,
}
use netframework.Net.Loop.Traffic.{reads}

-- A packet that fits into the array of a session, with no quote, backslash or brace in its names and data.
abbrev pub IsShortPacket : RmiPacket → Type 0
IsShortPacket p = IsPlainPacket p × (header_size + length (serialize_packet p) ≤ max_length)

abbrev pub packet_of : Host → RmiPacket → Bytes
packet_of h p = create_packet h (serialize_packet p)

module _ {H : Type 0} where
  -- The call that a packet of a client stands for, where its handler is registered.
  abbrev pub call_of : ℤ → Option H → RmiPacket → List (Call H)
  call_of id none p = []
  call_of id (some handler) p =
      record {
        handler = handler;
        signature = p.signature;
        data_ = p.data_;
        net_info = record { client_id = some id; has_callback = false };
      }
      ∷ []

  unfoldable pub calls_of : ℤ → List (Bytes × H) → List RmiPacket → List (Call H)
  calls_of id handlers [] = []
  calls_of id handlers (p ∷ ps) =
      call_of id (find_name p.handler_name handlers) p ++ calls_of id handlers ps

  call_handler-call_of :
      (found : Option H) (p : RmiPacket) (id : ℤ) (m : HandlerManager H)
      → IsSilent m.net_infos
      → (called (call_handler found p id m).1 ≡ call_of id found p)
        × ((call_handler found p id m).0.handlers ≡ m.handlers)
  unfolding call_handler
  call_handler-call_of none p id m silent = (refl, refl)
  call_handler-call_of (some handler) p id m silent =
      let off = (net_info_at-IsSilent id m.net_infos silent).0 in
      (
        ap
            (λ (flag : Bool).
              record {
                handler = handler;
                signature = p.signature;
                data_ = p.data_;
                net_info = record { client_id = some id; has_callback = flag };
              }
              ∷ [])
            off,
        refl,
      )

module _ {H : Type 0} (h : Host) (others : List Pending) (pointer : ℕ) where
  -- The server after a read that brought a packet.
  abbrev after_read : Session → RmiPacket → NetBase H → NetBase H
  after_read session p s =
      let (m, call) =
        call_handler (find_name p.handler_name s.manager.handlers) p session.client_id s.manager in
      put_pending reading pointer
        (record (put_session pointer (deliver session (packet_of h p))
          (record s { pending = others })) { manager = m; calls = s.calls ++ called call })

  complete-packet :
      (session : Session) (p : RmiPacket) (s : NetBase H)
      → s.objects pointer ≡ some session
      → session.inc_buffer ≡ []
      → IsShortPacket p
      → complete h reading
          (record { error = false; chunk = packet_of h p; fresh = 0; memory = [] })
          pointer
          (record s { pending = others })
        ≡ ok (after_read session p s)
  unfolding complete on_session act_all act deliver
  complete-packet session p s here empty (plain, fits) =
      let read : process_read h (deliver session (packet_of h p ++ [])) false
            (length (packet_of h p ++ []))
          ≡ ok (
            deliver session (packet_of h p ++ []),
            handle_packet (serialize_packet p) ∷ read_some ∷ [],
          ) =
        process_read-packet h session (serialize_packet p) [] empty (omega (arith, fits)) in
      let read' = rw append-nil at read in
      rw (here, read', handle_packet-serialize_packet p session.client_id s.manager plain) refl

  -- A session with an empty buffer that reads packets of its client, one with each read: the
  -- server makes, in this order, the call of each packet whose handler is registered, with its signature,
  -- its data, the identity of the session and no callback, makes no other call, and keeps its handlers; where
  -- the packets fit into the array and have no quote, backslash or brace in their names and data, and no
  -- entry of `netInfos_` has a callback.
  pub reads-calls_of :
      (ps : List RmiPacket) (session : Session) (s : NetBase H)
      → s.objects pointer ≡ some session
      → session.inc_buffer ≡ []
      → IsSilent s.manager.net_infos
      → All IsShortPacket ps
      → (s' : NetBase H) × (reads h others pointer
            (map (λ p. create_packet h (serialize_packet p)) ps)
            s
          ≡ ok s')
        × (s'.calls ≡ s.calls ++ calls_of session.client_id s.manager.handlers ps)
        × (s'.manager.handlers ≡ s.manager.handlers)
  unfolding reads calls_of deliver
  reads-calls_of [] session s here empty silent short = (s, refl, sym (append-nil s.calls), refl)
  reads-calls_of (p ∷ ps) session s here empty silent (short, shorts) =
      let found = find_name p.handler_name s.manager.handlers in
      let s1 = after_read session p s in
      let own : (pointer == pointer) ≡ true = ground arith in
      let (made, kept) = call_handler-call_of found p session.client_id s.manager silent in
      let quiet = (call_handler-IsSilent found p session.client_id s.manager silent).0 in
      let (s', done, calls, same) =
        reads-calls_of ps (deliver session (packet_of h p)) s1 (rw own refl) empty quiet shorts in
      (
        s',
        rw (complete-packet session p s here empty short) done,
        calls
            ∙ ap
                (λ (now : List (Call H)).
                  (s.calls ++ now) ++ calls_of session.client_id s1.manager.handlers ps)
                made
            ∙ ap
                (λ (handlers : List (Bytes × H)).
                  (s.calls ++ call_of session.client_id found p)
                  ++ calls_of session.client_id handlers ps)
                kept
            ∙ append_assoc s.calls (call_of session.client_id found p)
                (calls_of session.client_id s.manager.handlers ps),
        same ∙ kept,
      )
