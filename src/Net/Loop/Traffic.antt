-- ===== src/Net/Loop/Traffic.antt =====
-- What reads bring to the handlers: the server refines a handler manager that is given the packets
-- of the session in turn.
use mathlib.Core.List.{List}
use netframework.Base.{
  ℕ, ◌==◌, true, false, some, [], ◌∷◌, ◌++◌, append-nil, length, Bytes, ℤ, Result, ok, ◌>>=◌,
  Result-cases, inl, inr, Ensures, ◌≡◌, refl, ◌∙◌, ap, subst, arith,
}
use netframework.CoreProto.Host.{Host}
use netframework.Session.{
  Session, Action, handshake, read_some, deleted, write, handle_packet, deliver, process_read,
  read_into,
}
use netframework.Session.Actions.{IsPackets, PacketsOnly, read_into-IsPackets}
use netframework.Session.Chunks.{receive}
use netframework.Handlers
use netframework.Handlers.{HandlerManager, Call, call_handler, find_name}
use netframework.Net.Loop.{
  reading, Pending, NetBase, called, put_pending, put_session, act, act_all, on_session, complete,
}

-- The packets that a session hands over.
abbrev pub packets : List Action → List Bytes
packets [] = []
packets (handle_packet text ∷ actions) = text ∷ packets actions
packets (_ ∷ actions) = packets actions

packets-append :
    (first second : List Action) → packets (first ++ second) ≡ packets first ++ packets second
packets-append [] second = refl
packets-append (handle_packet text ∷ first) second =
    ap (λ (texts : List Bytes). text ∷ texts) (packets-append first second)
packets-append (handshake ∷ first) second = packets-append first second
packets-append (read_some ∷ first) second = packets-append first second
packets-append (deleted ∷ first) second = packets-append first second
packets-append (write bytes ∷ first) second = packets-append first second

module _ {H : Type 0} where
  -- The handler manager, and the calls of handlers.
  abbrev pub traffic : NetBase H → HandlerManager H × List (Call H)
  traffic s = (s.manager, s.calls)

  -- A handler manager that is given packets of one client.
  unfoldable pub hand_over :
      ℤ → List Bytes → HandlerManager H × List (Call H) → Result (HandlerManager H × List (Call H))
  hand_over id [] t = ok t
  hand_over id (text ∷ texts) t =
      Handlers.handle_packet text id t.0 >>= λ r. hand_over id texts (r.0, t.1 ++ called r.1)

  -- Reads of a session that succeed, one for each chunk, while the operations `others` wait.
  unfoldable pub reads : Host → List Pending → ℕ → List Bytes → NetBase H → Result (NetBase H)
  reads h others pointer [] s = ok s
  reads h others pointer (chunk ∷ chunks) s =
      complete h reading (record { error = false; chunk = chunk; fresh = 0; memory = [] }) pointer
        (record s { pending = others })
      >>= reads h others pointer chunks

  abbrev pub seen : Result (NetBase H) → Result (HandlerManager H × List (Call H))
  seen found = found >>= λ s. ok (traffic s)

  act_all-packets :
      (pointer : ℕ) (id : ℤ) (actions : List Action) (later : List Bytes) (s : NetBase H)
      (next : NetBase H → Result (NetBase H))
      → IsPackets actions
      → ((s' : NetBase H)
          → s'.objects pointer ≡ s.objects pointer
          → seen (next s') ≡ hand_over id later (traffic s'))
      → seen (act_all pointer id (actions ++ (read_some ∷ [])) s >>= next)
        ≡ hand_over id (packets actions ++ later) (traffic s)
  unfolding act_all act hand_over
  act_all-packets pointer id [] later s next plain continue =
      continue (put_pending reading pointer s) refl
  act_all-packets pointer id (handle_packet text ∷ actions) later s next plain continue =
      elim (Result-cases (Handlers.handle_packet text id s.manager)) [
        | inl (r, done) ↦ rw done (
            act_all-packets pointer id actions later
              (record s { manager = r.0; calls = s.calls ++ called r.1 }) next plain continue)
        | inr (e, refused) ↦ rw refused refl
      ]
  act_all-packets pointer id (handshake ∷ actions) later s next plain continue = absurd plain
  act_all-packets pointer id (read_some ∷ actions) later s next plain continue = absurd plain
  act_all-packets pointer id (deleted ∷ actions) later s next plain continue = absurd plain
  act_all-packets pointer id (write bytes ∷ actions) later s next plain continue = absurd plain

module _ {H : Type 0} (h : Host) (others : List Pending) (pointer : ℕ) where
  read-hand_over :
      (chunk : Bytes) (session s1 : Session) (now : List Action) (later : List Bytes)
      (s : NetBase H) (next : NetBase H → Result (NetBase H))
      → s.objects pointer ≡ some session
      → read_into h session.inc_buffer (deliver session chunk) (length chunk) ≡ ok (s1, now)
      → IsPackets now
      → ((s' : NetBase H)
          → s'.objects pointer ≡ some s1
          → seen (next s') ≡ hand_over s1.client_id later (traffic s'))
      → seen (
          complete h reading
            (record { error = false; chunk = chunk; fresh = 0; memory = [] })
            pointer
            (record s { pending = others })
          >>= next)
        ≡ hand_over s1.client_id (packets now ++ later) (traffic s)
  unfolding complete on_session process_read deliver
  read-hand_over chunk session s1 now later s next here done plain continue =
      let own : (pointer == pointer) ≡ true = ground arith in
      rw (here, done)
        (act_all-packets pointer s1.client_id now later
          (put_session pointer s1 (record s { pending = others })) next plain
          (λ s' kept. continue s' (kept ∙ rw own refl)))

  reads_first :
      (chunk : Bytes) (chunks : List Bytes) (session s1 : Session) (now : List Action)
      (later : List Bytes) (s : NetBase H)
      → s.objects pointer ≡ some session
      → read_into h session.inc_buffer (deliver session chunk) (length chunk) ≡ ok (s1, now)
      → IsPackets now
      → s1.client_id ≡ session.client_id
      → ((s' : NetBase H)
          → s'.objects pointer ≡ some s1
          → seen (reads h others pointer chunks s') ≡ hand_over s1.client_id later (traffic s'))
      → seen (reads h others pointer (chunk ∷ chunks) s)
        ≡ hand_over session.client_id ((packets now ++ []) ++ later) (traffic s)
  unfolding reads
  reads_first chunk chunks session s1 now later s here done plain same continue = rw append-nil (
      subst
        (λ id.
          seen (reads h others pointer (chunk ∷ chunks) s)
          ≡ hand_over id (packets now ++ later) (traffic s))
        same
        (read-hand_over chunk session s1 now later s (reads h others pointer chunks) here done plain
          continue))

  -- Reads of a session that succeed bring the packets that the session finds in the chunks, which may
  -- be cut anywhere, to the handler manager, in their order and with the identity of the session: the
  -- server makes the calls that the manager makes when it is given these packets, and where it throws,
  -- the server ends so.
  pub reads-hand_over :
      (chunks : List Bytes) (session : Session) (s : NetBase H)
      → s.objects pointer ≡ some session
      → Ensures
          (λ r.
            seen (reads h others pointer chunks s)
            ≡ hand_over session.client_id (packets r.1) (traffic s))
          (receive h session chunks)
  unfolding reads receive hand_over deliver process_read
  reads-hand_over [] session s here = refl
  reads-hand_over (chunk ∷ chunks) session s here =
      elim (Result-cases (read_into h session.inc_buffer (deliver session chunk) (length chunk))) [
        | inr (e, refused) ↦ rw refused tt
        | inl ((s1, now), done) ↦
            let (plain, same) : PacketsOnly session.client_id (s1, now) =
              subst (Ensures (PacketsOnly session.client_id)) done
                (read_into-IsPackets h session.inc_buffer (deliver session chunk) (length chunk)) in
            elim (Result-cases (receive h s1 chunks)) [
              | inr (e, refused) ↦ rw (done, refused) tt
              | inl ((s2, later), rest) ↦
                  rw
                    (
                      done,
                      rest,
                      packets-append (now ++ (read_some ∷ [])) later,
                      packets-append now (read_some ∷ []),
                    )
                    (reads_first chunk chunks session s1 now (packets later) s here done plain same
                      (λ s' here'. subst (Ensures _) rest (reads-hand_over chunks s1 s' here')))
            ]
      ]
