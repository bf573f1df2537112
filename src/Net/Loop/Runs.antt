-- ===== src/Net/Loop/Runs.antt =====
-- The runs of a server: no handler is called for a session that is deleted, and none in the list is.
use mathlib.Core.List.{List, foldr}
use netframework.Base.{
  ℕ, ◌+◌, ◌-◌, ◌^◌, ltb, update, bit, count, ◌==◌, Bool, true, false, Bool-cases, inl, inr, Option,
  Option-cases, none, some, [], ◌∷◌, ◌++◌, if◌then◌else◌, length, Bytes, ℤ, pos, Result, ok,
  Ensures, Ensures->>=, Ensures-any, ◌≡◌, refl, ap, subst, arith,
}
use netframework.CoreProto.Host.{Host}
use netframework.Session.{
  Session, Action, handshake, read_some, deleted, write, handle_packet, Outcome, start,
  handle_handshake, deliver, process_read,
}
use netframework.Session.Actions.{IsSingle, process_read-IsSingle, handle_handshake-IsSingle}
use netframework.Handlers
use netframework.Handlers.{HandlerManager}
use netframework.Net.{Impl, handle_accept}
use netframework.Net.Loop.{
  Operation, accepting, handshaking, reading, writing, Pending, NetBase, Completion, put_pending,
  put_session, start_accept, act, act_all, on_session, with_client_id, perform, perform_all,
  accepted, complete, new_net_base, with_handler,
}
use netframework.Net.Loop.Validity.{
  is_live, is_accepting, is_writing, IsValid, IsOpen, take_pending-IsOpen, pending-is_live,
  put_pending-IsValid, put_session-IsOpen,
}
use netframework.Net.Loop.Changes.{
  destroy-IsValid, delete-IsValid, listed-IsOpen, start_accept-IsValid,
}

abbrev pub listed : ℕ → Impl → Impl
listed pointer impl = record {
  sessions = impl.sessions ++ (record { pointer = pointer; client_id = impl.next_id } ∷ []);
  next_id = impl.next_id + 1;
}

module _ {H : Type 0} where
  act_all-IsValid :
      (pointer : ℕ) (id : ℤ) (actions : List Action) (s : NetBase H)
      → IsSingle actions
      → IsOpen 1 pointer false s
      → Ensures (IsValid 1) (act_all pointer id actions s)
  unfolding act_all act
  act_all-IsValid pointer id [] s single v = absurd single
  act_all-IsValid pointer id (handle_packet text ∷ actions) s single v =
      Ensures->>= (IsOpen 1 pointer false) (IsValid 1) (act pointer id (handle_packet text) s)
        (act_all pointer id actions)
        (Ensures->>= (λ r. Unit {0}) (IsOpen 1 pointer false)
          (Handlers.handle_packet text id s.manager) _
          (Ensures-any (Handlers.handle_packet text id s.manager))
          (λ r any. record {
            one = v.one;
            held = v.held;
            awaiting = v.awaiting;
            unwritten = v.unwritten;
          }))
        (λ s' v'. act_all-IsValid pointer id actions s' single v')
  act_all-IsValid pointer id (handshake ∷ []) s single v =
      put_pending-IsValid handshaking pointer s refl refl v
  act_all-IsValid pointer id (read_some ∷ []) s single v =
      put_pending-IsValid reading pointer s refl refl v
  act_all-IsValid pointer id (deleted ∷ []) s single v = destroy-IsValid pointer s v
  act_all-IsValid pointer id (write bytes ∷ actions) s single v = absurd single
  act_all-IsValid pointer id (handshake ∷ action ∷ actions) s single v = absurd single
  act_all-IsValid pointer id (read_some ∷ action ∷ actions) s single v = absurd single
  act_all-IsValid pointer id (deleted ∷ action ∷ actions) s single v = absurd single

  on_session-IsValid :
      (handler : Session → Result Outcome) (pointer : ℕ) (found : Option Session) (s : NetBase H)
      → ((session : Session) → Ensures (λ r. IsSingle r.1) (handler session))
      → IsOpen 1 pointer false s
      → Ensures (IsValid 1) (on_session handler pointer found s)
  unfolding on_session
  on_session-IsValid handler pointer none s single v = tt
  on_session-IsValid handler pointer (some session) s single v =
      Ensures->>= (λ r. IsSingle r.1) (IsValid 1) (handler session) _ (single session)
        (λ r one.
          act_all-IsValid pointer r.0.client_id r.1 (put_session pointer r.0 s) one
            (put_session-IsOpen pointer false r.0 s v))

  -- The address of the next session is not in use when it is made.
  abbrev pub IsFree : Bool → ℕ → ℕ → NetBase H → Type 0
  IsFree error fresh pointer s =
      is_live ((if error then update s.objects pointer none else s.objects) fresh) ≡ false

  -- The server after an accept: the session has its identity, stands in the list and shakes hands.
  abbrev pub entered : ℕ → Session → NetBase H → NetBase H
  entered pointer session s =
      let named : Session = record session { client_id = pos s.impl.next_id } in
      put_pending handshaking pointer (
        put_session pointer named
          (record (put_session pointer named s) { impl = listed pointer s.impl }))

  pub accepted_fits :
      (c : Completion) (pointer : ℕ) (session : Session) (s : NetBase H)
      → s.objects pointer ≡ some session
      → ltb (s.impl.next_id + 1) (2 ^ 31) ≡ true
      → accepted false c pointer s ≡ ok (start_accept c.fresh c.memory (entered pointer session s))
  unfolding accepted handle_accept perform_all perform on_session with_client_id act_all act start
  accepted_fits c pointer session s here fits =
      let own : (pointer == pointer) ≡ true = ground arith in
      rw (handle_accept, fits, here, own) refl

  entered-IsValid :
      (pointer : ℕ) (session : Session) (s : NetBase H)
      → IsOpen 0 pointer true s
      → IsValid 0 (entered pointer session s)
  entered-IsValid pointer session s v =
      let named : Session = record session { client_id = pos s.impl.next_id } in
      put_pending-IsValid handshaking pointer _ refl refl (
        put_session-IsOpen pointer false named _ (
          listed-IsOpen pointer (listed pointer s.impl) s.impl.next_id (put_session pointer named s)
            refl (put_session-IsOpen pointer true named s v)))

  fresh-free :
      (fresh pointer : ℕ) (session : Session) (s : NetBase H)
      → s.objects pointer ≡ some session
      → is_live (s.objects fresh) ≡ false
      → is_live ((entered pointer session s).objects fresh) ≡ false
  fresh-free fresh pointer session s here free = elim (Bool-cases (pointer == fresh)) [
    | inl same ↦
        let equal : pointer ≡ fresh = ground (arith, same) in
        let live : is_live (s.objects pointer) ≡ true = ap is_live here in
        let live' : is_live (s.objects fresh) ≡ true =
          subst (λ p. is_live (s.objects p) ≡ true) equal live in
        cc
    | inr other ↦ rw other free
  ]

  accepted-IsValid :
      (error : Bool) (c : Completion) (pointer : ℕ) (s : NetBase H)
      → IsFree error c.fresh pointer s
      → IsOpen 0 pointer true s
      → Ensures (IsValid 1) (accepted error c pointer s)
  unfolding accepted handle_accept perform_all perform with_client_id
  accepted-IsValid true c pointer s free v =
      start_accept-IsValid c.fresh c.memory (record s { objects = update s.objects pointer none })
        free (delete-IsValid pointer s v)
  accepted-IsValid false c pointer s free v =
      elim (Bool-cases (ltb (s.impl.next_id + 1) (2 ^ 31))) [
        | inr full ↦ rw (handle_accept, full) tt
        | inl fits ↦ elim (Option-cases (s.objects pointer)) [
          | inl gone ↦
              let own : (pointer == pointer) ≡ true = ground arith in
              let dead : is_live (s.objects pointer) ≡ false = ap is_live gone in
              ground (arith, v.one pointer, own, dead)
          | inr (session, here) ↦ rw (accepted_fits c pointer session s here fits) (
              start_accept-IsValid c.fresh c.memory (entered pointer session s)
                (fresh-free c.fresh pointer session s here free)
                (entered-IsValid pointer session s v))
        ]
      ]

  complete_opened-IsValid :
      (h : Host) (operation : Operation) (c : Completion) (pointer : ℕ) (s : NetBase H)
      → is_writing operation ≡ false
      → IsFree c.error c.fresh pointer s
      → IsOpen (1 - bit (is_accepting operation)) pointer (is_accepting operation) s
      → Ensures (IsValid 1) (complete h operation c pointer s)
  unfolding complete
  complete_opened-IsValid h accepting c pointer s other free v =
      accepted-IsValid c.error c pointer s free v
  complete_opened-IsValid h handshaking c pointer s other free v =
      on_session-IsValid (λ session. ok (handle_handshake session c.error)) pointer
        (s.objects pointer) s (λ session. handle_handshake-IsSingle session c.error) v
  complete_opened-IsValid h reading c pointer s other free v =
      on_session-IsValid
        (λ session. process_read h (deliver session c.chunk) c.error (length c.chunk)) pointer
        (s.objects pointer) s
        (λ session. process_read-IsSingle h (deliver session c.chunk) c.error (length c.chunk)) v
  complete_opened-IsValid h writing c pointer s other free v = absurd (cc other)

  -- An operation of a server ends.
  complete-IsValid :
      (h : Host) (before : List Pending) (op : Pending) (after : List Pending) (c : Completion)
      (s : NetBase H)
      → s.pending ≡ before ++ (op ∷ after)
      → IsFree c.error c.fresh op.pointer s
      → IsValid 1 s
      → Ensures
          (IsValid 1)
          (complete h op.operation c op.pointer (record s { pending = before ++ after }))
  complete-IsValid h before op after c s split free v =
      let opened = take_pending-IsOpen before op after s split v in
      let alive = pending-is_live before op after s split v in
      complete_opened-IsValid h op.operation c op.pointer (record s { pending = before ++ after })
        alive.1 free opened

  -- The runs of a server: `NetBase` is made, handlers are registered, `start` is called, and operations
  -- end one after another, in any order.
  pub data Runs (h : Host) : NetBase H → Type 0 where
    started :
        (handlers : List (Option (Bytes × H))) (fresh : ℕ) (memory : Bytes)
        → Runs h (start_accept fresh memory (foldr with_handler new_net_base handlers))
    completed :
        (before : List Pending) (op : Pending) (after : List Pending) (c : Completion)
        (s s' : NetBase H)
        → Runs h s
        → s.pending ≡ before ++ (op ∷ after)
        → IsFree c.error c.fresh op.pointer s
        → complete h op.operation c op.pointer (record s { pending = before ++ after }) ≡ ok s'
        → Runs h s'

  registered-IsValid :
      (handlers : List (Option (Bytes × H))) → IsValid 0 (foldr with_handler new_net_base handlers)
  unfolding count
  registered-IsValid [] = record {
    one = λ p. omega arith;
    held = λ p. omega arith;
    awaiting = refl;
    unwritten = refl;
  }
  registered-IsValid (handler ∷ handlers) =
      let v = registered-IsValid handlers in
      record { one = v.one; held = v.held; awaiting = v.awaiting; unwritten = v.unwritten }

  registered-free :
      (handlers : List (Option (Bytes × H))) (p : ℕ)
      → is_live ((foldr with_handler new_net_base handlers).objects p) ≡ false
  registered-free [] p = refl
  registered-free (handler ∷ handlers) p = registered-free handlers p

  -- In every run of a server, whatever its handlers do and in whichever order the operations end: a
  -- session has at most one operation that waits, and is in the list of sessions at most once, not while
  -- it waits for its accept; no operation waits for a session that is deleted, and no such session is in the
  -- list; exactly one accept waits; and nothing is written.
  pub Runs-IsValid : (h : Host) (s : NetBase H) → Runs h s → IsValid 1 s
  Runs-IsValid h s (started handlers fresh memory) =
      start_accept-IsValid fresh memory (foldr with_handler new_net_base handlers)
        (registered-free handlers fresh) (registered-IsValid handlers)
  Runs-IsValid h s (completed before op after c s0 s' runs split free done) =
      subst (Ensures (IsValid 1)) done
        (complete-IsValid h before op after c s0 split free (Runs-IsValid h s0 runs))
