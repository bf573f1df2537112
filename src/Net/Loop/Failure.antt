-- ===== src/Net/Loop/Failure.antt =====
-- A handler that is called with an error ends its session.
use mathlib.Core.List.{List}
use netframework.Base.{
  ℕ, ◌==◌, if◌then◌else◌, true, false, Option, none, some, ◌∷◌, ◌++◌, Result, ok, err, ◌≡◌, refl,
  arith,
}
use netframework.CoreProto.Host.{Host}
use netframework.Session.{Session, handle_handshake, deliver, process_read}
use netframework.Net.{client_session_destroyed}
use netframework.Net.Loop.{
  Operation, accepting, handshaking, reading, writing, Pending, NetBase, Completion, put_session,
  destroy, act, act_all, on_session, complete,
}
use netframework.Net.Loop.Validity.{
  is_live, is_accepting, is_writing, waits, entries, IsOpen, take_pending-IsOpen, pending-is_live,
}
use netframework.Net.Loop.Changes.{entries-erase, bit-le-one}
use netframework.Net.Loop.Runs.{Runs, Runs-IsValid}

module _ {H : Type 0} where
  -- A handler ends its session and no other: the session is deleted, no operation of it waits, it is not
  -- in the list, the other sessions are alive and listed as before, and nothing is started or called.
  abbrev pub Ends : ℕ → NetBase H → Result (NetBase H) → Type 0
  Ends pointer s (err e) = ⊥
  Ends pointer s (ok s') =
      ((q : ℕ) → s'.objects q ≡ (if pointer == q then none else s.objects q))
      × ((q : ℕ)
          → entries q s'.impl.sessions ≡ (if pointer == q then 0 else entries q s.impl.sessions))
      × (waits pointer s'.pending ≡ 0)
      × (s'.pending ≡ s.pending)
      × (s'.calls ≡ s.calls)

  destroy-Ends :
      {n : ℕ} (pointer : ℕ) (session : Session) (s : NetBase H)
      → IsOpen n pointer false s
      → Ends pointer s (ok (destroy pointer (put_session pointer session s)))
  unfolding destroy client_session_destroyed
  destroy-Ends pointer session s v = (
    λ q. ground arith,
    λ q. ground (
      arith,
      entries-erase pointer q s.impl.sessions,
      v.held q,
      bit-le-one (is_live (s.objects q)),
    ),
    ground (arith, v.one pointer, bit-le-one (is_live (s.objects pointer))),
    refl,
    refl,
  )

  failed_opened :
      (h : Host) (operation : Operation) (c : Completion) (pointer : ℕ) (s : NetBase H)
      (found : Option Session) {n : ℕ}
      → IsOpen n pointer (is_accepting operation) s
      → is_accepting operation ≡ false
      → is_writing operation ≡ false
      → c.error ≡ true
      → s.objects pointer ≡ found
      → is_live found ≡ true
      → Ends pointer s (complete h operation c pointer s)
  unfolding complete on_session act_all act handle_handshake process_read deliver
  failed_opened h accepting c pointer s found v other silent failed here live = absurd (cc other)
  failed_opened h writing c pointer s found v other silent failed here live = absurd (cc silent)
  failed_opened h operation c pointer s none v other silent failed here live = absurd (cc live)
  failed_opened h handshaking c pointer s (some session) v other silent failed here live =
      rw (failed, here) (destroy-Ends pointer session s v)
  failed_opened h reading c pointer s (some session) v other silent failed here live =
      rw (failed, here) (destroy-Ends pointer (deliver session c.chunk) s v)

  -- In every run of a server, a handshake or a read that ends with an error ends its session and no other:
  -- the handler returns, the session is deleted, it is not in the list and no operation of it waits, so
  -- that nothing is left that reaches it; every other session is alive and listed as it was, the
  -- operations of the others wait as before, and no handler of a call is called.
  pub complete-Ends :
      (h : Host) (before : List Pending) (op : Pending) (after : List Pending) (c : Completion)
      (s : NetBase H)
      → Runs h s
      → s.pending ≡ before ++ (op ∷ after)
      → is_accepting op.operation ≡ false
      → c.error ≡ true
      → Ends op.pointer
          (record s { pending = before ++ after })
          (complete h op.operation c op.pointer (record s { pending = before ++ after }))
  complete-Ends h before op after c s runs split other failed =
      let v = Runs-IsValid h s runs in
      let (live, silent) = pending-is_live before op after s split v in
      failed_opened h op.operation c op.pointer (record s { pending = before ++ after })
        (s.objects op.pointer) (take_pending-IsOpen before op after s split v) other silent failed
        refl live
