-- ===== src/Net/Loop/Validity.antt =====
-- What holds between the sessions that are alive, the operations that were started and the list of
-- sessions.
use mathlib.Core.List.{List}
use netframework.Base.{
  ℕ, ◌+◌, ◌-◌, ◌≤◌, bit, count, count_split, count_last, ◌==◌, Bool, true, false, ◌&&◌, Option,
  none, some, ◌∷◌, ◌++◌, ◌≡◌, ap, arith,
}
use netframework.Session.{Session}
use netframework.Net.{Entry}
use netframework.Net.Loop.{
  Operation, accepting, writing, Pending, NetBase, put_pending, put_session,
}

abbrev pub is_live : Option Session → Bool
is_live none = false
is_live (some session) = true

abbrev pub is_accepting : Operation → Bool
is_accepting accepting = true
is_accepting _ = false

abbrev pub is_writing : Operation → Bool
is_writing writing = true
is_writing _ = false

-- How many operations of a session wait, how many of these are accepts, and how often the
-- session is in the list; and how many operations are accepts, or writes.
abbrev pub waits : ℕ → List Pending → ℕ
waits p = count (λ (op : Pending). op.pointer == p)

abbrev pub accepts : ℕ → List Pending → ℕ
accepts p = count (λ (op : Pending). is_accepting op.operation && (op.pointer == p))

abbrev pub listeners : List Pending → ℕ
listeners = count (λ (op : Pending). is_accepting op.operation)

abbrev pub writes : List Pending → ℕ
writes = count (λ (op : Pending). is_writing op.operation)

abbrev pub entries : ℕ → List Entry → ℕ
entries p = count (λ (entry : Entry). entry.pointer == p)

module _ {H : Type 0} where
  -- A session has at most one operation, and none after its end; it is in the list at most once, not
  -- while it waits for its accept, and not after its end; `n` accepts wait, and nothing is written.
  pub record IsValid (n : ℕ) (s : NetBase H) : Type 0 where
    pub one : (p : ℕ) → waits p s.pending ≤ bit (is_live (s.objects p))
    pub held :
        (p : ℕ) → accepts p s.pending + entries p s.impl.sessions ≤ bit (is_live (s.objects p))
    pub awaiting : listeners s.pending ≡ n
    pub unwritten : writes s.pending ≡ 0

  -- While a handler runs, its session has no operation, but is alive: as if one were still waiting,
  -- of which the flag says whether it is an accept.
  pub record IsOpen (n pointer : ℕ) (accept : Bool) (s : NetBase H) : Type 0 where
    pub one : (p : ℕ) → waits p s.pending + bit (pointer == p) ≤ bit (is_live (s.objects p))
    pub held :
        (p : ℕ)
        → accepts p s.pending + bit (accept && (pointer == p)) + entries p s.impl.sessions
          ≤ bit (is_live (s.objects p))
    pub awaiting : listeners s.pending ≡ n
    pub unwritten : writes s.pending ≡ 0

  pub take_pending-IsOpen :
      (before : List Pending) (op : Pending) (after : List Pending) (s : NetBase H)
      → s.pending ≡ before ++ (op ∷ after)
      → IsValid 1 s
      → IsOpen
          (1 - bit (is_accepting op.operation))
          op.pointer
          (is_accepting op.operation)
          (record s { pending = before ++ after })
  take_pending-IsOpen before op after s split v = record {
    one = λ p. omega (
      arith,
      v.one p,
      ap (waits p) split,
      count_split (λ (op : Pending). op.pointer == p) before op after,
    );
    held = λ p. omega (
      arith,
      v.held p,
      ap (accepts p) split,
      count_split (λ (op : Pending). is_accepting op.operation && (op.pointer == p)) before op
          after,
    );
    awaiting = ground (
      arith,
      v.awaiting,
      ap listeners split,
      count_split (λ (o : Pending). is_accepting o.operation) before op after,
    );
    unwritten = omega (
      arith,
      v.unwritten,
      ap writes split,
      count_split (λ (op : Pending). is_writing op.operation) before op after,
    );
  }

  -- An operation that waits is no write, and its session is alive.
  pub pending-is_live :
      (before : List Pending) (op : Pending) (after : List Pending) (s : NetBase H)
      → s.pending ≡ before ++ (op ∷ after)
      → IsValid 1 s
      → (is_live (s.objects op.pointer) ≡ true) × (is_writing op.operation ≡ false)
  pending-is_live before op after s split v = (
    ground (
      arith,
      v.one op.pointer,
      ap (waits op.pointer) split,
      count_split (λ (o : Pending). o.pointer == op.pointer) before op after,
    ),
    ground (
      arith,
      v.unwritten,
      ap writes split,
      count_split (λ (o : Pending). is_writing o.operation) before op after,
    ),
  )

  pub put_pending-IsValid :
      {n : ℕ} (operation : Operation) (pointer : ℕ) (s : NetBase H)
      → is_accepting operation ≡ false
      → is_writing operation ≡ false
      → IsOpen n pointer false s
      → IsValid n (put_pending operation pointer s)
  put_pending-IsValid operation pointer s other unwritten v =
      let op : Pending = record { operation = operation; pointer = pointer } in
      record {
        one =
            λ p. omega (arith, v.one p, count_last (λ (o : Pending). o.pointer == p) s.pending op);
        held = λ p. ground (
          arith,
          other,
          v.held p,
          count_last (λ (o : Pending). is_accepting o.operation && (o.pointer == p)) s.pending op,
        );
        awaiting = ground (
          arith,
          other,
          v.awaiting,
          count_last (λ (o : Pending). is_accepting o.operation) s.pending op,
        );
        unwritten = ground (
          arith,
          unwritten,
          v.unwritten,
          count_last (λ (o : Pending). is_writing o.operation) s.pending op,
        );
      }

  -- The session of a handler that runs may change.
  pub put_session-IsOpen :
      {n : ℕ} (pointer : ℕ) (accept : Bool) (session : Session) (s : NetBase H)
      → IsOpen n pointer accept s
      → IsOpen n pointer accept (put_session pointer session s)
  put_session-IsOpen pointer accept session s v = record {
    one = λ p. ground (arith, v.one p);
    held = λ p. ground (arith, v.held p, v.one p);
    awaiting = v.awaiting;
    unwritten = v.unwritten;
  }
