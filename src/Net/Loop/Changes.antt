-- ===== src/Net/Loop/Changes.antt =====
-- What the handlers do to the sessions keeps what holds between them and the operations.
use mathlib.Core.List.{List}
use netframework.Base.{
  ℕ, suc, ◌-◌, ◌≤◌, update, bit, count, count_last, count-le, ◌==◌, Bool, true, false, ◌&&◌,
  Bool-cases, inl, inr, none, [], ◌∷◌, ◌++◌, Bytes, ◌≡◌, ap, arith,
}
use netframework.Net.{Entry, Impl, erase, client_session_destroyed}
use netframework.Net.Loop.{accepting, Pending, NetBase, start_accept, destroy}
use netframework.Net.Loop.Validity.{
  is_live, is_accepting, is_writing, waits, accepts, entries, IsValid, IsOpen,
}

pub entries-erase :
    (p q : ℕ) (list : List Entry) → entries q (erase p list) ≡ entries q list - bit (p == q)
unfolding erase count
entries-erase p q [] = omega arith
entries-erase p q (entry ∷ list) = elim (Bool-cases (entry.pointer == p)) [
  | inl found ↦ rw found (ground arith)
  | inr other ↦ rw other (ground (arith, entries-erase p q list))
]

accepts-le-waits : (p : ℕ) (pending : List Pending) → accepts p pending ≤ waits p pending
accepts-le-waits p pending =
    count-le (λ (o : Pending). is_accepting o.operation && (o.pointer == p))
      (λ (o : Pending). o.pointer == p) pending (λ o. ground arith)

pub bit-le-one : (b : Bool) → bit b ≤ 1
bit-le-one true = omega arith
bit-le-one false = omega arith

module _ {H : Type 0} where
  -- The end of a session in its handler.
  pub destroy-IsValid :
      {n : ℕ} (pointer : ℕ) (s : NetBase H)
      → IsOpen n pointer false s
      → IsValid n (destroy pointer s)
  unfolding destroy client_session_destroyed
  destroy-IsValid pointer s v = record {
    one = λ p. ground (arith, v.one p, bit-le-one (is_live (s.objects p)));
    held = λ p. ground (
      arith,
      v.one p,
      v.held p,
      bit-le-one (is_live (s.objects p)),
      accepts-le-waits p s.pending,
      entries-erase pointer p s.impl.sessions,
    );
    awaiting = v.awaiting;
    unwritten = v.unwritten;
  }

  -- The end of a session whose accept has failed, which is not in the list.
  pub delete-IsValid :
      {n : ℕ} (pointer : ℕ) (s : NetBase H)
      → IsOpen n pointer true s
      → IsValid n (record s { objects = update s.objects pointer none })
  delete-IsValid pointer s v = record {
    one = λ p. ground (arith, v.one p, bit-le-one (is_live (s.objects p)));
    held = λ p. ground (arith, v.held p, bit-le-one (is_live (s.objects p)));
    awaiting = v.awaiting;
    unwritten = v.unwritten;
  }

  -- A session that is put into the list.
  pub listed-IsOpen :
      {n : ℕ} (pointer : ℕ) (impl : Impl) (client_id : ℕ) (s : NetBase H)
      → impl.sessions
        ≡ s.impl.sessions ++ (record { pointer = pointer; client_id = client_id } ∷ [])
      → IsOpen n pointer true s
      → IsOpen n pointer false (record s { impl = impl })
  listed-IsOpen pointer impl client_id s appended v =
      let entry : Entry = record { pointer = pointer; client_id = client_id } in
      record {
        one = v.one;
        held = λ p. omega (
          arith,
          v.held p,
          ap (entries p) appended,
          count_last (λ (e : Entry). e.pointer == p) s.impl.sessions entry,
        );
        awaiting = v.awaiting;
        unwritten = v.unwritten;
      }

  pub start_accept-IsValid :
      {n : ℕ} (fresh : ℕ) (memory : Bytes) (s : NetBase H)
      → is_live (s.objects fresh) ≡ false
      → IsValid n s
      → IsValid (suc n) (start_accept fresh memory s)
  unfolding start_accept
  start_accept-IsValid fresh memory s free v =
      let op : Pending = record { operation = accepting; pointer = fresh } in
      record {
        one = λ p.
            ground
              (arith, v.one p, count_last (λ (o : Pending). o.pointer == p) s.pending op, free);
        held = λ p. ground (
          arith,
          v.held p,
          count_last (λ (o : Pending). is_accepting o.operation && (o.pointer == p)) s.pending op,
          free,
        );
        awaiting = omega (
          arith,
          v.awaiting,
          count_last (λ (o : Pending). is_accepting o.operation) s.pending op,
        );
        unwritten =
            omega (
              arith,
              v.unwritten,
              count_last (λ (o : Pending). is_writing o.operation) s.pending op,
            );
      }
