-- ===== src/Net/Loop/Served.antt =====
-- A client from its connection to its call.
use mathlib.Core.List.{List}
use netframework.Base.{ℕ, [], ◌∷◌, Bytes, Result, ◌>>=◌}
use netframework.CoreProto.Host.{Host}
use netframework.Session.{Session}
use netframework.Handlers.{HandlerManager, Call}
use netframework.Net.Loop.{accepting, handshaking, Pending, NetBase, Completion, complete}
use netframework.Net.Loop.Traffic.{seen, reads}

module _ {H : Type 0} (h : Host) where
  -- The end of an accept, of the handshake, and of the read that brings a packet, one after another, where
  -- other operations wait.
  unfoldable pub served :
      List Pending
      → List Pending
      → List Pending
      → Completion
      → Completion
      → ℕ
      → Bytes
      → NetBase H
      → Result (HandlerManager H × List (Call H))
  served first second third arrival shaken pointer packet s =
      complete h accepting arrival pointer (record s { pending = first }) >>= λ s1.
      complete h handshaking shaken pointer (record s1 { pending = second }) >>= λ s2.
      seen (reads h third pointer (packet ∷ []) s2)
