-- ===== src/Server/Packets.antt =====
-- A packet of coreproto that arrives in chunks, at a server whose test of completeness is coreproto's.
use mathlib.Core.List.{List, flatten}
use netframework.Base.{
  ℕ, ◌<◌, ◌≤◌, ltb, length, Option, none, Bool, true, false, Bool-cases, inl, inr, [], ◌∷◌, ◌++◌,
  append_assoc, append-nil, Bytes, ok, ◌≡◌, ◌≢◌, All, refl, ◌∙◌, sym, ap, arith,
}
use netframework.CoreProto.Host.{Host}
use netframework.CoreProto.Frame.{header_size, max_packet_size, create_packet, is_packet_complete}
use netframework.CoreProto.Prefix.{
  length-create_packet, is_packet_complete-create_packet, is_packet_complete-prefix,
}
use netframework.Server.Stream.{reassemble, receive_each, holding, receive_each-kept}

append-ne : (xs ys : Bytes) → xs ≢ [] → (xs ++ ys) ≢ []
append-ne [] ys more e = more refl
append-ne (x ∷ xs) ys more e = cc e

ne-length : (xs : Bytes) → xs ≢ [] → 0 < length xs
ne-length [] more = absurd (more refl)
ne-length (x ∷ xs) more = omega arith

is_packet_complete-short :
    (h : Host) (bytes : Bytes) (p : Option ℕ)
    → ltb (length bytes) header_size ≡ true
    → (is_packet_complete h bytes p).0 ≡ false
unfolding is_packet_complete
is_packet_complete-short h bytes p short = rw (is_packet_complete, short) refl

-- A message that is complete and has no complete start, in the chunks that are still to come.
reassemble-message :
    (complete : Bytes → Bool) (message kept : Bytes) (chunks : List Bytes)
    → ((pre post : Bytes) → pre ++ post ≡ message → post ≢ [] → complete pre ≡ false)
    → complete message ≡ true
    → All (λ chunk. chunk ≢ []) chunks
    → kept ++ flatten chunks ≡ message
    → chunks ≢ []
    → reassemble complete kept chunks ≡ (message ∷ [], [])
unfolding reassemble flatten
reassemble-message complete message kept [] starts whole full e more = absurd (more refl)
reassemble-message complete message kept (chunk ∷ []) starts whole full e more =
    let last : kept ++ chunk ≡ message = ap (λ c. kept ++ c) (sym (append-nil chunk)) ∙ e in
    rw (last, whole) refl
reassemble-message complete message kept (chunk ∷ next ∷ chunks) starts whole full e more =
    let split : (kept ++ chunk) ++ flatten (next ∷ chunks) ≡ message =
      append_assoc kept chunk (flatten (next ∷ chunks)) ∙ e in
    let part : complete (kept ++ chunk) ≡ false =
      starts (kept ++ chunk) (flatten (next ∷ chunks)) split
        (append-ne next (flatten chunks) full.1.0) in
    rw part (
      reassemble-message complete message (kept ++ chunk) (next ∷ chunks) starts whole full.1 split
        (λ none_left. cc none_left))

-- The callback that takes a vector for complete as coreproto does; the size starts unset.
abbrev pub packet_complete : Host → Bytes → Bool
packet_complete h bytes = (is_packet_complete h bytes none).0

start-incomplete :
    (h : Host) (payload pre post : Bytes)
    → length payload ≤ max_packet_size
    → pre ++ post ≡ create_packet h payload
    → post ≢ []
    → packet_complete h pre ≡ false
start-incomplete h payload pre post le e more = elim (Bool-cases (ltb (length pre) header_size)) [
  | inl short ↦ is_packet_complete-short h pre none short
  | inr headed ↦
      ap (λ r. r.0)
        (is_packet_complete-prefix h payload pre post none le e (ground arith)
          (ne-length post more))
]

flatten-ne :
    (h : Host) (payload : Bytes) (chunks : List Bytes)
    → length payload ≤ max_packet_size
    → flatten chunks ≡ create_packet h payload
    → chunks ≢ []
unfolding flatten
flatten-ne h payload [] le e empty =
    omega (arith, ap length e, length-create_packet h payload (omega arith))
flatten-ne h payload (chunk ∷ chunks) le e empty = cc empty

-- A packet of a payload that is not too large, in chunks of any sizes, none of them empty, reaches
-- the data callback of a server with the test of coreproto once and whole, at a connection that
-- kept nothing before, and nothing of it is kept.
pub receive_each-create_packet :
    (h : Host) (payload : Bytes) (chunks : List Bytes) (waiting : Bytes)
    → length payload ≤ max_packet_size
    → All (λ chunk. chunk ≢ []) chunks
    → flatten chunks ≡ create_packet h payload
    → receive_each
        (packet_complete h)
        chunks
        (record { received_data = []; data_to_send = waiting })
      ≡ ok (record { received_data = []; data_to_send = waiting }, create_packet h payload ∷ [])
receive_each-create_packet h payload chunks waiting le full e =
    let packet = create_packet h payload in
    let whole : packet_complete h packet ≡ true =
      ap (packet_complete h) (sym (append-nil packet))
      ∙ ap (λ r. r.0) (is_packet_complete-create_packet h payload [] none le) in
    let some_chunk : chunks ≢ [] = λ empty. flatten-ne h payload chunks le e empty in
    receive_each-kept (packet_complete h) chunks [] waiting full
    ∙ ap (λ r. ok (holding r.1 waiting, r.0))
        (reassemble-message (packet_complete h) packet [] chunks
          (λ pre post. start-incomplete h payload pre post le) whole full e some_chunk)
