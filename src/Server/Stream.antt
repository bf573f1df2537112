-- ===== src/Server/Stream.antt =====
-- What a server makes of the chunks in which a client's bytes arrive.
use mathlib.Core.List.{List, flatten}
use netframework.Base.{
  ℕ, Bool, Bool-cases, inl, inr, [], ◌∷◌, ◌++◌, append_assoc, append-nil, if◌then◌else◌, Bytes,
  Result, ok, ◌>>=◌, ◌≡◌, ◌≢◌, All, refl, ◌∙◌, sym, ap,
}
use netframework.Server.{Connection, got, append_received, receive_into, receive_data_from_socket}

-- Bytes that are kept until they are complete: the messages, and what is kept at the end.
unfoldable pub reassemble : (Bytes → Bool) → Bytes → List Bytes → List Bytes × Bytes
reassemble complete kept [] = ([], kept)
reassemble complete kept (chunk ∷ chunks) =
    let whole = reassemble complete [] chunks in
    let more = reassemble complete (kept ++ chunk) chunks in
    if complete (kept ++ chunk) then ((kept ++ chunk) ∷ whole.0, whole.1) else more

-- No message and no byte is lost, doubled or moved.
reassemble-flatten :
    (complete : Bytes → Bool) (kept : Bytes) (chunks : List Bytes)
    → flatten (reassemble complete kept chunks).0 ++ (reassemble complete kept chunks).1
      ≡ kept ++ flatten chunks
unfolding reassemble flatten
reassemble-flatten complete kept [] = sym (append-nil kept)
reassemble-flatten complete kept (chunk ∷ chunks) = elim (Bool-cases (complete (kept ++ chunk))) [
  | inl whole ↦ rw whole (
      append_assoc (kept ++ chunk) (flatten (reassemble complete [] chunks).0)
        (reassemble complete [] chunks).1
      ∙ ap (λ rest. (kept ++ chunk) ++ rest) (reassemble-flatten complete [] chunks)
      ∙ append_assoc kept chunk (flatten chunks))
  | inr part ↦ rw part (
      reassemble-flatten complete (kept ++ chunk) chunks ∙ append_assoc kept chunk (flatten chunks))
]

-- A connection that receives chunks, one for each call of `recv`, and the calls of the data callback.
unfoldable pub receive_each :
    (Bytes → Bool) → List Bytes → Connection → Result (Connection × List Bytes)
unfolding receive_data_from_socket
receive_each complete [] conn = ok (conn, [])
receive_each complete (chunk ∷ chunks) conn =
    receive_data_from_socket complete (got chunk) conn >>= λ r.
    receive_each complete chunks r.1.0 >>= λ later. ok (later.0, r.1.1 ++ later.1)

abbrev pub holding : Bytes → Bytes → Connection
holding kept waiting = record { received_data = kept; data_to_send = waiting }

receive_into-append_received :
    (complete : Bytes → Bool) (kept waiting buf : Bytes)
    → receive_into complete kept buf (holding kept waiting)
      ≡ append_received complete buf (holding kept waiting)
unfolding receive_into append_received
receive_into-append_received complete [] waiting buf = elim (Bool-cases (complete buf)) [
  | inl whole ↦ rw whole refl
  | inr part ↦ rw part refl
]
receive_into-append_received complete (k ∷ kept) waiting buf = refl

-- The same, with a step of the list of chunks for each call.
receive_each-cons :
    (complete : Bytes → Bool) (kept waiting : Bytes) (b : ℕ) (bs : Bytes) (chunks : List Bytes)
    → receive_each complete ((b ∷ bs) ∷ chunks) (holding kept waiting) ≡ (
        receive_each complete chunks (append_received complete (b ∷ bs) (holding kept waiting)).0
        >>= λ later.
            ok (later.0, (append_received complete (b ∷ bs) (holding kept waiting)).1 ++ later.1))
unfolding receive_each receive_data_from_socket
receive_each-cons complete kept waiting b bs chunks =
    ap (λ r. receive_each complete chunks r.0 >>= λ later. ok (later.0, r.1 ++ later.1))
      (receive_into-append_received complete kept waiting (b ∷ bs))

pub receive_each-kept :
    (complete : Bytes → Bool) (chunks : List Bytes) (kept waiting : Bytes)
    → All (λ chunk. chunk ≢ []) chunks
    → receive_each complete chunks (holding kept waiting)
      ≡ ok
          (holding (reassemble complete kept chunks).1 waiting, (reassemble complete kept chunks).0)
unfolding receive_each reassemble append_received
receive_each-kept complete [] kept waiting full = refl
receive_each-kept complete ([] ∷ chunks) kept waiting full = absurd (full.0 refl)
receive_each-kept complete ((b ∷ bs) ∷ chunks) kept waiting full =
    receive_each-cons complete kept waiting b bs chunks
    ∙ elim (Bool-cases (complete (kept ++ (b ∷ bs)))) [
      | inl whole ↦ rw (whole, receive_each-kept complete chunks [] waiting full.1) refl
      | inr part ↦
          rw (part, receive_each-kept complete chunks (kept ++ (b ∷ bs)) waiting full.1) refl
    ]

-- A connection that receives chunks, none of them empty, makes the data callbacks of `reassemble`,
-- keeps its rest, and leaves the bytes that wait to be sent; and the bytes handed on, followed by those
-- kept, are those kept before followed by those that came: none is lost, doubled or moved, whatever the
-- callback takes for complete.
pub receive_each-reassemble :
    (complete : Bytes → Bool) (chunks : List Bytes) (conn : Connection)
    → All (λ chunk. chunk ≢ []) chunks
    → (receive_each complete chunks conn
        ≡ ok (
          record conn { received_data = (reassemble complete conn.received_data chunks).1 },
          (reassemble complete conn.received_data chunks).0,
        ))
      × (flatten (reassemble complete conn.received_data chunks).0
            ++ (reassemble complete conn.received_data chunks).1
          ≡ conn.received_data ++ flatten chunks)
receive_each-reassemble complete chunks conn full = (
  receive_each-kept complete chunks conn.received_data conn.data_to_send full,
  reassemble-flatten complete conn.received_data chunks,
)
