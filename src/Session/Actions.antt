-- ===== src/Session/Actions.antt =====
-- What a handler of a session asks for: calls of the handler manager, and then one thing.
use mathlib.Core.List.{List}
use netframework.Base.{
  ℕ, ltb, Bool, true, false, Bool-cases, inl, inr, Option, none, some, [], ◌∷◌, ◌++◌, Bytes, ℤ, ◌≡◌,
  refl, Ensures, Ensures->>=, Ensures-any,
}
use netframework.CoreProto.Host.{Host}
use netframework.CoreProto.Frame.{max_packet_size, is_packet_complete, fetch_data, is_packet_start}
use netframework.CoreProto.PacketArray.{is_packet_complete_array, fetch_data_array}
use netframework.Session.{
  Session, Action, handshake, read_some, deleted, write, handle_packet, Outcome, handle_handshake,
  append_received, check_size, read_first, read_more, continue_reading, read_into, process_read,
}

-- Packets for the handler manager, and nothing else.
abbrev pub IsPackets : List Action → Type 0
IsPackets [] = Unit
IsPackets (handle_packet text ∷ actions) = IsPackets actions
IsPackets (_ ∷ actions) = ⊥

-- Packets, and then the next operation, or the end of the session.
abbrev pub IsSingle : List Action → Type 0
IsSingle (handle_packet text ∷ actions) = IsSingle actions
IsSingle (handshake ∷ []) = Unit
IsSingle (read_some ∷ []) = Unit
IsSingle (deleted ∷ []) = Unit
IsSingle _ = ⊥

IsSingle-append :
    (actions : List Action) → IsPackets actions → IsSingle (actions ++ (read_some ∷ []))
IsSingle-append [] packets = tt
IsSingle-append (handle_packet text ∷ actions) packets = IsSingle-append actions packets
IsSingle-append (handshake ∷ actions) packets = absurd packets
IsSingle-append (read_some ∷ actions) packets = absurd packets
IsSingle-append (deleted ∷ actions) packets = absurd packets
IsSingle-append (write bytes ∷ actions) packets = absurd packets

-- What a read asks for before the next read, in a session with this identity.
abbrev pub PacketsOnly : ℤ → Outcome → Type 0
PacketsOnly id r = IsPackets r.1 × (r.0.client_id ≡ id)

check_size-IsPackets :
    (s : Session) (size : Option ℕ) → Ensures (PacketsOnly s.client_id) (check_size s size)
unfolding check_size
check_size-IsPackets s none = tt
check_size-IsPackets s (some n) = elim (Bool-cases (ltb max_packet_size n)) [
  | inl large ↦ rw (check_size, large) (tt, refl)
  | inr small ↦ rw (check_size, small) (tt, refl)
]

read_more-IsPackets :
    (s : Session) (found : Bool × Option ℕ) → Ensures (PacketsOnly s.client_id) (read_more s found)
unfolding read_more
read_more-IsPackets s (true, none) = tt
read_more-IsPackets s (true, some n) =
    Ensures->>= (λ packet. Unit {0}) (PacketsOnly s.client_id) (fetch_data s.inc_buffer n) _
      (Ensures-any (fetch_data s.inc_buffer n)) (λ packet any. (tt, refl))
read_more-IsPackets s (false, size) = check_size-IsPackets s size

read_first-IsPackets :
    (s : Session) (n : ℕ) (found : Bool × Option ℕ)
    → Ensures (PacketsOnly s.client_id) (read_first s n found)
unfolding read_first
read_first-IsPackets s n (true, none) = tt
read_first-IsPackets s n (true, some size) =
    Ensures->>= (λ packet. Unit {0}) (PacketsOnly s.client_id) (fetch_data_array s.data_ size) _
      (Ensures-any (fetch_data_array s.data_ size)) (λ packet any. (tt, refl))
read_first-IsPackets s n (false, size) = elim (Bool-cases (is_packet_start s.data_)) [
  | inl starts ↦ rw (read_first, starts) (tt, refl)
  | inr other ↦ rw (read_first, other) (tt, refl)
]

module _ (h : Host) where
  pub read_into-IsPackets :
      (held : Bytes) (s : Session) (n : ℕ)
      → Ensures (PacketsOnly s.client_id) (read_into h held s n)
  unfolding read_into
  read_into-IsPackets [] s n = read_first-IsPackets s n (is_packet_complete_array h s.data_ none)
  read_into-IsPackets (b ∷ held) s n =
      read_more-IsPackets (append_received s n)
        (is_packet_complete h (append_received s n).inc_buffer none)

  pub process_read-IsSingle :
      (s : Session) (error : Bool) (n : ℕ) → Ensures (λ r. IsSingle r.1) (process_read h s error n)
  unfolding process_read
  process_read-IsSingle s true n = tt
  process_read-IsSingle s false n =
      Ensures->>= (PacketsOnly s.client_id) (λ r. IsSingle r.1) (read_into h s.inc_buffer s n)
        continue_reading (read_into-IsPackets s.inc_buffer s n)
        (λ r packets. IsSingle-append r.1 packets.0)

pub handle_handshake-IsSingle : (s : Session) (error : Bool) → IsSingle (handle_handshake s error).1
unfolding handle_handshake
handle_handshake-IsSingle s true = tt
handle_handshake-IsSingle s false = tt
