-- ===== src/Handlers/Dispatch.antt =====
-- Which handler gets a packet.
use mathlib.Core.List.{List}
use netframework.Base.{
  Bool, false, Bool-cases, Option, none, some, [], ◌∷◌, ℤ, if◌then◌else◌, Bytes, equal, equal_iff,
  ok, err, invalid_argument, ◌≡◌, refl, ◌∙◌, ap, inl, inr,
}
use netframework.Serialisation.Value.Read.{deserialize}
use netframework.Rpc.Packet.{RmiPacket, serialize_packet}
use netframework.Rpc.Packet.RoundTrip.{IsPlainPacket, deserialize_packet-serialize_packet}
use netframework.Handlers.{
  HandlerManager, find_name, insert_name, register_handler, call_handler, handle_packet,
}

-- The entry that is there, or the new one.
abbrev pub or_new {ℓ} : {A : Type ℓ} → Option A → Bool → A → Option A
or_new (some item) same new = some item
or_new none same new = if same then some new else none

or_new_old {ℓ} : {A : Type ℓ} (found : Option A) (item : A) → found ≡ or_new found false item
or_new_old none item = refl
or_new_old (some old) item = refl

find_name-insert_name {ℓ} :
    {A : Type ℓ} (name key : Bytes) (item : A) (items : List (Bytes × A))
    → find_name name (insert_name key item items)
      ≡ or_new (find_name name items) (equal name key) item
unfolding find_name insert_name
find_name-insert_name name key item [] = refl
find_name-insert_name name key item ((other, old) ∷ items) = elim (Bool-cases (equal key other)) [
  | inl there ↦ elim (Bool-cases (equal name other)) [
    | inl found ↦ rw (there, found) refl
    | inr differs ↦
        let same : key ≡ other = (equal_iff key other).0 there in
        let apart : equal name key ≡ false = ap (equal name) same ∙ differs in
        rw (there, differs, apart) (or_new_old (find_name name items) item)
  ]
  | inr further ↦ elim (Bool-cases (equal name other)) [
    | inl found ↦ rw (further, found) refl
    | inr differs ↦ rw (further, differs) (find_name-insert_name name key item items)
  ]
]

-- A registered handler is found under its name unless one was registered under that name before,
-- which stays; every other name finds what it found.
pub find_name-register_handler :
    {H : Type 0} (name thread_name : Bytes) (h : H) (m : HandlerManager H)
    → find_name name (register_handler (some (thread_name, h)) m).handlers
      ≡ or_new (find_name name m.handlers) (equal name thread_name) h
unfolding register_handler
find_name-register_handler name thread_name h m =
    find_name-insert_name name thread_name h m.handlers

-- A packet that a client wrote, with no quote, backslash or brace in its names and data, reaches the
-- handler that is registered under its handler name, with its signature, its data and the identity of
-- the client; where there is no such handler it is dropped.
pub handle_packet-serialize_packet :
    {H : Type 0} (p : RmiPacket) (client_id : ℤ) (m : HandlerManager H)
    → IsPlainPacket p
    → handle_packet (serialize_packet p) client_id m
      ≡ ok (call_handler (find_name p.handler_name m.handlers) p client_id m)
unfolding handle_packet
handle_packet-serialize_packet p client_id m plain =
    rw (deserialize_packet-serialize_packet p plain) refl

-- An empty text is no packet.
pub handle_packet-empty :
    {H : Type 0} (client_id : ℤ) (m : HandlerManager H)
    → handle_packet [] client_id m ≡ err invalid_argument
unfolding handle_packet deserialize
handle_packet-empty client_id m = refl
