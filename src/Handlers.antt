-- ===== src/Handlers.antt =====
-- lib/handlermanager.cpp, lib/handlerbase.cpp and lib/netinfo.h: which handler a packet goes to, and
-- what a handler does with a call. `H` stands for the handlers, whose methods are in the classes that
-- derive from `HandlerBase`.
pub mod Dispatch
pub mod Answers
pub mod Methods
mod Examples
use mathlib.Core.List.{List}
use netframework.Base.{
  ℕ, Bool, true, false, ◌&&◌, Option, none, some, [], ◌∷◌, ◌++◌, ◌==◌, if◌then◌else◌, ℤ, pos,
  negsuc, Bytes, equal, Result, ok, err, thrown, ◌>>=◌,
}
use netframework.Stream.{stream}
use netframework.Serialisation.Value.{Value, Values, nil, cons}
use netframework.Rpc.Packet.{RmiPacket, deserialize_packet}
use netframework.Rpc.Call.{Argument, shapes, read_data, serialise_answer}

-- `none` is an identity that was never set; the flag says that `retCallback_` is not empty.
pub record NetInfo : Type 0 where
  pub client_id : Option ℤ
  pub has_callback : Bool

-- `NetInfo()`
abbrev pub new_net_info : NetInfo
new_net_info = record { client_id = none; has_callback = false }

abbrev pub same_id : ℤ → ℤ → Bool
same_id (pos m) (pos n) = m == n
same_id (negsuc m) (negsuc n) = m == n
same_id _ _ = false

-- `netInfos_[clientId]`, which puts a default entry where there is none: the entry, and the map.
unfoldable pub net_info_at : ℤ → List (ℤ × NetInfo) → NetInfo × List (ℤ × NetInfo)
net_info_at id [] = (new_net_info, (id, new_net_info) ∷ [])
net_info_at id ((key, info) ∷ infos) =
    let (found, rest) = net_info_at id infos in
    if same_id id key then (info, (key, info) ∷ infos) else (found, (key, info) ∷ rest)

-- `std::map::find` on the names of handlers and of methods.
unfoldable pub find_name {ℓ} : {A : Type ℓ} → Bytes → List (Bytes × A) → Option A
find_name name [] = none
find_name name ((key, item) ∷ items) =
    let later = find_name name items in if equal name key then some item else later

-- `std::map::insert`, which leaves an entry that is there.
unfoldable pub insert_name {ℓ} : {A : Type ℓ} → Bytes → A → List (Bytes × A) → List (Bytes × A)
insert_name name item [] = (name, item) ∷ []
insert_name name item ((key, other) ∷ items) =
    let rest = insert_name name item items in
    if equal name key then (key, other) ∷ items else (key, other) ∷ rest

pub record HandlerManager (H : Type 0) : Type 0 where
  pub handlers : List (Bytes × H)
  pub net_infos : List (ℤ × NetInfo)

-- The arguments of `HandlerBase::handleCall`.
pub record Call (H : Type 0) : Type 0 where
  pub handler : H
  pub signature : Bytes
  pub data_ : Bytes
  pub net_info : NetInfo

module _ {H : Type 0} where
  abbrev pub new_manager : HandlerManager H
  new_manager = record { handlers = []; net_infos = [] }

  -- A handler with its name; `none` is a null pointer.
  unfoldable pub register_handler : Option (Bytes × H) → HandlerManager H → HandlerManager H
  unfolding insert_name
  register_handler none m = m
  register_handler (some (thread_name, h)) m = record m {
    handlers = insert_name thread_name h m.handlers;
  }

  -- The call that is made, where the packet names a handler.
  unfoldable pub call_handler :
      Option H → RmiPacket → ℤ → HandlerManager H → HandlerManager H × Option (Call H)
  unfolding net_info_at
  call_handler none pkg client_id m = (m, none)
  call_handler (some h) pkg client_id m =
      let (info, infos) = net_info_at client_id m.net_infos in
      (
        record m { net_infos = infos },
        some record {
          handler = h;
          signature = pkg.signature;
          data_ = pkg.data_;
          net_info = record info { client_id = some client_id };
        },
      )

  unfoldable pub handle_packet :
      Bytes → ℤ → HandlerManager H → Result (HandlerManager H × Option (Call H))
  unfolding call_handler find_name deserialize_packet
  handle_packet text client_id m = do
    (pkg, _) ← deserialize_packet (stream text)
    ok (call_handler (find_name pkg.handler_name m.handlers) pkg client_id m)

-- `HandlerBase::sendAnswer`, where no class overrides it: calling an empty `std::function` throws.
unfoldable pub send_answer : NetInfo → Bytes → Result (NetInfo × Bytes)
send_answer net_info text = if net_info.has_callback then ok (net_info, text) else err thrown

-- What a method is: of the values of its arguments, the value that it returns and the three values that
-- it leaves in the arguments.
abbrev pub Method : Type 0
Method = Values → Value × Value × Value × Value

abbrev pub with_value : Argument → Value → Argument
with_value t v = record t { value = v }

-- What `REGISTER_RMI3` stores, of the types of the arguments and the method. The answer goes to the
-- virtual method `sendAnswer`, which is the first argument: `A` is what it leaves behind.
unfoldable pub register_rmi :
    {A : Type 0}
    → (NetInfo → Bytes → Result A)
    → Argument
    → Argument
    → Argument
    → Method
    → Bytes
    → NetInfo
    → Result A
register_rmi virtual_send_answer t1 t2 t3 method text net_info = do
  vs ← read_data (shapes (t1 ∷ t2 ∷ t3 ∷ [])) text
  let (retval, v1, v2, v3) = method vs in
      virtual_send_answer net_info
        (serialise_answer retval (with_value t1 v1) (with_value t2 v2) (with_value t3 v3))
