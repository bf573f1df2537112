-- ===== src/Server/Keeping.antt =====
-- `sendData`, the callbacks that call it, and `sendDataToSocket` keep what holds of a server whenever it
-- is kept by a change of a live connection, by a request to write it, and by an event.
use mathlib.Core.List.{List}
use netframework.Base.{
  update, ℕ, All, false, Option, none, some, [], ◌∷◌, ◌==◌, Bytes, ok, Ensures, Ensures->>=,
  Ensures-any, ◌≡◌, refl, ap, arith,
}
use netframework.Server.{Connection, add_data, send_data_to_socket}
use netframework.Server.Poll.{
  Callbacks, Impl, Event, data_arrived, sent, insert, put_connection, add_event, send_data_on,
  send_data, send_all, data_callbacks, send_after, write_client,
}
use netframework.Server.Validity.{is_live, IsLive}

pub record IsKept (P : Impl → Type 0) : Type 0 where
  pub changed :
      (fd : ℕ) (conn : Connection) (s : Impl)
      → IsLive s.client_sockets fd
      → P s
      → P (put_connection fd conn s)
  pub asked :
      (fd : ℕ) (s : Impl)
      → IsLive s.client_sockets fd
      → P s
      → P (record s { writing_sockets = insert fd s.writing_sockets })
  pub noted : (event : Event) (s : Impl) → P s → P (add_event event s)

module _ (P : Impl → Type 0) (kept : IsKept P) where
  send_data_on_keeps :
      (found : Option Connection) (fd : ℕ) (bytes : Bytes) (s : Impl)
      → s.client_sockets fd ≡ found
      → P s
      → Ensures P (send_data_on found fd bytes s)
  unfolding send_data_on
  send_data_on_keeps none fd bytes s at v = tt
  send_data_on_keeps (some conn) fd bytes s at v =
      let own : IsLive (update s.client_sockets fd (some (add_data bytes conn))) fd =
        ground arith in
      kept.asked fd (put_connection fd (add_data bytes conn) s) own
        (kept.changed fd (add_data bytes conn) s (ap is_live at) v)

  pub send_data_keeps : (fd : ℕ) (bytes : Bytes) (s : Impl) → P s → Ensures P (send_data fd bytes s)
  unfolding send_data
  send_data_keeps fd bytes s v = send_data_on_keeps (s.client_sockets fd) fd bytes s refl v

  pub send_all_keeps : (calls : List (ℕ × Bytes)) (s : Impl) → P s → Ensures P (send_all calls s)
  unfolding send_all
  send_all_keeps [] s v = v
  send_all_keeps ((fd, bytes) ∷ calls) s v =
      Ensures->>= P P (send_data fd bytes s) (send_all calls) (send_data_keeps fd bytes s v)
        (send_all_keeps calls)

  pub data_callbacks_keeps :
      (callbacks : Callbacks) (fd : ℕ) (calls : List Bytes) (s : Impl)
      → P s
      → Ensures P (data_callbacks callbacks fd calls s)
  unfolding data_callbacks
  data_callbacks_keeps callbacks fd [] s v = v
  data_callbacks_keeps callbacks fd (bytes ∷ rest) s v =
      Ensures->>= P P (send_all (callbacks.data_ bytes fd) (add_event (data_arrived fd bytes) s))
        (data_callbacks callbacks fd rest)
        (send_all_keeps (callbacks.data_ bytes fd) _ (kept.noted (data_arrived fd bytes) s v))
        (data_callbacks_keeps callbacks fd rest)

  pub send_after_keeps :
      (gone : ℕ) (calls : List (ℕ × Bytes)) (s : Impl)
      → All (λ (call : ℕ × Bytes). (call.0 == gone) ≡ false) calls
      → P s
      → Ensures P (send_after gone calls s)
  unfolding send_after
  send_after_keeps gone [] s apart v = v
  send_after_keeps gone ((fd, bytes) ∷ calls) s apart v = rw apart.0 (
      Ensures->>= P P (send_data fd bytes s) (send_after gone calls) (send_data_keeps fd bytes s v)
        (λ s' v'. send_after_keeps gone calls s' apart.1 v'))

  pub write_client_keeps :
      (send : Bytes → Option ℕ) (fd : ℕ) (found : Option Connection) (s : Impl)
      → s.client_sockets fd ≡ found
      → P s
      → Ensures P (write_client send fd found s)
  unfolding write_client
  write_client_keeps send fd none s at v = v
  write_client_keeps send fd (some conn) s at v =
      Ensures->>= (λ r. Unit {0}) P (send_data_to_socket send conn)
        (λ r. ok (add_event (sent fd r.bytes) (put_connection fd r.connection s)))
        (Ensures-any (send_data_to_socket send conn))
        (λ r any. kept.noted (sent fd r.bytes) _ (kept.changed fd r.connection s (ap is_live at) v))
