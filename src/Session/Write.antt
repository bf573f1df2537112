-- ===== src/Session/Write.antt =====
-- The output side of a session: `sendData` and `handleWrite`, which `async_write` calls on completion.
use mathlib.Core.List.{flatten}
use netframework.Base.{
  ℕ, zero, suc, ◌≡◌, ◌≢◌, refl, ap, All, false, List, [], ◌∷◌, ◌++◌, append-nil, append_assoc,
  Bytes,
}
use netframework.Session.{
  Session, Action, write, Outcome, handle_write, send_to, send_data, write_processing,
}

-- Calls of `sendData` with no completion between them, and what they ask for.
unfoldable pub send_all : Session → List Bytes → Outcome
send_all s [] = (s, [])
send_all s (b ∷ bs) =
    let (s', now) = send_data s b in let (s'', later) = send_all s' bs in (s'', now ++ later)

send_to_writing : (p : Bytes) (s : Session) → p ≢ [] → send_to p s ≡ (s, [])
unfolding send_to
send_to_writing [] s ne = absurd (ne refl)
send_to_writing (_ ∷ _) s ne = refl

write_processing_some :
    (s : Session) (bs : Bytes) → bs ≢ [] → write_processing s bs ≡ (s, write bs ∷ [])
unfolding write_processing
write_processing_some s [] ne = absurd (ne refl)
write_processing_some s (b ∷ bs) ne = refl

-- While a write is in progress `sendData` only appends.
pub send_data_writing :
    (s : Session) (b : Bytes)
    → s.out_buffer_processing ≢ []
    → send_data s b ≡ (record s { out_buffer = s.out_buffer ++ b }, [])
unfolding send_data
send_data_writing s b ne = send_to_writing s.out_buffer_processing _ ne

-- With no write in progress it starts one, of all that is in the buffer.
pub send_data_idle :
    (s : Session) (b : Bytes)
    → s.out_buffer_processing ≡ []
    → s.out_buffer ++ b ≢ []
    → send_data s b ≡ (
      record s { out_buffer = []; out_buffer_processing = s.out_buffer ++ b },
      write (s.out_buffer ++ b) ∷ [],
    )
unfolding send_data
send_data_idle s b idle ne =
    rw (idle, send_to) (unfold handle_write in write_processing_some _ _ ne)

send_all_writing :
    (bs : List Bytes) (s : Session)
    → s.out_buffer_processing ≢ []
    → send_all s bs ≡ (record s { out_buffer = s.out_buffer ++ flatten bs }, [])
unfolding send_all flatten
send_all_writing [] s ne = rw append-nil
send_all_writing (b ∷ bs) s ne =
    rw
      (
        send_data_writing s b ne,
        send_all_writing bs (record s { out_buffer = s.out_buffer ++ b }) ne,
      )
      (rw append_assoc)

-- From a session with empty buffers: the first message is written at once, those that are sent
-- while that write runs ask for nothing, and its completion writes them all together, in order.
pub send_all-burst :
    (s : Session) (b : Bytes) (bs : List Bytes)
    → s.out_buffer ≡ []
    → s.out_buffer_processing ≡ []
    → b ≢ []
    → flatten bs ≢ []
    → ((send_all s (b ∷ bs)).1 ≡ write b ∷ [])
      × ((handle_write (send_all s (b ∷ bs)).0 false).1 ≡ write (flatten bs) ∷ [])
unfolding send_all
send_all-burst s b bs empty idle ne more =
    let writing : Session = record s {
      out_buffer = [];
      out_buffer_processing = s.out_buffer ++ b;
    } in
    rw (send_data_idle s b idle (rw empty ne), send_all_writing bs writing (rw empty ne), empty)
      (
        refl,
        unfold handle_write in
            ap (λ (o : Outcome). o.1)
              (write_processing_some
                (record s { out_buffer = b; out_buffer_processing = flatten bs }) (flatten bs)
                more),
      )

-- What one `sendData` and the completion of its write leave: the bytes just written are back in
-- the buffer for the next write.
pub send_complete :
    (s : Session) (b : Bytes)
    → s.out_buffer_processing ≡ []
    → s.out_buffer ++ b ≢ []
    → handle_write (send_data s b).0 false
      ≡ (record s { out_buffer = s.out_buffer ++ b; out_buffer_processing = [] }, [])
unfolding handle_write write_processing
send_complete s b idle ne = rw (send_data_idle s b idle ne)

-- Messages of which each is sent after the write before it has completed.
unfoldable pub send_each : Session → List Bytes → List Action
send_each s [] = []
send_each s (b ∷ bs) =
    let (s', now) = send_data s b in
    let (s'', next) = handle_write s' false in now ++ (next ++ send_each s'' bs)

abbrev pub writes_after : Bytes → List Bytes → List Action
writes_after sent [] = []
writes_after sent (b ∷ bs) = write (sent ++ b) ∷ writes_after (sent ++ b) bs

append-ne-nil : (a b : Bytes) → b ≢ [] → a ++ b ≢ []
append-ne-nil [] b ne = ne
append-ne-nil (x ∷ a) b ne = λ e. cc

-- Messages that are sent one after the other are written with all the messages before them: the
-- n-th write carries the first n messages.
pub send_each-resends :
    (bs : List Bytes) (s : Session)
    → s.out_buffer_processing ≡ []
    → All (λ b. b ≢ []) bs
    → send_each s bs ≡ writes_after s.out_buffer bs
unfolding send_each
send_each-resends [] s idle all = refl
send_each-resends (b ∷ bs) s idle all =
    let some_bytes = append-ne-nil s.out_buffer b all.0 in
    let sent = record s { out_buffer = s.out_buffer ++ b; out_buffer_processing = [] } in
    rw (send_complete s b idle some_bytes, send_data_idle s b idle some_bytes)
      (ap (◌∷◌ (write (s.out_buffer ++ b))) (send_each-resends bs sent refl all.1))

unfoldable pub completions : ℕ → Session → Session
completions zero s = s
completions (suc n) s = (handle_write (completions n s) false).0

abbrev IsBusy : Session → Type 0
IsBusy s = (s.out_buffer ≢ []) × (s.out_buffer_processing ≢ [])

handle_write_busy :
    (s : Session)
    → IsBusy s
    → handle_write s false ≡ (
      record s { out_buffer = s.out_buffer_processing; out_buffer_processing = s.out_buffer },
      write s.out_buffer ∷ [],
    )
unfolding handle_write
handle_write_busy s busy = write_processing_some _ s.out_buffer busy.0

handle_write-IsBusy : (s : Session) → IsBusy s → IsBusy (handle_write s false).0
handle_write-IsBusy s busy = rw (handle_write_busy s busy) (busy.1, busy.0)

completions-IsBusy : (n : ℕ) (s : Session) → IsBusy s → IsBusy (completions n s)
unfolding completions
completions-IsBusy zero s busy = busy
completions-IsBusy (suc n) s busy =
    handle_write-IsBusy (completions n s) (completions-IsBusy n s busy)

-- A message that is sent while a write runs leaves the session writing for ever: after any number
-- of completions the next one starts one more write.
pub handle_write-forever :
    (n : ℕ) (s : Session)
    → s.out_buffer ≢ []
    → s.out_buffer_processing ≢ []
    → (bs : Bytes) × (bs ≢ []) × ((handle_write (completions n s) false).1 ≡ write bs ∷ [])
handle_write-forever n s out proc =
    let busy = completions-IsBusy n s (out, proc) in
    (
      (completions n s).out_buffer,
      busy.0,
      ap (λ (o : Outcome). o.1) (handle_write_busy (completions n s) busy),
    )
