-- ===== src/Net/Clients.antt =====
-- The identities of the clients of a server.
use mathlib.Core.List.{List}
use netframework.Base.{
  ℕ, suc, ◌+◌, ◌^◌, ◌≤◌, ltb, Bool, true, false, Bool-cases, some, [], ◌∷◌, ◌++◌, ◌==◌,
  if◌then◌else◌, ok, err, undefined, ◌≡◌, ◌∙◌, ap, sym, subst, inl, inr, arith,
}
use netframework.Net.{
  Entry, Impl, Request, start_session, accept_next, new_impl, erase, client_session_destroyed,
  handle_accept, find_client,
}

-- The identities in the list rise, from `least` on, and are below `bound`.
unfoldable pub Rising : ℕ → List Entry → ℕ → Type 0
Rising least [] bound = least ≤ bound
Rising least (entry ∷ entries) bound =
    (least ≤ entry.client_id) × Rising (suc entry.client_id) entries bound

Rising-weaken :
    (least less : ℕ) (entries : List Entry) (bound : ℕ)
    → less ≤ least
    → Rising least entries bound
    → Rising less entries bound
unfolding Rising
Rising-weaken least less [] bound le rising = omega (arith, rising)
Rising-weaken least less (entry ∷ entries) bound le rising = (omega (arith, rising.0), rising.1)

erase-Rising :
    (pointer least : ℕ) (entries : List Entry) (bound : ℕ)
    → Rising least entries bound
    → Rising least (erase pointer entries) bound
unfolding erase Rising
erase-Rising pointer least [] bound rising = rising
erase-Rising pointer least (entry ∷ entries) bound rising =
    elim (Bool-cases (entry.pointer == pointer)) [
      | inl found ↦
          subst
            (λ flag. Rising least (if flag then entries else entry ∷ erase pointer entries) bound)
            (sym found)
            (Rising-weaken (suc entry.client_id) least entries bound (omega (arith, rising.0))
              rising.1)
      | inr other ↦
          subst
            (λ flag. Rising least (if flag then entries else entry ∷ erase pointer entries) bound)
            (sym other)
            (rising.0, erase-Rising pointer (suc entry.client_id) entries bound rising.1)
    ]

append-Rising :
    (least : ℕ) (entries : List Entry) (bound pointer : ℕ)
    → Rising least entries bound
    → Rising least (entries ++ (record { pointer = pointer; client_id = bound } ∷ [])) (bound + 1)
unfolding Rising
append-Rising least [] bound pointer rising = (rising, omega arith)
append-Rising least (entry ∷ entries) bound pointer rising =
    (rising.0, append-Rising (suc entry.client_id) entries bound pointer rising.1)

-- The runs of a server: sessions that are accepted or fail, and sessions that end.
pub data Runs : Impl → Type 0 where
  constructed : Runs new_impl
  accepted :
      {impl impl' : Impl} {requests : List Request} (pointer : ℕ) (error : Bool)
      → Runs impl
      → handle_accept pointer error impl ≡ ok (impl', requests)
      → Runs impl'
  destroyed : {impl : Impl} (pointer : ℕ) → Runs impl → Runs (client_session_destroyed pointer impl)

-- What `handle_accept` returns where the counter can be raised.
abbrev accept_entry : ℕ → Impl → Impl
accept_entry pointer impl = record {
  sessions = impl.sessions ++ (record { pointer = pointer; client_id = impl.next_id } ∷ []);
  next_id = impl.next_id + 1;
}

abbrev accept_requests : ℕ → List Request
accept_requests pointer = start_session pointer ∷ accept_next ∷ []

handle_accept-Rising :
    (pointer : ℕ) (error : Bool) (impl impl' : Impl) (requests : List Request)
    → handle_accept pointer error impl ≡ ok (impl', requests)
    → Rising 0 impl.sessions impl.next_id
    → Rising 0 impl'.sessions impl'.next_id
unfolding handle_accept
handle_accept-Rising pointer true impl impl' requests e rising =
    let same : impl ≡ impl' = cc e in subst (λ i. Rising 0 i.sessions i.next_id) same rising
handle_accept-Rising pointer false impl impl' requests e rising =
    elim (Bool-cases (ltb (impl.next_id + 1) (2 ^ 31))) [
      | inl fits ↦
          let made =
            sym (
              ap
                (λ flag.
                  if flag
                  then ok (accept_entry pointer impl, accept_requests pointer)
                  else err undefined)
                fits)
            ∙ e in
          let same : accept_entry pointer impl ≡ impl' = cc made in
          subst (λ i. Rising 0 i.sessions i.next_id) same
            (append-Rising 0 impl.sessions impl.next_id pointer rising)
      | inr full ↦
          let made =
            sym (
              ap
                (λ flag.
                  if flag
                  then ok (accept_entry pointer impl, accept_requests pointer)
                  else err undefined)
                full)
            ∙ e in
          absurd (cc made)
    ]

Runs-Rising : (impl : Impl) → Runs impl → Rising 0 impl.sessions impl.next_id
unfolding client_session_destroyed Rising
Runs-Rising impl constructed = omega arith
Runs-Rising impl
      (accepted {impl = before} {impl' = after} {requests = requests} pointer error run e) =
    handle_accept-Rising pointer error before after requests e (Runs-Rising before run)
Runs-Rising impl (destroyed {impl = before} pointer run) =
    erase-Rising pointer 0 before.sessions before.next_id (Runs-Rising before run)

find_client-member :
    (least : ℕ) (front : List Entry) (entry : Entry) (back : List Entry) (bound : ℕ)
    → Rising least (front ++ (entry ∷ back)) bound
    → (find_client entry.client_id (front ++ (entry ∷ back)) ≡ some entry.pointer)
      × (least ≤ entry.client_id)
unfolding find_client Rising
find_client-member least [] entry back bound rising =
    let own : (entry.client_id == entry.client_id) ≡ true = ground arith in
    (
      ap (λ flag. if flag then some entry.pointer else find_client entry.client_id back) own,
      rising.0,
    )
find_client-member least (other ∷ front) entry back bound rising =
    let (found, above) = find_client-member (suc other.client_id) front entry back bound rising.1 in
    let differs : (other.client_id == entry.client_id) ≡ false = ground (arith, above) in
    (
      ap
            (λ flag.
              if flag
              then some other.pointer
              else find_client entry.client_id (front ++ (entry ∷ back)))
            differs
          ∙ found,
      omega (arith, above, rising.0),
    )

-- In every run of a server, as long as the counter does not overflow, the callback that sends to a
-- client finds the session of that client: no two sessions of the list have one identity, also after
-- sessions in between have ended.
pub find_client-session :
    (front : List Entry) (entry : Entry) (back : List Entry) (impl : Impl)
    → Runs impl
    → impl.sessions ≡ front ++ (entry ∷ back)
    → find_client entry.client_id impl.sessions ≡ some entry.pointer
find_client-session front entry back impl run split =
    ap (find_client entry.client_id) split
    ∙ (find_client-member 0 front entry back impl.next_id
        (subst (λ entries. Rising 0 entries impl.next_id) split (Runs-Rising impl run))).0
