-- ===== src/Net/Examples.antt =====
-- Three clients come, and the second one goes.
use netframework.Base.{false, some, [], ◌∷◌, ◌≡◌, refl}
use netframework.Net.{Entry, Impl, erase, client_session_destroyed, handle_accept, find_client}
use netframework.Net.Clients.{Runs, constructed, accepted, destroyed, find_client-session}

abbrev one : Impl
one = record { sessions = record { pointer = 40; client_id = 0 } ∷ []; next_id = 1 }

abbrev last_entry : Entry
last_entry = record { pointer = 60; client_id = 2 }

abbrev three : Impl
three = record {
  sessions =
      record { pointer = 40; client_id = 0 }
      ∷ record { pointer = 50; client_id = 1 }
      ∷ last_entry
      ∷ [];
  next_id = 3;
}

left-Runs : Runs (client_session_destroyed 50 three)
unfolding handle_accept
left-Runs =
    destroyed 50
      (accepted 60 false (accepted 50 false (accepted 40 false constructed refl) refl) refl)

find_client-session_example : find_client 2 (client_session_destroyed 50 three).sessions ≡ some 60
unfolding client_session_destroyed erase
find_client-session_example =
    find_client-session (record { pointer = 40; client_id = 0 } ∷ []) last_entry []
      (client_session_destroyed 50 three) left-Runs refl
