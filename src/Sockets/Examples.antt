-- ===== src/Sockets/Examples.antt =====
-- A host with three addresses, of which the second refuses.
use netframework.Base.{true, [], ◌∷◌, Bytes, codes, pos, negsuc, ◌≡◌, refl}
use netframework.Sockets.{AddrInfo, Attempt, could_not_connect, connected_to, addr_string, connect}
use netframework.Sockets.Connect.{connect-Fails}

abbrev host : Bytes → AddrInfo
host text = record { ai_family = 2; sin_addr = text; sin6_addr = [] }

-- `inet_ntop` that gives the address as it is; `AF_INET` is 2.
abbrev show : AddrInfo → Bytes
show ptr = addr_string (λ family address. address) 2 ptr

abbrev first : Attempt
first = record { address = host (codes "a"); socket_result = pos 3; connect_result = pos 0 }

abbrev second : Attempt
second = record { address = host (codes "b"); socket_result = pos 4; connect_result = negsuc 0 }

abbrev third : Attempt
third = record { address = host (codes "c"); socket_result = pos 5; connect_result = pos 0 }

connect-Fails_example : connect show (pos 0) (first ∷ second ∷ third ∷ []) ≡ record {
  result = true;
  connect_socket = pos 4;
  opened = pos 3 ∷ pos 4 ∷ [];
  printed = could_not_connect (codes "a") ∷ connected_to (codes "b") ∷ [];
}
unfolding addr_string
connect-Fails_example =
    connect-Fails show (first ∷ []) second (third ∷ []) ((refl, refl), tt) (refl, refl)
