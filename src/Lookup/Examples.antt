-- ===== src/Lookup/Examples.antt =====
-- A listening socket and a connection on the same port.
use protura.Base.{◌+◌, ◌≡◌, ◌⊎◌, refl, true, none, some, [], ◌∷◌, All}
use protura.Lookup.{Lookup, Sock, Family, ipaf_find_socket, find_loop, score, test_field}
use protura.Lookup.Best.{accepts, rank, IsBest, ipaf_find_socket-IsBest}

abbrev listener : Sock
listener = record { name = 1; proto = 6; src_addr = 0; src_port = 80; dest_addr = 0; dest_port = 0 }

abbrev connection : Sock
connection = record {
  name = 2;
  proto = 6;
  src_addr = 5;
  src_port = 80;
  dest_addr = 9;
  dest_port = 4000;
}

abbrev family : Family
family = record { sockets = listener ∷ connection ∷ []; refs = λ i. 1 }

abbrev from_peer : Lookup
from_peer = record { proto = 6; src_addr = 5; src_port = 80; dest_addr = 9; dest_port = 4000 }

-- The connection's segments do not go to the listener.
connection_first : (ipaf_find_socket from_peer 4 family).0 ≡ some connection
unfolding ipaf_find_socket find_loop score test_field
connection_first = refl

ipaf_find_socket-IsBest_example :
    let (r, af') = ipaf_find_socket from_peer 4 family in
    ((r ≡ none) × (af' ≡ family) × All (λ x. rank from_peer x ≡ 0) family.sockets)
    ⊎ ((s : Sock) × (r ≡ some s)
        × (accepts from_peer s ≡ true)
        × IsBest from_peer family.sockets s
        × (af'.sockets ≡ family.sockets)
        × (af'.refs s.name ≡ family.refs s.name + 1))
ipaf_find_socket-IsBest_example = ipaf_find_socket-IsBest from_peer family
