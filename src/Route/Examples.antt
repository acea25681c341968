-- ===== src/Route/Examples.antt =====
-- A table with a network of 24 bits and a default route, and the theorems at it.
use protura.Base.{
  ℕ, ◌+◌, ◌-◌, ◌^◌, ◌≡◌, ◌⊎◌, refl, Bool, true, false, Option, none, some, [], if◌then◌else◌,
}
use protura.Route.{
  Route, Table, Entry, ip_route_add, ip_route_get, ip_route_get_ip, ip_route_clear, netmask_count,
  netmask_create, find_first_set, set_at, find_route, find_in_zone, matches, same_net, take_route,
}
use protura.Route.Best.{IsBest, NoRoute, ip_route_get_longest}

abbrev all_up : ℕ → Bool
all_up i = true

abbrev empty_table : Table
empty_table = record { zones = λ i. []; refs = λ i. 1 }

-- 192.168.1.0/24 on interface 1, and everything else by 192.168.1.254 on it.
abbrev two_routes : Table
two_routes =
    ip_route_add 3232235776 0 (2 ^ 32 - 256) 1 false
      (ip_route_add 0 3232236030 0 1 true empty_table)

next_hop : ℕ → Option ℕ
next_hop dest = elim (ip_route_get all_up dest two_routes).0 [
  | none ↦ none
  | some e ↦ some (ip_route_get_ip e)
]

-- 192.168.1.7 is reached directly, 8.8.8.8 by the gateway.
local_hop : next_hop 3232235783 ≡ some 3232235783
unfolding next_hop ip_route_get ip_route_get_ip ip_route_add find_route find_in_zone matches
    same_net netmask_count netmask_create find_first_set set_at
local_hop = refl

far_hop : next_hop 134744072 ≡ some 3232236030
unfolding next_hop ip_route_get ip_route_get_ip ip_route_add find_route find_in_zone matches
    same_net netmask_count netmask_create find_first_set set_at
far_hop = refl

ip_route_get_longest_example :
    let (r, t') = ip_route_get all_up 134744072 two_routes in
    ((r ≡ none) × (t' ≡ two_routes) × NoRoute all_up 134744072 32 two_routes)
    ⊎ ((best : Route) × (ent : Entry) × IsBest all_up 134744072 32 two_routes best
        × (r ≡ some ent)
        × (ip_route_get_ip ent ≡ (if best.gateway then best.gateway_ip else 134744072))
        × (ent.iface ≡ some best.iface)
        × (t'.zones ≡ two_routes.zones)
        × (t'.refs best.iface ≡ two_routes.refs best.iface + 1)
        × ((i : ℕ) → (ip_route_clear ent t').1.refs i ≡ two_routes.refs i))
ip_route_get_longest_example = ip_route_get_longest all_up 134744072 two_routes

eight_bits_free :
    take_route (2 ^ 32 - 2 ^ 24) 2130706432 (two_routes.zones (netmask_count (2 ^ 32 - 2 ^ 24)))
    ≡ none
unfolding take_route ip_route_add netmask_count find_first_set set_at
eight_bits_free = refl
