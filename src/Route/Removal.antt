-- ===== src/Route/Removal.antt =====
-- Removing a route that was added.
use protura.Base.{
  ℕ, ◌≡◌, refl, ap, Bool, true, Option, none, some, List, [], ◌∷◌, ◌++◌, arith, Bool-cases,
  Option-cases, inl, inr,
}
use protura.Base.Errno.{Status, ok, err, enodev}
use protura.Route.{
  Route, Table, take_route, ip_route_add, ip_route_del, netmask_count, same_net, set_at, netdev_put,
}

take_route-append :
    (netmask dest_ip : ℕ) (xs : List Route) (r : Route)
    → take_route netmask dest_ip xs ≡ none
    → same_net netmask r.dest_ip dest_ip ≡ true
    → take_route netmask dest_ip (xs ++ (r ∷ [])) ≡ some (r, xs)
unfolding take_route
take_route-append netmask dest_ip [] r h same = rw same refl
take_route-append netmask dest_ip (x ∷ xs) r h same =
    elim (Bool-cases (same_net netmask x.dest_ip dest_ip)) [
      | inl here ↦ absurd (ground arith)
      | inr there ↦ elim (Option-cases (take_route netmask dest_ip xs)) [
        | inl e ↦ rw (there, take_route-append netmask dest_ip xs r e same) refl
        | inr (p, e) ↦ absurd (ground arith)
      ]
    ]

same_net_self : (netmask dest_ip : ℕ) → same_net netmask dest_ip dest_ip ≡ true
unfolding same_net
same_net_self netmask dest_ip = ground arith

del_found :
    (dest_ip netmask : ℕ) (t : Table) (r : Route) (left : List Route)
    → take_route netmask dest_ip (t.zones (netmask_count netmask)) ≡ some (r, left)
    → ip_route_del dest_ip netmask t
      ≡ (ok, netdev_put r.iface (record t { zones = set_at t.zones (netmask_count netmask) left }))
unfolding ip_route_del
del_found dest_ip netmask t r left e =
    let count = netmask_count netmask in
    ap
      (λ (o : Option (Route × List Route)). elim o as (λ x. Status × Table) [
        | none ↦ (err enodev, t)
        | some p ↦ (ok, netdev_put p.0.iface (record t { zones = set_at t.zones count p.1 }))
      ])
      e

-- If no route of the netmask's length was in the net, a route that is added to it is removed by a
-- deletion for its address and netmask, which succeeds and leaves the routes and the references as
-- they were.
pub ip_route_del-ip_route_add :
    (dest_ip gateway_ip netmask iface : ℕ) (flags : Bool) (t : Table)
    → take_route netmask dest_ip (t.zones (netmask_count netmask)) ≡ none
    → let (r, t') =
        ip_route_del dest_ip netmask (ip_route_add dest_ip gateway_ip netmask iface flags t) in
      (r ≡ ok) × ((i : ℕ) → t'.zones i ≡ t.zones i) × ((i : ℕ) → t'.refs i ≡ t.refs i)
unfolding ip_route_add set_at
ip_route_del-ip_route_add dest_ip gateway_ip netmask iface flags t h =
    let count = netmask_count netmask in
    let route : Route = record {
      dest_ip = dest_ip;
      gateway_ip = gateway_ip;
      iface = iface;
      gateway = flags;
    } in
    let added = ip_route_add dest_ip gateway_ip netmask iface flags t in
    let there : added.zones count ≡ t.zones count ++ (route ∷ []) = ground arith in
    let taken =
      take_route-append netmask dest_ip (t.zones count) route h (same_net_self netmask dest_ip) in
    let found = del_found dest_ip netmask added route (t.zones count) (rw there taken) in
    rw found (refl, λ i. ground arith, λ i. ground arith)
