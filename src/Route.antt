-- ===== src/Route.antt =====
-- src/net/ipv4/ip_route.c: the forwarding table, under its mutex. Addresses and masks are numbers in
-- host order; an interface is a number, and the caller says which ones are up.
pub mod Masks
pub mod Best
pub mod Removal
mod Examples
use Prim.Native.Nat.{bit_and}
use protura.Base.{
  ℕ, zero, suc, ◌+◌, ◌-◌, ◌^◌, ◌/◌, ◌%◌, ◌==◌, ◌&&◌, Bool, true, false, Option, none, some, List,
  [], ◌∷◌, ◌++◌, if◌then◌else◌,
}
use protura.Base.Errno.{Status, ok, err, enodev, eacces}

-- `struct ip_forward_route`, whose flags are read for IP_ROUTE_GATEWAY.
pub record Route : Type 0 where
  pub dest_ip : ℕ
  pub gateway_ip : ℕ
  pub iface : ℕ
  pub gateway : Bool

-- `struct ip_forward_table`, and the references that are held on each interface.
pub record Table : Type 0 where
  pub zones : ℕ → List Route
  pub refs : ℕ → ℕ

-- `struct ip_route_entry`
pub record Entry : Type 0 where
  pub gateway : Bool
  pub dest_ip : ℕ
  pub gateway_ip : ℕ
  pub iface : Option ℕ

-- `bit32_find_first_set` of a nonzero word, on the number of bits that are left.
unfoldable pub find_first_set : ℕ → ℕ → ℕ
find_first_set zero v = 0
find_first_set (suc bits) v =
    let rest = find_first_set bits (v / 2) in if v % 2 == 1 then 0 else suc rest

unfoldable pub netmask_count : ℕ → ℕ
netmask_count mask = if mask == 0 then 0 else 32 - find_first_set 32 mask

-- `~((1 << (32 - count)) - 1)` on 32 bits
unfoldable pub netmask_create : ℕ → ℕ
netmask_create count = if count == 0 then 0 else 2 ^ 32 - 2 ^ (32 - count)

-- `n32_equal` of the two addresses behind `in_addr_mask`
unfoldable pub same_net : ℕ → ℕ → ℕ → Bool
same_net mask a b = bit_and a mask == bit_and b mask

unfoldable pub set_at {ℓ} : {A : Type ℓ} → (ℕ → A) → ℕ → A → ℕ → A
set_at f i v j = if i == j then v else f j

abbrev pub netdev_dup : ℕ → Table → Table
netdev_dup iface t = record t { refs = set_at t.refs iface (t.refs iface + 1) }

abbrev pub netdev_put : ℕ → Table → Table
netdev_put iface t = record t { refs = set_at t.refs iface (t.refs iface - 1) }

unfoldable pub ip_route_add : ℕ → ℕ → ℕ → ℕ → Bool → Table → Table
ip_route_add dest_ip gateway_ip netmask iface flags t =
    let route : Route = record {
      dest_ip = dest_ip;
      gateway_ip = gateway_ip;
      iface = iface;
      gateway = flags;
    } in
    let count = netmask_count netmask in
    let t = netdev_dup iface t in
    record t { zones = set_at t.zones count (t.zones count ++ (route ∷ [])) }

-- The first route of a zone in the net, and the zone without it.
unfoldable pub take_route : ℕ → ℕ → List Route → Option (Route × List Route)
take_route netmask dest_ip [] = none
take_route netmask dest_ip (entry ∷ rest) =
    let later = take_route netmask dest_ip rest in
    if same_net netmask entry.dest_ip dest_ip
    then some (entry, rest)
    else elim later [ none ↦ none | some (r, left) ↦ some (r, entry ∷ left) ]

unfoldable pub ip_route_del : ℕ → ℕ → Table → Status × Table
ip_route_del dest_ip netmask t =
    let count = netmask_count netmask in
    elim (take_route netmask dest_ip (t.zones count)) [
      | none ↦ (err enodev, t)
      | some (r, left) ↦ (ok, netdev_put r.iface (record t { zones = set_at t.zones count left }))
    ]

unfoldable pub matches : (ℕ → Bool) → ℕ → ℕ → Route → Bool
matches up dest_ip i r = up r.iface && same_net (netmask_create i) r.dest_ip dest_ip

unfoldable pub find_in_zone : (ℕ → Bool) → ℕ → ℕ → List Route → Option Route
find_in_zone up dest_ip i [] = none
find_in_zone up dest_ip i (r ∷ rest) =
    if matches up dest_ip i r then some r else find_in_zone up dest_ip i rest

-- The loop over the zones, from number `i` down to 0.
unfoldable pub find_route : (ℕ → Bool) → ℕ → ℕ → Table → Option Route
find_route up dest_ip zero t = find_in_zone up dest_ip 0 (t.zones 0)
find_route up dest_ip (suc i) t =
    let next = find_route up dest_ip i t in
    elim (find_in_zone up dest_ip (suc i) (t.zones (suc i))) [ none ↦ next | some r ↦ some r ]

-- `none` is -EACCES.
unfoldable pub ip_route_get : (ℕ → Bool) → ℕ → Table → Option Entry × Table
ip_route_get up dest_ip t = elim (find_route up dest_ip 32 t) [
  | none ↦ (none, t)
  | some r ↦ (
    some (record {
      gateway = r.gateway;
      dest_ip = dest_ip;
      gateway_ip = r.gateway_ip;
      iface = some r.iface;
    }),
    netdev_dup r.iface t,
  )
]

unfoldable pub ip_route_get_ip : Entry → ℕ
ip_route_get_ip ent = if ent.gateway then ent.gateway_ip else ent.dest_ip

unfoldable pub ip_route_clear : Entry → Table → Entry × Table
ip_route_clear entry t =
    (record entry { iface = none }, elim entry.iface [ none ↦ t | some i ↦ netdev_put i t ])
