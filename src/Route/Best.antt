-- ===== src/Route/Best.antt =====
-- The lookup takes the longest matching prefix.
use protura.Base.{
  ℕ, zero, suc, ◌+◌, ◌<◌, ◌≤◌, ◌≡◌, ◌⊎◌, inl, inr, refl, ap, ◌∙◌, ℕ_discrete, Bool, true, false,
  Option, none, some, List, [], ◌∷◌, ◌++◌, All, arith, Bool-cases, if◌then◌else◌,
}
use protura.Route.{
  Route, Table, Entry, matches, find_in_zone, find_route, ip_route_get, netdev_dup, ip_route_get_ip,
  ip_route_clear, set_at,
}

-- No route of the list is up and in the net.
abbrev pub NoMatch : (ℕ → Bool) → ℕ → ℕ → List Route → Type 0
NoMatch up dest_ip i = All (λ r. matches up dest_ip i r ≡ false)

-- The first matching route of the list.
pub record IsFirst (up : ℕ → Bool) (dest_ip i : ℕ) (routes : List Route) (r : Route) : Type 0 where
  pub before : List Route
  pub after : List Route
  pub parts : routes ≡ before ++ (r ∷ after)
  pub earlier : NoMatch up dest_ip i before
  pub this : matches up dest_ip i r ≡ true

find_in_zone_lem :
    (up : ℕ → Bool) (dest_ip i : ℕ) (routes : List Route)
    → ((find_in_zone up dest_ip i routes ≡ none) × NoMatch up dest_ip i routes)
      ⊎ ((r : Route) × (find_in_zone up dest_ip i routes ≡ some r) × IsFirst up dest_ip i routes r)
unfolding find_in_zone
find_in_zone_lem up dest_ip i [] = inl (refl, tt)
find_in_zone_lem up dest_ip i (x ∷ xs) = elim (Bool-cases (matches up dest_ip i x)) [
  | inl yes' ↦
      rw yes'
        (inr (x, refl, record { before = []; after = xs; parts = refl; earlier = tt; this = yes' }))
  | inr no' ↦ elim (find_in_zone_lem up dest_ip i xs) [
    | inl (e, others) ↦ rw (no', e) (inl (refl, (refl, others)))
    | inr (r, e, first) ↦
        rw (no', e)
          (inr (
            r,
            refl,
            record {
              before = x ∷ first.before;
              after = first.after;
              parts = ap (λ t. x ∷ t) first.parts;
              earlier = (no', first.earlier);
              this = first.this;
            },
          ))
  ]
]

-- The best route: the first match of zone `i`, with no match in a zone of a longer mask up to `top`.
pub record IsBest (up : ℕ → Bool) (dest_ip top : ℕ) (t : Table) (r : Route) : Type 0 where
  pub zone : ℕ
  pub bound : zone ≤ top
  pub first : IsFirst up dest_ip zone (t.zones zone) r
  pub longer : (j : ℕ) → zone < j → j ≤ top → NoMatch up dest_ip j (t.zones j)

abbrev pub NoRoute : (ℕ → Bool) → ℕ → ℕ → Table → Type 0
NoRoute up dest_ip top t = (j : ℕ) → j ≤ top → NoMatch up dest_ip j (t.zones j)

le-zero : (j : ℕ) → j ≤ 0 → j ≡ 0
le-zero j h = omega arith

-- From all numbers up to `i` and the next one.
up_to_next :
    (P : ℕ → Type 0) (i : ℕ) → ((j : ℕ) → j ≤ i → P j) → P (suc i) → (j : ℕ) → j ≤ suc i → P j
up_to_next P i low top j h = elim (ℕ_discrete j (suc i)) [
  | yes e ↦ rw e top
  | no other ↦ low j (omega arith)
]

module _ (up : ℕ → Bool) (dest_ip i : ℕ) (t : Table) where
  found_here :
      (r : Route)
      → find_in_zone up dest_ip (suc i) (t.zones (suc i)) ≡ some r
      → find_route up dest_ip (suc i) t ≡ some r
  unfolding find_route
  found_here r e =
      ap
        (λ (o : Option Route). elim o as (λ x. Option Route) [
          | none ↦ find_route up dest_ip i t
          | some r' ↦ some r'
        ])
        e

  found_next :
      find_in_zone up dest_ip (suc i) (t.zones (suc i)) ≡ none
      → find_route up dest_ip (suc i) t ≡ find_route up dest_ip i t
  unfolding find_route
  found_next e =
      ap
        (λ (o : Option Route). elim o as (λ x. Option Route) [
          | none ↦ find_route up dest_ip i t
          | some r' ↦ some r'
        ])
        e

find_route_zero :
    (up : ℕ → Bool) (dest_ip : ℕ) (t : Table)
    → find_route up dest_ip 0 t ≡ find_in_zone up dest_ip 0 (t.zones 0)
unfolding find_route
find_route_zero up dest_ip t = refl

find_route_lem :
    (up : ℕ → Bool) (dest_ip top : ℕ) (t : Table)
    → ((find_route up dest_ip top t ≡ none) × NoRoute up dest_ip top t)
      ⊎ ((r : Route) × (find_route up dest_ip top t ≡ some r) × IsBest up dest_ip top t r)
find_route_lem up dest_ip zero t = elim (find_in_zone_lem up dest_ip 0 (t.zones 0)) [
  | inl (e, others) ↦ inl (find_route_zero up dest_ip t ∙ e, λ j h. rw (le-zero j h) others)
  | inr (r, e, first) ↦ inr (
    r,
    find_route_zero up dest_ip t ∙ e,
    record {
      zone = 0;
      bound = omega arith;
      first = first;
      longer = λ j low high. absurd (omega arith);
    },
  )
]
find_route_lem up dest_ip (suc i) t =
    let P : ℕ → Type 0 = λ j. NoMatch up dest_ip j (t.zones j) in
    elim (find_in_zone_lem up dest_ip (suc i) (t.zones (suc i))) [
      | inr (r, e, first) ↦
          (inr (
            r,
            found_here up dest_ip i t r e,
            record {
              zone = suc i;
              bound = omega arith;
              first = first;
              longer = λ j low high. absurd (omega arith);
            },
          ))
      | inl (e, others) ↦ elim (find_route_lem up dest_ip i t) [
        | inl (e', none') ↦ (inl (found_next up dest_ip i t e ∙ e', up_to_next P i none' others))
        | inr (r, e', best) ↦
            (inr (
              r,
              found_next up dest_ip i t e ∙ e',
              record {
                zone = best.zone;
                bound = omega (arith, best.bound);
                first = best.first;
                longer = λ j low high.
                    up_to_next (λ k. best.zone < k → P k) i (λ k h l. best.longer k l h)
                      (λ l. others) j high low;
              },
            ))
      ]
    ]

abbrev pub entry_of : ℕ → Route → Entry
entry_of dest_ip r = record {
  gateway = r.gateway;
  dest_ip = dest_ip;
  gateway_ip = r.gateway_ip;
  iface = some r.iface;
}

get_found :
    (up : ℕ → Bool) (dest_ip : ℕ) (t : Table) (o : Option Route)
    → find_route up dest_ip 32 t ≡ o
    → ip_route_get up dest_ip t
      ≡ elim o [ none ↦ (none, t) | some r ↦ (some (entry_of dest_ip r), netdev_dup r.iface t) ]
unfolding ip_route_get
get_found up dest_ip t o e =
    ap
      (λ (o' : Option Route). elim o' as (λ x. Option Entry × Table) [
        | none ↦ (none, t)
        | some r ↦ (some (entry_of dest_ip r), netdev_dup r.iface t)
      ])
      e

clear_back :
    (dest_ip i : ℕ) (r : Route) (t : Table)
    → (ip_route_clear (entry_of dest_ip r) (netdev_dup r.iface t)).1.refs i ≡ t.refs i
unfolding ip_route_clear set_at
clear_back dest_ip i r t = ground arith

-- A lookup finds the first up route, in the order of adding, of the longest netmask that has one for
-- the address, gives its gateway or the address itself as the next hop, and takes one reference on
-- its interface, which `ip_route_clear` gives back; or no up route of any netmask is for the address,
-- and nothing changes.
pub ip_route_get_longest :
    (up : ℕ → Bool) (dest_ip : ℕ) (t : Table)
    → let (r, t') = ip_route_get up dest_ip t in
      ((r ≡ none) × (t' ≡ t) × NoRoute up dest_ip 32 t)
      ⊎ ((best : Route) × (ent : Entry) × IsBest up dest_ip 32 t best
          × (r ≡ some ent)
          × (ip_route_get_ip ent ≡ (if best.gateway then best.gateway_ip else dest_ip))
          × (ent.iface ≡ some best.iface)
          × (t'.zones ≡ t.zones)
          × (t'.refs best.iface ≡ t.refs best.iface + 1)
          × ((i : ℕ) → (ip_route_clear ent t').1.refs i ≡ t.refs i))
unfolding ip_route_get_ip set_at
ip_route_get_longest up dest_ip t = elim (find_route_lem up dest_ip 32 t) [
  | inl (e, no_route) ↦ rw (get_found up dest_ip t none e) (inl (refl, refl, no_route))
  | inr (r, e, best) ↦ rw (get_found up dest_ip t (some r) e) (
      inr (
        r,
        entry_of dest_ip r,
        best,
        refl,
        refl,
        refl,
        refl,
        ground arith,
        λ i. clear_back dest_ip i r t,
      ))
]
