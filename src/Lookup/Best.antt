-- ===== src/Lookup/Best.antt =====
-- The lookup finds the first of the sockets that match the segment in the most fields.
use protura.Base.{
  ℕ, ◌+◌, ◌<◌, ◌≤◌, ◌≡◌, ◌⊎◌, inl, inr, ◌==◌, ◌||◌, ◌&&◌, refl, ap, ◌∙◌, Bool, true, false, Option,
  none, some, List, [], ◌∷◌, ◌++◌, All, arith, Bool-cases, leb, if◌then◌else◌,
}
use protura.Lookup.{Lookup, Sock, Family, score, test_field, find_loop, ipaf_find_socket, add_ref}

-- A field that takes the segment's value, and whether it names one.
abbrev pub takes : ℕ → ℕ → Bool
takes mine theirs = mine == 0 || mine == theirs

abbrev pub named : ℕ → ℕ
named mine = if mine == 0 then 0 else 1

-- The socket takes the segment: its protocol, and each address and port that it names.
abbrev pub accepts : Lookup → Sock → Bool
accepts addr s =
    s.proto == addr.proto
    && takes s.src_port addr.src_port
    && takes s.src_addr addr.src_addr
    && takes s.dest_port addr.dest_port
    && takes s.dest_addr addr.dest_addr

-- How many addresses and ports a socket that takes the segment names, and 0 for any other.
abbrev pub rank : Lookup → Sock → ℕ
rank addr s =
    if accepts addr s
    then named s.src_port + named s.src_addr + named s.dest_port + named s.dest_addr
    else 0

-- The score is the rank, but that a socket that takes nothing has none.
score-rank :
    (addr : Lookup) (s : Sock)
    → (score addr s ≡ some (rank addr s)) ⊎ ((score addr s ≡ none) × (rank addr s ≡ 0))
unfolding score test_field
score-rank addr s = ground arith

rank-le : (addr : Lookup) (s : Sock) → rank addr s ≤ 4
rank-le addr s = ground arith

ranks_small : (addr : Lookup) (socks : List Sock) → All (λ s. rank addr s ≤ 4) socks
ranks_small addr [] = tt
ranks_small addr (s ∷ rest) = (rank-le addr s, ranks_small addr rest)

find_cons :
    (addr : Lookup) (s : Sock) (rest : List Sock) (m : ℕ) (ret : Option Sock) (o : Option ℕ)
    → score addr s ≡ o
    → find_loop addr 4 (s ∷ rest) m ret ≡ elim o [
      | none ↦ find_loop addr 4 rest m ret
      | some n ↦
          if n == 4
          then some s
          else if leb n m
          then find_loop addr 4 rest m ret
          else find_loop addr 4 rest n (some s)
    ]
unfolding find_loop
find_cons addr s rest m ret o e =
    ap
      (λ (o' : Option ℕ). elim o' as (λ x. Option Sock) [
        | none ↦ find_loop addr 4 rest m ret
        | some n ↦
            if n == 4
            then some s
            else if leb n m
            then find_loop addr 4 rest m ret
            else find_loop addr 4 rest n (some s)
      ])
      e

find_step :
    (addr : Lookup) (s : Sock) (rest : List Sock) (m : ℕ) (ret : Option Sock)
    → find_loop addr 4 (s ∷ rest) m ret ≡ (
        if rank addr s == 4
        then some s
        else if leb (rank addr s) m
        then find_loop addr 4 rest m ret
        else find_loop addr 4 rest (rank addr s) (some s))
find_step addr s rest m ret = elim (score-rank addr s) [
  | inl e ↦ find_cons addr s rest m ret (some (rank addr s)) e
  | inr (e, z) ↦
      let low : leb (rank addr s) m ≡ true = ground arith in
      let other : (rank addr s == 4) ≡ false = ground arith in
      find_cons addr s rest m ret none e ∙ rw (other, low) refl
]

-- The first of the sockets of the greatest rank.
pub record IsBest (addr : Lookup) (socks : List Sock) (s : Sock) : Type 0 where
  pub before : List Sock
  pub after : List Sock
  pub parts : socks ≡ before ++ (s ∷ after)
  pub earlier : All (λ x. rank addr x < rank addr s) before
  pub later : All (λ x. rank addr x ≤ rank addr s) after

abbrev Finds : Lookup → List Sock → ℕ → Option Sock → Option Sock → Type 0
Finds addr socks m ret r =
    ((r ≡ ret) × All (λ x. rank addr x ≤ m) socks)
    ⊎ ((s : Sock) × (r ≡ some s) × (m < rank addr s) × IsBest addr socks s)

find_first :
    (addr : Lookup) (s : Sock) (rest : List Sock)
    → All (λ x. rank addr x ≤ rank addr s) rest
    → IsBest addr (s ∷ rest) s
find_first addr s rest h = record {
  before = [];
  after = rest;
  parts = refl;
  earlier = tt;
  later = h;
}

find_later :
    (addr : Lookup) (x s : Sock) (rest : List Sock)
    → rank addr x < rank addr s
    → IsBest addr rest s
    → IsBest addr (x ∷ rest) s
find_later addr x s rest h b = record {
  before = x ∷ b.before;
  after = b.after;
  parts = ap (λ t. x ∷ t) b.parts;
  earlier = (h, b.earlier);
  later = b.later;
}

find_loop-Finds :
    (addr : Lookup) (socks : List Sock) (m : ℕ) (ret : Option Sock)
    → m < 4
    → Finds addr socks m ret (find_loop addr 4 socks m ret)
unfolding find_loop
find_loop-Finds addr [] m ret h = inl (refl, tt)
find_loop-Finds addr (x ∷ xs) m ret h =
    let k = rank addr x in
    elim (Bool-cases (k == 4)) [
      | inl top ↦
          let e : k ≡ 4 = ground arith in
          inr (
            x,
            find_step addr x xs m ret ∙ rw top refl,
            omega (arith, e),
            find_first addr x xs (rw e (ranks_small addr xs)),
          )
      | inr below ↦ elim (Bool-cases (leb k m)) [
        | inl low ↦
            let step : find_loop addr 4 (x ∷ xs) m ret ≡ find_loop addr 4 xs m ret =
              find_step addr x xs m ret ∙ rw (below, low) refl in
            elim (find_loop-Finds addr xs m ret h) [
              | inl (e, all) ↦ inl (step ∙ e, (ground arith, all))
              | inr (s, e, more, best) ↦
                  inr (s, step ∙ e, more, find_later addr x s xs (ground arith) best)
            ]
        | inr high ↦
            let step : find_loop addr 4 (x ∷ xs) m ret ≡ find_loop addr 4 xs k (some x) =
              find_step addr x xs m ret ∙ rw (below, high) refl in
            let le = rank-le addr x in
            elim (find_loop-Finds addr xs k (some x) (ground (arith, le))) [
              | inl (e, all) ↦ inr (x, step ∙ e, ground arith, find_first addr x xs all)
              | inr (s, e, more, best) ↦
                  inr (s, step ∙ e, ground arith, find_later addr x s xs more best)
            ]
      ]
    ]

rank_positive : (addr : Lookup) (s : Sock) → 0 < rank addr s → accepts addr s ≡ true
rank_positive addr s h = ground arith

zero_ranks :
    (addr : Lookup) (socks : List Sock)
    → All (λ x. rank addr x ≤ 0) socks
    → All (λ x. rank addr x ≡ 0) socks
zero_ranks addr [] h = tt
zero_ranks addr (s ∷ rest) h = (omega (arith, h.0), zero_ranks addr rest h.1)

find_result :
    (addr : Lookup) (total : ℕ) (af : Family) (o : Option Sock)
    → find_loop addr total af.sockets 0 none ≡ o
    → ipaf_find_socket addr total af ≡ elim o [
      | none ↦ (none, af)
      | some s ↦ (some s, record af { refs = add_ref s.name af.refs })
    ]
unfolding ipaf_find_socket
find_result addr total af o e =
    ap
      (λ (o' : Option Sock). elim o' as (λ x. Option Sock × Family) [
        | none ↦ (none, af)
        | some s ↦ (some s, record af { refs = add_ref s.name af.refs })
      ])
      e

-- With the scores of TCP and UDP the lookup finds the first of the sockets that take the segment and
-- name the most of its addresses and ports, and takes one reference on it; or no socket that takes
-- the segment names any, and nothing changes.
pub ipaf_find_socket-IsBest :
    (addr : Lookup) (af : Family)
    → let (r, af') = ipaf_find_socket addr 4 af in
      ((r ≡ none) × (af' ≡ af) × All (λ x. rank addr x ≡ 0) af.sockets)
      ⊎ ((s : Sock) × (r ≡ some s)
          × (accepts addr s ≡ true)
          × IsBest addr af.sockets s
          × (af'.sockets ≡ af.sockets)
          × (af'.refs s.name ≡ af.refs s.name + 1))
unfolding add_ref
ipaf_find_socket-IsBest addr af = elim (find_loop-Finds addr af.sockets 0 none (omega arith)) [
  | inl (e, zero') ↦
      rw (find_result addr 4 af none e) (inl (refl, refl, zero_ranks addr af.sockets zero'))
  | inr (s, e, more, best) ↦
      rw (find_result addr 4 af (some s) e)
        (inr (s, refl, rank_positive addr s more, best, refl, ground arith))
]
