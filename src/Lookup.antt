-- ===== src/Lookup.antt =====
-- src/net/ipv4/ip_socket_lookup.c: the socket that an incoming segment belongs to. The list of
-- sockets is read under the address family's mutex.
pub mod Best
mod Examples
use protura.Base.{
  ℕ, zero, suc, ◌+◌, ◌-◌, ◌==◌, ◌!=◌, ◌&&◌, leb, Bool, true, false, Option, none, some, List, [],
  ◌∷◌, ◌++◌, if◌then◌else◌,
}

-- `struct ip_lookup`: what the segment says.
pub record Lookup : Type 0 where
  pub proto : ℕ
  pub src_addr : ℕ
  pub src_port : ℕ
  pub dest_addr : ℕ
  pub dest_port : ℕ

-- A socket and its `struct ipv4_socket_private`; the name stands for the pointer.
pub record Sock : Type 0 where
  pub name : ℕ
  pub proto : ℕ
  pub src_addr : ℕ
  pub src_port : ℕ
  pub dest_addr : ℕ
  pub dest_port : ℕ

-- `struct address_family_ip`, and the references that are held on each socket.
pub record Family : Type 0 where
  pub sockets : List Sock
  pub refs : ℕ → ℕ

unfoldable pub add_ref : ℕ → (ℕ → ℕ) → ℕ → ℕ
add_ref name refs i = if i == name then refs i + 1 else refs i

unfoldable pub drop_ref : ℕ → (ℕ → ℕ) → ℕ → ℕ
drop_ref name refs i = if i == name then refs i - 1 else refs i

unfoldable pub ipaf_add_socket : Sock → Family → Family
ipaf_add_socket sock af = record {
  sockets = af.sockets ++ (sock ∷ []);
  refs = add_ref sock.name af.refs;
}

unfoldable pub list_del : ℕ → List Sock → List Sock
list_del name [] = []
list_del name (s ∷ rest) = if s.name == name then rest else s ∷ list_del name rest

unfoldable pub is_in_list : ℕ → List Sock → Bool
is_in_list name [] = false
is_in_list name (s ∷ rest) = if s.name == name then true else is_in_list name rest

unfoldable pub ipaf_remove_socket : ℕ → Family → Family
ipaf_remove_socket name af =
    if is_in_list name af.sockets
    then record { sockets = list_del name af.sockets; refs = drop_ref name af.refs }
    else af

-- One of the four tests: a zero takes anything, any other value must be the segment's.
unfoldable pub test_field : ℕ → ℕ → Option ℕ → Option ℕ
test_field mine theirs so_far = elim so_far [
  | none ↦ none
  | some n ↦ if mine == 0 then some n else if mine == theirs then some (n + 1) else none
]

-- `none` is the `continue` of a test that fails.
unfoldable pub score : Lookup → Sock → Option ℕ
score addr s = test_field s.dest_addr addr.dest_addr (
    test_field s.dest_port addr.dest_port (
      test_field s.src_addr addr.src_addr
        (test_field s.src_port addr.src_port (if s.proto == addr.proto then some 0 else none))))

unfoldable pub find_loop : Lookup → ℕ → List Sock → ℕ → Option Sock → Option Sock
find_loop addr total_max_score [] maxscore ret = ret
find_loop addr total_max_score (s ∷ rest) maxscore ret =
    let keep = find_loop addr total_max_score rest maxscore ret in
    elim (score addr s) [
      | none ↦ keep
      | some n ↦
          let better = find_loop addr total_max_score rest n (some s) in
          if n == total_max_score then some s else if leb n maxscore then keep else better
    ]

unfoldable pub ipaf_find_socket : Lookup → ℕ → Family → Option Sock × Family
ipaf_find_socket addr total_max_score af = elim (find_loop addr total_max_score af.sockets 0 none) [
  | none ↦ (none, af)
  | some s ↦ (some s, record af { refs = add_ref s.name af.refs })
]
