-- ===== src/Cred/Groups/Laws.antt =====
-- setgroups and getgroups together: what a task reads back, and what the unfinished array keeps.
use protura.Base.{
  ℕ, zero, suc, ◌+◌, ◌-◌, ◌≤◌, ◌<◌, ◌≡◌, ◌≢◌, refl, ap, true, Option, some, List, [], ◌∷◌, ◌++◌,
  arith, dec_lt, ℕ_discrete, lt→ltb, ==_refl, length, take, All, take-nil, take-cons, append-nil,
}
use protura.Base.Errno.{ok}
use protura.Cred.{Credentials, id_invalid, ngroups, in_groups, belong_to_gid}
use protura.Cred.Groups.{
  copy_groups, leftover, fill_groups, getgroups_loop, sys_setgroups, sys_getgroups,
}

-- The words of a list with their indices, from index `i` on.
abbrev pub number : ℕ → List ℕ → List (ℕ × ℕ)
number i [] = []
number i (g ∷ gs) = (i, g) ∷ number (i + 1) gs

abbrev pub IsValidGroups : List ℕ → Type 0
IsValidGroups = All (λ g. g ≢ id_invalid)

-- What may follow the last group in the array: nothing, or a terminator.
data Stop : List ℕ → Type 0 where
  full : Stop []
  ended : (rest : List ℕ) → Stop (id_invalid ∷ rest)

less : (size i : ℕ) → size + 1 - i - 1 ≡ size + 1 - (i + 1)
less size i = omega arith

-- The loop writes while the index is at most `size`: `size + 1` words.
getgroups_loop_lem :
    (size i : ℕ) (gs : List ℕ) {tail : List ℕ}
    → size ≢ 0
    → IsValidGroups gs
    → Stop tail
    → getgroups_loop (λ _. true) size i (gs ++ tail)
      ≡ some (i + length gs, number i (take (size + 1 - i) gs))
unfolding getgroups_loop
getgroups_loop_lem size i [] h v full = rw (take-nil {A = ℕ} (size + 1 - i)) (ground arith)
getgroups_loop_lem size i [] h v (ended rest) = rw (take-nil {A = ℕ} (size + 1 - i)) (ground arith)
getgroups_loop_lem size i (g ∷ gs) {tail} h v t = ground (
  arith,
  getgroups_loop_lem size (i + 1) gs {tail = tail} h v.1 t,
  take-cons (size + 1 - i) g gs,
  ap (λ k. number (i + 1) (take k gs)) (less size i),
)

-- The user's list from index `i` on holds `gs`.
abbrev pub Reads : (ℕ → Option ℕ) → ℕ → List ℕ → Type 0
Reads user i [] = Unit
Reads user i (g ∷ gs) = (user i ≡ some g) × Reads user (i + 1) gs

copy_groups_lem :
    (user : ℕ → Option ℕ) (i : ℕ) (gs : List ℕ)
    → Reads user i gs
    → copy_groups user i (length gs) ≡ some gs
unfolding copy_groups
copy_groups_lem user i [] r = refl
copy_groups_lem user i (g ∷ gs) r = ground (arith, copy_groups_lem user (i + 1) gs r.1)

getgroups_loop_start :
    (size : ℕ) (gs : List ℕ) {tail : List ℕ}
    → size ≢ 0
    → IsValidGroups gs
    → Stop tail
    → getgroups_loop (λ _. true) size 0 (gs ++ tail)
      ≡ some (length gs, number 0 (take (size + 1) gs))
getgroups_loop_start size gs {tail} h v t =
    let n : 0 + length gs ≡ length gs = omega arith in
    let w : size + 1 - 0 ≡ size + 1 = omega arith in
    rw n at (rw w at (getgroups_loop_lem size 0 gs {tail = tail} h v t))

fill_groups-Stop :
    (stack : ℕ → ℕ) (gs : List ℕ)
    → length gs ≤ ngroups
    → (tail : List ℕ) × (fill_groups stack (length gs) gs ≡ gs ++ tail) × Stop tail
unfolding fill_groups
fill_groups-Stop stack gs h = elim (dec_lt (length gs) ngroups) [
  | yes p ↦ (
    id_invalid ∷ leftover stack (length gs + 1) (ngroups - length gs - 1),
    rw (lt→ltb (length gs) ngroups p),
    ended _,
  )
  | no p ↦ ([], ground (arith, append-nil gs), full)
]

-- setgroups by root of a readable list of at most NGROUPS valid groups succeeds, and getgroups with
-- a nonzero size then returns their number and writes the first `size + 1` of them in order.
pub getgroups-setgroups :
    (stack : ℕ → ℕ) (user : ℕ → Option ℕ) (gs : List ℕ) (size : ℕ) (creds : Credentials)
    → creds.euid ≡ 0
    → length gs ≤ ngroups
    → IsValidGroups gs
    → Reads user 0 gs
    → size ≢ 0
    → let (status, after) = sys_setgroups stack (length gs) user creds in
      (status ≡ ok)
      × (sys_getgroups (λ _. true) size after ≡ some (length gs, number 0 (take (size + 1) gs)))
unfolding sys_setgroups sys_getgroups
getgroups-setgroups stack user gs size creds root few valid reads h =
    let f = fill_groups-Stop stack gs few in
    let got = getgroups_loop_start size gs {tail = f.0} h valid f.2 in
    ground (arith, copy_groups_lem user 0 gs reads, f.1, got)

in_groups-leftover :
    (stack : ℕ → ℕ) (i n k : ℕ)
    → i ≤ k
    → k < i + n
    → in_groups (stack k) (leftover stack i n) ≡ true
unfolding in_groups leftover
in_groups-leftover stack i zero k h l = absurd (omega arith)
in_groups-leftover stack i (suc n) k h l = elim (ℕ_discrete i k) [
  | yes e ↦ rw (e, ==_refl (stack k))
  | no ne ↦ ground (arith, in_groups-leftover stack (i + 1) n k)
]

in_groups-append :
    (gid : ℕ) (xs ys : List ℕ) → in_groups gid ys ≡ true → in_groups gid (xs ++ ys) ≡ true
unfolding in_groups
in_groups-append gid [] ys h = h
in_groups-append gid (x ∷ xs) ys h = ground (arith, in_groups-append gid xs ys)

in_groups-cons : (gid x : ℕ) (xs : List ℕ) → in_groups gid xs ≡ true → in_groups gid (x ∷ xs) ≡ true
unfolding in_groups
in_groups-cons gid x xs h = ground arith

fill_groups_keeps_stack :
    (stack : ℕ → ℕ) (gs : List ℕ) (k : ℕ)
    → length gs < k
    → k < ngroups
    → in_groups (stack k) (fill_groups stack (length gs) gs) ≡ true
unfolding fill_groups
fill_groups_keeps_stack stack gs k low high = rw (lt→ltb (length gs) ngroups (omega arith)) (
    in_groups-append (stack k) gs _ (
      in_groups-cons (stack k) id_invalid _ (
        in_groups-leftover stack (length gs + 1) (ngroups - length gs - 1) k (omega arith)
          (omega arith))))

-- After a setgroups by root with fewer than NGROUPS groups, the task belongs to every group whose
-- number the kernel stack held in the array behind the terminator, though getgroups does not
-- report it.
pub setgroups_leaks_stack :
    (stack : ℕ → ℕ) (user : ℕ → Option ℕ) (gs : List ℕ) (k : ℕ) (creds : Credentials)
    → creds.euid ≡ 0
    → Reads user 0 gs
    → length gs < k
    → k < ngroups
    → belong_to_gid (sys_setgroups stack (length gs) user creds).1 (stack k) ≡ true
unfolding sys_setgroups belong_to_gid
setgroups_leaks_stack stack user gs k creds root reads low high =
    ground (arith, copy_groups_lem user 0 gs reads, fill_groups_keeps_stack stack gs k low high)

-- A task whose effective user id is not root's changes nothing.
pub setgroups_unprivileged :
    (stack : ℕ → ℕ) (size : ℕ) (user : ℕ → Option ℕ) (creds : Credentials)
    → creds.euid ≢ 0
    → (sys_setgroups stack size user creds).1 ≡ creds
unfolding sys_setgroups
setgroups_unprivileged stack size user creds h = ground arith
