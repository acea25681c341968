-- ===== src/Cred/Groups.antt =====
-- src/kernel/sys_user.c: setgroups and getgroups. User memory is a function from an index of the
-- list to the word there, `none` where the access faults; the local array starts with whatever the
-- kernel stack holds, `stack`.
pub mod Laws
use protura.Base.{
  ℕ, zero, suc, ◌+◌, ◌-◌, ◌==◌, ◌!=◌, ◌||◌, ltb, Bool, Option, none, some, List, [], ◌∷◌, ◌++◌,
  if◌then◌else◌,
}
use protura.Base.Errno.{Status, ok, err, eperm, efault}
use protura.Cred.{Credentials, id_invalid, ngroups}

-- The copy loop: the `n` words from index `i` on, or `none` at a fault.
copy_groups : (ℕ → Option ℕ) → ℕ → ℕ → Option (List ℕ)
copy_groups user i zero = some []
copy_groups user i (suc n) = elim (user i) [
  | none ↦ none
  | some gid ↦ elim (copy_groups user (i + 1) n) [ none ↦ none | some gs ↦ some (gid ∷ gs) ]
]

-- What the stack leaves in the entries from `i` on.
leftover : (ℕ → ℕ) → ℕ → ℕ → List ℕ
leftover stack i zero = []
leftover stack i (suc n) = stack i ∷ leftover stack (i + 1) n

-- The local array after the loop: the copied words, the terminator if there is room, the rest of
-- the array as the stack had it.
fill_groups : (ℕ → ℕ) → ℕ → List ℕ → List ℕ
unfolding leftover
fill_groups stack size gs =
    if ltb size ngroups
    then gs ++ (id_invalid ∷ leftover stack (size + 1) (ngroups - size - 1))
    else gs

pub sys_setgroups : (ℕ → ℕ) → ℕ → (ℕ → Option ℕ) → Credentials → Status × Credentials
unfolding copy_groups fill_groups
sys_setgroups stack size user creds =
    if ltb ngroups size then (err eperm, creds) else elim (copy_groups user 0 size) [
      | none ↦ (err efault, creds)
      | some gs ↦
          if creds.euid != 0
          then (err eperm, creds)
          else (ok, record creds { sup_groups = fill_groups stack size gs })
    ]

-- The words that `sys_getgroups` writes, with their indices, and its result; `none` is -EFAULT.
-- `writable` says where the user's list can be written.
getgroups_loop : (ℕ → Bool) → ℕ → ℕ → List ℕ → Option (ℕ × List (ℕ × ℕ))
getgroups_loop writable size i [] = some (i, [])
getgroups_loop writable size i (gid ∷ gs) =
    let rest = getgroups_loop writable size (i + 1) gs in
    if gid == id_invalid
    then some (i, [])
    else if size == 0 || ltb size i
    then rest
    else if writable i
    then elim rest [ none ↦ none | some (n, out) ↦ some (n, (i, gid) ∷ out) ]
    else none

pub sys_getgroups : (ℕ → Bool) → ℕ → Credentials → Option (ℕ × List (ℕ × ℕ))
unfolding getgroups_loop
sys_getgroups writable size creds = getgroups_loop writable size 0 creds.sup_groups
