-- ===== src/Cred.antt =====
-- src/kernel/sys_user.c and src/fs/access.c: the user and group ids of a task, the system calls
-- that change them, and the permission check on an inode.
-- Every call holds the task's `cred_lock` from its first read to its last write, so a call is one
-- step. `uid_t` and `gid_t` are 32-bit patterns that the code only compares.
pub mod User
pub mod Group
pub mod Groups
pub mod Access
pub mod Run
mod Examples
use protura.Base.{ℕ, ◌-◌, ◌^◌, ◌==◌, Bool, true, false, List, [], ◌∷◌, if◌then◌else◌}

-- `struct credentials`, without its lock.
pub record Credentials : Type 0 where
  pub uid : ℕ
  pub euid : ℕ
  pub suid : ℕ
  pub gid : ℕ
  pub egid : ℕ
  pub sgid : ℕ
  pub sup_groups : List ℕ

-- `UID_INVALID` and `GID_INVALID`, the pattern of -1.
abbrev pub id_invalid : ℕ
id_invalid = 2 ^ 32 - 1

-- `NGROUPS`
abbrev pub ngroups : ℕ
ngroups = 32

-- The loop over the whole array: it does not stop at a `GID_INVALID`.
pub in_groups : ℕ → List ℕ → Bool
in_groups gid [] = false
in_groups gid (g ∷ gs) = if g == gid then true else in_groups gid gs

pub belong_to_gid : Credentials → ℕ → Bool
belong_to_gid creds gid = if creds.egid == gid then true else in_groups gid creds.sup_groups
