-- ===== src/Cred/Access.antt =====
-- src/fs/access.c: `__check_permission`, which `check_permission` calls for the current task.
use Prim.Native.Nat.{bit_and}
use protura.Base.{ℕ, ◌/◌, ◌^◌, ◌≡◌, ◌==◌, ◌!=◌, refl, arith, Bool, true, false, not, if◌then◌else◌}
use protura.Base.Bits.{every_under, every_under_lem, bit_and-lt}
use protura.Base.Errno.{Status, ok, err, eacces}
use protura.Cred.{Credentials, belong_to_gid}

-- The fields of `struct inode` that the check reads.
pub record Owned : Type 0 where
  pub mode : ℕ
  pub uid : ℕ
  pub gid : ℕ

abbrev pub is_reg : ℕ → Bool
is_reg mode = bit_and mode 0o170000 == 0o100000

-- What root gets, of the mode that is left after `& 0777`.
root_permission : ℕ → Status
root_permission mode =
    if is_reg mode
    then (if bit_and mode 1 == 0 then ok else if bit_and mode 0o111 != 0 then ok else err eacces)
    else ok

-- The mode bits for the task's class.
pub class_bits : Credentials → Owned → ℕ → ℕ
class_bits creds inode mode =
    if creds.euid == inode.uid
    then mode / 2 ^ 6
    else if belong_to_gid creds inode.gid
    then mode / 2 ^ 3
    else mode

pub check_permission : Credentials → Owned → ℕ → Status
unfolding root_permission class_bits
check_permission creds inode access =
    let mode = bit_and inode.mode 0o777 in
    if access == 0
    then ok
    else if creds.euid == 0
    then root_permission mode
    else if bit_and (class_bits creds inode mode) access == access
    then ok
    else err eacces

-- No mode that is left after `& 0777` is that of a regular file.
not_reg_table : every_under (λ m. not (is_reg m)) 512 ≡ true
unfolding every_under
not_reg_table = refl

masked_not_reg : (m : ℕ) → is_reg (bit_and m 0o777) ≡ false
masked_not_reg m = ground (
  arith,
  every_under_lem (λ k. not (is_reg k)) 512 (bit_and m 0o777) (bit_and-lt m 511) not_reg_table,
)

-- Root is given every access to every inode: the exception for regular files that nobody may
-- execute is never reached.
pub check_permission_root :
    (creds : Credentials) (inode : Owned) (access : ℕ)
    → creds.euid ≡ 0
    → check_permission creds inode access ≡ ok
unfolding check_permission
check_permission_root creds inode access root = ground (arith, masked_not_reg inode.mode)
