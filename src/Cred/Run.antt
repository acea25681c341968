-- ===== src/Cred/Run.antt =====
-- Sequences of the calls that change a task's credentials.
use protura.Base.{ℕ, ◌≡◌, ◌≢◌, refl, ◌∙◌, List, [], ◌∷◌, Option, arith}
use protura.Base.Errno.{Status, ok}
use protura.Cred.{Credentials, id_invalid}
use protura.Cred.User.{
  sys_setuid, sys_setreuid, sys_setresuid, IsHeld, KeepsUsers, setuid-KeepsUsers,
  setreuid-KeepsUsers, setresuid-KeepsUsers,
}
use protura.Cred.Group.{
  sys_setgid, sys_setregid, sys_setresgid, SameUsers, setgid-SameUsers, setregid-SameUsers,
  setresgid-SameUsers,
}
use protura.Cred.Groups.{sys_setgroups}
use protura.Cred.Groups.Laws.{setgroups_unprivileged}

pub data Call : Type 0 where
  setuid : ℕ → Call
  setreuid : ℕ → ℕ → Call
  setresuid : ℕ → ℕ → ℕ → Call
  setgid : ℕ → Call
  setregid : ℕ → ℕ → Call
  setresgid : ℕ → ℕ → ℕ → Call
  setgroups : (ℕ → ℕ) → ℕ → (ℕ → Option ℕ) → Call

pub call : Call → Credentials → Status × Credentials
call (setuid u) c = sys_setuid u c
call (setreuid r e) c = sys_setreuid r e c
call (setresuid r e s) c = sys_setresuid r e s c
call (setgid g) c = sys_setgid g c
call (setregid r e) c = sys_setregid r e c
call (setresgid r e s) c = sys_setresgid r e s c
call (setgroups stack n user) c = sys_setgroups stack n user c

pub run : List Call → Credentials → Credentials
run [] c = c
run (k ∷ ks) c = run ks (call k c).1

-- None of the three user ids is root's.
pub record IsUnprivileged (c : Credentials) : Type 0 where
  pub real : c.uid ≢ 0
  pub effective : c.euid ≢ 0
  pub saved : c.suid ≢ 0

same_users : (c d : Credentials) → SameUsers c d → KeepsUsers c d
same_users c d h = ground arith

call-KeepsUsers : (k : Call) (c : Credentials) → c.euid ≢ 0 → KeepsUsers c (call k c).1
unfolding call
call-KeepsUsers (setuid u) c h = setuid-KeepsUsers u c h
call-KeepsUsers (setreuid r e) c h = setreuid-KeepsUsers r e c h
call-KeepsUsers (setresuid r e s) c h = setresuid-KeepsUsers r e s c h
call-KeepsUsers (setgid g) c h = same_users c (sys_setgid g c).1 (setgid-SameUsers g c)
call-KeepsUsers (setregid r e) c h = same_users c (sys_setregid r e c).1 (setregid-SameUsers r e c)
call-KeepsUsers (setresgid r e s) c h =
    same_users c (sys_setresgid r e s c).1 (setresgid-SameUsers r e s c)
call-KeepsUsers (setgroups stack n user) c h =
    ground (arith, setgroups_unprivileged stack n user c h)

call-sup_groups : (k : Call) (c : Credentials) → c.euid ≢ 0 → (call k c).1.sup_groups ≡ c.sup_groups
unfolding call sys_setuid sys_setreuid sys_setresuid sys_setgid sys_setregid sys_setresgid
call-sup_groups (setgroups stack n user) c h =
    ground (arith, setgroups_unprivileged stack n user c h)
call-sup_groups k c h = ground arith

IsHeld-trans : (x : ℕ) (c d : Credentials) → KeepsUsers c d → IsHeld x d → IsHeld x c
IsHeld-trans x c d k h = ground arith

KeepsUsers-trans : (c d e : Credentials) → KeepsUsers c d → KeepsUsers d e → KeepsUsers c e
KeepsUsers-trans c d e k l =
    (IsHeld-trans _ c d k l.0, IsHeld-trans _ c d k l.1, IsHeld-trans _ c d k l.2)

KeepsUsers-IsUnprivileged :
    (c d : Credentials) → KeepsUsers c d → IsUnprivileged c → IsUnprivileged d
KeepsUsers-IsUnprivileged c d k u = ground arith

-- However a task that holds no root id calls setuid, setreuid, setresuid, their group
-- counterparts and setgroups, it still holds none, each of its user ids is one that it started
-- with or the invalid one, and its supplementary groups are those that it started with.
pub run-IsUnprivileged :
    (ks : List Call) (c : Credentials)
    → IsUnprivileged c
    → KeepsUsers c (run ks c) × IsUnprivileged (run ks c) × ((run ks c).sup_groups ≡ c.sup_groups)
unfolding run
run-IsUnprivileged [] c u = (ground arith, u, refl)
run-IsUnprivileged (k ∷ ks) c u =
    let d = (call k c).1 in
    let one = call-KeepsUsers k c u.effective in
    let (held, still, groups) = run-IsUnprivileged ks d (KeepsUsers-IsUnprivileged c d one u) in
    (KeepsUsers-trans c d (run ks d) one held, still, groups ∙ call-sup_groups k c u.effective)

-- A setreuid that succeeds with a valid `euid` leaves the effective user id as it was and makes
-- the `ruid` argument, be it the invalid id, the real user id.
pub setreuid_effective :
    (ruid euid : ℕ) (c : Credentials)
    → (sys_setreuid ruid euid c).0 ≡ ok
    → euid ≢ id_invalid
    → ((sys_setreuid ruid euid c).1.euid ≡ c.euid) × ((sys_setreuid ruid euid c).1.uid ≡ ruid)
unfolding sys_setreuid
setreuid_effective ruid euid c a b = ground arith

-- A task whose effective group id is 0 may take any group ids by setresgid, whatever its
-- effective user id is.
pub setresgid_group_zero :
    (rgid egid sgid : ℕ) (c : Credentials) → c.egid ≡ 0 → (sys_setresgid rgid egid sgid c).0 ≡ ok
unfolding sys_setresgid
setresgid_group_zero rgid egid sgid c h = ground arith
