-- ===== src/Cred/Examples.antt =====
-- Runs of the credential calls, and the theorems at concrete tasks.
use protura.Base.{
  ℕ, ◌+◌, ◌==◌, ◌≡◌, refl, Option, none, some, List, [], ◌∷◌, replicate, arith, if◌then◌else◌,
}
use protura.Base.Errno.{err, eperm}
use protura.Cred.{Credentials, id_invalid}
use protura.Cred.User.{sys_setuid, sys_setreuid, KeepsUsers}
use protura.Cred.Access.{Owned}
use protura.Cred.Run.{Call, setuid, setresuid, setgid, run, IsUnprivileged, run-IsUnprivileged}

abbrev user : Credentials
user = record {
  uid = 1000;
  euid = 1001;
  suid = 1002;
  gid = 5;
  egid = 0;
  sgid = 5;
  sup_groups = replicate 32 id_invalid;
}

abbrev root : Credentials
root = record user { euid = 0 }

abbrev calls : List Call
calls = setuid 1000 ∷ setresuid 1002 1000 id_invalid ∷ setgid 7 ∷ setuid 0 ∷ []

abbrev two_groups : ℕ → Option ℕ
two_groups i = if i == 0 then some 20 else if i == 1 then some 30 else none

abbrev stack : ℕ → ℕ
stack i = i + 100

abbrev script : Owned
script = record { mode = 0o100644; uid = 3; gid = 3 }

setuid_refused : sys_setuid 0 user ≡ (err eperm, user)
unfolding sys_setuid
setuid_refused = refl

setreuid_asks_for_saved : (sys_setreuid id_invalid 1002 user).1.uid ≡ id_invalid
unfolding sys_setreuid
setreuid_asks_for_saved = refl

run-IsUnprivileged_example :
    KeepsUsers user (run calls user)
    × IsUnprivileged (run calls user)
    × ((run calls user).sup_groups ≡ replicate 32 id_invalid)
run-IsUnprivileged_example = run-IsUnprivileged calls user (omega arith)
