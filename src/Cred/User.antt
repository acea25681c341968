-- ===== src/Cred/User.antt =====
-- src/kernel/sys_user.c: setuid, setreuid, setresuid.
use protura.Base.{ℕ, ◌==◌, ◌!=◌, ◌&&◌, ◌||◌, ◌≡◌, ◌≢◌, ◌⊎◌, arith, Bool, if◌then◌else◌}
use protura.Base.Errno.{Status, ok, err, eperm}
use protura.Cred.{Credentials, id_invalid}

unfoldable pub sys_setuid : ℕ → Credentials → Status × Credentials
sys_setuid uid creds =
    if creds.euid == 0
    then (ok, record creds { uid = uid; euid = uid; suid = uid })
    else if creds.uid == uid || creds.suid == uid
    then (ok, record creds { euid = uid })
    else (err eperm, creds)

-- The tail of `sys_setreuid`, once both ids are allowed.
setreuid_commit : ℕ → ℕ → Credentials → Credentials
setreuid_commit new_ruid new_euid creds =
    let stored = record creds { uid = new_ruid; euid = new_euid } in
    if new_ruid != id_invalid || (new_euid != id_invalid && new_euid != creds.uid)
    then record stored { suid = new_euid }
    else stored

-- The guards on `ruid` and on `euid`.
ruid_refused : ℕ → Credentials → Bool
ruid_refused ruid creds = creds.euid != 0 && creds.uid != ruid && creds.euid != ruid

euid_refused : ℕ → Credentials → Bool
euid_refused euid creds =
    creds.euid != 0 && creds.uid != euid && creds.euid != euid && creds.suid != euid

-- As in the source, the branch of a valid `euid` assigns `new_ruid`, and `new_euid` keeps the old
-- effective id.
unfoldable pub sys_setreuid : ℕ → ℕ → Credentials → Status × Credentials
unfolding setreuid_commit ruid_refused euid_refused
sys_setreuid ruid euid creds =
    if ruid != id_invalid && ruid_refused ruid creds
    then (err eperm, creds)
    else if euid != id_invalid && euid_refused euid creds
    then (err eperm, creds)
    else (
      ok,
      setreuid_commit
          (if euid != id_invalid then ruid else if ruid != id_invalid then ruid else creds.uid)
          creds.euid creds,
    )

-- One of the three guards of `sys_setresuid`.
abbrev is_foreign : ℕ → Credentials → Bool
is_foreign id creds = id != id_invalid && creds.uid != id && creds.euid != id && creds.suid != id

abbrev or_keep : ℕ → ℕ → ℕ
or_keep id old = if id != id_invalid then id else old

unfoldable pub sys_setresuid : ℕ → ℕ → ℕ → Credentials → Status × Credentials
sys_setresuid ruid euid suid creds =
    if creds.euid != 0 && (is_foreign ruid creds || is_foreign euid creds || is_foreign suid creds)
    then (err eperm, creds)
    else (
      ok,
      record creds {
        uid = or_keep ruid creds.uid;
        euid = or_keep euid creds.euid;
        suid = or_keep suid creds.suid;
      },
    )

-- A task's user id `x` is one of the ids that it held, or the pattern of -1.
abbrev pub IsHeld : ℕ → Credentials → Type 0
IsHeld x creds = (x ≡ creds.uid) ⊎ (x ≡ creds.euid) ⊎ (x ≡ creds.suid) ⊎ (x ≡ id_invalid)

abbrev pub KeepsUsers : Credentials → Credentials → Type 0
KeepsUsers creds after = IsHeld after.uid creds × IsHeld after.euid creds × IsHeld after.suid creds

pub setuid-KeepsUsers :
    (uid : ℕ) (creds : Credentials) → creds.euid ≢ 0 → KeepsUsers creds (sys_setuid uid creds).1
unfolding sys_setuid
setuid-KeepsUsers uid creds h = ground arith

pub setreuid-KeepsUsers :
    (ruid euid : ℕ) (creds : Credentials)
    → creds.euid ≢ 0
    → KeepsUsers creds (sys_setreuid ruid euid creds).1
unfolding sys_setreuid
setreuid-KeepsUsers ruid euid creds h = ground arith

pub setresuid-KeepsUsers :
    (ruid euid suid : ℕ) (creds : Credentials)
    → creds.euid ≢ 0
    → KeepsUsers creds (sys_setresuid ruid euid suid creds).1
unfolding sys_setresuid
setresuid-KeepsUsers ruid euid suid creds h = ground arith
