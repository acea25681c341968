-- ===== src/Cred/Group.antt =====
-- src/kernel/sys_user.c: setgid, setregid, setresgid. The first asks for an effective user id of 0,
-- the other two for an effective group id of 0.
use protura.Base.{ℕ, ◌==◌, ◌!=◌, ◌&&◌, ◌||◌, ◌≡◌, arith, Bool, if◌then◌else◌}
use protura.Base.Errno.{Status, ok, err, eperm}
use protura.Cred.{Credentials, id_invalid}

unfoldable pub sys_setgid : ℕ → Credentials → Status × Credentials
sys_setgid gid creds =
    if creds.euid == 0
    then (ok, record creds { gid = gid; egid = gid; sgid = gid })
    else if creds.gid == gid || creds.sgid == gid
    then (ok, record creds { egid = gid })
    else (err eperm, creds)

-- The tail of `sys_setregid`, once both ids are allowed.
setregid_commit : ℕ → ℕ → Credentials → Credentials
setregid_commit new_rgid new_egid creds =
    let stored = record creds { gid = new_rgid; egid = new_egid } in
    if new_rgid != id_invalid || (new_egid != id_invalid && new_egid != creds.gid)
    then record stored { sgid = new_egid }
    else stored

-- The guards on `rgid` and on `egid`.
rgid_refused : ℕ → Credentials → Bool
rgid_refused rgid creds = creds.egid != 0 && creds.gid != rgid && creds.egid != rgid

egid_refused : ℕ → Credentials → Bool
egid_refused egid creds =
    creds.egid != 0 && creds.gid != egid && creds.egid != egid && creds.sgid != egid

-- As in the source, the branch of a valid `egid` assigns `new_rgid`, and `new_egid` keeps the old
-- effective id.
unfoldable pub sys_setregid : ℕ → ℕ → Credentials → Status × Credentials
unfolding setregid_commit rgid_refused egid_refused
sys_setregid rgid egid creds =
    if rgid != id_invalid && rgid_refused rgid creds
    then (err eperm, creds)
    else if egid != id_invalid && egid_refused egid creds
    then (err eperm, creds)
    else (
      ok,
      setregid_commit
          (if egid != id_invalid then rgid else if rgid != id_invalid then rgid else creds.gid)
          creds.egid creds,
    )

-- One of the three guards of `sys_setresgid`.
abbrev is_foreign : ℕ → Credentials → Bool
is_foreign id creds = id != id_invalid && creds.gid != id && creds.egid != id && creds.sgid != id

abbrev or_keep : ℕ → ℕ → ℕ
or_keep id old = if id != id_invalid then id else old

unfoldable pub sys_setresgid : ℕ → ℕ → ℕ → Credentials → Status × Credentials
sys_setresgid rgid egid sgid creds =
    if creds.egid != 0 && (is_foreign rgid creds || is_foreign egid creds || is_foreign sgid creds)
    then (err eperm, creds)
    else (
      ok,
      record creds {
        gid = or_keep rgid creds.gid;
        egid = or_keep egid creds.egid;
        sgid = or_keep sgid creds.sgid;
      },
    )

abbrev pub SameUsers : Credentials → Credentials → Type 0
SameUsers creds after =
    (after.uid ≡ creds.uid) × (after.euid ≡ creds.euid) × (after.suid ≡ creds.suid)

pub setgid-SameUsers : (gid : ℕ) (creds : Credentials) → SameUsers creds (sys_setgid gid creds).1
unfolding sys_setgid
setgid-SameUsers gid creds = ground arith

pub setregid-SameUsers :
    (rgid egid : ℕ) (creds : Credentials) → SameUsers creds (sys_setregid rgid egid creds).1
unfolding sys_setregid
setregid-SameUsers rgid egid creds = ground arith

pub setresgid-SameUsers :
    (rgid egid sgid : ℕ) (creds : Credentials)
    → SameUsers creds (sys_setresgid rgid egid sgid creds).1
unfolding sys_setresgid
setresgid-SameUsers rgid egid sgid creds = ground arith
