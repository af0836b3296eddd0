-- ===== src/Credentials.antt =====
-- preproj2/sys.c: the calls that change the user and group ids of the calling process.
pub mod Groups
pub mod Users
mod Tests
use cs3013_operating_systems.Prelude.{
  ℕ, ◌+◌, ◌-◌, ◌^◌, Bool, true, false, not, ◌&&◌, ◌||◌, Option, none, some, leb, ◌==◌,
  if◌then◌else◌,
}
use cs3013_operating_systems.Prelude.Int.{ℤ, pos, negsuc}

-- `struct cred`, as far as the calls use it. An id is a number below 2 ^ 32.
pub record Cred : Type 0 where
  pub uid : ℕ
  pub euid : ℕ
  pub suid : ℕ
  pub fsuid : ℕ
  pub gid : ℕ
  pub egid : ℕ
  pub sgid : ℕ
  pub fsgid : ℕ
  pub user : ℕ

-- The calling process: its credentials, and PF_NPROC_EXCEEDED of its flags.
pub record Process : Type 0 where
  pub cred : Cred
  pub nproc_exceeded : Bool

pub data LsmFlag : Type 0 where
  lsm_setid_id : LsmFlag
  lsm_setid_re : LsmFlag
  lsm_setid_res : LsmFlag
  lsm_setid_fs : LsmFlag

-- What the rest of the kernel answers: prepare_creds, nsown_capable of CAP_SETGID and CAP_SETUID,
-- alloc_uid, whether a user has as many processes as its limit and is not INIT_USER, and
-- security_task_fix_setuid of the new and the old credentials.
pub record Kernel : Type 0 where
  pub prepare_creds : Bool
  pub cap_setgid : Bool
  pub cap_setuid : Bool
  pub alloc_uid : ℕ → Option ℕ
  pub at_limit : ℕ → Bool
  pub task_fix_setuid : Cred → Cred → LsmFlag → ℤ

-- (gid_t) -1 and (uid_t) -1
abbrev pub unset : ℕ
unset = 2 ^ 32 - 1

-- -ENOMEM, -EPERM and -EAGAIN
abbrev pub enomem : ℤ
enomem = negsuc 11

abbrev pub eperm : ℤ
eperm = negsuc 0

abbrev pub eagain : ℤ
eagain = negsuc 10

abbrev pub commit_creds : Process → Cred → ℤ × Process
commit_creds p new = (pos 0, record p { cred = new })

-- Where `prepare_creds` gives a copy of the credentials, the rest of a call.
abbrev pub prepared : Kernel → Process → ℤ × Process → ℤ × Process
prepared k p rest = if k.prepare_creds then rest else (enomem, p)

-- `goto error` with -EPERM, or the new credentials.
abbrev pub or_eperm : Process → Option Cred → ℤ × Process
or_eperm p none = (eperm, p)
or_eperm p (some new) = commit_creds p new

abbrev pub bind : Option Cred → (Cred → Option Cred) → Option Cred
bind none f = none
bind (some c) f = f c

abbrev pub may_be : ℕ → ℕ → ℕ → ℕ → Bool
may_be id a b c = id == unset || (id == a || (id == b || id == c))

module _ (k : Kernel) where
  abbrev pub real_gid : Cred → ℕ → Cred → Option Cred
  real_gid old rgid new =
      if rgid == unset
      then some new
      else if old.gid == rgid || (old.egid == rgid || k.cap_setgid)
      then some (record new { gid = rgid })
      else none

  abbrev pub effective_gid : Cred → ℕ → Cred → Option Cred
  effective_gid old egid new =
      if egid == unset
      then some new
      else if old.gid == egid || (old.egid == egid || (old.sgid == egid || k.cap_setgid))
      then some (record new { egid = egid })
      else none

  -- The saved and the file system's gid of setregid.
  abbrev pub save_gid : Cred → ℕ → ℕ → Cred → Cred
  save_gid old rgid egid new =
      let saved =
        if not (rgid == unset) || (not (egid == unset) && not (egid == old.gid))
        then new.egid
        else new.sgid in
      record new { sgid = saved; fsgid = new.egid }

  unfoldable pub setregid : ℕ → ℕ → Process → ℤ × Process
  setregid rgid egid p =
      let old = p.cred in
      prepared k p (
        or_eperm p (
          bind (real_gid old rgid old)
            λ new. bind (effective_gid old egid new) λ new'. some (save_gid old rgid egid new')))

  unfoldable pub setgid : ℕ → Process → ℤ × Process
  setgid gid p =
      let old = p.cred in
      prepared k p (
        or_eperm p (
          if k.cap_setgid
          then some (record old { gid = gid; egid = gid; sgid = gid; fsgid = gid })
          else if gid == old.gid || gid == old.sgid
          then some (record old { egid = gid; fsgid = gid })
          else none))

  abbrev pub set_if : ℕ → ℕ → ℕ
  set_if id old = if id == unset then old else id

  unfoldable pub setresgid : ℕ → ℕ → ℕ → Process → ℤ × Process
  setresgid rgid egid sgid p =
      let old = p.cred in
      prepared k p (
        or_eperm p (
          if k.cap_setgid
            || (may_be rgid old.gid old.egid old.sgid
                && (may_be egid old.gid old.egid old.sgid && may_be sgid old.gid old.egid old.sgid))
          then some (record old {
            gid = set_if rgid old.gid;
            egid = set_if egid old.egid;
            sgid = set_if sgid old.sgid;
            fsgid = set_if egid old.egid;
          })
          else none))

  -- It returns the old gid of the file system, also without memory.
  unfoldable pub setfsgid : ℕ → Process → ℤ × Process
  setfsgid gid p =
      let old = p.cred in
      let allowed =
        gid == old.gid
        || (gid == old.egid || (gid == old.sgid || (gid == old.fsgid || k.cap_setgid))) in
      (
        pos old.fsgid,
        if k.prepare_creds && (allowed && not (gid == old.fsgid))
            then record p { cred = record old { fsgid = gid } }
            else p,
      )

  -- `set_user` and what follows it: without memory for the user, -EAGAIN.
  abbrev pub set_user : Process → Cred → (Process → Cred → ℤ × Process) → ℤ × Process
  set_user p new rest = elim (k.alloc_uid new.uid) [
    | none ↦ (eagain, p)
    | some user ↦ rest (record p { nproc_exceeded = k.at_limit user }) (record new { user = user })
  ]

  abbrev pub refused_or : ℤ → Process → ℤ × Process → ℤ × Process
  refused_or (negsuc n) p rest = (negsuc n, p)
  refused_or (pos n) p rest = rest

  -- The security module is asked, and the credentials are committed.
  abbrev pub fix_and_commit : LsmFlag → Process → Cred → ℤ × Process
  fix_and_commit flag p new = refused_or (k.task_fix_setuid new p.cred flag) p (commit_creds p new)

  abbrev pub real_uid : Cred → ℕ → Cred → Option Cred
  real_uid old ruid new =
      if ruid == unset
      then some new
      else if old.uid == ruid || (old.euid == ruid || k.cap_setuid)
      then some (record new { uid = ruid })
      else none

  abbrev pub effective_uid : Cred → ℕ → Cred → Option Cred
  effective_uid old euid new =
      if euid == unset
      then some new
      else if old.uid == euid || (old.euid == euid || (old.suid == euid || k.cap_setuid))
      then some (record new { euid = euid })
      else none

  -- The saved and the file system's uid of setreuid.
  abbrev pub save_uid : Cred → ℕ → ℕ → Cred → Cred
  save_uid old ruid euid new =
      let saved =
        if not (ruid == unset) || (not (euid == unset) && not (euid == old.uid))
        then new.euid
        else new.suid in
      record new { suid = saved; fsuid = new.euid }

  -- What setreuid does with ids that it accepts.
  abbrev pub change_uids : ℕ → ℕ → Process → Option Cred → ℤ × Process
  change_uids ruid euid p none = (eperm, p)
  change_uids ruid euid p (some new) =
      if not (new.uid == p.cred.uid)
      then set_user p new (λ q c. fix_and_commit lsm_setid_re q (save_uid p.cred ruid euid c))
      else fix_and_commit lsm_setid_re p (save_uid p.cred ruid euid new)

  unfoldable pub setreuid : ℕ → ℕ → Process → ℤ × Process
  setreuid ruid euid p =
      let old = p.cred in
      prepared k p
        (change_uids ruid euid p (bind (real_uid old ruid old) λ new. effective_uid old euid new))

  unfoldable pub setuid : ℕ → Process → ℤ × Process
  setuid uid p =
      let old = p.cred in
      prepared k p (
        if k.cap_setuid
        then (if not (uid == old.uid)
            then set_user p (record old { suid = uid; uid = uid })
                (λ q c. fix_and_commit lsm_setid_id q (record c { euid = uid; fsuid = uid }))
            else fix_and_commit lsm_setid_id p
                (record old { suid = uid; uid = uid; euid = uid; fsuid = uid }))
        else if not (uid == old.uid) && not (uid == old.suid)
        then (eperm, p)
        else fix_and_commit lsm_setid_id p (record old { euid = uid; fsuid = uid }))

  abbrev pub set_ids : ℕ → ℕ → Cred → Cred
  set_ids euid suid new = record new {
    euid = set_if euid new.euid;
    suid = set_if suid new.suid;
    fsuid = set_if euid new.euid;
  }

  unfoldable pub setresuid : ℕ → ℕ → ℕ → Process → ℤ × Process
  setresuid ruid euid suid p =
      let old = p.cred in
      prepared k p (
        if k.cap_setuid
          || (may_be ruid old.uid old.euid old.suid
              && (may_be euid old.uid old.euid old.suid && may_be suid old.uid old.euid old.suid))
        then (if not (ruid == unset) && not (ruid == old.uid)
            then set_user p (record old { uid = ruid })
                (λ q c. fix_and_commit lsm_setid_res q (set_ids euid suid c))
            else fix_and_commit lsm_setid_res p (set_ids euid suid old))
        else (eperm, p))

  abbrev pub is_zero : ℤ → Bool
  is_zero (pos n) = n == 0
  is_zero (negsuc n) = false

  unfoldable pub setfsuid : ℕ → Process → ℤ × Process
  setfsuid uid p =
      let old = p.cred in
      let allowed =
        uid == old.uid
        || (uid == old.euid || (uid == old.suid || (uid == old.fsuid || k.cap_setuid))) in
      let new = record old { fsuid = uid } in
      (
        pos old.fsuid,
        if k.prepare_creds
              && ((allowed && not (uid == old.fsuid))
                  && is_zero (k.task_fix_setuid new old lsm_setid_fs))
            then record p { cred = new }
            else p,
      )
