-- ===== src/Limits.antt =====
-- preproj2/sys.c: the calls that get and set the resource limits of a process.
pub mod Invariant
pub mod Sound
pub mod Words
pub mod Written
pub mod Adjusted
pub mod Readback
mod Tests
use cs3013_operating_systems.Prelude.{
  ℕ, ◌-◌, ◌^◌, ◌%◌, Bool, true, false, not, ◌&&◌, ◌||◌, List, [], ◌∷◌, Option, none, some, ltb, leb,
  ◌==◌, if◌then◌else◌, update,
}
use cs3013_operating_systems.Prelude.Int.{ℤ, pos, negsuc, eq_ℤ}

-- `struct rlimit` and `struct rlimit64`.
pub record Rlimit : Type 0 where
  pub rlim_cur : ℕ
  pub rlim_max : ℕ

pub record Cred : Type 0 where
  pub uid : ℕ
  pub euid : ℕ
  pub suid : ℕ
  pub gid : ℕ
  pub egid : ℕ
  pub sgid : ℕ
  pub user_ns : ℕ

-- A process: whether its sighand is still there, its limits by their numbers, its credentials, and
-- the seconds that update_rlimit_cpu was last called with.
pub record Task : Type 0 where
  pub sighand : Bool
  pub rlim : ℕ → Rlimit
  pub cred : Cred
  pub cpu_timer : Option ℕ

-- The bits of an unsigned long, RLIM_INFINITY, the number of limits, the limits of the open files
-- and of the CPU time, and sysctl_nr_open.
pub record Platform : Type 0 where
  pub long_bits : ℕ
  pub rlim_infinity : ℕ
  pub rlim_nlimits : ℕ
  pub rlimit_nofile : ℕ
  pub rlimit_cpu : ℕ
  pub nr_open : ℕ

-- The processes by their addresses.
abbrev pub Processes : Type 0
Processes = ℕ → Task

-- What the rest of the kernel answers: `current`, CAP_SYS_RESOURCE, also in a namespace, the
-- security module to a limit of this number, the lookup of a pid, and whether the copies from and
-- to the caller's memory succeed.
pub record Kernel : Type 0 where
  pub current : ℕ
  pub capable : Bool
  pub ns_capable : ℕ → Bool
  pub task_setrlimit : ℕ → Rlimit → ℤ
  pub find_task_by_vpid : ℤ → Option ℕ
  pub copies_in : Bool
  pub copies_out : Bool

-- -EPERM, -ESRCH, -EFAULT and -EINVAL
abbrev pub eperm : ℤ
eperm = negsuc 0

abbrev pub esrch : ℤ
esrch = negsuc 2

abbrev pub efault : ℤ
efault = negsuc 13

abbrev pub einval : ℤ
einval = negsuc 21

-- What do_prlimit leaves: its result, the process and *old_rlim, if that was written.
pub record Outcome : Type 0 where
  pub retval : ℤ
  pub task : Task
  pub old : Option Rlimit

-- What a call leaves: its result, the processes and the limit in the caller's memory, if that was
-- written.
pub record Reply : Type 0 where
  pub retval : ℤ
  pub processes : Processes
  pub given : Option Rlimit

-- The calls, with what the caller's memory holds for them.
pub data Call : Type 0 where
  get_call : ℕ → Call
  old_get_call : ℕ → Call
  set_call : ℕ → Rlimit → Call
  prlimit_call : ℤ → ℕ → Option Rlimit → Bool → Call

abbrev pub small : ℕ → ℕ
small n = if ltb (2 ^ 31 - 1) n then 2 ^ 31 - 1 else n

module _ (p : Platform) where
  unfoldable pub rlim64_is_infinity : ℕ → Bool
  rlim64_is_infinity n = if ltb p.long_bits 64 then leb (2 ^ p.long_bits - 1) n else n == 2 ^ 64 - 1

  abbrev pub widen : ℕ → ℕ
  widen n = if n == p.rlim_infinity then 2 ^ 64 - 1 else n

  unfoldable pub rlim_to_rlim64 : Rlimit → Rlimit
  rlim_to_rlim64 l = record { rlim_cur = widen l.rlim_cur; rlim_max = widen l.rlim_max }

  abbrev pub narrow : ℕ → ℕ
  narrow n = if rlim64_is_infinity n then p.rlim_infinity else n % 2 ^ p.long_bits

  unfoldable pub rlim64_to_rlim : Rlimit → Rlimit
  rlim64_to_rlim l = record { rlim_cur = narrow l.rlim_cur; rlim_max = narrow l.rlim_max }

  module _ (k : Kernel) where
    -- The tests before the locks: -EINVAL and -EPERM.
    unfoldable pub early_refusal : ℕ → Option Rlimit → Option ℤ
    early_refusal resource none = if leb p.rlim_nlimits resource then some einval else none
    early_refusal resource (some new) =
        if leb p.rlim_nlimits resource
        then some einval
        else if ltb new.rlim_max new.rlim_cur
        then some einval
        else if resource == p.rlimit_nofile && ltb p.nr_open new.rlim_max
        then some eperm
        else none

    -- The permission to set a limit, and the limit that is then set: an immediate expiry of the CPU
    -- time is made one second.
    unfoldable pub permission : ℕ → Rlimit → Rlimit → ℤ
    permission resource new rlim =
        if ltb rlim.rlim_max new.rlim_max && not k.capable
        then eperm
        else k.task_setrlimit resource new

    unfoldable pub adjusted : ℕ → Rlimit → Rlimit
    adjusted resource new =
        if resource == p.rlimit_cpu && new.rlim_cur == 0 then record new { rlim_cur = 1 } else new

    -- The limit is written, and the timer of the CPU time is told.
    unfoldable pub write_rlimit : ℕ → Rlimit → Task → Task
    write_rlimit resource new tsk = record tsk {
      rlim = update tsk.rlim resource new;
      cpu_timer =
          if resource == p.rlimit_cpu && not (new.rlim_cur == p.rlim_infinity)
          then some new.rlim_cur
          else tsk.cpu_timer;
    }

    unfoldable pub store_rlimit : ℕ → Option Rlimit → Bool → Task → Outcome
    store_rlimit resource none wants_old tsk = record {
      retval = pos 0;
      task = tsk;
      old = if wants_old then some (tsk.rlim resource) else none;
    }
    store_rlimit resource (some new) wants_old tsk =
        let retval = permission resource new (tsk.rlim resource) in
        if eq_ℤ retval (pos 0)
        then record {
          retval = pos 0;
          task = write_rlimit resource (adjusted resource new) tsk;
          old = if wants_old then some (tsk.rlim resource) else none;
        }
        else record { retval = retval; task = tsk; old = none }

    unfoldable pub do_prlimit : Task → ℕ → Option Rlimit → Bool → Outcome
    do_prlimit tsk resource new wants_old = elim (early_refusal resource new) [
      | some error ↦ record { retval = error; task = tsk; old = none }
      | none ↦
          if tsk.sighand
          then store_rlimit resource new wants_old tsk
          else record { retval = esrch; task = tsk; old = none }
    ]

    -- A result of do_prlimit, and the limit copied to the caller behind it.
    unfoldable pub copy_old : Processes → ℤ → (Rlimit → Rlimit) → Option Rlimit → Reply
    copy_old ts retval convert none = record { retval = retval; processes = ts; given = none }
    copy_old ts retval convert (some old) =
        if k.copies_out
        then record { retval = retval; processes = ts; given = some (convert old) }
        else record { retval = efault; processes = ts; given = none }

    abbrev pub copy_out : Processes → ℕ → (Rlimit → Rlimit) → Outcome → Reply
    copy_out ts a convert o = copy_old (update ts a o.task) o.retval convert o.old

    unfoldable pub getrlimit : ℕ → Processes → Reply
    getrlimit resource ts =
        copy_out ts k.current (λ l. l) (do_prlimit (ts k.current) resource none true)

    unfoldable pub old_getrlimit : ℕ → Processes → Reply
    old_getrlimit resource ts =
        let x = (ts k.current).rlim resource in
        if leb p.rlim_nlimits resource
        then record { retval = einval; processes = ts; given = none }
        else if k.copies_out
        then record {
          retval = pos 0;
          processes = ts;
          given = some (record { rlim_cur = small x.rlim_cur; rlim_max = small x.rlim_max });
        }
        else record { retval = efault; processes = ts; given = none }

    unfoldable pub setrlimit : ℕ → Rlimit → Processes → Reply
    setrlimit resource new ts =
        if k.copies_in
        then copy_out ts k.current (λ l. l) (do_prlimit (ts k.current) resource (some new) false)
        else record { retval = efault; processes = ts; given = none }

    unfoldable pub check_prlimit_permission : Processes → ℕ → ℤ
    check_prlimit_permission ts a =
        let cred = (ts k.current).cred in
        let tcred = (ts a).cred in
        if k.current == a
        then pos 0
        else if cred.user_ns == tcred.user_ns
            && (cred.uid == tcred.euid
                && (cred.uid == tcred.suid
                    && (cred.uid == tcred.uid
                        && (cred.gid == tcred.egid
                            && (cred.gid == tcred.sgid && cred.gid == tcred.gid)))))
        then pos 0
        else if k.ns_capable tcred.user_ns
        then pos 0
        else eperm

    abbrev pub convert_new : Option Rlimit → Option Rlimit
    convert_new none = none
    convert_new (some new) = some (rlim64_to_rlim new)

    -- On the process at `a`.
    unfoldable pub prlimit64_at : ℕ → ℕ → Option Rlimit → Bool → Processes → Reply
    prlimit64_at a resource new wants_old ts =
        let ret = check_prlimit_permission ts a in
        if eq_ℤ ret (pos 0)
        then copy_out ts a rlim_to_rlim64 (do_prlimit (ts a) resource (convert_new new) wants_old)
        else record { retval = ret; processes = ts; given = none }

    abbrev pub reads_in : Option Rlimit → Bool
    reads_in none = true
    reads_in (some new) = k.copies_in

    unfoldable pub prlimit64 : ℤ → ℕ → Option Rlimit → Bool → Processes → Reply
    prlimit64 pid resource new wants_old ts =
        if reads_in new
        then elim (if eq_ℤ pid (pos 0) then some k.current else k.find_task_by_vpid pid) [
          | none ↦ record { retval = esrch; processes = ts; given = none }
          | some a ↦ prlimit64_at a resource new wants_old ts
        ]
        else record { retval = efault; processes = ts; given = none }

    abbrev pub limit_call : Call → Processes → Reply
    limit_call (get_call resource) ts = getrlimit resource ts
    limit_call (old_get_call resource) ts = old_getrlimit resource ts
    limit_call (set_call resource new) ts = setrlimit resource new ts
    limit_call (prlimit_call pid resource new wants_old) ts =
        prlimit64 pid resource new wants_old ts

    -- The processes behind a sequence of calls.
    unfoldable pub limit_calls : List Call → Processes → Processes
    limit_calls [] ts = ts
    limit_calls (c ∷ calls) ts = limit_calls calls (limit_call c ts).processes
