-- ===== src/Sessions.antt =====
-- preproj2/sys.c: the calls on process groups and sessions.
pub mod Invariant
pub mod Groups
pub mod Calls
pub mod Leaders
mod Tests
use cs3013_operating_systems.Prelude.{
  ℕ, Bool, true, false, not, List, [], ◌∷◌, Option, none, some, ltb, ◌==◌, ◌<◌, if◌then◌else◌,
  update,
}
use cs3013_operating_systems.Prelude.Int.{ℤ, pos, negsuc, pos_part, eq_ℤ, ltb_ℤ}

-- A process, as its thread group leader: its pid, its process group and session by the numbers of
-- their pids, its parent's address, did_exec, and whether it leads a session.
pub record Process : Type 0 where
  pub pid : ℕ
  pub pgrp : ℕ
  pub session : ℕ
  pub parent : ℕ
  pub did_exec : Bool
  pub leader : Bool

-- The processes by the addresses of their leaders.
abbrev pub Processes : Type 0
Processes = ℕ → Process

-- A thread: its process, and whether it is the leader of it.
pub record Thread : Type 0 where
  pub process : ℕ
  pub is_leader : Bool

-- What the rest of the kernel does: the process of `current`, the thread of a pid, pid_task for a
-- process group, the security module, change_pid of a process group and __set_special_pids.
pub record Kernel : Type 0 where
  pub current : ℕ
  pub find_task_by_vpid : ℤ → Option Thread
  pub pgid_task : Processes → ℕ → Option ℕ
  pub task_setpgid : Process → ℤ → ℤ
  pub task_getpgid : Process → ℤ
  pub task_getsid : Process → ℤ
  pub change_pgid : Process → ℕ → Process
  pub set_special_pids : Process → ℕ → Process

-- -EPERM, -ESRCH, -EACCES and -EINVAL
abbrev pub eperm : ℤ
eperm = negsuc 0

abbrev pub esrch : ℤ
esrch = negsuc 2

abbrev pub eacces : ℤ
eacces = negsuc 12

abbrev pub einval : ℤ
einval = negsuc 21

pub data Call : Type 0 where
  setpgid_call : ℤ → ℤ → Call
  setsid_call : Call

module _ (k : Kernel) where
  -- Whose group may be set: an own child's that did no exec and is in the session, and the own.
  unfoldable pub family_refusal : Processes → ℕ → Option ℤ
  family_refusal ts p =
      if (ts p).parent == k.current
      then (if not ((ts p).session == (ts k.current).session)
          then some eperm
          else if (ts p).did_exec
          then some eacces
          else none)
      else if not (p == k.current)
      then some esrch
      else none

  -- The group that the process goes to.
  unfoldable pub target_group : Processes → ℕ → ℤ → ℤ → Option ℕ
  target_group ts p pid pgid =
      if eq_ℤ pgid pid then some (ts p).pid else elim (k.pgid_task ts (pos_part pgid)) [
        | none ↦ none
        | some g ↦ if (ts g).session == (ts k.current).session then some (pos_part pgid) else none
      ]

  abbrev pub move_to : Processes → ℕ → ℕ → Processes
  move_to ts p g = if not ((ts p).pgrp == g) then update ts p (k.change_pgid (ts p) g) else ts

  unfoldable pub set_group : Processes → ℕ → ℤ → ℤ → ℤ × Processes
  set_group ts p pid pgid = elim (family_refusal ts p) [
    | some error ↦ (error, ts)
    | none ↦ if (ts p).leader then (eperm, ts) else elim (target_group ts p pid pgid) [
      | none ↦ (eperm, ts)
      | some g ↦
          let err = k.task_setpgid (ts p) pgid in
          if eq_ℤ err (pos 0) then (pos 0, move_to ts p g) else (err, ts)
    ]
  ]

  unfoldable pub setpgid : ℤ → ℤ → Processes → ℤ × Processes
  setpgid pid pgid ts =
      let pid' = if eq_ℤ pid (pos 0) then pos (ts k.current).pid else pid in
      let pgid' = if eq_ℤ pgid (pos 0) then pid' else pgid in
      if ltb_ℤ pgid' (pos 0) then (einval, ts) else elim (k.find_task_by_vpid pid') [
        | none ↦ (esrch, ts)
        | some t ↦ if t.is_leader then set_group ts t.process pid' pgid' else (einval, ts)
      ]

  unfoldable pub getpgid : ℤ → Processes → ℤ
  getpgid pid ts =
      if eq_ℤ pid (pos 0) then pos (ts k.current).pgrp else elim (k.find_task_by_vpid pid) [
        | none ↦ esrch
        | some t ↦
            let retval = k.task_getpgid (ts t.process) in
            if eq_ℤ retval (pos 0) then pos (ts t.process).pgrp else retval
      ]

  unfoldable pub getsid : ℤ → Processes → ℤ
  getsid pid ts =
      if eq_ℤ pid (pos 0) then pos (ts k.current).session else elim (k.find_task_by_vpid pid) [
        | none ↦ esrch
        | some t ↦
            let retval = k.task_getsid (ts t.process) in
            if eq_ℤ retval (pos 0) then pos (ts t.process).session else retval
      ]

  unfoldable pub setsid : Processes → ℤ × Processes
  setsid ts =
      let group_leader = ts k.current in
      if group_leader.leader then (eperm, ts) else elim (k.pgid_task ts group_leader.pid) [
        | some g ↦ (eperm, ts)
        | none ↦ (
          pos group_leader.pid,
          update ts k.current
              (k.set_special_pids (record group_leader { leader = true }) group_leader.pid),
        )
      ]

  abbrev pub session_call : Call → Processes → ℤ × Processes
  session_call (setpgid_call pid pgid) ts = setpgid pid pgid ts
  session_call setsid_call ts = setsid ts

-- What calls by the processes at the addresses below `count`, one after the other, lead to.
pub data Reach (k : Kernel) (count : ℕ) (start : Processes) : Processes → Type 0 where
  started : Reach k count start start
  called :
      (ts : Processes) (a : ℕ) (c : Call)
      → Reach k count start ts
      → a < count
      → Reach k count start ((session_call (record k { current = a }) c ts).1)
