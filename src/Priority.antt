-- ===== src/Priority.antt =====
-- preproj2/sys.c: the calls that set and get the nice values of processes.
pub mod Allowed
pub mod Readback
mod Tests
use cs3013_operating_systems.Prelude.{
  ℕ, ◌-◌, ◌^◌, Bool, true, false, not, ◌&&◌, ◌||◌, List, [], ◌∷◌, Option, none, some, ◌==◌,
  if◌then◌else◌, update,
}
use cs3013_operating_systems.Prelude.Int.{ℤ, pos, negsuc, ltb_ℤ, eq_ℤ, ◌-ℤ◌}

-- A thread, as far as the calls look at it: its credentials, its nice value and its process group.
pub record Task : Type 0 where
  pub uid : ℕ
  pub euid : ℕ
  pub user_ns : ℕ
  pub nice : ℤ
  pub pgrp : ℕ

-- The threads by their addresses.
abbrev pub Tasks : Type 0
Tasks = ℕ → Task

-- What the rest of the kernel answers: `current`, CAP_SYS_NICE in a namespace, can_nice, the
-- security module, set_user_nice, the lookups of a pid and of a user, the threads of a group and
-- all threads.
pub record Kernel : Type 0 where
  pub current : ℕ
  pub ns_capable : ℕ → Bool
  pub can_nice : Task → ℤ → Bool
  pub security_task_setnice : Task → ℤ → ℤ
  pub set_user_nice : Task → ℤ → Task
  pub find_task_by_vpid : ℤ → Option ℕ
  pub find_vpid : ℤ → Option ℕ
  pub find_user : ℕ → Bool
  pub group_threads : Option ℕ → List ℕ
  pub all_threads : List ℕ

-- -ESRCH, -EPERM, -EACCES and -EINVAL
abbrev pub esrch : ℤ
esrch = negsuc 2

abbrev pub eperm : ℤ
eperm = negsuc 0

abbrev pub eacces : ℤ
eacces = negsuc 12

abbrev pub einval : ℤ
einval = negsuc 21

-- An int as a uid_t.
abbrev pub as_uid : ℤ → ℕ
as_uid (pos n) = n
as_uid (negsuc n) = 2 ^ 32 - 1 - n

abbrev pub clamp_nice : ℤ → ℤ
clamp_nice n =
    let low = if ltb_ℤ n (negsuc 19) then negsuc 19 else n in
    if ltb_ℤ (pos 19) low then pos 19 else low

-- The test of a thread in the loop over all threads; the other loops have none.
abbrev pub passes : Option ℕ → Task → Bool
passes none p = true
passes (some uid) p = p.uid == uid

-- PRIO_PROCESS, PRIO_PGRP and PRIO_USER are 0, 1 and 2.
abbrev pub bad_which : ℤ → Bool
bad_which which = ltb_ℤ (pos 2) which || ltb_ℤ which (pos 0)

-- The threads that a loop of the calls goes over, and its test.
pub record Targets : Type 0 where
  pub threads : List ℕ
  pub only : Option ℕ

abbrev pub one_or_none : Option ℕ → List ℕ
one_or_none none = []
one_or_none (some p) = p ∷ []

module _ (k : Kernel) where
  unfoldable pub set_one_prio_perm : Tasks → ℕ → Bool
  set_one_prio_perm tasks a =
      let p = tasks a in
      let cred = tasks k.current in
      p.user_ns == cred.user_ns && (p.uid == cred.euid || p.euid == cred.euid)
      || k.ns_capable p.user_ns

  -- The nice value that set_one_prio writes is always the clamped one.
  unfoldable pub set_one_prio : ℕ → ℤ → ℤ → Tasks → ℤ × Tasks
  set_one_prio a niceval error tasks =
      let p = tasks a in
      let no_nice = k.security_task_setnice p niceval in
      if not (set_one_prio_perm tasks a)
      then (eperm, tasks)
      else if ltb_ℤ niceval p.nice && not (k.can_nice p niceval)
      then (eacces, tasks)
      else if not (eq_ℤ no_nice (pos 0))
      then (no_nice, tasks)
      else (if eq_ℤ error esrch then pos 0 else error, update tasks a (k.set_user_nice p niceval))

  unfoldable pub targets : Tasks → ℤ → ℤ → Targets
  targets tasks which who =
      let cred = tasks k.current in
      if eq_ℤ which (pos 0)
      then record {
        threads =
            one_or_none (if eq_ℤ who (pos 0) then some k.current else k.find_task_by_vpid who);
        only = none;
      }
      else if eq_ℤ which (pos 1)
      then record {
        threads = k.group_threads (if eq_ℤ who (pos 0) then some cred.pgrp else k.find_vpid who);
        only = none;
      }
      else if eq_ℤ who (pos 0)
      then record { threads = k.all_threads; only = some cred.uid }
      else if not (as_uid who == cred.uid) && not (k.find_user (as_uid who))
      then record { threads = []; only = none }
      else record { threads = k.all_threads; only = some (as_uid who) }

  unfoldable pub set_each : Option ℕ → ℤ → List ℕ → ℤ → Tasks → ℤ × Tasks
  set_each only niceval [] error tasks = (error, tasks)
  set_each only niceval (a ∷ threads) error tasks =
      let next =
        if passes only (tasks a) then set_one_prio a niceval error tasks else (error, tasks) in
      set_each only niceval threads next.0 next.1

  unfoldable pub setpriority : ℤ → ℤ → ℤ → Tasks → ℤ × Tasks
  unfolding set_each
  setpriority which who niceval tasks =
      let t = targets tasks which who in
      if bad_which which
      then (einval, tasks)
      else set_each t.only (clamp_nice niceval) t.threads esrch tasks

  unfoldable pub get_each : Option ℕ → Tasks → List ℕ → ℤ → ℤ
  get_each only tasks [] retval = retval
  get_each only tasks (a ∷ threads) retval =
      let niceval = pos 20 -ℤ (tasks a).nice in
      get_each only tasks threads
        (if passes only (tasks a) && ltb_ℤ retval niceval then niceval else retval)

  unfoldable pub getpriority : ℤ → ℤ → Tasks → ℤ
  unfolding get_each
  getpriority which who tasks =
      let t = targets tasks which who in
      if bad_which which then einval else get_each t.only tasks t.threads esrch
