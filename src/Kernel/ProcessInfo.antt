-- ===== src/Kernel/ProcessInfo.antt =====
-- project2/intercept.c: `new_sys_cs3013_syscall2`, which describes the calling process.
pub mod Children
pub mod Siblings
use cs3013_operating_systems.Prelude.{
  ℕ, ◌+◌, ◌-◌, ◌%◌, ◌^◌, Bool, ◌&&◌, List, [], ◌∷◌, reverse, Option, none, some, ltb, if◌then◌else◌,
  ◌==◌,
}
use cs3013_operating_systems.Prelude.Int.{ℤ, pos, negsuc}

-- `struct task_struct`, as far as the call reads it.
pub record Task : Type 0 where
  pub state : ℤ
  pub pid : ℕ
  pub start_time : ℕ
  pub utime : ℕ
  pub stime : ℕ

-- The kernel's conversions of a start time and of a CPU time.
pub record Conversions : Type 0 where
  pub timespec_to_ns : ℕ → ℕ
  pub cputime_to_usecs : ℕ → ℕ

-- `current`, with what its lists lead to. `siblings` are the entries that list_for_each meets from
-- `current` on, the head of the parent's list among them.
pub record Current : Type 0 where
  pub task : Task
  pub parent_pid : ℕ
  pub uid : ℕ
  pub children : List Task
  pub siblings : List Task

pub record ProcessInfo : Type 0 where
  pub state : ℤ
  pub pid : ℕ
  pub parent_pid : ℕ
  pub youngest_child : ℤ
  pub younger_sibling : ℤ
  pub older_sibling : ℤ
  pub uid : ℕ
  pub start_time : ℕ
  pub user_time : ℕ
  pub sys_time : ℕ
  pub cutime : ℕ
  pub cstime : ℕ

-- unsigned long long -1
abbrev pub ullong_max : ℕ
ullong_max = 2 ^ 64 - 1

abbrev pub add64 : ℕ → ℕ → ℕ
add64 a b = (a + b) % 2 ^ 64

-- What the loops over the children change.
pub record ChildScan : Type 0 where
  pub cutime : ℕ
  pub cstime : ℕ
  pub tmp_st1 : ℕ
  pub tmp_pid1 : ℤ

-- What the loops over the siblings change.
pub record SiblingScan : Type 0 where
  pub tmp_st1 : ℕ
  pub tmp_pid1 : ℤ
  pub tmp_st2 : ℕ
  pub tmp_pid2 : ℤ

abbrev pub child_start : ChildScan
child_start = record { cutime = 0; cstime = 0; tmp_st1 = ullong_max; tmp_pid1 = negsuc 0 }

abbrev pub sibling_start : SiblingScan
sibling_start = record {
  tmp_st1 = 0;
  tmp_pid1 = negsuc 0;
  tmp_st2 = ullong_max;
  tmp_pid2 = negsuc 0;
}

-- tmp_pid1 == 0 ? -1 : tmp_pid1
abbrev pub no_pid_zero : ℤ → ℤ
no_pid_zero (pos n) = if n == 0 then negsuc 0 else pos n
no_pid_zero (negsuc n) = negsuc n

module _ (k : Conversions) where
  open k use {timespec_to_ns, cputime_to_usecs}

  unfoldable pub child_step : ChildScan → Task → ChildScan
  child_step s task =
      let time_ns = timespec_to_ns task.start_time in
      let s' = record s {
        cutime = add64 s.cutime (cputime_to_usecs task.utime);
        cstime = add64 s.cstime (cputime_to_usecs task.stime);
      } in
      if ltb time_ns s'.tmp_st1
      then record s' { tmp_st1 = time_ns; tmp_pid1 = pos task.pid }
      else s'

  unfoldable pub child_loop : ChildScan → List Task → ChildScan
  child_loop s [] = s
  child_loop s (task ∷ tasks) = child_loop (child_step s task) tasks

  -- Forwards, then backwards over the same list.
  unfoldable pub scan_children : List Task → ChildScan
  scan_children children = child_loop (child_loop child_start children) (reverse children)

  unfoldable pub sibling_step : ℕ → SiblingScan → Task → SiblingScan
  sibling_step start s task =
      let time_ns = timespec_to_ns task.start_time in
      if ltb time_ns start && ltb s.tmp_st1 time_ns
      then record s { tmp_st1 = time_ns; tmp_pid1 = pos task.pid }
      else if ltb start time_ns && ltb time_ns s.tmp_st2
      then record s { tmp_st2 = time_ns; tmp_pid2 = pos task.pid }
      else s

  unfoldable pub sibling_loop : ℕ → SiblingScan → List Task → SiblingScan
  sibling_loop start s [] = s
  sibling_loop start s (task ∷ tasks) = sibling_loop start (sibling_step start s task) tasks

  unfoldable pub scan_siblings : ℕ → List Task → SiblingScan
  scan_siblings start siblings =
      sibling_loop start (sibling_loop start sibling_start siblings) (reverse siblings)

  unfoldable pub describe : Current → ProcessInfo
  describe c =
      let start = timespec_to_ns c.task.start_time in
      let ch = scan_children c.children in
      let sib = scan_siblings start c.siblings in
      record {
        state = c.task.state;
        pid = c.task.pid;
        parent_pid = c.parent_pid;
        youngest_child = ch.tmp_pid1;
        younger_sibling = sib.tmp_pid2;
        older_sibling = no_pid_zero sib.tmp_pid1;
        uid = c.uid;
        start_time = start;
        user_time = cputime_to_usecs c.task.utime;
        sys_time = cputime_to_usecs c.task.stime;
        cutime = ch.cutime;
        cstime = ch.cstime;
      }

abbrev pub efault : ℕ
efault = 14

-- The value returned, and what stands in the caller's memory, if it was written. `copies` says
-- whether copy_to_user copies everything.
unfoldable pub new_sys_cs3013_syscall2 : Conversions → Bool → Current → ℕ × Option ProcessInfo
new_sys_cs3013_syscall2 k copies c = if copies then (1, some (describe k c)) else (efault, none)
