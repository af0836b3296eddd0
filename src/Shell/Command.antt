-- ===== src/Shell/Command.antt =====
-- project1: `main` of doit.cpp, and `commandExecution` and `collectData` of doit_processes.cpp.
use cs3013_operating_systems.Prelude.{ℕ, Bool, List, length, ◌==◌, if◌then◌else◌}
use cs3013_operating_systems.Prelude.Int.{ℤ, pos, negsuc, ◌-ℤ◌}
use cs3013_operating_systems.Shell.Line.{Slot, Setup, filled, command_line_setup}

pub record Timeval : Type 0 where
  pub tv_sec : ℤ
  pub tv_usec : ℤ

-- `struct rusage`, as far as it is reported.
pub record Rusage : Type 0 where
  pub ru_utime : Timeval
  pub ru_stime : Timeval
  pub ru_nivcsw : ℤ
  pub ru_nvcsw : ℤ
  pub ru_majflt : ℤ
  pub ru_minflt : ℤ

-- C's `double`: its numbers are a parameter, with the conversion of a `long`, the sum, and the
-- product and quotient with 1000.0.
pub record Doubles (D : Type 0) : Type 0 where
  pub of_long : ℤ → D
  pub add : D → D → D
  pub times_1000 : D → D
  pub over_1000 : D → D

pub record Usage (D : Type 0) : Type 0 where
  pub sec : ℤ
  pub usec : ℤ
  pub user_time : D
  pub system_time : D
  pub clock_time : D
  pub involuntary : ℤ
  pub voluntary : ℤ
  pub pagefaults : ℤ
  pub reclaims : ℤ

module _ {D : Type 0} (d : Doubles D) where
  open d use {of_long, add, times_1000, over_1000}

  abbrev pub milliseconds : ℤ → ℤ → D
  milliseconds sec usec = add (times_1000 (of_long sec)) (over_1000 (of_long usec))

  -- `final` is what getrusage says at the call.
  unfoldable pub collect_data : Timeval → Timeval → Rusage → Rusage → Usage D
  unfolding ◌-ℤ◌
  collect_data start end initial final = record {
    sec = final.ru_utime.tv_sec;
    usec = final.ru_utime.tv_usec;
    user_time = milliseconds final.ru_utime.tv_sec final.ru_utime.tv_usec;
    system_time = milliseconds final.ru_stime.tv_sec final.ru_stime.tv_usec;
    clock_time = milliseconds (end.tv_sec -ℤ start.tv_sec) (end.tv_usec -ℤ start.tv_usec);
    involuntary = final.ru_nivcsw -ℤ initial.ru_nivcsw;
    voluntary = final.ru_nvcsw -ℤ initial.ru_nvcsw;
    pagefaults = final.ru_majflt -ℤ initial.ru_majflt;
    reclaims = final.ru_minflt -ℤ initial.ru_minflt;
  }

-- How a process ends `commandExecution`: it returns 0, which the parent does after its report; it is
-- another program with these arguments; the program is not found, or there is no process; or it
-- writes behind the array.
pub data Execution : Type 0 where
  returns : Execution
  becomes : List Slot → Execution
  not_found : List Slot → Execution
  fork_error : Execution
  bad_write : Execution

abbrev pub exec : (List Slot → Bool) → Setup → Execution
exec execvp (filled argv) = if execvp argv then becomes argv else not_found argv
exec execvp _ = bad_write

-- `fork` is what fork() returns in this process, `execvp` whether a program starts.
unfoldable pub command_execution : ℤ → (List Slot → Bool) → List Slot → List (List ℕ) → Execution
unfolding command_line_setup
command_execution (negsuc n) execvp argv args = fork_error
command_execution (pos n) execvp argv args =
    if n == 0 then exec execvp (command_line_setup argv args) else returns

pub data Start : Type 0 where
  shell_mode : Start
  command : Execution → Start

-- `args` is argv, with the program's name; with nothing but that it is a shell.
unfoldable pub main : ℤ → (List Slot → Bool) → List Slot → List (List ℕ) → Start
unfolding command_execution
main fork execvp argv args =
    if length args == 1 then shell_mode else command (command_execution fork execvp argv args)
