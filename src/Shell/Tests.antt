-- ===== src/Shell/Tests.antt =====
-- project1: runs of the shell, and the theorems at them.
use cs3013_operating_systems.Prelude.{
  ℕ, ◌≡◌, refl, Bool, true, false, ◌||◌, List, [], ◌∷◌, none, some, inl, arith, ◌==◌, if◌then◌else◌,
  leb,
}
use cs3013_operating_systems.Prelude.Text.{c_str}
use cs3013_operating_systems.Prelude.Strtok.{words, strtok}
use cs3013_operating_systems.Shell.Line.{
  Slot, garbage, null, word, filled, is_space, file_path, shell_line_setup,
}
use cs3013_operating_systems.Shell.Line.Words.{line_of}
use cs3013_operating_systems.Shell.Line.Argv.{line_argv, shell_line_setup-words}
use cs3013_operating_systems.Shell.Jobs.{
  Process, Children, Line, check_finished_processes, check_loop,
}
use cs3013_operating_systems.Shell.Jobs.Sweep.{sweep, check_finished_processes-sweep}
use cs3013_operating_systems.Shell.Loop.{
  Shell, System, next, foreground, turn, run_program, exit_loop,
}
use cs3013_operating_systems.Shell.Loop.Exit.{exit_loop-ends, run_program-loses_job}
use cs3013_operating_systems.Shell.Loop.Invariant.{Keeps, turn-Keeps}

abbrev blank : List Slot
blank = garbage ∷ garbage ∷ garbage ∷ garbage ∷ garbage ∷ []

abbrev ls : List ℕ
ls = b'l' ∷ b's' ∷ []

abbrev minus_l : List ℕ
minus_l = b'-' ∷ b'l' ∷ []

abbrev ls_line : List ℕ
ls_line = line_of ((1, ls) ∷ (2, minus_l) ∷ [])

-- "/bin/ls", "-l", NULL
ls_argv :
    shell_line_setup blank ls_line
    ≡ filled (word (file_path ls) ∷ word minus_l ∷ null ∷ garbage ∷ garbage ∷ [])
unfolding shell_line_setup c_str strtok file_path
ls_argv = refl

shell_line_setup-words_example :
    shell_line_setup blank ls_line ≡ line_argv blank (words is_space (c_str ls_line))
shell_line_setup-words_example = shell_line_setup-words blank ls_line (omega arith)

abbrev job : ℕ → Process
job pid = record { pid = pid; process_name = ls }

abbrev three_jobs : List Process
three_jobs = job 10 ∷ job 11 ∷ job 12 ∷ []

abbrev children : Children
children n = n == 10 || (n == 11 || n == 12)

-- The first and the last job have ended.
abbrev two_ended : ℕ → Bool
two_ended n = n == 10 || n == 12

check_finished_processes-sweep_example :
    check_finished_processes two_ended children three_jobs
    ≡ some (sweep two_ended children 1 three_jobs)
check_finished_processes-sweep_example =
    check_finished_processes-sweep two_ended children three_jobs

abbrev all_by_two : ℕ → ℕ → Bool
all_by_two round n = two_ended n || leb 2 round

exit_loop-ends_example :
    (lines : List Line) × (exit_loop all_by_two 3 0 children three_jobs ≡ some lines)
exit_loop-ends_example =
    exit_loop-ends all_by_two 2 0 children three_jobs
      (
        refl,
        (λ e. omega arith, (λ e. omega arith, tt)),
        (refl, (λ e. omega arith, tt), (refl, tt, tt)),
      )
      (refl, (refl, (refl, tt)))

-- A shell with a job in the background; `ls` is process 20, and `wait(0)` returns for the job.
abbrev with_job : Shell
with_job = record { processes = job 10 ∷ []; children = children; directory = [] }

abbrev system_of : ℕ → System
system_of waits_for = record {
  fork = some 20;
  ended = λ n. false;
  wait = waits_for;
  chdir = λ d. none;
  home = [];
}

abbrev after_ls : Shell
after_ls = record with_job {
  children = λ n. if 10 == n then false else if 20 == n then true else children n;
}

ran_ls : run_program (system_of 10) with_job false ls ≡ next after_ls (foreground [])
unfolding run_program check_finished_processes check_loop
ran_ls = refl

run_program-loses_job_example :
    exit_loop all_by_two 100 0 after_ls.children after_ls.processes ≡ none
run_program-loses_job_example =
    run_program-loses_job (system_of 10) with_job after_ls ls (foreground []) ran_ls (inl refl)
      all_by_two 100

turn-Keeps_example : Keeps (turn (system_of 20) with_job blank ls_line)
turn-Keeps_example =
    turn-Keeps (system_of 20) with_job blank ls_line (refl, tt, tt) ((λ e. omega arith, tt), refl)
