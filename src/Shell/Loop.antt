-- ===== src/Shell/Loop.antt =====
-- project1/doit_processes.cpp: `shellMode`, a round of its loop for each line; and the waiting for
-- the jobs at `exit`.
pub mod Exit
pub mod Faults
pub mod Invariant
use cs3013_operating_systems.Prelude.{
  ℕ, zero, suc, ◌+◌, ◌-◌, Bool, true, false, List, [], ◌∷◌, ◌++◌, Option, none, some, length, ◌==◌,
  if◌then◌else◌, update, replicate, get_or,
}
use cs3013_operating_systems.Prelude.Text.{same_string}
use cs3013_operating_systems.Shell.Line.{
  Slot, garbage, null, word, argv_size, Setup, no_words, filled, overrun, no_fuel, shell_line_setup,
  cd_word, jobs_word, file_path,
}
use cs3013_operating_systems.Shell.Jobs.{
  Process, Children, Line, Swept, check_finished_processes, print_jobs,
}

-- The shell: the jobs in the background, its children in the kernel, and the current directory.
pub record Shell : Type 0 where
  pub processes : List Process
  pub children : Children
  pub directory : List ℕ

-- What the system answers in one round: the pid of a new process, which processes have ended when
-- the jobs are checked, for which child `wait(0)` returns, where `chdir` leads, and $HOME.
pub record System : Type 0 where
  pub fork : Option ℕ
  pub ended : ℕ → Bool
  pub wait : ℕ
  pub chdir : List ℕ → Option (List ℕ)
  pub home : List ℕ

-- What a round prints, apart from the prompt.
pub data Report : Type 0 where
  jobs : List Line → Report
  no_directory : List ℕ → Report
  fork_error : Report
  in_background : List Line → ℕ → ℕ → Report
  foreground : List Line → Report
  quiet : Report

-- How a round ends: with the next one, with the waiting for the jobs, or with an uncaught
-- std::out_of_range, a write behind the array, or exit(1).
pub data Turn : Type 0 where
  next : Shell → Report → Turn
  exits : Shell → Turn
  out_of_range : Turn
  bad_write : Turn
  fails : Report → Turn

abbrev pub ampersand : ℕ
ampersand = b'&'

abbrev pub exit_word : List ℕ
exit_word = b'e' ∷ b'x' ∷ b'i' ∷ b't' ∷ []

-- inStr.at(inStr.length() - 1), and inStr.erase(inStr.length() - 1) where it is '&'. none is the
-- exception for an empty string.
unfoldable pub read_background : List ℕ → Option (Bool × List ℕ)
read_background [] = none
read_background (c ∷ []) = some (if c == ampersand then (true, []) else (false, c ∷ []))
read_background (c ∷ d ∷ s) = elim (read_background (d ∷ s)) [
  | none ↦ none
  | some (background, rest) ↦ some (background, c ∷ rest)
]

-- strcmp(argvNew[0], name) == 0
abbrev pub names : Slot → List ℕ → Bool
names (word w) name = same_string w name
names _ name = false

-- `change_dir`, at argvNew[1].
unfoldable pub change_dir : System → Shell → Slot → Turn
change_dir sys sh (word d) = elim (sys.chdir d) [
  | none ↦ next sh (no_directory d)
  | some to ↦ next (record sh { directory = to }) quiet
]
change_dir sys sh _ = elim (sys.chdir sys.home) [
  | none ↦ next sh quiet
  | some to ↦ next (record sh { directory = to }) quiet
]

-- The parent after `fork`: it checks the jobs, and adds a job or waits. none is an index out of
-- range in the check.
abbrev pub parent_of : System → Shell → Bool → List ℕ → ℕ → Option Swept → Turn
parent_of sys sh background line pid none = out_of_range
parent_of sys sh background line pid (some r) =
    if background
    then next
        (record sh {
          processes = r.kept ++ (record { pid = pid; process_name = line } ∷ []);
          children = r.children;
        })
        (in_background r.lines (length r.kept + 1) pid)
    else next (record sh { processes = r.kept; children = update r.children sys.wait false })
        (foreground r.lines)

unfoldable pub run_program : System → Shell → Bool → List ℕ → Turn
run_program sys sh background line = elim (sys.fork) [
  | none ↦ fails fork_error
  | some pid ↦
      let children = update sh.children pid true in
      parent_of sys sh background line pid
        (check_finished_processes sys.ended children sh.processes)
]

unfoldable pub run_line : System → Shell → Bool → List ℕ → Setup → Turn
unfolding change_dir run_program
run_line sys sh background line no_words = next sh quiet
run_line sys sh background line overrun = bad_write
run_line sys sh background line no_fuel = bad_write
run_line sys sh background line (filled argv) =
    if same_string line exit_word
    then exits sh
    else if names (get_or argv 0 garbage) cd_word
    then change_dir sys sh (get_or argv 1 garbage)
    else if names (get_or argv 0 garbage) jobs_word
    then next sh (jobs (print_jobs sh.processes))
    else run_program sys sh background line

-- A round of the loop, where `argv` is what the array holds before.
unfoldable pub turn : System → Shell → List Slot → List ℕ → Turn
unfolding read_background run_line
turn sys sh argv line = elim (read_background line) [
  | none ↦ out_of_range
  | some (background, rest) ↦ run_line sys sh background rest (shell_line_setup argv rest)
]

-- while(processes.size() > 0), where `ended r` says which processes have ended at round `r`; none
-- where it is not over after so many rounds.
unfoldable pub exit_loop : (ℕ → ℕ → Bool) → ℕ → ℕ → Children → List Process → Option (List Line)
exit_loop ended fuel round children [] = some []
exit_loop ended zero round children (p ∷ ps) = none
exit_loop ended (suc fuel) round children (p ∷ ps) =
    elim (check_finished_processes (ended round) children (p ∷ ps)) [
      | none ↦ none
      | some r ↦ elim (exit_loop ended fuel (round + 1) r.children r.kept) [
        | none ↦ none
        | some lines ↦ some (r.lines ++ lines)
      ]
    ]
