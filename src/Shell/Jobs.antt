-- ===== src/Shell/Jobs.antt =====
-- project1/doit_processes.cpp: the list of the jobs in the background, `checkFinishedProcesses` and
-- `printJobs`.
pub mod Sweep
pub mod Waiting
use cs3013_operating_systems.Prelude.{
  ℕ, zero, suc, ◌+◌, Bool, true, false, ◌&&◌, List, [], ◌∷◌, ◌++◌, Option, none, some, length,
  get_elem?, if◌then◌else◌, update,
}

pub record Process : Type 0 where
  pub pid : ℕ
  pub process_name : List ℕ

-- Which processes are children that nobody has waited for yet.
abbrev pub Children : Type 0
Children = ℕ → Bool

-- `waitpid` with WNOHANG, where `ended` says which processes have ended: it returns the pid of a
-- child that has ended and that nobody has waited for, and this child is then waited for.
abbrev pub waits : Children → (ℕ → Bool) → ℕ → Bool
waits children ended pid = children pid && ended pid

-- A line "[number] pid name", which the list of jobs prints, and with "Completed" the check.
pub record Line : Type 0 where
  pub number : ℕ
  pub process : Process

-- processes.erase(processes.begin() + i)
unfoldable pub erase : List Process → ℕ → List Process
erase [] i = []
erase (p ∷ ps) zero = ps
erase (p ∷ ps) (suc i) = p ∷ erase ps i

pub record Swept : Type 0 where
  pub kept : List Process
  pub children : Children
  pub lines : List Line

-- for(int i = left - 1; i >= 0; --i); none is an index out of range.
unfoldable pub check_loop : (ℕ → Bool) → ℕ → Swept → Option Swept
unfolding erase
check_loop ended zero s = some s
check_loop ended (suc i) s = elim (get_elem? s.kept i) [
  | none ↦ none
  | some p ↦ elim (waits s.children ended p.pid) [
    | true ↦ check_loop ended i (record {
      kept = erase s.kept i;
      children = update s.children p.pid false;
      lines = s.lines ++ (record { number = i + 1; process = p } ∷ []);
    })
    | false ↦ check_loop ended i s
  ]
]

unfoldable pub check_finished_processes : (ℕ → Bool) → Children → List Process → Option Swept
unfolding check_loop
check_finished_processes ended children processes =
    check_loop ended (length processes)
      (record { kept = processes; children = children; lines = [] })

-- for(int i = 0; ...), from `number - 1` on.
unfoldable pub print_from : ℕ → List Process → List Line
print_from number [] = []
print_from number (p ∷ ps) = record { number = number; process = p } ∷ print_from (number + 1) ps

unfoldable pub print_jobs : List Process → List Line
unfolding print_from
print_jobs processes = print_from 1 processes
