-- ===== src/Shell/Loop/Faults.antt =====
-- project1/doit_processes.cpp: the lines for which a round of the shell ends in an exception or in a
-- write behind `argvNew`.
use cs3013_operating_systems.Prelude.{
  ℕ, ◌≡◌, Bool, true, false, List, [], ◌∷◌, ◌++◌, Option, none, some, length, leb, if◌then◌else◌,
  arith, ◌==◌,
}
use cs3013_operating_systems.Prelude.Text.{c_str}
use cs3013_operating_systems.Prelude.Strtok.{words}
use cs3013_operating_systems.Shell.Line.{is_space}
use cs3013_operating_systems.Shell.Loop.{
  Shell, Turn, out_of_range, bad_write, ampersand, read_background,
}

pub data Fault : Type 0 where
  exception : Fault
  write_behind : Fault
  no_fault : Fault

abbrev pub fault_of : Turn → Fault
fault_of out_of_range = exception
fault_of bad_write = write_behind
fault_of _ = no_fault

-- The faults that a line should show: the empty line, and lines of five words and more.
abbrev pub words_fault : List ℕ → Fault
words_fault rest = if leb 5 (length (words is_space (c_str rest))) then write_behind else no_fault

abbrev pub line_fault : Option (Bool × List ℕ) → Fault
line_fault none = exception
line_fault (some (background, rest)) = words_fault rest

-- Only the last byte of a line says whether it runs in the background.
pub read_background-snoc :
    (s : List ℕ) (c : ℕ)
    → read_background (s ++ (c ∷ []))
      ≡ some (if c == ampersand then (true, s) else (false, s ++ (c ∷ [])))
unfolding read_background
read_background-snoc [] c = ground arith
read_background-snoc (a ∷ []) c = ground arith
read_background-snoc (a ∷ b ∷ s) c =
    rw (read_background-snoc (b ∷ s) c, read_background) (ground arith)
