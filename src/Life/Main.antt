-- ===== src/Life/Main.antt =====
-- project3/life.cpp: `main`, from its arguments to the last generation.
pub mod Plays
use cs3013_operating_systems.Prelude.{
  ℕ, zero, suc, ◌+◌, ◌-◌, Bool, true, false, List, [], ◌∷◌, Option, none, some, length, ltb, leb,
  ◌==◌, ◌&&◌, if◌then◌else◌,
}
use cs3013_operating_systems.Prelude.Int.{ℤ, pos, negsuc, pos_part, ltb_ℤ}
use package.cs3013_operating_systems.Life.{Matrices}
use package.cs3013_operating_systems.Life.Game.{Played, play}
use package.cs3013_operating_systems.Life.Input.{
  Input, Read, read, too_many_lines, too_many_columns, no_fuel, read_lines, getlines,
}

-- How `main` ends: by a refusal, in a division by zero or an array of negative size, or with the
-- matrices of the last generation, which it prints. Behind that it may not end, but wait for ever for
-- threads of which all but one wait for room in its mailbox.
pub data Outcome : Type 0 where
  invalid_input : Outcome
  no_generations : Outcome
  lines_refused : Outcome
  columns_refused : Outcome
  threads_refused : Outcome
  no_threads : Outcome
  no_result : Outcome
  ends : Played → Outcome
  hangs : Played → Outcome

abbrev pub max_thread : ℕ
max_thread = 10

-- numberOfThreads
abbrev pub limit_threads : ℤ → ℕ → ℤ
limit_threads threads lines = if ltb_ℤ (pos lines) threads then pos lines else threads

-- Joining the `n` threads. Those that were told to stop after their last generation do not look for
-- it: they send ALLDONE, which nobody receives, and of two there is one that waits for ever.
-- `Life.Ending` has the steps of this.
abbrev pub join_threads : ℕ → Played → Outcome
join_threads n played = if played.stopped_at_last && leb 2 n then hangs played else ends played

-- From the sizes on.
abbrev pub start_threads : (ℕ → ℤ) → ℕ → ℤ → ℕ → Input → Outcome
start_threads zeros lines threads generations s =
    if ltb_ℤ (pos max_thread) threads
    then threads_refused
    else if ltb_ℤ (pos 0) (limit_threads threads lines)
    then (let n = pos_part (limit_threads threads lines) in
        join_threads n
          (play lines s.max_col n generations 0 (record { before = s.before; after = zeros })))
    else no_threads

abbrev pub on_read : (ℕ → ℤ) → ℕ → ℤ → ℕ → Read → Outcome
on_read zeros lines threads generations too_many_lines = lines_refused
on_read zeros lines threads generations too_many_columns = columns_refused
on_read zeros lines threads generations no_fuel = no_result
on_read zeros lines threads generations (read s) = start_threads zeros lines threads generations s

-- lineSize = line - 1, for the lines of a file of which at least one is read.
abbrev pub run_file : (List ℕ → ℤ) → (ℕ → ℤ) → ℤ → ℤ → Option (List ℕ) → Outcome
run_file atoi zeros threads generations file =
    let ls = getlines file in
    if ltb_ℤ (pos 0) generations
    then on_read zeros (length ls - 1) threads (pos_part generations)
        (read_lines atoi ls 0 (record { before = zeros; max_col = 0 }))
    else no_generations

-- `args` is argv without the program's name; `files` gives what a file holds, and `zeros` is the
-- memory of the matrices at the start.
unfoldable pub main : (List ℕ → ℤ) → (List ℕ → Option (List ℕ)) → (ℕ → ℤ) → List (List ℕ) → Outcome
unfolding read_lines getlines play
main atoi files zeros (threads ∷ filename ∷ generations ∷ more) =
    if leb (length more) 2
    then run_file atoi zeros (atoi threads) (atoi generations) (files filename)
    else invalid_input
main atoi files zeros _ = invalid_input
