-- ===== src/Life/Tests.antt =====
-- project3/life.cpp: a small game, and the theorems at it.
use cs3013_operating_systems.Prelude.{
  ℕ, ◌-◌, ◌≡◌, Bool, true, false, refl, ◌++◌, ◌||◌, ◌==◌, if◌then◌else◌, List, [], ◌∷◌, Option,
  some, length, arith,
}
use cs3013_operating_systems.Prelude.Text.{c_str}
use cs3013_operating_systems.Prelude.Strtok.{
  words, parts, strtok, skip_separators, token_of, after_token,
}
use cs3013_operating_systems.Prelude.Int.{ℤ, pos}
use cs3013_operating_systems.Life.{
  Matrices, is_all_zero, has_not_changed, update_matrix, for_lines, for_columns, all_ranges,
  line_ranges, thread_generation, compute_lines, compute_cell, next_cell, get_number_of_neighbors,
}
use cs3013_operating_systems.Life.Game.{play}
use cs3013_operating_systems.Life.Generation.{run_threads}
use cs3013_operating_systems.Life.Input.{read_lines, getlines, split_lines, read_tokens}
use cs3013_operating_systems.Life.Neighbors.{Padded}
use cs3013_operating_systems.Life.Input.Rows.{verdict}
use cs3013_operating_systems.Life.Input.Table.{width}
use cs3013_operating_systems.Life.Main.{main, Outcome, hangs}
use cs3013_operating_systems.Life.Main.Plays.{lines_of, table, first_grid, Shows, main-Shows}

-- Three cells in the middle one of three lines, in three columns.
abbrev blinker : ℕ → ℤ
blinker a = if a == 81 || a == 82 || a == 83 then pos 1 else pos 0

blinker-Padded : Padded 3 3 blinker
blinker-Padded = record { right = λ i h. ground arith; below = λ j h. ground arith }

abbrev start : Matrices
start = record { before = blinker; after = λ a. pos 0 }

-- Numbers of one digit.
abbrev digit : List ℕ → ℤ
digit [] = pos 0
digit (c ∷ s) = pos (c - 48)

-- "0,1" and "1 1"
abbrev two_lines : List (List ℕ)
two_lines = (48 ∷ b',' ∷ 49 ∷ []) ∷ (49 ∷ 32 ∷ 49 ∷ []) ∷ []

abbrev two_lines_text : List ℕ
two_lines_text = 48 ∷ b',' ∷ 49 ∷ 10 ∷ 49 ∷ 32 ∷ 49 ∷ []

abbrev the_file : List ℕ → Option (List ℕ)
the_file name = some (two_lines_text ++ (10 ∷ []))

-- "./life 2 f 3"
main-Shows_example :
    Shows
      (length (table two_lines_text))
      2
      3
      2
      (first_grid digit two_lines_text)
      (main digit the_file (λ a. pos 0) ((50 ∷ []) ∷ (b'f' ∷ []) ∷ (51 ∷ []) ∷ []))
unfolding verdict lines_of words c_str width
main-Shows_example =
    main-Shows digit the_file (λ a. pos 0) (50 ∷ []) (b'f' ∷ []) (51 ∷ []) [] two_lines_text 2 3
      (λ a. refl) (omega arith) refl refl (omega arith) (omega arith) refl (omega arith) refl
      (omega arith) (omega arith)

-- "1 1" twice, a block, which stays as it is.
abbrev block : List ℕ
block = 49 ∷ 32 ∷ 49 ∷ 10 ∷ 49 ∷ 32 ∷ 49 ∷ 10 ∷ []

abbrev hung : Outcome → Bool
hung (hangs played) = true
hung _ = false

-- "./life 2 f 1" hangs, and "./life 1 f 1" does not.
block_hangs :
    (hung (main digit (λ name. some block) (λ a. pos 0) ((50 ∷ []) ∷ (b'f' ∷ []) ∷ (49 ∷ []) ∷ []))
      ≡ true)
    × (hung
          (main digit (λ name. some block) (λ a. pos 0) ((49 ∷ []) ∷ (b'f' ∷ []) ∷ (49 ∷ []) ∷ []))
        ≡ false)
unfolding main play read_lines getlines split_lines is_all_zero has_not_changed update_matrix
    for_lines for_columns all_ranges line_ranges run_threads thread_generation compute_lines
    compute_cell next_cell get_number_of_neighbors read_tokens words parts c_str strtok
    skip_separators token_of after_token
block_hangs = (refl, refl)
