-- ===== src/Life/Rounds/Tests.antt =====
-- project3/life.cpp: a run of two threads, each with one line of one cell, for one generation.
use cs3013_operating_systems.Prelude.{ℕ, ◌≤◌, ◌≡◌, refl, ◌⊎◌, [], ◌∷◌, ◌==◌, if◌then◌else◌, arith}
use cs3013_operating_systems.Prelude.Int.{ℤ, pos}
use cs3013_operating_systems.Prelude.Totals.{total}
use cs3013_operating_systems.Life.{Matrices, all_ranges}
use cs3013_operating_systems.Life.Cells.{line_cells, lines_cells}
use cs3013_operating_systems.Life.Neighbors.{Padded, alive}
use cs3013_operating_systems.Life.Evolution.{generations, Same}
use cs3013_operating_systems.Life.Rounds.{
  Run, Reach, start, later, send_range, all_ranged, send_go, all_going, gather, last, recv_range,
  recv_go, compute, report, range_for,
}
use cs3013_operating_systems.Life.Rounds.Bound.{steps, most_steps}
use cs3013_operating_systems.Life.Rounds.Played.{Goes, Ends, run-Same, run-Ends, run_one_writer}

-- The cell of the first line lives.
abbrev one_cell : ℕ → ℤ
one_cell a = if a == 41 then pos 1 else pos 0

one_cell-Padded : Padded 2 1 one_cell
one_cell-Padded = record { right = λ i h. ground arith; below = λ j h. ground arith }

abbrev at_start : Matrices
at_start = record { before = one_cell; after = λ a. pos 0 }

-- Both threads have GO, and neither has computed its cell.
unfoldable both_busy : (s : Run) × Reach 2 1 2 1 at_start s
unfolding all_ranges lines_cells line_cells
both_busy = (
  _,
  (later
      (later
        (later
          (later
            (later
              (later
                (later
                  (later
                    (later (later start (send_range 1 refl (omega arith) refl))
                      (send_range 2 refl (omega arith) refl))
                    (all_ranged 3 refl (omega arith)))
                  (recv_range 1 (range_for 2 2 1) (omega arith) (omega arith) refl refl))
                (recv_range 2 (range_for 2 2 2) (omega arith) (omega arith) refl refl))
              (send_go 0 1 refl (omega arith) refl))
            (send_go 0 2 refl (omega arith) refl))
          (all_going 0 3 refl (omega arith)))
        (recv_go 2 0 (range_for 2 2 2) (omega arith) (omega arith) refl refl))
      (recv_go 1 0 (range_for 2 2 1) (omega arith) (omega arith) refl refl)),
)

-- The second thread is the first to compute and to report.
unfoldable second_first : (s : Run) × Reach 2 1 2 1 at_start s
unfolding both_busy all_ranges lines_cells line_cells
second_first = (
  _,
  (later
      (later
        (later
          (later
            (later
              (later
                (later both_busy.1 (
                  compute 2 0 (range_for 2 2 2) (record { line = 1; column = 0 }) [] (omega arith)
                    (omega arith) refl))
                (compute 1 0 (range_for 2 2 1) (record { line = 0; column = 0 }) [] (omega arith)
                  (omega arith) refl))
              (report 2 0 (range_for 2 2 2) (omega arith) (omega arith) refl refl))
            (gather 0 0 refl (omega arith) refl))
          (report 1 0 (range_for 2 2 1) (omega arith) (omega arith) refl refl))
        (gather 0 1 refl (omega arith) refl))
      (last 0 2 refl refl refl)),
)

run-Same_example :
    Same 2 1 (alive second_first.0.matrices.after) (generations 2 1 1 (alive one_cell))
unfolding second_first
run-Same_example =
    run-Same 2 1 2 1 at_start second_first.0 (omega arith) (omega arith) (omega arith) (omega arith)
      (omega arith) one_cell-Padded second_first.1 refl

run-Ends_example :
    (steps 2 1 2 1 (omega arith) (omega arith) (omega arith) at_start second_first.1
      ≤ most_steps 2 1 2 1)
    × (Ends 2 1 2 1 (omega arith) (omega arith) (omega arith) at_start second_first.0
        ⊎ Goes 2 1 2 1 (omega arith) (omega arith) (omega arith) at_start second_first.0)
run-Ends_example =
    run-Ends 2 1 2 1 at_start (omega arith) (omega arith) (omega arith) (omega arith)
      one_cell-Padded second_first.0 second_first.1

run_one_writer_example : ◌≡◌ {A = ℕ} 1 1
unfolding total both_busy all_ranges lines_cells line_cells
run_one_writer_example =
    run_one_writer 2 1 2 1 at_start both_busy.0 (omega arith) (omega arith) (omega arith)
      (omega arith) one_cell-Padded both_busy.1 1 1 0 0 0 0 (range_for 2 2 1) (range_for 2 2 1)
      (record { line = 0; column = 0 } ∷ []) (record { line = 0; column = 0 } ∷ []) (omega arith)
      (omega arith) (omega arith) (omega arith) refl refl (omega arith) (omega arith) (omega arith)
      (omega arith)
