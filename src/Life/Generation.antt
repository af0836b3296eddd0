-- ===== src/Life/Generation.antt =====
-- project3/life.cpp: one generation. The threads write cells of `after` in any order, and together
-- they write the next generation of the game.
use mathlib.Core.List.{Perm}
use mathlib.Core.List.Perm
use cs3013_operating_systems.Prelude.{ℕ, ◌≤◌, ◌<◌, ◌≡◌, refl, sym, ap, ◌∙◌, List, [], ◌∷◌, arith}
use cs3013_operating_systems.Prelude.Totals.{total-perm}
use cs3013_operating_systems.Prelude.Int.{ℤ}
use cs3013_operating_systems.Life.{nonzero, LineRange, all_ranges, thread_generation}
use cs3013_operating_systems.Life.Cells.{
  Cell, thread_cells, cells_of, run_cells, hits, wide, thread_generation-run_cells, run_cells-at,
  run_cells-append,
}
use cs3013_operating_systems.Life.Ranges.{all_ranges-hits, ranges-wide}
use cs3013_operating_systems.Life.Neighbors.{Padded, alive, next_grid, next_cell-next_grid}

-- All threads of a generation, one after the other.
unfoldable pub run_threads : ℕ → ℕ → (ℕ → ℤ) → List LineRange → (ℕ → ℤ) → ℕ → ℤ
run_threads lines columns before [] after = after
run_threads lines columns before (r ∷ rs) after =
    run_threads lines columns before rs (thread_generation lines columns before r after)

run_threads-run_cells :
    (lines columns : ℕ) (before : ℕ → ℤ) (rs : List LineRange) (after : ℕ → ℤ)
    → run_threads lines columns before rs after
      ≡ run_cells lines columns before (cells_of columns rs) after
unfolding run_threads cells_of run_cells
run_threads-run_cells lines columns before [] after = refl
run_threads-run_cells lines columns before (r ∷ rs) after =
    run_threads-run_cells lines columns before rs (thread_generation lines columns before r after)
    ∙ ap (λ m. run_cells lines columns before (cells_of columns rs) m)
        (thread_generation-run_cells lines columns before r after)
    ∙ sym
        (run_cells-append lines columns before (thread_cells columns r) (cells_of columns rs) after)

module _ (lines columns n : ℕ) where
  -- Whatever the order in which the threads' cells of a generation are computed and whatever
  -- `after` held, the cells alive in `after` are then those of the next generation of Conway's
  -- game, all cells outside of the matrix being dead; where there are not more threads than lines
  -- and not more than 40 columns, and the memory just right of and below the cells is zero.
  pub any_order-next_grid :
      (before after : ℕ → ℤ) (schedule : List Cell)
      → 0 < n
      → n ≤ lines
      → columns ≤ 40
      → Padded lines columns before
      → Perm schedule (cells_of columns (all_ranges lines n))
      → (i j : ℕ) → i < lines
      → j < columns
      → alive (run_cells lines columns before schedule after) i j
        ≡ next_grid lines columns (alive before) i j
  any_order-next_grid before after schedule p q w padded perm i j h g =
      let once = total-perm (hits i j) perm ∙ all_ranges-hits lines columns n i j p q h g in
      let narrow = total-perm wide perm ∙ ranges-wide columns (all_ranges lines n) w in
      ap nonzero (
        run_cells-at lines columns before schedule after i j (omega arith) narrow
        ∙ ground (arith, once))
      ∙ next_cell-next_grid lines columns before padded i j h g

  pub run_threads-next_grid :
      (before after : ℕ → ℤ)
      → 0 < n
      → n ≤ lines
      → columns ≤ 40
      → Padded lines columns before
      → (i j : ℕ) → i < lines
      → j < columns
      → alive (run_threads lines columns before (all_ranges lines n) after) i j
        ≡ next_grid lines columns (alive before) i j
  run_threads-next_grid before after p q w padded i j h g =
      ap (λ m. alive m i j) (run_threads-run_cells lines columns before (all_ranges lines n) after)
      ∙ any_order-next_grid before after (cells_of columns (all_ranges lines n)) p q w padded
          (Perm.refl (cells_of columns (all_ranges lines n))) i j h g
