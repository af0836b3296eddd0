-- ===== src/Life/Cells.antt =====
-- project3/life.cpp: the cells that the threads compute in a generation, as a list.
use cs3013_operating_systems.Prelude.{
  ℕ, zero, suc, ◌+◌, ◌-◌, ◌<◌, ◌≡◌, refl, sym, ap, ◌∙◌, List, [], ◌∷◌, ◌++◌, ◌&&◌, ltb, ◌==◌,
  if◌then◌else◌, arith,
}
use cs3013_operating_systems.Prelude.Totals.{total}
use cs3013_operating_systems.Prelude.Int.{ℤ}
use cs3013_operating_systems.Life.{
  address, for_columns, for_lines, next_cell, compute_cell, compute_lines, LineRange,
  thread_generation,
}

pub record Cell : Type 0 where
  pub line : ℕ
  pub column : ℕ

-- `left` cells of a line, from `column` on, and `left` lines of `columns` cells, in the order of the
-- loops.
unfoldable pub line_cells : ℕ → ℕ → ℕ → List Cell
line_cells line zero column = []
line_cells line (suc left) column =
    record { line = line; column = column } ∷ line_cells line left (column + 1)

unfoldable pub lines_cells : ℕ → ℕ → ℕ → List Cell
lines_cells columns zero line = []
lines_cells columns (suc left) line =
    line_cells line columns 0 ++ lines_cells columns left (line + 1)

-- The cells of one thread, and of all threads one after the other.
abbrev pub thread_cells : ℕ → LineRange → List Cell
thread_cells columns r = lines_cells columns (r.value2 + 1 - r.value1) r.value1

unfoldable pub cells_of : ℕ → List LineRange → List Cell
cells_of columns [] = []
cells_of columns (r ∷ rs) = thread_cells columns r ++ cells_of columns rs

-- Cells computed one after the other, by whatever threads.
unfoldable pub run_cells : ℕ → ℕ → (ℕ → ℤ) → List Cell → (ℕ → ℤ) → ℕ → ℤ
run_cells lines columns before [] after = after
run_cells lines columns before (c ∷ cs) after =
    run_cells lines columns before cs (compute_cell lines columns before c.line c.column after)

-- The cells `c` that lie at (i, j), and those outside of the 40 columns.
abbrev pub hits : ℕ → ℕ → Cell → ℕ
hits i j c = if c.line == i && c.column == j then 1 else 0

abbrev pub wide : Cell → ℕ
wide c = if ltb c.column 40 then 0 else 1

module _ (lines columns : ℕ) (before : ℕ → ℤ) where
  pub run_cells-append :
      (cs ds : List Cell) (after : ℕ → ℤ)
      → run_cells lines columns before (cs ++ ds) after
        ≡ run_cells lines columns before ds (run_cells lines columns before cs after)
  unfolding run_cells
  run_cells-append [] ds after = refl
  run_cells-append (c ∷ cs) ds after =
      run_cells-append cs ds (compute_cell lines columns before c.line c.column after)

  for_columns-run_cells :
      (line left column : ℕ) (after : ℕ → ℤ)
      → for_columns (compute_cell lines columns before) line left column after
        ≡ run_cells lines columns before (line_cells line left column) after
  unfolding for_columns run_cells line_cells
  for_columns-run_cells line zero column after = refl
  for_columns-run_cells line (suc left) column after =
      for_columns-run_cells line left (column + 1)
        (compute_cell lines columns before line column after)

  for_lines-run_cells :
      (left line : ℕ) (after : ℕ → ℤ)
      → for_lines (compute_cell lines columns before) columns left line after
        ≡ run_cells lines columns before (lines_cells columns left line) after
  unfolding for_lines run_cells lines_cells
  for_lines-run_cells zero line after = refl
  for_lines-run_cells (suc left) line after =
      for_lines-run_cells left (line + 1)
        (for_columns (compute_cell lines columns before) line columns 0 after)
      ∙ ap (λ m. run_cells lines columns before (lines_cells columns left (line + 1)) m)
          (for_columns-run_cells line columns 0 after)
      ∙ sym
          (run_cells-append (line_cells line columns 0) (lines_cells columns left (line + 1)) after)

  -- A thread's part of a generation is its cells, one after the other.
  pub thread_generation-run_cells :
      (r : LineRange) (after : ℕ → ℤ)
      → thread_generation lines columns before r after
        ≡ run_cells lines columns before (thread_cells columns r) after
  unfolding thread_generation compute_lines
  thread_generation-run_cells r after = for_lines-run_cells (r.value2 + 1 - r.value1) r.value1 after

  pub compute_cell-at :
      (x y : ℕ) (after : ℕ → ℤ) (i j : ℕ)
      → y < 40
      → j < 40
      → compute_cell lines columns before x y after (address i j)
        ≡ (if x == i && y == j then next_cell lines columns before i j else after (address i j))
  unfolding compute_cell
  compute_cell-at x y after i j g h = ground arith

  pub wide-column : (c : Cell) → wide c ≡ 0 → c.column < 40
  wide-column c z = ground arith

  -- A cell of the matrix that is computed holds its next value, whatever else is computed when.
  pub run_cells-at :
      (cs : List Cell) (after : ℕ → ℤ) (i j : ℕ)
      → j < 40
      → total wide cs ≡ 0
      → run_cells lines columns before cs after (address i j) ≡ (
          if total (hits i j) cs == 0
          then after (address i j)
          else next_cell lines columns before i j)
  unfolding run_cells total compute_cell
  run_cells-at [] after i j h z = refl
  run_cells-at (c ∷ cs) after i j h z =
      run_cells-at cs (compute_cell lines columns before c.line c.column after) i j h (omega arith)
      ∙ ground (arith, compute_cell-at c.line c.column after i j (wide-column c (omega arith)) h)
