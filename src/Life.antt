-- ===== src/Life.antt =====
-- project3/life.cpp: the game of life, a generation at a time.
pub mod Loops
pub mod Neighbors
pub mod Cells
pub mod Ranges
pub mod Generation
pub mod Evolution
pub mod Game
pub mod Input
pub mod Main
pub mod Rounds
pub mod Ending
mod Tests
use package.cs3013_operating_systems.Prelude.{
  ℕ, zero, suc, ◌+◌, ◌-◌, ◌*◌, ◌/◌, List, [], ◌∷◌, ◌++◌, Bool, true, false, not, ◌&&◌, ◌||◌, leb,
  ◌==◌, if◌then◌else◌,
}
use package.cs3013_operating_systems.Prelude.Int.{ℤ, pos, negsuc}

abbrev pub max_grid : ℕ
max_grid = 40

-- Where before[line][column] lies, in a memory counted in `int`s: before[0][0] is at 41, so that
-- before[-1][-1] is at 0. A row has 40 entries, so before[line][40] is before[line + 1][0].
abbrev pub address : ℕ → ℕ → ℕ
address line column = 41 + max_grid * line + column

abbrev pub nonzero : ℤ → Bool
nonzero (pos zero) = false
nonzero _ = true

abbrev pub same_int : ℤ → ℤ → Bool
same_int (pos a) (pos b) = a == b
same_int (negsuc a) (negsuc b) = a == b
same_int _ _ = false

-- The two matrices, as memories that go on on all sides. In the program one follows the other, and
-- before[40] is a row of it: the model is that of the program for fewer than 40 lines.
pub record Matrices : Type 0 where
  pub before : ℕ → ℤ
  pub after : ℕ → ℤ

abbrev pub poke : (ℕ → ℤ) → ℕ → ℤ → ℕ → ℤ
poke m a v b = if a == b then v else m b

-- for(line = line; `left` rounds) for(column = 0; column < columns) body
unfoldable pub for_columns {ℓ} : {S : Type ℓ} → (ℕ → ℕ → S → S) → ℕ → ℕ → ℕ → S → S
for_columns body line zero column s = s
for_columns body line (suc left) column s =
    for_columns body line left (column + 1) (body line column s)

unfoldable pub for_lines {ℓ} : {S : Type ℓ} → (ℕ → ℕ → S → S) → ℕ → ℕ → ℕ → S → S
unfolding for_columns
for_lines body columns zero line s = s
for_lines body columns (suc left) line s =
    for_lines body columns left (line + 1) (for_columns body line columns 0 s)

-- One `if` of getNumberOfNeighbors: the cell is read first, wherever it lies.
abbrev pub counts : ℤ → Bool → ℕ
counts cell guard = if nonzero cell && guard then 1 else 0

-- `lineSize` and `columnSize`.
module _ (lines columns : ℕ) where
  unfoldable pub get_number_of_neighbors : (ℕ → ℤ) → ℕ → ℕ → ℕ
  get_number_of_neighbors before line column =
      let a = address line column in
      counts (before (a - 41)) (leb 1 line && leb 1 column)
      + counts (before (a - 40)) (leb 1 line)
      + counts (before (a - 39)) (leb 1 line && leb (column + 1) columns)
      + counts (before (a - 1)) (leb 1 column)
      + counts (before (a + 1)) (leb (column + 1) columns)
      + counts (before (a + 39)) (leb (line + 1) lines && leb 1 column)
      + counts (before (a + 40)) (leb (line + 1) lines)
      + counts (before (a + 41)) (leb (line + 1) lines && leb (column + 1) columns)

  -- What a thread writes to after[line][column].
  unfoldable pub next_cell : (ℕ → ℤ) → ℕ → ℕ → ℤ
  next_cell before line column =
      let n = get_number_of_neighbors before line column in
      let old = before (address line column) in
      if leb n 1 || leb 4 n
      then pos 0
      else if n == 3
      then pos 1
      else if n == 2 && nonzero old
      then pos 1
      else old

  unfoldable pub compute_cell : (ℕ → ℤ) → ℕ → ℕ → (ℕ → ℤ) → ℕ → ℤ
  compute_cell before line column after =
      poke after (address line column) (next_cell before line column)

  -- One generation of a thread: the lines from `from` on.
  unfoldable pub compute_lines : (ℕ → ℤ) → ℕ → ℕ → (ℕ → ℤ) → ℕ → ℤ
  compute_lines before left from after = for_lines (compute_cell before) columns left from after

  unfoldable pub update_matrix : Matrices → Matrices
  update_matrix m = record m {
    before =
        for_lines (λ i j b. poke b (address i j) (m.after (address i j))) columns lines 0 m.before;
  }

  unfoldable pub is_all_zero : Matrices → Bool
  is_all_zero m =
      for_lines (λ i j flag. if nonzero (m.after (address i j)) then false else flag) columns lines
        0 true

  unfoldable pub has_not_changed : Matrices → Bool
  has_not_changed m =
      for_lines
        (λ i j flag.
          if not (same_int (m.before (address i j)) (m.after (address i j))) then false else flag)
        columns lines 0 true

-- What the parent tells a thread: its first and its last line.
pub record LineRange : Type 0 where
  pub value1 : ℕ
  pub value2 : ℕ

-- `left` more of the first `numberOfThreads - 1` ranges, from thread `i` on.
unfoldable pub line_ranges : ℕ → ℕ → ℕ → List LineRange
line_ranges range zero i = []
line_ranges range (suc left) i =
    record { value1 = i * range; value2 = (i + 1) * range - 1 } ∷ line_ranges range left (i + 1)

-- `n` threads, where 1 ≤ n ≤ lineSize.
unfoldable pub all_ranges : ℕ → ℕ → List LineRange
unfolding line_ranges
all_ranges lines n =
    line_ranges (lines / n) (n - 1) 0
    ++ (record { value1 = (n - 1) * (lines / n); value2 = lines - 1 } ∷ [])

-- What a thread does between GO and GENDONE: `for(line = lineFrom; line <= lineTo; ++line)`.
unfoldable pub thread_generation : ℕ → ℕ → (ℕ → ℤ) → LineRange → (ℕ → ℤ) → ℕ → ℤ
thread_generation lines columns before r after =
    compute_lines lines columns before (r.value2 + 1 - r.value1) r.value1 after
