-- ===== src/Life/Neighbors.antt =====
-- project3/life.cpp: `getNumberOfNeighbors` counts the living neighbors of a cell, where the
-- memory just right of and below the matrix is zero.
use cs3013_operating_systems.Prelude.{
  ℕ, zero, suc, ◌+◌, ◌-◌, ◌≤◌, ◌<◌, ◌≡◌, refl, ap, ◌∙◌, Bool, true, false, ◌&&◌, ◌||◌, leb, ltb,
  ◌==◌, dec_lt, arith,
}
use cs3013_operating_systems.Prelude.Int.{ℤ, pos}
use cs3013_operating_systems.Life.{address, nonzero, counts, get_number_of_neighbors, next_cell}

-- A grid without edges in memory: which cells live.
abbrev pub Grid : Type 0
Grid = ℕ → ℕ → Bool

abbrev pub alive : (ℕ → ℤ) → Grid
alive m i j = nonzero (m (address i j))

-- The cells just outside, which the code reads: those right of each line, and those of the line
-- below the last one.
pub record Padded (lines columns : ℕ) (m : ℕ → ℤ) : Type 0 where
  pub right : (i : ℕ) → i ≤ lines → m (address i columns) ≡ pos 0
  pub below : (j : ℕ) → j ≤ columns → m (address lines j) ≡ pos 0

abbrev pub bit : Bool → ℕ
bit true = 1
bit false = 0

module _ (lines columns : ℕ) where
  -- The grid with a dead border: line i + 1 and column j + 1 here are i and j of the grid.
  unfoldable pub bordered : Grid → ℕ → ℕ → Bool
  bordered g zero j = false
  bordered g (suc i) zero = false
  bordered g (suc i) (suc j) = ltb i lines && ltb j columns && g i j

  -- The living cells among the eight around (i, j).
  unfoldable pub living_neighbors : Grid → ℕ → ℕ → ℕ
  unfolding bordered
  living_neighbors g i j =
      bit (bordered g i j)
      + bit (bordered g i (suc j))
      + bit (bordered g i (suc (suc j)))
      + bit (bordered g (suc i) j)
      + bit (bordered g (suc i) (suc (suc j)))
      + bit (bordered g (suc (suc i)) j)
      + bit (bordered g (suc (suc i)) (suc j))
      + bit (bordered g (suc (suc i)) (suc (suc j)))

  module _ (m : ℕ → ℤ) (padded : Padded lines columns m) where
    open padded use {right, below}

    -- A cell that the code reads, inside or just outside.
    count_at :
        (x y a : ℕ)
        → a ≡ address x y
        → x ≤ lines
        → y ≤ columns
        → counts (m a) true ≡ bit (bordered (alive m) (suc x) (suc y))
    unfolding bordered
    count_at x y a e h g = elim (dec_lt x lines) [
      | no out ↦ ground (arith, ap m e, below y g, (let q : x ≡ lines = omega arith in q))
      | yes inx ↦ elim (dec_lt y columns) [
        | no out ↦ ground (arith, ap m e, right x h, (let q : y ≡ columns = omega arith in q))
        | yes iny ↦ ground (arith, ap m e)
      ]
    ]

    -- The eight neighbors; `i` and `j` are the cell's.
    up_left :
        (i j : ℕ)
        → i < lines
        → j < columns
        → counts (m (address i j - 41)) (leb 1 i && leb 1 j) ≡ bit (bordered (alive m) i j)
    unfolding bordered
    up_left zero j h g = ground arith
    up_left (suc i) zero h g = ground arith
    up_left (suc i) (suc j) h g = ground (
      arith,
      count_at i j (address (suc i) (suc j) - 41) (omega arith) (omega arith) (omega arith),
    )

    up :
        (i j : ℕ)
        → i < lines
        → j < columns
        → counts (m (address i j - 40)) (leb 1 i) ≡ bit (bordered (alive m) i (suc j))
    unfolding bordered
    up zero j h g = ground arith
    up (suc i) j h g =
        ground
          (arith, count_at i j (address (suc i) j - 40) (omega arith) (omega arith) (omega arith))

    up_right :
        (i j : ℕ)
        → i < lines
        → j < columns
        → counts (m (address i j - 39)) (leb 1 i && leb (j + 1) columns)
          ≡ bit (bordered (alive m) i (suc (suc j)))
    unfolding bordered
    up_right zero j h g = ground arith
    up_right (suc i) j h g = ground (
      arith,
      count_at i (suc j) (address (suc i) j - 39) (omega arith) (omega arith) (omega arith),
    )

    left :
        (i j : ℕ)
        → i < lines
        → j < columns
        → counts (m (address i j - 1)) (leb 1 j) ≡ bit (bordered (alive m) (suc i) j)
    unfolding bordered
    left i zero h g = ground arith
    left i (suc j) h g =
        ground
          (arith, count_at i j (address i (suc j) - 1) (omega arith) (omega arith) (omega arith))

    right_of :
        (i j : ℕ)
        → i < lines
        → j < columns
        → counts (m (address i j + 1)) (leb (j + 1) columns)
          ≡ bit (bordered (alive m) (suc i) (suc (suc j)))
    right_of i j h g =
        ground
          (arith, count_at i (suc j) (address i j + 1) (omega arith) (omega arith) (omega arith))

    down_left :
        (i j : ℕ)
        → i < lines
        → j < columns
        → counts (m (address i j + 39)) (leb (i + 1) lines && leb 1 j)
          ≡ bit (bordered (alive m) (suc (suc i)) j)
    unfolding bordered
    down_left i zero h g = ground arith
    down_left i (suc j) h g = ground (
      arith,
      count_at (suc i) j (address i (suc j) + 39) (omega arith) (omega arith) (omega arith),
    )

    down :
        (i j : ℕ)
        → i < lines
        → j < columns
        → counts (m (address i j + 40)) (leb (i + 1) lines)
          ≡ bit (bordered (alive m) (suc (suc i)) (suc j))
    down i j h g =
        ground
          (arith, count_at (suc i) j (address i j + 40) (omega arith) (omega arith) (omega arith))

    down_right :
        (i j : ℕ)
        → i < lines
        → j < columns
        → counts (m (address i j + 41)) (leb (i + 1) lines && leb (j + 1) columns)
          ≡ bit (bordered (alive m) (suc (suc i)) (suc (suc j)))
    down_right i j h g = ground (
      arith,
      count_at (suc i) (suc j) (address i j + 41) (omega arith) (omega arith) (omega arith),
    )

    -- Where the memory just right of and below the cells is zero, the count for a cell of the
    -- matrix is that of the living cells among its eight neighbors, all cells outside being dead.
    pub get_number_of_neighbors-living :
        (i j : ℕ)
        → i < lines
        → j < columns
        → get_number_of_neighbors lines columns m i j ≡ living_neighbors (alive m) i j
    unfolding get_number_of_neighbors living_neighbors
    get_number_of_neighbors-living i j h g =
        rw
          (
            up_left i j h g,
            up i j h g,
            up_right i j h g,
            left i j h g,
            right_of i j h g,
            down_left i j h g,
            down i j h g,
            down_right i j h g,
          )
          refl

-- Conway's rule for one cell, from its neighbors and whether it lives.
abbrev pub conway : ℕ → Bool → Bool
conway n lives = n == 3 || (n == 2 && lives)

-- The next generation of a grid.
abbrev pub next_grid : ℕ → ℕ → Grid → Grid
next_grid lines columns g i j = conway (living_neighbors lines columns g i j) (g i j)

next_cell-conway :
    (lines columns : ℕ) (m : ℕ → ℤ) (i j : ℕ)
    → nonzero (next_cell lines columns m i j)
      ≡ conway (get_number_of_neighbors lines columns m i j) (alive m i j)
unfolding next_cell
next_cell-conway lines columns m i j = ground arith

-- What a thread writes to a cell is alive exactly where the cell is alive in the next generation
-- of Conway's game on the matrix, all cells outside being dead, where the memory just right of and
-- below the cells is zero.
pub next_cell-next_grid :
    (lines columns : ℕ) (m : ℕ → ℤ)
    → Padded lines columns m
    → (i j : ℕ) → i < lines
    → j < columns
    → nonzero (next_cell lines columns m i j) ≡ next_grid lines columns (alive m) i j
next_cell-next_grid lines columns m padded i j h g =
    next_cell-conway lines columns m i j
    ∙ ap (λ n. conway n (alive m i j))
        (get_number_of_neighbors-living lines columns m padded i j h g)
