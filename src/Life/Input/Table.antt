-- ===== src/Life/Input/Table.antt =====
-- project3/life.cpp: the table of numbers that a file holds, a row to a line.
use cs3013_operating_systems.Prelude.{
  ℕ, zero, suc, ◌≤◌, ◌≡◌, refl, ◌&&◌, List, [], ◌∷◌, ◌++◌, length, ◌==◌, ltb, if◌then◌else◌, arith,
}
use cs3013_operating_systems.Prelude.Int.{ℤ, pos}

abbrev pub Row : Type 0
Row = List (List ℕ)

module _ (atoi : List ℕ → ℤ) where
  unfoldable pub entry : Row → ℕ → ℤ
  entry [] y = pos 0
  entry (w ∷ ws) zero = atoi w
  entry (w ∷ ws) (suc y) = entry ws y

  -- The number in line `x` and column `y`, or 0 where there is none.
  unfoldable pub cell : List Row → ℕ → ℕ → ℤ
  unfolding entry
  cell [] x y = pos 0
  cell (r ∷ rs) zero y = entry r y
  cell (r ∷ rs) (suc x) y = cell rs x y

  entry-snoc :
      (front : Row) (w : List ℕ) (y : ℕ)
      → entry (front ++ (w ∷ [])) y ≡ (if y == length front then atoi w else entry front y)
  unfolding entry
  entry-snoc [] w zero = refl
  entry-snoc [] w (suc y) = ground arith
  entry-snoc (v ∷ front) w zero = ground arith
  entry-snoc (v ∷ front) w (suc y) = ground (arith, entry-snoc front w y)

  pub cell-snoc :
      (done : List Row) (front : Row) (w : List ℕ) (x y : ℕ)
      → cell (done ++ ((front ++ (w ∷ [])) ∷ [])) x y ≡ (
          if x == length done && y == length front then atoi w else cell (done ++ (front ∷ [])) x y)
  unfolding cell
  cell-snoc [] front w zero y = entry-snoc front w y
  cell-snoc [] front w (suc x) y = ground arith
  cell-snoc (r ∷ done) front w zero y = ground arith
  cell-snoc (r ∷ done) front w (suc x) y = ground (arith, cell-snoc done front w x y)

  -- An empty row changes nothing.
  pub cell-empty_row : (done : List Row) (x y : ℕ) → cell (done ++ ([] ∷ [])) x y ≡ cell done x y
  unfolding cell entry
  cell-empty_row [] zero y = refl
  cell-empty_row [] (suc x) y = refl
  cell-empty_row (r ∷ done) zero y = refl
  cell-empty_row (r ∷ done) (suc x) y = cell-empty_row done x y

  entry-right : (r : Row) (y : ℕ) → length r ≤ y → entry r y ≡ pos 0
  unfolding entry
  entry-right [] y h = refl
  entry-right (w ∷ ws) zero h = absurd (omega arith)
  entry-right (w ∷ ws) (suc y) h = entry-right ws y (omega arith)

-- The length of the longest row.
unfoldable pub width : List Row → ℕ
width [] = 0
width (r ∷ rs) = let w = width rs in if ltb w (length r) then length r else w

pub width-snoc :
    (done : List Row) (r : Row)
    → width (done ++ (r ∷ [])) ≡ (if ltb (width done) (length r) then length r else width done)
unfolding width
width-snoc [] r = ground arith
width-snoc (q ∷ done) r = ground (arith, width-snoc done r)

module _ (atoi : List ℕ → ℤ) where
  pub cell-right : (rs : List Row) (x y : ℕ) → width rs ≤ y → cell atoi rs x y ≡ pos 0
  unfolding cell width
  cell-right [] x y h = refl
  cell-right (r ∷ rs) zero y h = entry-right atoi r y (ground arith)
  cell-right (r ∷ rs) (suc x) y h = cell-right rs x y (ground arith)

  pub cell-below : (rs : List Row) (x y : ℕ) → length rs ≤ x → cell atoi rs x y ≡ pos 0
  unfolding cell
  cell-below [] x y h = refl
  cell-below (r ∷ rs) zero y h = absurd (omega arith)
  cell-below (r ∷ rs) (suc x) y h = cell-below rs x y (omega arith)
