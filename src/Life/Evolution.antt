-- ===== src/Life/Evolution.antt =====
-- project3/life.cpp: many generations of the game, on grids.
use cs3013_operating_systems.Prelude.{ℕ, zero, suc, ◌<◌, ◌≡◌, refl, ◌∙◌, false, arith}
use cs3013_operating_systems.Life.Neighbors.{Grid, bordered, living_neighbors, next_grid}

-- So many generations of Conway's game.
unfoldable pub generations : ℕ → ℕ → ℕ → Grid → Grid
generations lines columns zero g = g
generations lines columns (suc k) g = generations lines columns k (next_grid lines columns g)

module _ (lines columns : ℕ) where
  -- Two grids with the same cells in the matrix.
  abbrev pub Same : Grid → Grid → Type 0
  Same g h = (i j : ℕ) → i < lines → j < columns → g i j ≡ h i j

  bordered-Same :
      (g h : Grid)
      → Same g h
      → (i j : ℕ) → bordered lines columns g i j ≡ bordered lines columns h i j
  unfolding bordered
  bordered-Same g h s zero j = refl
  bordered-Same g h s (suc i) zero = refl
  bordered-Same g h s (suc i) (suc j) = ground (arith, s i j)

  pub next_grid-Same :
      (g h : Grid) → Same g h → Same (next_grid lines columns g) (next_grid lines columns h)
  unfolding living_neighbors
  next_grid-Same g h s i j p q =
      rw
        (
          s i j p q,
          bordered-Same g h s i j,
          bordered-Same g h s i (suc j),
          bordered-Same g h s i (suc (suc j)),
          bordered-Same g h s (suc i) j,
          bordered-Same g h s (suc i) (suc (suc j)),
          bordered-Same g h s (suc (suc i)) j,
          bordered-Same g h s (suc (suc i)) (suc j),
          bordered-Same g h s (suc (suc i)) (suc (suc j)),
        )
        refl

  pub generations-none :
      (k : ℕ) (g : Grid) → ¬ (0 < k) → (i j : ℕ) → g i j ≡ generations lines columns k g i j
  unfolding generations
  generations-none zero g h i j = refl
  generations-none (suc k) g h i j = absurd (h (omega arith))

  pub generations-Same :
      (k : ℕ) (g h : Grid)
      → Same g h
      → Same (generations lines columns k g) (generations lines columns k h)
  unfolding generations
  generations-Same zero g h s = s
  generations-Same (suc k) g h s =
      generations-Same k (next_grid lines columns g) (next_grid lines columns h)
        (next_grid-Same g h s)

  -- A grid that the next generation does not change stays as it is.
  pub generations-still :
      (k : ℕ) (g : Grid)
      → Same (next_grid lines columns g) g
      → Same (generations lines columns k g) g
  unfolding generations
  generations-still zero g s i j p q = refl
  generations-still (suc k) g s i j p q =
      generations-Same k (next_grid lines columns g) g s i j p q ∙ generations-still k g s i j p q

  abbrev pub dead : Grid
  dead i j = false

  bordered-dead : (i j : ℕ) → bordered lines columns dead i j ≡ false
  unfolding bordered
  bordered-dead zero j = refl
  bordered-dead (suc i) zero = refl
  bordered-dead (suc i) (suc j) = ground arith

  pub next_grid-dead : Same (next_grid lines columns dead) dead
  unfolding living_neighbors
  next_grid-dead i j p q =
      rw
        (
          bordered-dead i j,
          bordered-dead i (suc j),
          bordered-dead i (suc (suc j)),
          bordered-dead (suc i) j,
          bordered-dead (suc i) (suc (suc j)),
          bordered-dead (suc (suc i)) j,
          bordered-dead (suc (suc i)) (suc j),
          bordered-dead (suc (suc i)) (suc (suc j)),
        )
        refl
