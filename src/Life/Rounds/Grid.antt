-- ===== src/Life/Rounds/Grid.antt =====
-- project3/life.cpp: the matrix when all threads have reported, and what the parent makes of it.
use cs3013_operating_systems.Prelude.{
  ℕ, zero, suc, ◌+◌, ◌-◌, ◌≤◌, ◌<◌, ◌≡◌, refl, sym, ap, ◌∙◌, true, [], arith,
}
use cs3013_operating_systems.Prelude.Totals.{total}
use cs3013_operating_systems.Life.{nonzero, Matrices, update_matrix}
use cs3013_operating_systems.Life.Neighbors.{Grid, Padded, alive, next_grid, next_cell-next_grid}
use cs3013_operating_systems.Life.Evolution.{
  generations, Same, next_grid-Same, generations-Same, generations-still,
}
use cs3013_operating_systems.Life.Game.{
  stops, stops-still, update_matrix-alive, update_matrix-Padded,
}
use cs3013_operating_systems.Life.Rounds.Shares.{owner}
use cs3013_operating_systems.Life.Rounds.Holds.{Part}

module _ (lines columns : ℕ) where
  generations-suc :
      (k : ℕ) (g : Grid)
      → generations lines columns (suc k) g
        ≡ next_grid lines columns (generations lines columns k g)
  unfolding generations
  generations-suc zero g = refl
  generations-suc (suc k) g = generations-suc k (next_grid lines columns g)

  generations-add :
      (a b : ℕ) (g : Grid)
      → generations lines columns (a + b) g
        ≡ generations lines columns b (generations lines columns a g)
  unfolding generations
  generations-add zero b g =
      ap (λ k. generations lines columns k g) (let e : 0 + b ≡ b = omega arith in e)
  generations-add (suc a) b g =
      ap (λ k. generations lines columns k g) (let e : suc a + b ≡ suc (a + b) = omega arith in e)
      ∙ generations-add a b (next_grid lines columns g)

  module _ (n gens : ℕ) (positive : 0 < n) (enough : n ≤ lines) (narrow : columns < 40)
      (first : Grid) (m : Matrices) where
    -- All threads have computed all of their cells.
    abbrev pub AllComputed : Type 0
    AllComputed = (i : ℕ) → 1 ≤ i → i ≤ n → Part lines columns n gens i [] m

    computed-next_grid :
        AllComputed
        → Padded lines columns m.before
        → Same lines columns (alive m.after) (next_grid lines columns (alive m.before))
    unfolding total
    computed-next_grid c padded x y p q =
        let (i, a, b, h) = owner lines columns n positive enough x y p q in
        ap nonzero ((c i a b).computed x y p q h refl)
        ∙ next_cell-next_grid lines columns m.before padded x y p q

    pub computed-generations :
        (g : ℕ)
        → AllComputed
        → Padded lines columns m.before
        → Same lines columns (alive m.before) (generations lines columns g first)
        → Same lines columns (alive m.after) (generations lines columns (g + 1) first)
    computed-generations g c padded s x y p q =
        computed-next_grid c padded x y p q
        ∙ next_grid-Same lines columns (alive m.before) (generations lines columns g first) s x y p
            q
        ∙ ap (λ f. f x y)
            (sym (generations-suc g first)
              ∙ ap (λ k. generations lines columns k first)
                  (let e : suc g ≡ g + 1 = omega arith in e))

    -- Where the parent sends STOP, the generations that are left change nothing.
    pub halted-generations :
        (g : ℕ)
        → AllComputed
        → Padded lines columns m.before
        → Same lines columns (alive m.before) (generations lines columns g first)
        → g + 1 < gens
        → stops lines columns m ≡ true
        → Same lines columns (alive m.after) (generations lines columns gens first)
    halted-generations g c padded s h e x y p q =
        let still = stops-still lines columns m e (computed-next_grid c padded) in
        let k = gens - (g + 1) in
        sym (generations-still lines columns k (alive m.after) still x y p q)
        ∙ generations-Same lines columns k (alive m.after) (generations lines columns (g + 1) first)
            (computed-generations g c padded s) x y p q
        ∙ ap (λ f. f x y)
            (sym (generations-add (g + 1) k first)
              ∙ ap (λ k. generations lines columns k first) (omega arith))

    -- The next round begins with the new generation.
    pub updated-generations :
        (g : ℕ)
        → AllComputed
        → Padded lines columns m.before
        → Same lines columns (alive m.before) (generations lines columns g first)
        → Padded lines columns (update_matrix lines columns m).before
          × Same lines columns
              (alive (update_matrix lines columns m).before)
              (generations lines columns (g + 1) first)
    updated-generations g c padded s = (
      update_matrix-Padded lines columns m narrow padded,
      λ x y p q.
          update_matrix-alive lines columns m (omega arith) x y p q
          ∙ computed-generations g c padded s x y p q,
    )
