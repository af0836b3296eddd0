-- ===== src/Life/Loops.antt =====
-- project3/life.cpp: what the loops over the cells do to a matrix and to a flag.
use cs3013_operating_systems.Prelude.{
  ℕ, zero, suc, ◌+◌, ◌≤◌, ◌<◌, ◌≡◌, refl, ◌∙◌, Bool, true, false, ◌&&◌, leb, ltb, ◌==◌,
  if◌then◌else◌, arith, sym, subst, ℕ_discrete,
}
use cs3013_operating_systems.Prelude.Int.{ℤ}
use cs3013_operating_systems.Life.{address, poke, for_columns, for_lines}

-- A loop that writes `f i j` to each cell.
abbrev pub write_cell : (ℕ → ℕ → ℤ) → ℕ → ℕ → (ℕ → ℤ) → ℕ → ℤ
write_cell f i j m = poke m (address i j) (f i j)

module _ (f : ℕ → ℕ → ℤ) where
  for_columns-write :
      (i left j : ℕ) (m : ℕ → ℤ) (x y : ℕ)
      → j + left ≤ 40
      → y < 40
      → for_columns (write_cell f) i left j m (address x y)
        ≡ (if i == x && (leb j y && ltb y (j + left)) then f x y else m (address x y))
  unfolding for_columns
  for_columns-write i zero j m x y h g = ground arith
  for_columns-write i (suc left) j m x y h g =
      for_columns-write i left (j + 1) (write_cell f i j m) x y (omega arith) g ∙ ground arith

  pub for_lines-write :
      (columns left i : ℕ) (m : ℕ → ℤ) (x y : ℕ)
      → columns ≤ 40
      → y < 40
      → for_lines (write_cell f) columns left i m (address x y)
        ≡ (if leb i x && ltb x (i + left) && ltb y columns then f x y else m (address x y))
  unfolding for_lines
  for_lines-write columns zero i m x y h g = ground arith
  for_lines-write columns (suc left) i m x y h g =
      for_lines-write columns left (i + 1) (for_columns (write_cell f) i columns 0 m) x y h g
      ∙ ground (arith, for_columns-write i columns 0 m x y (omega arith) g)

-- A loop that clears a flag where a test holds.
abbrev pub clear_flag : (ℕ → ℕ → Bool) → ℕ → ℕ → Bool → Bool
clear_flag bad i j flag = if bad i j then false else flag

module _ (bad : ℕ → ℕ → Bool) where
  for_columns-false : (i left j : ℕ) → for_columns (clear_flag bad) i left j false ≡ false
  unfolding for_columns
  for_columns-false i zero j = refl
  for_columns-false i (suc left) j = ground (arith, for_columns-false i left (j + 1))

  for_columns-flag :
      (i left j : ℕ) (flag : Bool) (y : ℕ)
      → for_columns (clear_flag bad) i left j flag ≡ true
      → j ≤ y
      → y < j + left
      → bad i y ≡ false
  unfolding for_columns
  for_columns-flag i zero j flag y e h g = absurd (omega arith)
  for_columns-flag i (suc left) j flag y e h g = ground (
    arith,
    for_columns-false i left (j + 1),
    for_columns-flag i left (j + 1) (clear_flag bad i j flag) y,
  )

  for_lines-false : (columns left i : ℕ) → for_lines (clear_flag bad) columns left i false ≡ false
  unfolding for_lines
  for_lines-false columns zero i = refl
  for_lines-false columns (suc left) i =
      rw (for_columns-false i columns 0) (for_lines-false columns left (i + 1))

  -- A flag that is up after the rest of the loop was up before it.
  flag_up :
      (columns left i : ℕ) (flag : Bool)
      → for_lines (clear_flag bad) columns left i flag ≡ true
      → flag ≡ true
  flag_up columns left i true e = refl
  flag_up columns left i false e = sym (for_lines-false columns left i) ∙ e

  pub for_lines-flag :
      (columns left i : ℕ) (flag : Bool) (x y : ℕ)
      → for_lines (clear_flag bad) columns left i flag ≡ true
      → i ≤ x
      → x < i + left
      → y < columns
      → bad x y ≡ false
  unfolding for_lines
  for_lines-flag columns zero i flag x y e h g k = absurd (omega arith)
  for_lines-flag columns (suc left) i flag x y e h g k =
      let row = for_columns (clear_flag bad) i columns 0 flag in
      elim (ℕ_discrete i x) [
        | yes same ↦
            subst (λ n. bad n y ≡ false) same
              (for_columns-flag i columns 0 flag y (flag_up columns left (i + 1) row e)
                (omega arith) (omega arith))
        | no other ↦ for_lines-flag columns left (i + 1) row x y e (omega arith) (omega arith) k
      ]
