-- ===== src/Life/Rounds/Shares.antt =====
-- project3/life.cpp: each cell of the matrix is a cell of exactly one of the threads 1 to n.
use cs3013_operating_systems.Prelude.{
  ℕ, zero, suc, ◌+◌, ◌-◌, ◌*◌, ◌/◌, ◌≤◌, ◌<◌, ◌≡◌, refl, subst, List, [], ◌∷◌, length,
  length-append, get_or, arith, dec_lt,
}
use cs3013_operating_systems.Prelude.Totals.{total, total-append}
use cs3013_operating_systems.Life.{LineRange, line_ranges, all_ranges}
use cs3013_operating_systems.Life.Cells.{Cell, thread_cells, cells_of, hits}
use cs3013_operating_systems.Life.Ranges.{all_ranges-hits}
use cs3013_operating_systems.Life.Rounds.{range_for}

length-line_ranges : (range n i : ℕ) → length (line_ranges range n i) ≡ n
unfolding line_ranges
length-line_ranges range zero i = refl
length-line_ranges range (suc n) i = omega (arith, length-line_ranges range n (i + 1))

pub length-all_ranges : (lines n : ℕ) → 0 < n → length (all_ranges lines n) ≡ n
unfolding all_ranges
length-all_ranges lines n h =
    let last : LineRange = record { value1 = (n - 1) * (lines / n); value2 = lines - 1 } in
    omega (
      arith,
      length-append (line_ranges (lines / n) (n - 1) 0) (last ∷ []),
      length-line_ranges (lines / n) (n - 1) 0,
    )

module _ (columns : ℕ) (w : Cell → ℕ) (d : LineRange) where
  abbrev pub share : List LineRange → ℕ → ℕ
  share rs i = total w (thread_cells columns (get_or rs i d))

  some_share :
      (rs : List LineRange)
      → 0 < total w (cells_of columns rs)
      → (i : ℕ) × (i < length rs) × (0 < share rs i)
  unfolding cells_of total
  some_share [] h = absurd (omega arith)
  some_share (r ∷ rs) h = elim (dec_lt 0 (total w (thread_cells columns r))) [
    | yes p ↦ (0, omega arith, p)
    | no p ↦
        let (i, l, q) =
          some_share rs
            (omega (arith, total-append w (thread_cells columns r) (cells_of columns rs))) in
        (suc i, omega arith, q)
  ]

  pub one_share :
      (rs : List LineRange) (i : ℕ) → i < length rs → share rs i ≤ total w (cells_of columns rs)
  unfolding cells_of total
  one_share [] i h = absurd (omega arith)
  one_share (r ∷ rs) zero h =
      omega (arith, total-append w (thread_cells columns r) (cells_of columns rs))
  one_share (r ∷ rs) (suc i) h = omega (
    arith,
    total-append w (thread_cells columns r) (cells_of columns rs),
    one_share rs i (omega arith),
  )

  two_shares :
      (rs : List LineRange) (i j : ℕ)
      → i < j
      → j < length rs
      → share rs i + share rs j ≤ total w (cells_of columns rs)
  unfolding cells_of total
  two_shares [] i j h l = absurd (omega arith)
  two_shares (r ∷ rs) zero zero h l = absurd (omega arith)
  two_shares (r ∷ rs) zero (suc j) h l = omega (
    arith,
    total-append w (thread_cells columns r) (cells_of columns rs),
    one_share rs j (omega arith),
  )
  two_shares (r ∷ rs) (suc i) zero h l = absurd (omega arith)
  two_shares (r ∷ rs) (suc i) (suc j) h l = omega (
    arith,
    total-append w (thread_cells columns r) (cells_of columns rs),
    two_shares rs i j (omega arith) (omega arith),
  )

module _ (lines columns n : ℕ) where
  -- How often the cell at (x, y) is among those of thread `i`.
  abbrev pub mine : ℕ → ℕ → ℕ → ℕ
  mine i x y = total (hits x y) (thread_cells columns (range_for lines n i))

module _ (lines columns n : ℕ) (positive : 0 < n) (enough : n ≤ lines) where
  none_yet : LineRange
  none_yet = record { value1 = 0; value2 = 0 }

  pub owner :
      (x y : ℕ)
      → x < lines
      → y < columns
      → (i : ℕ) × (1 ≤ i) × (i ≤ n) × (0 < mine lines columns n i x y)
  unfolding none_yet
  owner x y h g =
      let once = all_ranges-hits lines columns n x y positive enough h g in
      let (i, l, p) = some_share columns (hits x y) none_yet (all_ranges lines n) (omega arith) in
      let e : i ≡ suc i - 1 = omega arith in
      (
        suc i,
        omega arith,
        omega (arith, length-all_ranges lines n positive),
        subst
            (λ k.
              0 < total (hits x y) (thread_cells columns (get_or (all_ranges lines n) k none_yet)))
            e p,
      )

  shared :
      (i j x y : ℕ)
      → x < lines
      → y < columns
      → 1 ≤ i
      → i < j
      → j ≤ n
      → 0 < mine lines columns n i x y
      → 0 < mine lines columns n j x y
      → ⊥
  unfolding none_yet
  shared i j x y h g a b c p q = omega (
    arith,
    all_ranges-hits lines columns n x y positive enough h g,
    two_shares columns (hits x y) none_yet (all_ranges lines n) (i - 1) (j - 1) (omega arith)
        (omega (arith, length-all_ranges lines n positive)),
  )

  pub only_owner :
      (i j x y : ℕ)
      → x < lines
      → y < columns
      → 1 ≤ i
      → i ≤ n
      → 1 ≤ j
      → j ≤ n
      → 0 < mine lines columns n i x y
      → 0 < mine lines columns n j x y
      → i ≡ j
  only_owner i j x y h g a b c d p q = elim (dec_lt i j) [
    | yes l ↦ absurd (shared i j x y h g a l d p q)
    | no l ↦ elim (dec_lt j i) [
      | yes k ↦ absurd (shared j i x y h g c k b q p)
      | no k ↦ omega arith
    ]
  ]
