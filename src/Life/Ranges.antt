-- ===== src/Life/Ranges.antt =====
-- project3/life.cpp: the threads' ranges of lines share out the cells of the matrix.
use native.Mathlib.Nat.{add-zero, mul-div-le, le-div_iff_mul-le}
use cs3013_operating_systems.Prelude.{
  ℕ, zero, suc, ◌+◌, ◌-◌, ◌*◌, ◌/◌, ◌≤◌, ◌<◌, ◌≡◌, refl, ap, ◌∙◌, List, [], ◌∷◌, ◌++◌, ◌&&◌, leb,
  ltb, ◌==◌, if◌then◌else◌, arith,
}
use cs3013_operating_systems.Prelude.Totals.{total, total-append}
use cs3013_operating_systems.Life.{LineRange, line_ranges, all_ranges}
use cs3013_operating_systems.Life.Cells.{
  Cell, line_cells, lines_cells, thread_cells, cells_of, hits, wide,
}

-- Two intervals side by side.
abbrev within : ℕ → ℕ → ℕ → ℕ
within a b x = if leb a x && ltb x b then 1 else 0

within-add : (a b c x : ℕ) → a ≤ b → b ≤ c → within a b x + within b c x ≡ within a c x
within-add a b c x h g = ground arith

module _ (columns : ℕ) where
  line_cells-hits :
      (line left column i j : ℕ)
      → total (hits i j) (line_cells line left column)
        ≡ (if line == i && (leb column j && ltb j (column + left)) then 1 else 0)
  unfolding line_cells total
  line_cells-hits line zero column i j = ground arith
  line_cells-hits line (suc left) column i j =
      ground (arith, line_cells-hits line left (column + 1) i j)

  line_cells-wide :
      (line left column : ℕ) → column + left ≤ 40 → total wide (line_cells line left column) ≡ 0
  unfolding line_cells total
  line_cells-wide line zero column h = refl
  line_cells-wide line (suc left) column h =
      ground (arith, line_cells-wide line left (column + 1) (omega arith))

  lines_cells-hits :
      (left line i j : ℕ)
      → j < columns
      → total (hits i j) (lines_cells columns left line)
        ≡ (if leb line i && ltb i (line + left) then 1 else 0)
  unfolding lines_cells total
  lines_cells-hits zero line i j h = ground arith
  lines_cells-hits (suc left) line i j h =
      rw
        (
          total-append (hits i j) (line_cells line columns 0) (lines_cells columns left (line + 1)),
          line_cells-hits line columns 0 i j,
          lines_cells-hits left (line + 1) i j h,
        )
        (ground arith)

  pub lines_cells-wide :
      (left line : ℕ) → columns ≤ 40 → total wide (lines_cells columns left line) ≡ 0
  unfolding lines_cells total
  lines_cells-wide zero line h = refl
  lines_cells-wide (suc left) line h =
      rw
        (
          total-append wide (line_cells line columns 0) (lines_cells columns left (line + 1)),
          line_cells-wide line columns 0 (omega arith),
          lines_cells-wide left (line + 1) h,
        )
        refl

  thread_cells-hits :
      (r : LineRange) (x y : ℕ)
      → y < columns
      → r.value1 ≤ r.value2 + 1
      → total (hits x y) (thread_cells columns r) ≡ within r.value1 (r.value2 + 1) x
  thread_cells-hits r x y h p =
      lines_cells-hits (r.value2 + 1 - r.value1) r.value1 x y h
      ∙ ap (λ b. within r.value1 b x)
          (let e : r.value1 + (r.value2 + 1 - r.value1) ≡ r.value2 + 1 = omega arith in e)

  -- Each cell of the matrix is in the cells of exactly one of the threads.
  ranges_cells-hits :
      (range left i x y : ℕ)
      → y < columns
      → 0 < range
      → total (hits x y) (cells_of columns (line_ranges range left i))
        ≡ within (i * range) ((i + left) * range) x
  unfolding line_ranges cells_of total
  ranges_cells-hits range zero i x y h p = ground (arith, ap (λ n. n * range) (add-zero i))
  ranges_cells-hits range (suc left) i x y h p =
      let r : LineRange = record { value1 = i * range; value2 = (i + 1) * range - 1 } in
      let one : (i + 1) * range ≡ i * range + range = omega arith in
      let n : (i + suc left) * range ≡ (i + 1 + left) * range = omega arith in
      let more : (i + 1 + left) * range ≡ (i + 1) * range + left * range = omega arith in
      let end : r.value2 + 1 ≡ (i + 1) * range = omega arith in
      let a = thread_cells-hits r x y h (omega arith) ∙ ap (λ b. within (i * range) b x) end in
      let b = ranges_cells-hits range left (i + 1) x y h p in
      let c =
        within-add (i * range) ((i + 1) * range) ((i + 1 + left) * range) x (omega arith)
          (omega arith) in
      let d = ap (λ b. within (i * range) b x) n in
      omega (
        arith,
        a,
        b,
        c,
        d,
        total-append (hits x y) (thread_cells columns r)
            (cells_of columns (line_ranges range left (i + 1))),
      )

  cells_of-append :
      (w : Cell → ℕ) (rs : List LineRange) (r : LineRange)
      → total w (cells_of columns (rs ++ (r ∷ [])))
        ≡ total w (cells_of columns rs) + total w (thread_cells columns r)
  unfolding cells_of total
  cells_of-append w [] r = total-append w (thread_cells columns r) [] ∙ omega arith
  cells_of-append w (s ∷ rs) r =
      total-append w (thread_cells columns s) (cells_of columns (rs ++ (r ∷ [])))
      ∙ omega (
        arith,
        cells_of-append w rs r,
        total-append w (thread_cells columns s) (cells_of columns rs),
      )

  pub ranges-wide : (rs : List LineRange) → columns ≤ 40 → total wide (cells_of columns rs) ≡ 0
  unfolding cells_of total
  ranges-wide [] h = refl
  ranges-wide (r ∷ rs) h =
      rw
        (
          total-append wide (thread_cells columns r) (cells_of columns rs),
          lines_cells-wide (r.value2 + 1 - r.value1) r.value1 h,
          ranges-wide rs h,
        )
        refl

module _ (lines columns n : ℕ) where
  -- From one thread to one for each line, each cell of the matrix is among the cells of exactly
  -- one thread, and there once.
  pub all_ranges-hits :
      (i j : ℕ)
      → 0 < n
      → n ≤ lines
      → i < lines
      → j < columns
      → total (hits i j) (cells_of columns (all_ranges lines n)) ≡ 1
  unfolding all_ranges
  all_ranges-hits i j p q h g =
      let range = lines / n in
      let last : LineRange = record { value1 = (n - 1) * range; value2 = lines - 1 } in
      let positive : 1 ≤ range = (le-div_iff_mul-le p).1 (omega arith) in
      let a = ranges_cells-hits columns range (n - 1) 0 i j g (omega arith) in
      let start : (0 + (n - 1)) * range ≡ (n - 1) * range = omega arith in
      let le = mul-div-le lines n in
      let most : (n - 1) * range + range ≡ n * range =
        omega (arith, ap (λ k. k * range) (let f : n ≡ n - 1 + 1 = omega arith in f)) in
      let b = thread_cells-hits columns last i j g (omega arith) in
      let c = within-add (0 * range) ((n - 1) * range) lines i (omega arith) (omega arith) in
      let d = ap (λ b. within (0 * range) b i) start in
      let e =
        ap (λ b. within ((n - 1) * range) b i) (let f : lines - 1 + 1 ≡ lines = omega arith in f) in
      let all : within (0 * range) lines i ≡ 1 = ground arith in
      omega (
        arith,
        a,
        b,
        c,
        d,
        e,
        all,
        cells_of-append columns (hits i j) (line_ranges range (n - 1) 0) last,
      )
