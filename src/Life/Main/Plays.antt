-- ===== src/Life/Main/Plays.antt =====
-- project3/life.cpp: from a file to the last generation.
use cs3013_operating_systems.Prelude.{
  ℕ, ◌-◌, ◌≤◌, ◌<◌, ◌≡◌, refl, sym, ap, ◌∙◌, true, false, min, ◌⊎◌, inl, inr, List, [], ◌∷◌, ◌++◌,
  map, map-append, Option, some, length, length-append, length-map, leb, arith, subst,
}
use cs3013_operating_systems.Prelude.Int.{ℤ, pos, pos_part, ltb_ℤ}
use cs3013_operating_systems.Prelude.Text.{c_str}
use cs3013_operating_systems.Prelude.Strtok.{words, parts}
use cs3013_operating_systems.Life.{nonzero, Matrices}
use cs3013_operating_systems.Life.Neighbors.{Padded, Grid, alive, next_grid}
use cs3013_operating_systems.Life.Evolution.{generations, Same, generations-Same, next_grid-Same}
use cs3013_operating_systems.Life.Game.{Played, play, play-generations, stopped_at_last-still}
use cs3013_operating_systems.Life.Input.{Input, read, read_lines, split_lines, getlines}
use cs3013_operating_systems.Life.Input.Table.{
  Row, cell, cell-empty_row, cell-right, cell-below, width, width-snoc,
}
use cs3013_operating_systems.Life.Input.Rows.{
  row_of, fits, verdict, Filled, Matches, read_lines-Matches,
}
use cs3013_operating_systems.Life.Main.{
  Outcome, ends, limit_threads, start_threads, join_threads, hangs, main,
}

-- The lines of a text that ends with a newline.
unfoldable pub lines_of : List ℕ → List (List ℕ)
unfolding split_lines
lines_of body = let r = split_lines body in r.first ∷ r.others

split_lines-newline :
    (body : List ℕ)
    → split_lines (body ++ (10 ∷ []))
      ≡ (let r = split_lines body in record r { others = r.others ++ ([] ∷ []) })
unfolding split_lines
split_lines-newline [] = refl
split_lines-newline (c ∷ body) = ground (arith, split_lines-newline body)

getlines-newline :
    (body : List ℕ) → getlines (some (body ++ (10 ∷ []))) ≡ lines_of body ++ ([] ∷ [])
unfolding getlines lines_of
getlines-newline body = rw (split_lines-newline body) refl

row_of-nil : row_of [] ≡ []
unfolding c_str words parts
row_of-nil = refl

-- The numbers of a file, a row to a line.
abbrev pub table : List ℕ → List Row
table body = map row_of (lines_of body)

table-newline :
    (body : List ℕ) → map row_of (getlines (some (body ++ (10 ∷ [])))) ≡ table body ++ ([] ∷ [])
table-newline body =
    ap (map row_of) (getlines-newline body)
    ∙ map-append row_of (lines_of body) ([] ∷ [])
    ∙ ap (λ r. table body ++ (r ∷ [])) row_of-nil

module _ (atoi : List ℕ → ℤ) where
  -- The first generation of a file.
  abbrev pub first_grid : List ℕ → Grid
  first_grid body i j = nonzero (cell atoi (table body) i j)

  Filled-newline :
      (body : List ℕ) (s : Input)
      → Filled atoi (table body ++ ([] ∷ [])) s
      → Filled atoi (table body) s
  Filled-newline body s f = record {
    cells = λ x y h. f.cells x y h ∙ cell-empty_row atoi (table body) x y;
    widest = f.widest ∙ ground (arith, width-snoc (table body) []);
  }

  Filled-Padded :
      (rows : List Row) (s : Input)
      → Filled atoi rows s
      → s.max_col < 40
      → Padded (length rows) s.max_col s.before
  Filled-Padded rows s f h = record {
    right =
        λ i p. f.cells i s.max_col h ∙ cell-right atoi rows i s.max_col (omega (arith, f.widest));
    below = λ j p.
        f.cells (length rows) j (omega arith) ∙ cell-below atoi rows (length rows) j (omega arith);
  }

-- The game that a run of so many threads shows: the number of generations that it prints is its own
-- affair; the matrix shows the cells alive after all generations. The run ends behind that, but where
-- two threads and more were told to stop after their last generation; then it is a still one.
pub record Shows (lines columns left n : ℕ) (first : Grid) (o : Outcome) : Type 0 where
  pub played : Played
  pub ended : (n < 2) ⊎ (played.stopped_at_last ≡ false) → o ≡ ends played
  pub hung : 2 ≤ n → played.stopped_at_last ≡ true → o ≡ hangs played
  pub shown :
      Same lines columns (alive played.matrices.after) (generations lines columns left first)
  pub still :
      played.stopped_at_last ≡ true
      → Same lines columns
          (next_grid lines columns (generations lines columns left first))
          (generations lines columns left first)

join_threads-ends :
    (n : ℕ) (r : Played) → (n < 2) ⊎ (r.stopped_at_last ≡ false) → join_threads n r ≡ ends r
join_threads-ends n r (inl few) = ground arith
join_threads-ends n r (inr on) = rw (on) refl

join_threads-hangs :
    (n : ℕ) (r : Played) → 2 ≤ n → r.stopped_at_last ≡ true → join_threads n r ≡ hangs r
join_threads-hangs n r many told = ground (arith, told)

start_threads-Shows :
    (atoi : List ℕ → ℤ) (zeros : ℕ → ℤ) (rows : List Row) (t g : ℕ) (s : Input)
    → 0 < t
    → t ≤ 10
    → 0 < length rows
    → 0 < g
    → s.max_col < 40
    → Filled atoi rows s
    → Shows
        (length rows)
        s.max_col
        g
        (min t (length rows))
        (λ i j. nonzero (cell atoi rows i j))
        (start_threads zeros (length rows) (pos t) g s)
start_threads-Shows atoi zeros rows t g s p q l k w f =
    let n = pos_part (limit_threads (pos t) (length rows)) in
    let m : Matrices = record { before = s.before; after = zeros } in
    let start = λ (i j : ℕ). nonzero (cell atoi rows i j) in
    let result = play (length rows) s.max_col n g 0 m in
    let padded = Filled-Padded atoi rows s f w in
    let same : Same (length rows) s.max_col (alive result.matrices.after)
        (generations (length rows) s.max_col g start) =
      λ i j a b.
        play-generations (length rows) s.max_col n (ground arith) (ground arith) w g 0 m k padded i
          j a b
        ∙ generations-Same (length rows) s.max_col g (alive s.before) start
            (λ x y c d. ap nonzero (f.cells x y (omega arith))) i j a b in
    let threads_are : n ≡ min t (length rows) = ground arith in
    let ran : start_threads zeros (length rows) (pos t) g s ≡ join_threads n result =
      ground arith in
    record {
      played = result;
      ended = λ few.
          ran
          ∙ join_threads-ends n result
              (subst (λ k. (k < 2) ⊎ (result.stopped_at_last ≡ false)) (sym threads_are) few);
      hung = λ many told. ran ∙ join_threads-hangs n result (omega (arith, many, threads_are)) told;
      shown = same;
      still = λ told i j a b.
          next_grid-Same (length rows) s.max_col (generations (length rows) s.max_col g start)
            (alive result.matrices.after) (λ x y c d. sym (same x y c d)) i j a b
          ∙ stopped_at_last-still (length rows) s.max_col n (ground arith) (ground arith) w g 0 m
              padded told i j a b
          ∙ same i j a b;
    }

read_newline :
    (atoi : List ℕ → ℤ) (zeros : ℕ → ℤ) (body : List ℕ)
    → ((a : ℕ) → zeros a ≡ pos 0)
    → verdict (table body ++ ([] ∷ [])) 0 ≡ fits
    → (s : Input) × (read_lines atoi
          (getlines (some (body ++ (10 ∷ []))))
          0
          (record { before = zeros; max_col = 0 })
        ≡ read s)
      × Filled atoi (table body) s
read_newline atoi zeros body z v =
    let ls = getlines (some (body ++ (10 ∷ []))) in
    let r = read_lines atoi ls 0 (record { before = zeros; max_col = 0 }) in
    let e = table-newline body in
    let m =
      subst (λ rows. Matches atoi (verdict rows 0) rows r) e (read_lines-Matches atoi zeros ls z) in
    let (s, eq, f) = subst (λ u. Matches atoi u (table body ++ ([] ∷ [])) r) v m in
    (s, eq, Filled-newline atoi body s f)

size_of : (body : List ℕ) → length (getlines (some (body ++ (10 ∷ [])))) - 1 ≡ length (table body)
size_of body =
    rw (getlines-newline body)
      (omega (arith, length-append (lines_of body) ([] ∷ []), length-map (lines_of body) row_of))

table_has_rows : (body : List ℕ) → 0 < length (table body)
unfolding lines_of
table_has_rows body = omega arith

-- `main`, for three to five arguments with 1 to 10 threads and at least one generation, on a file
-- that ends with a newline, has fewer than 40 lines and in each fewer than 40 numbers: it comes to show
-- the game on the numbers of the file, a line to a row, where 0 is a dead cell and any other number a
-- living one, after all the generations. Then it ends, but where it has two threads and more, of
-- the threads asked for no more than lines, and has told them to stop after their last generation,
-- where it hangs; that generation is then the same as the next one.
pub main-Shows :
    (atoi : List ℕ → ℤ) (files : List ℕ → Option (List ℕ)) (zeros : ℕ → ℤ)
    (threads filename generations : List ℕ) (more : List (List ℕ)) (body : List ℕ) (t g : ℕ)
    → ((a : ℕ) → zeros a ≡ pos 0)
    → length more ≤ 2
    → files filename ≡ some (body ++ (10 ∷ []))
    → atoi threads ≡ pos t
    → 0 < t
    → t ≤ 10
    → atoi generations ≡ pos g
    → 0 < g
    → verdict (table body ++ ([] ∷ [])) 0 ≡ fits
    → length (table body) < 40
    → width (table body) < 40
    → Shows
        (length (table body))
        (width (table body))
        g
        (min t (length (table body)))
        (first_grid atoi body)
        (main atoi files zeros (threads ∷ filename ∷ generations ∷ more))
unfolding main
main-Shows atoi files zeros threads filename generations more body t g z few file e p q e' k v lines
      w =
    let (s, eq, f) = read_newline atoi zeros body z v in
    let narrow : s.max_col < 40 = omega (arith, f.widest) in
    let shows =
      start_threads-Shows atoi zeros (table body) t g s p q (table_has_rows body) k narrow f in
    let arguments : leb (length more) 2 ≡ true = ground arith in
    let positive : ltb_ℤ (pos 0) (pos g) ≡ true = ground arith in
    let ran : main atoi files zeros (threads ∷ filename ∷ generations ∷ more)
        ≡ start_threads zeros (length (table body)) (pos t) g s =
      rw (file, e, e', arguments, positive, size_of body, eq) refl in
    subst
      (λ o.
        Shows (length (table body)) (width (table body)) g (min t (length (table body)))
          (first_grid atoi body) o)
      (sym ran)
      (subst
        (λ c.
          Shows (length (table body)) c g (min t (length (table body))) (first_grid atoi body)
            (start_threads zeros (length (table body)) (pos t) g s))
        f.widest shows)
