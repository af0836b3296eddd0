-- ===== src/Life/Input/Rows.antt =====
-- project3/life.cpp: the matrix that is read holds the numbers of the file, line by line; a file
-- with too many lines or columns is refused.
use cs3013_operating_systems.Prelude.{
  ℕ, zero, suc, ◌+◌, ◌≤◌, ◌<◌, ◌≡◌, refl, sym, ◌∙◌, Bool, true, false, List, [], ◌∷◌, ◌++◌, map,
  append-nil, append-cons, none, some, length, length-append, ltb, if◌then◌else◌, arith, Bool-cases,
  Option-cases, inl, inr, subst,
}
use cs3013_operating_systems.Prelude.Int.{ℤ, pos}
use cs3013_operating_systems.Prelude.Text.{c_str}
use cs3013_operating_systems.Prelude.Strtok.{strtok, words, Tokens, strtok-Tokens}
use cs3013_operating_systems.Life.{address}
use cs3013_operating_systems.Life.Input.{
  is_delim, Input, Read, read, too_many_lines, too_many_columns, and_then, store, read_tokens,
  read_lines,
}
use cs3013_operating_systems.Life.Input.Table.{
  Row, cell, cell-snoc, cell-empty_row, width, width-snoc,
}

-- The numbers of a line.
abbrev pub row_of : List ℕ → Row
row_of l = words is_delim (c_str l)

pub data Verdict : Type 0 where
  fits : Verdict
  lines_over : Verdict
  columns_over : Verdict

-- What should become of rows, the first of which is in line `line`: at most 41 lines, and 40 numbers
-- in each.
unfoldable pub verdict : List Row → ℕ → Verdict
verdict [] line = fits
verdict (r ∷ rs) line =
    let rest = verdict rs (line + 1) in
    if ltb 40 line then lines_over else if ltb 40 (length r) then columns_over else rest

module _ (atoi : List ℕ → ℤ) where
  -- The matrix holds these rows, and zeros elsewhere; `max_col` is the length of the longest.
  pub record Filled (rows : List Row) (s : Input) : Type 0 where
    pub cells : (x y : ℕ) → y < 40 → s.before (address x y) ≡ cell atoi rows x y
    pub widest : s.max_col ≡ width rows

  abbrev pub Matches : Verdict → List Row → Read → Type 0
  Matches fits rows r = (s : Input) × (r ≡ read s) × Filled rows s
  Matches lines_over rows r = r ≡ too_many_lines
  Matches columns_over rows r = r ≡ too_many_columns

  empty_row-Filled : (done : List Row) (s : Input) → Filled done s → Filled (done ++ ([] ∷ [])) s
  empty_row-Filled done s f = record {
    cells = λ x y h. f.cells x y h ∙ sym (cell-empty_row atoi done x y);
    widest = f.widest ∙ ground (arith, width-snoc done []);
  }

  store-Filled :
      (done : List Row) (front : Row) (w : List ℕ) (line column : ℕ) (s : Input)
      → line ≡ length done
      → column ≡ length front
      → length front < 40
      → Filled (done ++ (front ∷ [])) s
      → Filled (done ++ ((front ++ (w ∷ [])) ∷ [])) (store atoi line column w s)
  store-Filled done front w line column s e c h f = record {
    cells = λ x y g. ground (arith, cell-snoc atoi done front w x y, f.cells x y g);
    widest = ground (
      arith,
      f.widest,
      width-snoc done front,
      width-snoc done (front ++ (w ∷ [])),
      length-append front (w ∷ []),
    );
  }

  read_tokens-none :
      (fuel : ℕ) (rest : List ℕ) (line column : ℕ) (s : Input)
      → strtok is_delim rest ≡ none
      → read_tokens atoi (suc fuel) rest line column s ≡ read s
  unfolding read_tokens
  read_tokens-none fuel rest line column s e = rw (e, read_tokens) refl

  read_tokens-over :
      (fuel : ℕ) (rest token more : List ℕ) (line column : ℕ) (s : Input)
      → strtok is_delim rest ≡ some (token, more)
      → ltb 39 column ≡ true
      → read_tokens atoi (suc fuel) rest line column s ≡ too_many_columns
  unfolding read_tokens
  read_tokens-over fuel rest token more line column s e h =
      rw (e, read_tokens) (rw (h, read_tokens) refl)

  read_tokens-next :
      (fuel : ℕ) (rest token more : List ℕ) (line column : ℕ) (s : Input)
      → strtok is_delim rest ≡ some (token, more)
      → ltb 39 column ≡ false
      → read_tokens atoi (suc fuel) rest line column s
        ≡ read_tokens atoi fuel more line (column + 1) (store atoi line column token s)
  unfolding read_tokens
  read_tokens-next fuel rest token more line column s e h =
      rw (e, read_tokens) (rw (h, read_tokens) refl)

  -- A line is read whole where its numbers fit, and refused otherwise.
  abbrev RowMatches : Bool → List Row → Read → Type 0
  RowMatches true rows r = r ≡ too_many_columns
  RowMatches false rows r = (s : Input) × (r ≡ read s) × Filled rows s

  read_tokens-row :
      (done : List Row) (front : Row) (line column fuel : ℕ) (rest : List ℕ) (s : Input)
      → line ≡ length done
      → column ≡ length front
      → length rest < fuel
      → length front ≤ 40
      → Filled (done ++ (front ∷ [])) s
      → RowMatches
          (ltb 40 (length (front ++ words is_delim rest)))
          (done ++ ((front ++ words is_delim rest) ∷ []))
          (read_tokens atoi fuel rest line column s)
  read_tokens-row done front line column zero rest s e c h g f = absurd (omega arith)
  read_tokens-row done front line column (suc fuel) rest s e c h g f =
      elim (Option-cases (strtok is_delim rest)) [
        | inl n ↦
            let t : words is_delim rest ≡ [] =
              subst (Tokens is_delim rest) n (strtok-Tokens is_delim rest) in
            let narrow : ltb 40 (length front) ≡ false = ground arith in
            rw (t, append-nil front, narrow) (s, read_tokens-none fuel rest line column s n, f)
        | inr ((token, more), n) ↦
            let (t, l) = subst (Tokens is_delim rest) n (strtok-Tokens is_delim rest) in
            elim (Bool-cases (ltb 39 column)) [
              | inl wide ↦
                  let over : ltb 40 (length (front ++ (token ∷ words is_delim more))) ≡ true =
                    ground (arith, length-append front (token ∷ words is_delim more)) in
                  rw (t, over) (read_tokens-over fuel rest token more line column s n wide)
              | inr fits_in ↦
                  rw
                    (
                      t,
                      append-cons front token (words is_delim more),
                      read_tokens-next fuel rest token more line column s n fits_in,
                    )
                    (read_tokens-row done (front ++ (token ∷ [])) line (column + 1) fuel more
                      (store atoi line column token s) e
                      (omega (arith, length-append front (token ∷ []))) (omega arith)
                      (ground (arith, length-append front (token ∷ [])))
                      (store-Filled done front token line column s e c (ground arith) f))
            ]
      ]

  read_lines-over :
      (l : List ℕ) (ls : List (List ℕ)) (line : ℕ) (s : Input)
      → ltb 40 line ≡ true
      → read_lines atoi (l ∷ ls) line s ≡ too_many_lines
  unfolding read_lines
  read_lines-over l ls line s e = rw (e, read_lines) refl

  read_lines-next :
      (l : List ℕ) (ls : List (List ℕ)) (line : ℕ) (s : Input)
      → ltb 40 line ≡ false
      → read_lines atoi (l ∷ ls) line s
        ≡ and_then
            (read_tokens atoi (suc (length (c_str l))) (c_str l) line 0 s)
            (λ s'. read_lines atoi ls (line + 1) s')
  unfolding read_lines
  read_lines-next l ls line s e = rw (e, read_lines) refl

  read_lines-nil : (line : ℕ) (s : Input) → read_lines atoi [] line s ≡ read s
  unfolding read_lines
  read_lines-nil line s = refl

  read_lines-verdict :
      (done : List Row) (ls : List (List ℕ)) (line : ℕ) (s : Input)
      → line ≡ length done
      → Filled done s
      → Matches (verdict (map row_of ls) line) (done ++ map row_of ls) (read_lines atoi ls line s)
  unfolding verdict
  read_lines-verdict done [] line s e f = rw (append-nil done) (s, read_lines-nil line s, f)
  read_lines-verdict done (l ∷ ls) line s e f = elim (Bool-cases (ltb 40 line)) [
    | inl over ↦ rw over (read_lines-over l ls line s over)
    | inr under ↦
        let row =
          read_tokens-row done [] line 0 (suc (length (c_str l))) (c_str l) s e refl (omega arith)
            (omega arith) (empty_row-Filled done s f) in
        let r = read_tokens atoi (suc (length (c_str l))) (c_str l) line 0 s in
        let rows = done ++ (row_of l ∷ []) in
        elim (Bool-cases (ltb 40 (length (row_of l)))) [
          | inl wide ↦
              let stops = subst (λ b. RowMatches b rows r) wide row in
              rw (under, wide) (read_lines-next l ls line s under ∙ rw stops refl)
          | inr narrow ↦
              let (s', eq, f') = subst (λ b. RowMatches b rows r) narrow row in
              rw (under, narrow, append-cons done (row_of l) (map row_of ls))
                (subst (Matches (verdict (map row_of ls) (line + 1)) (rows ++ map row_of ls))
                  (sym (read_lines-next l ls line s under ∙ rw eq refl))
                  (read_lines-verdict rows ls (line + 1) s'
                    (omega (arith, length-append done (row_of l ∷ []))) f'))
        ]
  ]

-- The first generation as a file gives it. A file whose lines, that behind the last newline with
-- them, are at most 41 of at most 40 numbers each, is read: the matrix holds its numbers line by
-- line and zeros elsewhere, and `max_col` is the length of the longest line. Else the first line
-- that is one too many, or has a number too many, decides which of the two refusals it is.
pub read_lines-Matches :
    (atoi : List ℕ → ℤ) (zeros : ℕ → ℤ) (ls : List (List ℕ))
    → ((a : ℕ) → zeros a ≡ pos 0)
    → Matches atoi
        (verdict (map row_of ls) 0)
        (map row_of ls)
        (read_lines atoi ls 0 (record { before = zeros; max_col = 0 }))
unfolding cell width
read_lines-Matches atoi zeros ls z =
    read_lines-verdict atoi [] ls 0 (record { before = zeros; max_col = 0 }) refl
      (record { cells = λ x y h. z (address x y); widest = refl })
