-- ===== src/Life/Input.antt =====
-- project3/life.cpp: how `main` reads the first generation.
pub mod Table
pub mod Rows
use cs3013_operating_systems.Prelude.{
  ℕ, zero, suc, ◌+◌, Bool, true, false, ◌||◌, List, [], ◌∷◌, Option, none, some, length, ltb, ◌==◌,
  if◌then◌else◌, replicate,
}
use cs3013_operating_systems.Prelude.Int.{ℤ, pos}
use cs3013_operating_systems.Prelude.Text.{c_str}
use cs3013_operating_systems.Prelude.Strtok.{strtok}
use package.cs3013_operating_systems.Life.{max_grid, address, poke}

-- The separators " ,\n\t".
abbrev pub is_delim : ℕ → Bool
is_delim c = c == 32 || (c == b',' || (c == 10 || c == 9))

-- `before` and `max_col`, as they are filled.
pub record Input : Type 0 where
  pub before : ℕ → ℤ
  pub max_col : ℕ

pub data Read : Type 0 where
  read : Input → Read
  too_many_lines : Read
  too_many_columns : Read
  no_fuel : Read

-- What follows a line, where it has been read.
abbrev pub and_then : Read → (Input → Read) → Read
and_then (read s) rest = rest s
and_then r rest = r

module _ (atoi : List ℕ → ℤ) where
  -- before[line][column++] = atoi(token), and max_col.
  abbrev pub store : ℕ → ℕ → List ℕ → Input → Input
  store line column token s = record {
    before = poke s.before (address line column) (atoi token);
    max_col = if ltb s.max_col (column + 1) then column + 1 else s.max_col;
  }

  -- while(token != NULL), where `rest` is what `strtok` has left.
  unfoldable pub read_tokens : ℕ → List ℕ → ℕ → ℕ → Input → Read
  read_tokens zero rest line column s = no_fuel
  read_tokens (suc fuel) rest line column s = elim (strtok is_delim rest) [
    | none ↦ read s
    | some (token, more) ↦ elim (ltb 39 column) [
      | true ↦ too_many_columns
      | false ↦ read_tokens fuel more line (column + 1) (store line column token s)
    ]
  ]

  -- while(!inFile.eof()), over what `getline` gives.
  unfoldable pub read_lines : List (List ℕ) → ℕ → Input → Read
  unfolding read_tokens
  read_lines [] line s = read s
  read_lines (l ∷ ls) line s = elim (ltb max_grid line) [
    | true ↦ too_many_lines
    | false ↦
        and_then (read_tokens (suc (length (c_str l))) (c_str l) line 0 s)
          λ s'. read_lines ls (line + 1) s'
  ]

-- What `getline` gives until the end of the file: the pieces between the newlines, the last one
-- behind the last newline among them.
pub record Lines : Type 0 where
  pub first : List ℕ
  pub others : List (List ℕ)

unfoldable pub split_lines : List ℕ → Lines
split_lines [] = record { first = []; others = [] }
split_lines (c ∷ s) =
    let r = split_lines s in
    if c == 10
    then record { first = []; others = r.first ∷ r.others }
    else record r { first = c ∷ r.first }

-- Of a file that cannot be opened `getline` gives empty lines without an end, and 42 of them are too
-- many.
unfoldable pub getlines : Option (List ℕ) → List (List ℕ)
unfolding split_lines
getlines none = replicate 42 []
getlines (some text) = let r = split_lines text in r.first ∷ r.others
