-- ===== src/Strings/Reading.antt =====
-- project4/proj4.cpp: `regular_read` and `mmap_regular_read`.
pub mod Direct
pub mod Buffered
use cs3013_operating_systems.Prelude.{
  ℕ, zero, suc, ◌+◌, List, [], ◌∷◌, ◌++◌, drop, length, replicate, get_elem?,
}
use cs3013_operating_systems.Prelude.Int.{ℤ, pos_part}
use cs3013_operating_systems.Prelude.Word.{to_int}
use cs3013_operating_systems.Strings.Scan.{Ctype, Scan, scan_byte, scan}
use cs3013_operating_systems.Strings.Files.{
  FileEnv, Result, ok, check, or_fault, ◌>>=◌, ◌>>◌, file_open, could_not_stat, could_not_mmap,
  could_not_unmap,
}

-- What a reading function returns, with its reference arguments.
pub record Reading : Type 0 where
  pub file_size : ℤ
  pub counters : Scan

-- `read` overwrites the front of the buffer.
abbrev pub fill : List ℕ → List ℕ → List ℕ
fill buf chunk = chunk ++ drop (length chunk) buf

module _ (t : Ctype) where
  -- The `while` of `regular_read`, over the chunks that `read` delivers.
  unfoldable pub read_loop : ℕ → List ℕ → Scan → List (List ℕ) → Scan
  unfolding scan
  read_loop bufsize buf s [] = s
  read_loop bufsize buf s (chunk ∷ rest) =
      read_loop bufsize (replicate bufsize 0) (scan t s (fill buf chunk)) rest

  unfoldable pub regular_read : ℕ → FileEnv → Scan → Result Reading
  unfolding read_loop to_int
  regular_read bufsize env s = do
    check env.open_succeeds file_open
    check env.fstat_succeeds could_not_stat
    ok (record {
      file_size = to_int env.st_size;
      counters = read_loop bufsize (replicate bufsize 0) s env.reads;
    })

  -- The `for` of `mmap_regular_read`, with `left` rounds to go.
  unfoldable pub mmap_loop : List ℕ → ℕ → ℕ → Scan → Result Scan
  unfolding scan_byte
  mmap_loop mem zero i s = ok s
  mmap_loop mem (suc left) i s = do
    c ← or_fault (get_elem? mem i)
    mmap_loop mem left (i + 1) (scan_byte t s c)

  unfoldable pub mmap_regular_read : FileEnv → Scan → Result Reading
  unfolding mmap_loop to_int
  mmap_regular_read env s = do
    check env.open_succeeds file_open
    check env.fstat_succeeds could_not_stat
    let file_size = to_int env.st_size
    check env.mmap_succeeds could_not_mmap
    s' ← mmap_loop env.bytes (pos_part file_size) 0 s
    check env.munmap_succeeds could_not_unmap
    ok (record { file_size = file_size; counters = s' })
