-- ===== src/Strings/Reading/Direct.antt =====
-- project4/proj4.cpp: `mmap_regular_read` gives the number of strings and the longest one.
use cs3013_operating_systems.Prelude.{
  ℕ, ◌+◌, ◌<◌, ◌^◌, ◌≡◌, refl, sym, subst, true, false, List, [], ◌∷◌, ◌++◌, length, length-append,
  get_elem?-append, append-cons, arith, if◌then◌else◌,
}
use cs3013_operating_systems.Prelude.Int.{ℤ, pos, negsuc, pos_part, neg_part}
use cs3013_operating_systems.Prelude.Word.{to_int_lem}
use cs3013_operating_systems.Strings.Scan.{Ctype, Scan, scan_byte, scan}
use cs3013_operating_systems.Strings.Scan.Count.{count_strings, gain, num_strings-scan}
use cs3013_operating_systems.Strings.Scan.Longest.{
  has_text, longest, leading-le-longest, pos_part-scan, neg_part-scan,
}
use cs3013_operating_systems.Strings.Files.{FileEnv, ok}
use cs3013_operating_systems.Strings.Reading.{mmap_loop, mmap_regular_read}

-- `main` starts the counters so.
abbrev pub start : Scan
start = record { str_length = 0; num_strings = 0; max_length = negsuc 0 }

-- The system calls succeed, and the mapped memory is the file.
pub record Mapped (env : FileEnv) : Type 0 where
  pub opened : env.open_succeeds ≡ true
  pub has_size : env.fstat_succeeds ≡ true
  pub mapped : env.mmap_succeeds ≡ true
  pub unmapped : env.munmap_succeeds ≡ true
  pub whole : length env.bytes ≡ env.st_size
  pub fits : env.st_size < 2 ^ 31

module _ (t : Ctype) where
  pub num_strings-start : (cs : List ℕ) → (scan t start cs).num_strings ≡ count_strings t false cs
  unfolding gain
  num_strings-start cs = omega (arith, num_strings-scan t start cs)

  ℤ_eq : (a b : ℤ) → pos_part a ≡ pos_part b → neg_part a ≡ neg_part b → a ≡ b
  ℤ_eq a b p n = ground arith

  longest-no_text : (cs : List ℕ) → has_text t cs ≡ false → longest t cs ≡ 0
  unfolding longest
  longest-no_text [] h = refl
  longest-no_text (c ∷ cs) h = ground (arith, longest-no_text cs)

  pub max_length-start :
      (cs : List ℕ)
      → (scan t start cs).max_length ≡ (if has_text t cs then pos (longest t cs) else negsuc 0)
  max_length-start cs = ground (
    arith,
    pos_part-scan t start cs (omega arith),
    neg_part-scan t start cs,
    leading-le-longest t cs,
    longest-no_text cs,
  )

  pub pos_part-start : (cs : List ℕ) → pos_part (scan t start cs).max_length ≡ longest t cs
  pos_part-start cs = omega (arith, pos_part-scan t start cs (omega arith), leading-le-longest t cs)

  pub mmap_loop_lem :
      (before cs : List ℕ) (i : ℕ) (s : Scan)
      → i ≡ length before
      → mmap_loop t (before ++ cs) (length cs) i s ≡ ok (scan t s cs)
  unfolding mmap_loop scan
  mmap_loop_lem before [] i s e = refl
  mmap_loop_lem before (c ∷ cs) i s e = rw (get_elem?-append before c cs i e) (
      subst (λ mem. mmap_loop t mem (length cs) (i + 1) (scan_byte t s c) ≡ ok (scan t s (c ∷ cs)))
        (sym (append-cons before c cs))
        (mmap_loop_lem (before ++ (c ∷ [])) cs (i + 1) (scan_byte t s c)
          (omega (arith, length-append before (c ∷ [])))))

  pub mmap_regular_read-scan :
      (env : FileEnv) (s : Scan)
      → Mapped env
      → mmap_regular_read t env s
        ≡ ok (record { file_size = pos env.st_size; counters = scan t s env.bytes })
  unfolding mmap_regular_read
  mmap_regular_read-scan env s m = rw (
    m.opened,
    m.has_size,
    to_int_lem env.st_size m.fits,
    m.mapped,
    sym m.whole,
    mmap_loop_lem [] env.bytes 0 s refl,
    m.unmapped,
  )

  -- What `mmap_regular_read` returns, and what its counters say of the bytes.
  pub record Counted (env : FileEnv) : Type 0 where
    pub counters : Scan
    pub returns :
        mmap_regular_read t env start
        ≡ ok (record { file_size = pos env.st_size; counters = counters })
    pub strings : counters.num_strings ≡ count_strings t false env.bytes
    pub longest_run :
        counters.max_length ≡ (if has_text t env.bytes then pos (longest t env.bytes) else negsuc 0)

  -- On a file that is mapped whole, `mmap_regular_read` succeeds, returns the file's size, counts
  -- the runs of text that have at least four bytes, and leaves in `max_length` the length of the
  -- longest run, or -1 if no byte is text.
  pub mmap_regular_read-counts : (env : FileEnv) → Mapped env → Counted env
  mmap_regular_read-counts env m = record {
    counters = scan t start env.bytes;
    returns = mmap_regular_read-scan env start m;
    strings = num_strings-start env.bytes;
    longest_run = max_length-start env.bytes;
  }
