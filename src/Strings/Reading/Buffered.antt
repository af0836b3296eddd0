-- ===== src/Strings/Reading/Buffered.antt =====
-- project4/proj4.cpp: `regular_read` finds what `mmap_regular_read` finds, for every buffer size.
use cs3013_operating_systems.Prelude.{
  ℕ, zero, suc, ◌-◌, ◌≤◌, ◌≡◌, refl, sym, ap, subst, ◌∙◌, false, List, [], ◌∷◌, ◌++◌, length,
  replicate, drop-replicate, append-nil, joined, arith,
}
use cs3013_operating_systems.Prelude.Int.{pos}
use cs3013_operating_systems.Prelude.Word.{to_int_lem}
use cs3013_operating_systems.Strings.Scan.{Ctype, is_text, Scan, scan_byte, scan}
use cs3013_operating_systems.Strings.Scan.Append.{scan-append}
use cs3013_operating_systems.Strings.Files.{FileEnv, ok}
use cs3013_operating_systems.Strings.Reading.{
  Reading, fill, read_loop, regular_read, mmap_regular_read,
}
use cs3013_operating_systems.Strings.Reading.Direct.{Mapped, mmap_regular_read-scan}

-- `read` fills the buffer on every call but the last, which may be short.
abbrev pub Fills : ℕ → List (List ℕ) → Type 0
Fills n [] = Unit
Fills n (c ∷ []) = length c ≤ n
Fills n (c ∷ d ∷ r) = (length c ≡ n) × Fills n (d ∷ r)

-- The counters that `main` prints agree.
pub record SameCounts (a b : Scan) : Type 0 where
  pub strings : a.num_strings ≡ b.num_strings
  pub longest : a.max_length ≡ b.max_length

-- `regular_read` with a buffer of `n` bytes and `mmap_regular_read` both return, and agree.
pub record SameReading (t : Ctype) (n : ℕ) (env : FileEnv) (s : Scan) : Type 0 where
  pub buffered : Reading
  pub direct : Reading
  pub returns : regular_read t n env s ≡ ok buffered
  pub returns_direct : mmap_regular_read t env s ≡ ok direct
  pub size : buffered.file_size ≡ direct.file_size
  pub counts : SameCounts buffered.counters direct.counters

module _ (t : Ctype) where
  module _ (nul : is_text t 0 ≡ false) where
    -- The zeros behind a short chunk end a run and count nothing.
    scan-zeros : (s : Scan) (k : ℕ) → SameCounts (scan t s (replicate k 0)) s
    unfolding scan scan_byte
    scan-zeros s zero = record { strings = refl; longest = refl }
    scan-zeros s (suc k) = ground (arith, nul, scan-zeros (scan_byte t s 0) k)

    -- A chunk is scanned with the zeros that are left behind it.
    scan-fill :
        (n : ℕ) (s : Scan) (c : List ℕ)
        → scan t s (fill (replicate n 0) c) ≡ scan t (scan t s c) (replicate (n - length c) 0)
    scan-fill n s c =
        ap (λ rest. scan t s (c ++ rest)) (drop-replicate (length c) n 0)
        ∙ scan-append t s c (replicate (n - length c) 0)

    scan-fill_full :
        (n : ℕ) (s : Scan) (c : List ℕ)
        → length c ≡ n
        → scan t s (fill (replicate n 0) c) ≡ scan t s c
    unfolding scan
    scan-fill_full n s c e =
        scan-fill n s c
        ∙ ap (λ k. scan t (scan t s c) (replicate k 0))
            (let z : n - length c ≡ 0 = omega arith in z)

    read_loop-SameCounts :
        (n : ℕ) (s : Scan) (chunks : List (List ℕ))
        → Fills n chunks
        → SameCounts (read_loop t n (replicate n 0) s chunks) (scan t s (joined chunks))
    unfolding read_loop
    read_loop-SameCounts n s [] h = record { strings = refl; longest = refl }
    read_loop-SameCounts n s (c ∷ []) h =
        let short : SameCounts (scan t s (fill (replicate n 0) c)) (scan t s c) =
          rw (scan-fill n s c) (scan-zeros (scan t s c) (n - length c)) in
        rw append-nil short
    read_loop-SameCounts n s (c ∷ d ∷ r) h =
        subst
          (λ s'.
            SameCounts (read_loop t n (replicate n 0) s' (d ∷ r)) (scan t s (c ++ (d ++ joined r))))
          (sym (scan-fill_full n s c h.0))
          (subst (λ s'. SameCounts (read_loop t n (replicate n 0) (scan t s c) (d ∷ r)) s')
            (sym (scan-append t s c (d ++ joined r)))
            (read_loop-SameCounts n (scan t s c) (d ∷ r) h.1))

    -- For a buffer of any size that `read` fills on every call but the last, and a ctype that does
    -- not take the byte 0 for text, `regular_read` succeeds on a file that `mmap_regular_read` maps
    -- whole, returns the same size, and prints the same two counts.
    pub regular_read-eq-mmap :
        (n : ℕ) (env : FileEnv) (s : Scan)
        → Mapped env
        → Fills n env.reads
        → joined env.reads ≡ env.bytes
        → SameReading t n env s
    unfolding regular_read
    regular_read-eq-mmap n env s m h e = record {
      buffered = record {
        file_size = pos env.st_size;
        counters = read_loop t n (replicate n 0) s env.reads;
      };
      direct = record { file_size = pos env.st_size; counters = scan t s env.bytes };
      returns = rw (m.opened, m.has_size, to_int_lem env.st_size m.fits);
      returns_direct = mmap_regular_read-scan t env s m;
      size = refl;
      counts = rw e at (read_loop-SameCounts n s env.reads h);
    }
