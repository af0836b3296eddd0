-- ===== src/Strings/Main/Modes.antt =====
-- project4/proj4.cpp: which ways to read `main` accepts, and that they print the same counts.
use cs3013_operating_systems.Prelude.{
  ℕ, ◌-◌, ◌/◌, ◌≤◌, ◌≡◌, refl, sym, ap, ◌∙◌, false, List, Option, none, some, arith, joined,
}
use cs3013_operating_systems.Prelude.Int.{ℤ, pos, pos_part, ◌≤ℤ◌}
use cs3013_operating_systems.Strings.Scan.{Ctype, is_text, scan}
use cs3013_operating_systems.Strings.Scan.Count.{count_strings}
use cs3013_operating_systems.Strings.Scan.Longest.{longest}
use cs3013_operating_systems.Strings.Files.{FileEnv, Result, ok}
use cs3013_operating_systems.Strings.Reading.{Reading, mmap_regular_read}
use cs3013_operating_systems.Strings.Reading.Direct.{
  start, Mapped, mmap_regular_read-scan, num_strings-start, pos_part-start,
}
use cs3013_operating_systems.Strings.Reading.Buffered.{Fills, regular_read-eq-mmap}
use cs3013_operating_systems.Strings.Threads.{Msg}
use cs3013_operating_systems.Strings.Threads.Cut.{cut}
use cs3013_operating_systems.Strings.Threads.Correct.{AllClear, mmap_read-eq-mmap_regular_read}
use cs3013_operating_systems.Strings.Main.{
  Stdlib, Options, Mode, buffered, mapped, threaded, Parsed, accepted, refused, parse_options,
  choose_mode, mode_of, Outcome, prints, run_mode, main, second_argument, ◌>>=◌,
}

-- The sizes that the README allows.
abbrev pub InRange : Mode → Type 0
InRange (buffered n) = (pos 1 ≤ℤ n) × (n ≤ℤ pos 8192)
InRange mapped = Unit
InRange (threaded n) = (pos 1 ≤ℤ n) × (n ≤ℤ pos 16)

abbrev ThreadsInRange : Options → Type 0
ThreadsInRange o = (pos 1 ≤ℤ o.number_of_threads) × (o.number_of_threads ≤ℤ pos 16)

>>=-eq-accepted {ℓ κ} :
    {A : Type ℓ} {B : Type κ} (m : Parsed A) (f : A → Parsed B) {b : B}
    → (m >>= f) ≡ accepted b
    → (a : A) × (m ≡ accepted a) × (f a ≡ accepted b)
>>=-eq-accepted (accepted a) f h = (a, refl, h)
>>=-eq-accepted (refused e) f h = cc

module _ (c : Stdlib) where
  choose_mode-range :
      (o : Options) (m : Mode) → ThreadsInRange o → choose_mode c o ≡ accepted m → InRange m
  unfolding choose_mode
  choose_mode-range o (buffered n) r e = ground arith
  choose_mode-range o mapped r e = tt
  choose_mode-range o (threaded n) r e = ground arith

  parse_options-range :
      (arg : Option (List ℕ)) (o : Options) → parse_options c arg ≡ accepted o → ThreadsInRange o
  unfolding parse_options
  parse_options-range none o e = ground arith
  parse_options-range (some arg) o e = ground arith

  -- Whatever the arguments, `main` reads with a buffer of 1 to 8192 bytes, or with 1 to 16 threads,
  -- or with neither.
  pub mode_of-InRange : (args : List (List ℕ)) (m : Mode) → mode_of c args ≡ accepted m → InRange m
  unfolding mode_of
  mode_of-InRange args m e =
      let (arg, _, e') = >>=-eq-accepted (second_argument args) _ e in
      let (o, f, g) = >>=-eq-accepted (parse_options c arg) (choose_mode c) e' in
      choose_mode-range o m (parse_options-range arg o f) g

-- What reading in a mode wants of the file: full chunks, or sections that the parent sees for what
-- they are.
abbrev pub Suits : Ctype → FileEnv → Mode → Type 0
Suits t env (buffered n) =
    (is_text t 0 ≡ false) × Fills (pos_part n) env.reads × (joined env.reads ≡ env.bytes)
Suits t env mapped = Unit
Suits t env (threaded n) =
    (pos_part n ≤ env.st_size)
    × AllClear t (cut (env.st_size / pos_part n) (pos_part n - 1) env.bytes)

-- The file's size, the number of runs of at least four bytes of text, and a greatest length that
-- is the longest run's; -1 may stand for 0.
pub record Prints (t : Ctype) (env : FileEnv) (o : Outcome) : Type 0 where
  pub top : ℤ
  pub shown : o ≡ prints (pos env.st_size) (pos (count_strings t false env.bytes)) top
  pub longest_run : pos_part top ≡ longest t env.bytes

module _ (c : Stdlib) (t : Ctype) (env : FileEnv) (fresh : Msg) where
  -- What a reading must hold for `main` to print it rightly.
  abbrev Right : ℤ → ℤ → ℤ → Type 0
  Right size strings top =
      (size ≡ pos env.st_size)
      × (strings ≡ pos (count_strings t false env.bytes))
      × (pos_part top ≡ longest t env.bytes)

  abbrev whole_scan : Reading
  whole_scan = record { file_size = pos env.st_size; counters = scan t start env.bytes }

  ok-injective : {a b : Reading} → ◌≡◌ {A = Result Reading} (ok a) (ok b) → a ≡ b
  ok-injective e = cc

  is_whole_scan : (r : Reading) → Mapped env → mmap_regular_read t env start ≡ ok r → r ≡ whole_scan
  is_whole_scan r m e = ok-injective (sym e ∙ mmap_regular_read-scan t env start m)

  prints-Right :
      (size strings top : ℤ) → Right size strings top → Prints t env (prints size strings top)
  prints-Right size strings top (a, b, d) = record {
    top = top;
    shown = ground arith;
    longest_run = d;
  }

  run_mode-Prints :
      (mode : Mode)
      → InRange mode
      → Mapped env
      → Suits t env mode
      → Prints t env (run_mode t env fresh mode)
  unfolding run_mode
  run_mode-Prints (buffered n) r m (nul, fills, e) =
      let b = regular_read-eq-mmap t nul (pos_part n) env start m fills e in
      let w = is_whole_scan b.direct m b.returns_direct in
      rw b.returns (
        prints-Right _ _ _ (
          b.size ∙ ap (λ (x : Reading). x.file_size) w,
          ap (λ k. pos k)
              (b.counts.strings
                ∙ ap (λ (x : Reading). x.counters.num_strings) w
                ∙ num_strings-start t env.bytes),
          ap pos_part (b.counts.longest ∙ ap (λ (x : Reading). x.counters.max_length) w)
              ∙ pos_part-start t env.bytes,
        ))
  run_mode-Prints mapped r m s = rw (mmap_regular_read-scan t env start m) (
      prints-Right _ _ _
        (refl, ap (λ k. pos k) (num_strings-start t env.bytes), pos_part-start t env.bytes))
  run_mode-Prints (threaded n) r m (large, clear) =
      let b = mmap_read-eq-mmap_regular_read t fresh env (pos_part n) m (omega arith) large clear in
      let w = is_whole_scan b.direct m b.returns_direct in
      rw b.returns (
        prints-Right _ _ _ (
          b.size ∙ ap (λ (x : Reading). x.file_size) w,
          b.strings
              ∙ ap (λ (x : Reading). pos x.counters.num_strings) w
              ∙ ap (λ k. pos k) (num_strings-start t env.bytes),
          ap pos_part b.longest_run
              ∙ ap (λ (x : Reading). pos_part x.counters.max_length) w
              ∙ pos_part-start t env.bytes,
        ))

  -- On a file that is mapped whole, each set of arguments that `main` accepts, in whichever mode
  -- it reads, prints the file's size, the number of runs of at least four bytes of text, and a
  -- greatest length that is the longest run's, -1 standing for 0 at times. This is where the file
  -- suits the mode: for a buffer, `read` fills it on every call but the last, and the byte 0 is no
  -- text; for threads, the file has a byte for each, and the parent sees every section for what it
  -- is, as in `mmap_read-eq-mmap_regular_read`.
  pub main-Prints :
      (args : List (List ℕ)) (mode : Mode)
      → mode_of c args ≡ accepted mode
      → Mapped env
      → Suits t env mode
      → Prints t env (main c t env fresh args)
  unfolding main
  main-Prints args mode e m s =
      rw (e, main) (run_mode-Prints mode (mode_of-InRange c args mode e) m s)
