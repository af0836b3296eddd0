-- ===== src/Strings/Tests.antt =====
-- project4/proj4.cpp: runs on small files, and the theorems at them.
use cs3013_operating_systems.Prelude.{
  ℕ, ◌-◌, ◌≡◌, refl, inl, inr, true, ◌&&◌, ◌||◌, List, [], ◌∷◌, leb, ◌==◌, arith,
}
use cs3013_operating_systems.Prelude.Int.{pos, negsuc, ltb_ℤ, ◌+ℤ◌}
use cs3013_operating_systems.Prelude.Word.{to_int, div_int}
use cs3013_operating_systems.Strings.Scan.{Ctype, Scan, scan}
use cs3013_operating_systems.Strings.Files.{FileEnv, ok}
use cs3013_operating_systems.Strings.Reading.{regular_read, mmap_regular_read}
use cs3013_operating_systems.Strings.Reading.Direct.{
  start, Mapped, Counted, mmap_regular_read-counts,
}
use cs3013_operating_systems.Strings.Reading.Buffered.{SameReading, regular_read-eq-mmap}
use cs3013_operating_systems.Strings.Threads.{
  Msg, empty_section, section_byte, sumthread, replies, merge_step, merge_all, all_messages,
  mmap_read, Merge, range_messages, merge_whole, merge_mixed,
}
use cs3013_operating_systems.Strings.Threads.Sections.{section, Follows-section}
use cs3013_operating_systems.Strings.Threads.Merging.{reply, Agrees, ambiguous_section-loses_string}
use cs3013_operating_systems.Strings.Threads.Cut.{cut}
use cs3013_operating_systems.Strings.Threads.Correct.{SameAsDirect, mmap_read-eq-mmap_regular_read}
use cs3013_operating_systems.Strings.Main.{
  Stdlib, threaded, accepted, mode_of, main, refused, invalid_input,
}
use cs3013_operating_systems.Strings.Main.Modes.{InRange, mode_of-InRange, Prints, main-Prints}

abbrev ascii : Ctype
ascii = record {
  isspace = λ c. c == 32 || (leb 9 c && leb c 13);
  isprint = λ c. leb 32 c && leb c 126;
}

-- abcd.efgh.i, with zeros for the dots
abbrev sample_bytes : List ℕ
sample_bytes = 97 ∷ 98 ∷ 99 ∷ 100 ∷ 0 ∷ 101 ∷ 102 ∷ 103 ∷ 104 ∷ 0 ∷ 105 ∷ []

abbrev sample : FileEnv
sample = record {
  open_succeeds = true;
  fstat_succeeds = true;
  mmap_succeeds = true;
  munmap_succeeds = true;
  st_size = 11;
  bytes = sample_bytes;
  reads = (97 ∷ 98 ∷ 99 ∷ 100 ∷ 0 ∷ 101 ∷ 102 ∷ 103 ∷ []) ∷ (104 ∷ 0 ∷ 105 ∷ []) ∷ [];
}

abbrev blank : Msg
blank = record {
  i_from = 0;
  type = 0;
  value1 = pos 0;
  value2 = pos 0;
  value3 = pos 0;
  value4 = pos 0;
}

sample-Mapped : Mapped sample
sample-Mapped = record {
  opened = refl;
  has_size = refl;
  mapped = refl;
  unmapped = refl;
  whole = refl;
  fits = omega arith;
}

mmap_regular_read-sample :
    mmap_regular_read ascii sample start
    ≡ ok (record {
      file_size = pos 11;
      counters = record { str_length = 1; num_strings = 2; max_length = pos 4 };
    })
unfolding mmap_regular_read
mmap_regular_read-sample = refl

regular_read-sample :
    regular_read ascii 8 sample start
    ≡ ok (record {
      file_size = pos 11;
      counters = record { str_length = 0; num_strings = 2; max_length = pos 4 };
    })
unfolding regular_read
regular_read-sample = refl

mmap_read-sample :
    mmap_read ascii sample blank 2 (negsuc 0)
    ≡ ok (record { file_size = pos 11; num_strings = pos 2; max_length = pos 4 })
unfolding mmap_read to_int all_messages range_messages div_int replies merge_all merge_step
    merge_whole merge_mixed sumthread
mmap_read-sample = refl

mmap_regular_read-counts_example : Counted ascii sample
mmap_regular_read-counts_example = mmap_regular_read-counts ascii sample sample-Mapped

regular_read-eq-mmap_example : SameReading ascii 8 sample start
regular_read-eq-mmap_example =
    regular_read-eq-mmap ascii refl 8 sample start sample-Mapped (refl, omega arith) refl

mmap_read-eq-mmap_regular_read_example : SameAsDirect ascii blank sample 2
unfolding section section_byte cut
mmap_read-eq-mmap_regular_read_example =
    mmap_read-eq-mmap_regular_read ascii blank sample 2 sample-Mapped (omega arith) (omega arith)
      (inr (refl, λ h. omega arith), (inr (refl, λ h. omega arith), tt))

-- abcd, then a..a with zeros for the dots
abbrev broken : FileEnv
broken = record sample { st_size = 8; bytes = 97 ∷ 98 ∷ 99 ∷ 100 ∷ 97 ∷ 0 ∷ 0 ∷ 97 ∷ [] }

-- The file has one string, and two threads find none.
mmap_read-broken :
    mmap_read ascii broken blank 2 (negsuc 0)
    ≡ ok (record { file_size = pos 8; num_strings = pos 0; max_length = pos 5 })
unfolding mmap_read to_int all_messages range_messages div_int replies merge_all merge_step
    merge_whole merge_mixed sumthread
mmap_read-broken = refl

abbrev first_half : Scan
first_half = record { str_length = 4; num_strings = 1; max_length = pos 4 }

abbrev second_half : List ℕ
second_half = 97 ∷ 0 ∷ 0 ∷ 97 ∷ []

abbrev merge_half : Merge
merge_half = record {
  num_strings = pos 1;
  max_length = pos 4;
  length_end = pos 4;
  previous_end = pos 4;
}

merge_half-Agrees : Agrees merge_half first_half
merge_half-Agrees = record {
  previous = 4;
  strings = refl;
  top = refl;
  end = refl;
  previous_eq = refl;
  near = inl refl;
  bounded = omega arith;
}

ambiguous_section-loses_string_example :
    (merge_step merge_half (reply blank (section ascii empty_section second_half))).num_strings
      +ℤ pos 1
    ≡ pos (scan ascii first_half second_half).num_strings
unfolding section section_byte
ambiguous_section-loses_string_example =
    ambiguous_section-loses_string merge_half first_half (scan ascii first_half second_half)
      (section ascii empty_section second_half) blank merge_half-Agrees
      (Follows-section ascii first_half second_half (omega arith)) refl refl (omega arith)
      (omega arith) (omega arith) (omega arith)

-- `isdigit`, and an `atoi` for the arguments below
abbrev digits : Stdlib
digits = record {
  isdigit = λ c. leb b'0' c && leb c b'9';
  atoi = λ s. elim s [ [] ↦ pos 0 | c ∷ r ↦ pos (c - b'0') ];
  stack_holds = λ n. ltb_ℤ n (pos 8000000);
}

abbrev two_threads : List (List ℕ)
two_threads = (102 ∷ []) ∷ (b'p' ∷ b'2' ∷ []) ∷ []

mode_of-two_threads : mode_of digits two_threads ≡ accepted (threaded (pos 2))
unfolding mode_of
mode_of-two_threads = refl

mode_of-InRange_example : InRange (threaded (pos 2))
mode_of-InRange_example = mode_of-InRange digits two_threads (threaded (pos 2)) mode_of-two_threads

main-Prints_example : Prints ascii sample (main digits ascii sample blank two_threads)
unfolding section section_byte cut
main-Prints_example =
    main-Prints digits ascii sample blank two_threads (threaded (pos 2)) mode_of-two_threads
      sample-Mapped
      (omega arith, (inr (refl, λ h. omega arith), (inr (refl, λ h. omega arith), tt)))

too_many :
    mode_of digits ((102 ∷ []) ∷ (b'p' ∷ b'9' ∷ []) ∷ (b'x' ∷ []) ∷ []) ≡ refused invalid_input
unfolding mode_of
too_many = refl
