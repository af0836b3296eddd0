-- ===== src/Strings/Main.antt =====
-- project4/proj4.cpp: `main`, which chooses a way to read from its second argument.
pub mod Modes
use cs3013_operating_systems.Prelude.{
  ℕ, zero, suc, Bool, true, false, ◌&&◌, not, List, [], ◌∷◌, ◌==◌, if◌then◌else◌, Option, none,
  some,
}
use cs3013_operating_systems.Prelude.Text.{same_string}
use cs3013_operating_systems.Prelude.Int.{ℤ, pos, negsuc, pos_part, ltb_ℤ}
use cs3013_operating_systems.Strings.Scan.{Ctype, Scan}
use cs3013_operating_systems.Strings.Files.{FileEnv, Failure, Result, ok, err}
use cs3013_operating_systems.Strings.Reading.{Reading, regular_read, mmap_regular_read}
use cs3013_operating_systems.Strings.Threads.{Msg, max_thread, leb_ℤ, Merged, mmap_read}

-- `isdigit` and `atoi` of the C library, and whether a local array of so many bytes fits the stack.
pub record Stdlib : Type 0 where
  pub isdigit : ℕ → Bool
  pub atoi : List ℕ → ℤ
  pub stack_holds : ℤ → Bool

-- The messages with which `main` exits; the last one is none, but the crash of an array that does
-- not fit the stack.
pub data UsageError : Type 0 where
  invalid_input : UsageError
  no_threads : UsageError
  too_many_threads : UsageError
  buffer_not_positive : UsageError
  buffer_too_big : UsageError
  stack_overrun : UsageError

-- The local variables that the arguments set.
pub record Options : Type 0 where
  pub number_of_threads : ℤ
  pub is_multi_threaded : Bool
  pub ismmap : Bool
  pub buf_size : ℤ

pub data Mode : Type 0 where
  buffered : ℤ → Mode
  mapped : Mode
  threaded : ℤ → Mode

pub data Parsed {ℓ} (A : Type ℓ) : Type ℓ where
  accepted : A → Parsed A
  refused : UsageError → Parsed A

infixl 5 ◌>>=◌ ◌>>◌
abbrev pub ◌>>=◌ {ℓ κ} : {A : Type ℓ} {B : Type κ} → Parsed A → (A → Parsed B) → Parsed B
accepted a >>= f = f a
refused e >>= f = refused e

abbrev pub ◌>>◌ {ℓ} : {B : Type ℓ} → Parsed (Unit {0}) → Parsed B → Parsed B
m >> k = m >>= λ _. k

abbrev pub require : Bool → UsageError → Parsed (Unit {0})
require true e = accepted tt
require false e = refused e

-- A C string as its bytes, without the zero at its end.
abbrev pub first_char : List ℕ → ℕ
first_char [] = 0
first_char (c ∷ cs) = c

abbrev pub rest_of : List ℕ → List ℕ
rest_of [] = []
rest_of (c ∷ cs) = cs

abbrev pub mmap_word : List ℕ
mmap_word = b'm' ∷ b'm' ∷ b'a' ∷ b'p' ∷ []

abbrev pub defaults : Options
defaults = record {
  number_of_threads = pos 1;
  is_multi_threaded = false;
  ismmap = false;
  buf_size = negsuc 0;
}

unfoldable pub set_threads : ℤ → Options → Parsed Options
set_threads n o = do
  require (ltb_ℤ (pos 0) n) no_threads
  require (leb_ℤ n (pos max_thread)) too_many_threads
  accepted (record o { number_of_threads = n; is_multi_threaded = true; ismmap = true })

unfoldable pub set_buffer : ℤ → Options → Parsed Options
set_buffer n o = do
  require (ltb_ℤ (pos 0) n) buffer_not_positive
  accepted (record o { buf_size = n })

module _ (c : Stdlib) where
  unfoldable pub thread_option : List ℕ → Options → Parsed Options
  unfolding set_threads
  thread_option arg o =
      if first_char arg == b'p' then set_threads (c.atoi (rest_of arg)) o else accepted o

  unfoldable pub buffer_option : List ℕ → Options → Parsed Options
  unfolding set_buffer
  buffer_option arg o = if c.isdigit (first_char arg) then set_buffer (c.atoi arg) o else accepted o

  -- argv[2], if it is there
  unfoldable pub parse_options : Option (List ℕ) → Parsed Options
  unfolding thread_option buffer_option
  parse_options none = accepted defaults
  parse_options (some arg) = do
    o ← thread_option arg (record defaults { ismmap = same_string arg mmap_word })
    buffer_option arg o

-- `buf` is an array of `main` itself, which is there, and cleared, before its size is looked at.
unfoldable pub choose_mode : Stdlib → Options → Parsed Mode
choose_mode c o = do
  let bufsize = if ltb_ℤ (pos 0) o.buf_size then o.buf_size else pos 1024
  require (c.stack_holds bufsize) stack_overrun
  require (leb_ℤ bufsize (pos 8192)) buffer_too_big
  accepted (
      if not o.ismmap
      then buffered bufsize
      else if o.is_multi_threaded
      then threaded o.number_of_threads
      else mapped)

-- argv without the program's name
abbrev pub second_argument : List (List ℕ) → Parsed (Option (List ℕ))
second_argument (file ∷ []) = accepted none
second_argument (file ∷ arg ∷ []) = accepted (some arg)
second_argument _ = refused invalid_input

unfoldable pub mode_of : Stdlib → List (List ℕ) → Parsed Mode
unfolding parse_options choose_mode
mode_of c args = do arg ← second_argument args; o ← parse_options c arg; choose_mode c o

-- What `main` prints, or how it ends.
pub data Outcome : Type 0 where
  prints : (file_size num_strings max_length : ℤ) → Outcome
  exits : UsageError → Outcome
  fails : Failure → Outcome
  crashes : Outcome

abbrev pub start_counters : Scan
start_counters = record { str_length = 0; num_strings = 0; max_length = negsuc 0 }

abbrev pub print_reading : Result Reading → Outcome
print_reading (ok r) = prints r.file_size (pos r.counters.num_strings) r.counters.max_length
print_reading (err e) = fails e

abbrev pub print_merged : Result Merged → Outcome
print_merged (ok r) = prints r.file_size r.num_strings r.max_length
print_merged (err e) = fails e

unfoldable pub run_mode : Ctype → FileEnv → Msg → Mode → Outcome
run_mode t env fresh (buffered n) = print_reading (regular_read t (pos_part n) env start_counters)
run_mode t env fresh mapped = print_reading (mmap_regular_read t env start_counters)
run_mode t env fresh (threaded n) = print_merged (mmap_read t env fresh (pos_part n) (negsuc 0))

abbrev pub exit_with : UsageError → Outcome
exit_with stack_overrun = crashes
exit_with e = exits e

unfoldable pub main : Stdlib → Ctype → FileEnv → Msg → List (List ℕ) → Outcome
unfolding run_mode mode_of
main c t env fresh args = elim (mode_of c args) [
  | accepted mode ↦ run_mode t env fresh mode
  | refused e ↦ exit_with e
]
