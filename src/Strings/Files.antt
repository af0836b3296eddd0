-- ===== src/Strings/Files.antt =====
-- project4/proj4.cpp: what the reading functions get from the system, and their failures.
use cs3013_operating_systems.Prelude.{ℕ, Bool, List, Option, none, some}

-- One file as the system calls show it. `bytes` is the mapped memory, `reads` what each call of
-- `read` delivers until one returns 0 or less.
pub record FileEnv : Type 0 where
  pub open_succeeds : Bool
  pub fstat_succeeds : Bool
  pub mmap_succeeds : Bool
  pub munmap_succeeds : Bool
  pub st_size : ℕ
  pub bytes : List ℕ
  pub reads : List (List ℕ)

-- Each way to `exit(1)` in the reading functions, and a read outside the mapped memory.
pub data Failure : Type 0 where
  file_open : Failure
  could_not_stat : Failure
  could_not_mmap : Failure
  could_not_unmap : Failure
  wrong_initial_message : Failure
  segmentation_fault : Failure

pub data Result {ℓ} (A : Type ℓ) : Type ℓ where
  ok : A → Result A
  err : Failure → Result A

-- A failure ends the program: what follows it is not run.
infixl 5 ◌>>=◌ ◌>>◌
abbrev pub ◌>>=◌ {ℓ κ} : {A : Type ℓ} {C : Type κ} → Result A → (A → Result C) → Result C
err failure >>= go_on = err failure
ok value >>= go_on = go_on value

abbrev pub ◌>>◌ {κ} : {C : Type κ} → Result (Unit {0}) → Result C → Result C
first >> second = first >>= λ _. second

abbrev pub check : Bool → Failure → Result (Unit {0})
check Bool.true failure = ok tt
check Bool.false failure = err failure

abbrev pub or_fault {ℓ} : {A : Type ℓ} → Option A → Result A
or_fault none = err segmentation_fault
or_fault (some value) = ok value
