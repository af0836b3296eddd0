-- ===== src/Shell/Line.antt =====
-- project1/doit_processes.cpp: `shellLineSetup` and `commandLineSetup`, which fill `argvNew`.
pub mod Words
pub mod Argv
use cs3013_operating_systems.Prelude.{
  ℕ, zero, suc, ◌+◌, ◌-◌, Bool, true, false, List, [], ◌∷◌, ◌++◌, Option, none, some, length,
  get_elem?, set, ltb, ◌==◌, if◌then◌else◌, ◌||◌,
}
use cs3013_operating_systems.Prelude.Text.{same_string, c_str}
use cs3013_operating_systems.Prelude.Strtok.{strtok}

abbrev pub space : ℕ
space = b' '

-- The separator of `strtok`.
abbrev pub is_space : ℕ → Bool
is_space c = c == space

-- One entry of `char *argvNew[5]`.
pub data Slot : Type 0 where
  garbage : Slot
  null : Slot
  word : List ℕ → Slot

abbrev pub argv_size : ℕ
argv_size = 5

-- How filling an array ends: nothing to fill, an array, a write behind its end, or too little fuel.
pub data Setup : Type 0 where
  no_words : Setup
  filled : List Slot → Setup
  overrun : Setup
  no_fuel : Setup

-- argvNew[i] = v, and what follows it.
abbrev pub write : List Slot → ℕ → Slot → (List Slot → Setup) → Setup
write argv i v rest = if ltb i (length argv) then rest (set argv i v) else overrun

-- for(int i = 1; part != NULL; ++i), where `rest` is what `strtok` has left.
unfoldable pub fill_argv : ℕ → ℕ → List ℕ → List Slot → Setup
fill_argv zero i rest argv = no_fuel
fill_argv (suc fuel) i rest argv = elim (strtok is_space rest) [
  | none ↦ write argv i null λ a. filled a
  | some (part, more) ↦ write argv i (word part) λ a. fill_argv fuel (i + 1) more a
]

abbrev pub cd_word : List ℕ
cd_word = b'c' ∷ b'd' ∷ []

abbrev pub jobs_word : List ℕ
jobs_word = b'j' ∷ b'o' ∷ b'b' ∷ b's' ∷ []

abbrev pub bin : List ℕ
bin = b'/' ∷ b'b' ∷ b'i' ∷ b'n' ∷ b'/' ∷ []

-- The first entry: `cd` and `jobs` are the shell's own.
unfoldable pub file_path : List ℕ → List ℕ
file_path part =
    if same_string part cd_word || same_string part jobs_word then part else bin ++ part

unfoldable pub shell_line_setup : List Slot → List ℕ → Setup
unfolding fill_argv
shell_line_setup argv line = elim (strtok is_space (c_str line)) [
  | none ↦ no_words
  | some (part, more) ↦
      write argv 0 (word (file_path part)) λ a. fill_argv (suc (length more)) 1 more a
]

-- for(int i = 1; i < argc - 1; ++i), with `left` rounds to go.
unfoldable pub copy_arguments : ℕ → ℕ → List (List ℕ) → List Slot → (List Slot → Setup) → Setup
copy_arguments zero i args argv rest = rest argv
copy_arguments (suc left) i args argv rest = elim (get_elem? args (i + 1)) [
  | none ↦ overrun
  | some a ↦ write argv i (word a) λ v. copy_arguments left (i + 1) args v rest
]

-- `args` is argv, with the program's name.
unfoldable pub command_line_setup : List Slot → List (List ℕ) → Setup
unfolding copy_arguments
command_line_setup argv args = elim (get_elem? args 1) [
  | none ↦ overrun
  | some a ↦ write argv 0 (word a) λ v.
      copy_arguments (length args - 2) 1 args v λ u. write u (length args - 1) null λ t. filled t
]
