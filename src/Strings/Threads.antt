-- ===== src/Strings/Threads.antt =====
-- project4/proj4.cpp: `mmap_read`, which cuts the file into one section for each thread, and the
-- thread function `sumthread`. The messages themselves travel as `Mailbox` says.
pub mod Cut
pub mod Merging
pub mod Correct
pub mod Sections
use cs3013_operating_systems.Prelude.{
  ℕ, zero, suc, ◌+◌, ◌-◌, Bool, true, false, ◌&&◌, not, List, [], ◌∷◌, ◌++◌, get_elem?, ◌==◌, ltb,
  if◌then◌else◌, Option, none,
}
use cs3013_operating_systems.Prelude.Int.{ℤ, pos, negsuc, pos_part, ltb_ℤ, ◌+ℤ◌, ◌-ℤ◌, ◌*ℤ◌}
use cs3013_operating_systems.Prelude.Word.{to_int, div_int}
use cs3013_operating_systems.Strings.Scan.{Ctype, is_text}
use cs3013_operating_systems.Strings.Files.{
  FileEnv, Result, ok, check, or_fault, ◌>>=◌, ◌>>◌, file_open, could_not_stat, could_not_mmap,
  could_not_unmap, wrong_initial_message,
}

abbrev pub range_type : ℕ
range_type = 1

abbrev pub alldone_type : ℕ
alldone_type = 2

abbrev pub max_thread : ℕ
max_thread = 16

pub record Msg : Type 0 where
  pub i_from : ℕ
  pub type : ℕ
  pub value1 : ℤ
  pub value2 : ℤ
  pub value3 : ℤ
  pub value4 : ℤ

-- The local counters of `sumthread`.
pub record Section : Type 0 where
  pub is_beginning : Bool
  pub chars_at_begin : ℕ
  pub num_strings : ℕ
  pub str_length : ℕ
  pub max_length : ℕ

abbrev pub empty_section : Section
empty_section = record {
  is_beginning = true;
  chars_at_begin = 0;
  num_strings = 0;
  str_length = 0;
  max_length = 0;
}

module _ (t : Ctype) where
  unfoldable pub section_byte : Section → ℕ → Section
  section_byte s c =
      let s' =
        if is_text t c
        then record s {
          chars_at_begin = if s.is_beginning then s.chars_at_begin + 1 else s.chars_at_begin;
          str_length = s.str_length + 1;
          max_length =
              if ltb s.max_length (s.str_length + 1) then s.str_length + 1 else s.max_length;
        }
        else record s { is_beginning = false; str_length = 0 } in
      if s'.str_length == 4 then record s' { num_strings = s'.num_strings + 1 } else s'

  -- pchFile[i], with a negative index outside the mapped memory
  abbrev pub byte_at : List ℕ → ℤ → Option ℕ
  byte_at mem (pos i) = get_elem? mem i
  byte_at mem (negsuc i) = none

  -- The loop of `sumthread` with `left` rounds to go.
  unfoldable pub section_loop : List ℕ → ℕ → ℤ → Section → Result Section
  unfolding section_byte ◌+ℤ◌
  section_loop mem zero i s = ok s
  section_loop mem (suc left) i s = do
    c ← or_fault (byte_at mem i)
    section_loop mem left (i +ℤ pos 1) (section_byte s c)

  unfoldable pub sumthread : List ℕ → Msg → Result Msg
  unfolding section_loop ◌+ℤ◌ ◌-ℤ◌
  sumthread mem message = do
    check (message.type == range_type) wrong_initial_message
    let byte_from = message.value1
    let byte_to = message.value2
    s ← section_loop mem (pos_part (byte_to -ℤ byte_from +ℤ pos 1)) byte_from empty_section
    ok (record message {
      type = alldone_type;
      value1 = pos s.num_strings;
      value2 = pos s.chars_at_begin;
      value3 = pos s.str_length;
      value4 = pos s.max_length;
    })

-- The messages that the parent sends, `fresh` being the local `msg` before it is filled in.
abbrev pub range_message : Msg → ℤ → ℤ → Msg
range_message fresh from to = record fresh {
  i_from = 0;
  type = range_type;
  value1 = from;
  value2 = to;
}

-- `left` more of the first `numberOfThreads - 1` messages, from thread `i` on.
unfoldable pub range_messages : Msg → ℤ → ℕ → ℕ → List Msg
unfolding ◌*ℤ◌ ◌-ℤ◌
range_messages fresh range zero i = []
range_messages fresh range (suc left) i =
    range_message fresh (pos i *ℤ range) (pos (i + 1) *ℤ range -ℤ pos 1)
    ∷ range_messages fresh range left (i + 1)

unfoldable pub all_messages : Msg → ℤ → ℕ → List Msg
all_messages fresh file_size n =
    let range = div_int file_size n in
    range_messages fresh range (n - 1) 0
    ++ (range_message fresh (pos (n - 1) *ℤ range) (file_size -ℤ pos 1) ∷ [])

unfoldable pub replies : Ctype → List ℕ → List Msg → Result (List Msg)
replies t mem [] = ok []
replies t mem (m ∷ ms) = do r ← sumthread t mem m; rs ← replies t mem ms; ok (r ∷ rs)

-- The variables of the parent's loop; `length_end` is maxLengthEnd[i-1].
pub record Merge : Type 0 where
  pub num_strings : ℤ
  pub max_length : ℤ
  pub length_end : ℤ
  pub previous_end : ℤ

abbrev pub max_ℤ : ℤ → ℤ → ℤ
max_ℤ a b = if ltb_ℤ b a then a else b

abbrev pub leb_ℤ : ℤ → ℤ → Bool
leb_ℤ a b = not (ltb_ℤ b a)

abbrev pub eq_ℤ : ℤ → ℤ → Bool
eq_ℤ a b = leb_ℤ a b && leb_ℤ b a

-- The test by which the parent takes a section for one run of text.
abbrev pub is_whole : Msg → Bool
is_whole r = leb_ℤ r.value1 (pos 1) && (eq_ℤ r.value2 r.value3 && not (eq_ℤ r.value2 (pos 0)))

unfoldable pub merge_whole : Merge → Msg → Merge
unfolding ◌+ℤ◌ ◌-ℤ◌
merge_whole m r =
    let n = m.num_strings +ℤ r.value1 in
    let top = m.length_end +ℤ r.value2 in
    record {
      num_strings = if leb_ℤ (pos 4) m.previous_end then n -ℤ pos 1 else n;
      max_length = max_ℤ top m.max_length;
      length_end = top;
      previous_end = r.value3;
    }

unfoldable pub merge_mixed : Merge → Msg → Merge
unfolding ◌+ℤ◌ ◌-ℤ◌
merge_mixed m r =
    let n = m.num_strings +ℤ r.value1 in
    let merged = m.length_end +ℤ r.value2 in
    record {
      num_strings =
          if leb_ℤ (pos 4) (m.previous_end +ℤ r.value2)
            && (ltb_ℤ r.value2 (pos 4) && ltb_ℤ m.previous_end (pos 4))
          then n +ℤ pos 1
          else if leb_ℤ (pos 4) m.previous_end && leb_ℤ (pos 4) r.value2
          then n -ℤ pos 1
          else n;
      max_length = max_ℤ (max_ℤ merged r.value4) m.max_length;
      length_end = r.value3;
      previous_end = r.value3;
    }

unfoldable pub merge_step : Merge → Msg → Merge
merge_step m r =
    if r.type == alldone_type
    then if is_whole r then merge_whole m r else merge_mixed m r
    else record m { length_end = pos 0 }

unfoldable pub merge_all : Merge → List Msg → Merge
merge_all m [] = m
merge_all m (r ∷ rs) = merge_all (merge_step m r) rs

-- What `mmap_read` leaves in its reference arguments.
pub record Merged : Type 0 where
  pub file_size : ℤ
  pub num_strings : ℤ
  pub max_length : ℤ

unfoldable pub mmap_read : Ctype → FileEnv → Msg → ℕ → ℤ → Result Merged
mmap_read t env fresh n max_length = do
  check env.open_succeeds file_open
  check env.fstat_succeeds could_not_stat
  let file_size = to_int env.st_size
  check env.mmap_succeeds could_not_mmap
  rs ← replies t env.bytes (all_messages fresh file_size n)
  let m =
      merge_all
        (record {
          num_strings = pos 0;
          max_length = max_length;
          length_end = pos 0;
          previous_end = pos 0;
        })
        rs
  check env.munmap_succeeds could_not_unmap
  ok (record { file_size = file_size; num_strings = m.num_strings; max_length = m.max_length })
