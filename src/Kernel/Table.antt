-- ===== src/Kernel/Table.antt =====
-- project2/intercept.c, project2/module.c and project2/openclose.c: finding the system call table,
-- opening it for writing, and replacing and restoring its entries. `module.c` differs from
-- `intercept.c` in the number of the call and in its handler.
pub mod Search
pub mod Restore
use cs3013_operating_systems.Prelude.{
  ℕ, zero, suc, ◌+◌, ◌-◌, ◌*◌, ◌/◌, ◌%◌, ◌^◌, Bool, true, false, Option, none, some, ltb, ◌==◌,
  if◌then◌else◌,
}
use cs3013_operating_systems.Prelude.Int.{ℤ, pos, negsuc}

-- What the kernel's headers and the build fix: the width of `unsigned long`, sizeof(void*), where
-- the search begins, the numbers of the calls, and the addresses of the functions.
pub record Platform : Type 0 where
  pub long_bits : ℕ
  pub word : ℕ
  pub page_offset : ℕ
  pub nr_close : ℕ
  pub sys_close : ℕ

abbrev pub ullong_max : ℕ
ullong_max = 2 ^ 64 - 1

-- The processor and the memory, a word to an address; the modules' globals. An address 0 is NULL.
pub record Machine : Type 0 where
  pub cr0 : ℕ
  pub mem : ℕ → ℕ
  pub sys_call_table : ℕ
  pub ref_syscall1 : ℕ
  pub ref_syscall2 : ℕ

-- Bit 16 of cr0, write protection.
abbrev pub wp : ℕ → ℕ
wp c = c / 2 ^ 16 % 2

-- write_cr0(read_cr0() & ~0x10000)
unfoldable pub disable_page_protection : Machine → Machine
disable_page_protection m = record m { cr0 = m.cr0 - wp m.cr0 * 2 ^ 16 }

-- write_cr0(read_cr0() | 0x10000)
unfoldable pub enable_page_protection : Machine → Machine
enable_page_protection m = record m { cr0 = m.cr0 + (1 - wp m.cr0) * 2 ^ 16 }

abbrev pub poke : (ℕ → ℕ) → ℕ → ℕ → ℕ → ℕ
poke mem a v b = if a == b then v else mem b

-- A write to the table, whose page is read-only: a fault while write protection is on.
unfoldable pub write_entry : Machine → ℕ → ℕ → Option Machine
write_entry m a v = if wp m.cr0 == 0 then some (record m { mem = poke m.mem a v }) else none

-- How the `while` goes on for at most so many rounds: not over yet, or a table's address, of which 0
-- is NULL.
pub data Found : Type 0 where
  searching : Found
  table : ℕ → Found

abbrev pub null : Found
null = table 0

-- How loading a module ends: its return value, a fault, or a search that is not over.
pub data Load : Type 0 where
  loaded : Machine → Load
  cancelled : Machine → Load
  page_fault : Load
  still_searching : Load

abbrev pub or_fault : Option Machine → Load
or_fault none = page_fault
or_fault (some m) = loaded (enable_page_protection m)

module _ (p : Platform) where
  -- The address of entry `nr` of the table at `base`, and the step of the search.
  abbrev pub entry : ℕ → ℕ → ℕ
  entry base nr = (base + nr * p.word) % 2 ^ p.long_bits

  abbrev pub next_offset : ℕ → ℕ
  next_offset offset = (offset + p.word) % 2 ^ p.long_bits

  unfoldable pub search_from : (ℕ → ℕ) → ℕ → ℕ → Found
  search_from mem zero offset = searching
  search_from mem (suc rounds) offset = elim (ltb offset ullong_max) [
    | true ↦ elim (mem (entry offset p.nr_close) == p.sys_close) [
      | true ↦ table offset
      | false ↦ search_from mem rounds (next_offset offset)
    ]
    | false ↦ null
  ]

  unfoldable pub find_sys_call_table : (ℕ → ℕ) → ℕ → Found
  unfolding search_from
  find_sys_call_table mem rounds = search_from mem rounds p.page_offset

  -- `interceptor_start` of intercept.c, with the number `nr` of the replaced call and the address
  -- `handler` of the new function; in module.c the reference is ref_sys_cs3013_syscall1.
  unfoldable pub start_at : ℕ → ℕ → Machine → ℕ → Load
  unfolding write_entry disable_page_protection enable_page_protection
  start_at nr handler m t =
      let m' = record m { sys_call_table = t; ref_syscall2 = m.mem (entry t nr) } in
      or_fault (write_entry (disable_page_protection m') (entry t nr) handler)

  unfoldable pub on_found : ℕ → ℕ → Machine → Found → Load
  on_found nr handler m searching = still_searching
  on_found nr handler m (table t) =
      if t == 0 then cancelled (record m { sys_call_table = 0 }) else start_at nr handler m t

  unfoldable pub interceptor_start : ℕ → ℕ → ℕ → Machine → Load
  interceptor_start rounds nr handler m = on_found nr handler m (find_sys_call_table m.mem rounds)

  -- `interceptor_end`; none is a fault.
  unfoldable pub interceptor_end : ℕ → Machine → Option Machine
  unfolding write_entry disable_page_protection enable_page_protection
  interceptor_end nr m =
      if m.sys_call_table == 0
      then some m
      else elim (write_entry (disable_page_protection m) (entry m.sys_call_table nr)
          m.ref_syscall2) [ none ↦ none | some m' ↦ some (enable_page_protection m') ]

  -- The two writes of openclose.c.
  unfoldable pub write_two : Machine → ℕ → ℕ → ℕ → ℕ → Option Machine
  unfolding write_entry
  write_two m a v b w = elim (write_entry m a v) [ none ↦ none | some m' ↦ write_entry m' b w ]

  -- `interceptor_start` of openclose.c.
  unfoldable pub openclose_at : ℕ → ℕ → ℕ → Machine → ℕ → Load
  unfolding write_two disable_page_protection enable_page_protection
  openclose_at nr_open open_handler close_handler m t =
      let m' = record m {
        sys_call_table = t;
        ref_syscall1 = m.mem (entry t nr_open);
        ref_syscall2 = m.mem (entry t p.nr_close);
      } in
      or_fault (
        write_two (disable_page_protection m') (entry t nr_open) open_handler (entry t p.nr_close)
          close_handler)

  unfoldable pub openclose_on_found : ℕ → ℕ → ℕ → Machine → Found → Load
  openclose_on_found nr_open open_handler close_handler m searching = still_searching
  openclose_on_found nr_open open_handler close_handler m (table t) =
      if t == 0
      then cancelled (record m { sys_call_table = 0 })
      else openclose_at nr_open open_handler close_handler m t

  unfoldable pub openclose_start : ℕ → ℕ → ℕ → ℕ → Machine → Load
  openclose_start rounds nr_open open_handler close_handler m =
      openclose_on_found nr_open open_handler close_handler m (find_sys_call_table m.mem rounds)

  unfoldable pub openclose_end : ℕ → Machine → Option Machine
  unfolding write_two disable_page_protection enable_page_protection
  openclose_end nr_open m =
      if m.sys_call_table == 0
      then some m
      else elim (write_two (disable_page_protection m) (entry m.sys_call_table nr_open)
          m.ref_syscall1 (entry m.sys_call_table p.nr_close) m.ref_syscall2) [
            | none ↦ none
            | some m' ↦ some (enable_page_protection m')
          ]
