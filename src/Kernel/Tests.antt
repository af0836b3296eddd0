-- ===== src/Kernel/Tests.antt =====
-- project2: small runs of the modules, and the theorems at them.
use cs3013_operating_systems.Prelude.{
  ℕ, zero, suc, ◌+◌, ◌-◌, ◌%◌, ◌/◌, ◌==◌, if◌then◌else◌, ◌*◌, ◌^◌, ◌≤◌, ◌<◌, ◌≡◌, refl, ◌≢◌, [],
  ◌∷◌, some, arith,
}
use cs3013_operating_systems.Prelude.Totals.{total}
use cs3013_operating_systems.Prelude.Int.{pos}
use cs3013_operating_systems.Kernel.ProcessInfo.{
  Task, Conversions, Current, describe, scan_siblings, sibling_loop, sibling_step,
}
use cs3013_operating_systems.Kernel.ProcessInfo.Children.{
  user, system, FirstStarted, children_times_doubled, youngest_child-is_oldest,
}
use cs3013_operating_systems.Kernel.ProcessInfo.Siblings.{SiblingReport, siblings_next_in_age}
use cs3013_operating_systems.Kernel.Table.{
  Platform, Machine, wp, disable_page_protection, enable_page_protection, poke, entry, null, table,
  find_sys_call_table, search_from, write_entry, write_two, on_found, openclose_on_found,
  openclose_at, loaded, interceptor_start, start_at, openclose_start, openclose_end,
}
use cs3013_operating_systems.Kernel.Table.Search.{
  offset_at, Looks, find_sys_call_table-ne-null, find_sys_call_table-finds,
}
use cs3013_operating_systems.Kernel.Table.Restore.{page_protection, openclose_restores}
use cs3013_operating_systems.Kernel.Handlers.{
  Functions, Arguments, closing, system_call, call_at, logged_open, logged_close,
}
use cs3013_operating_systems.Kernel.Handlers.Transparent.{
  Apart, Unhooked, promised, system_call-transparent,
}

abbrev same_units : Conversions
same_units = record { timespec_to_ns = λ n. n; cputime_to_usecs = λ n. n }

abbrev task_at : ℕ → ℕ → Task
task_at pid start_time = record {
  state = pos 0;
  pid = pid;
  start_time = start_time;
  utime = 3;
  stime = 4;
}

-- A process that started at 50, with two children and three others around it.
abbrev caller : Current
caller = record {
  task = task_at 9 50;
  parent_pid = 1;
  uid = 1000;
  children = task_at 11 60 ∷ task_at 12 70 ∷ [];
  siblings = task_at 5 20 ∷ task_at 6 30 ∷ task_at 13 80 ∷ [];
}

children_times_doubled_example :
    ((describe same_units caller).cutime ≡ 2 * total (user same_units) caller.children)
    × ((describe same_units caller).cstime ≡ 2 * total (system same_units) caller.children)
unfolding total
children_times_doubled_example =
    children_times_doubled same_units caller (omega arith) (omega arith)

youngest_child-is_oldest_example :
    (t : Task) × ((describe same_units caller).youngest_child ≡ pos t.pid)
    × FirstStarted same_units t caller.children
youngest_child-is_oldest_example =
    youngest_child-is_oldest same_units caller (task_at 11 60) (task_at 12 70 ∷ []) refl
      (omega arith)

siblings_next_in_age_example : SiblingReport same_units caller
siblings_next_in_age_example = siblings_next_in_age same_units caller

siblings_of_caller :
    ((describe same_units caller).older_sibling ≡ pos 6)
    × ((describe same_units caller).younger_sibling ≡ pos 13)
unfolding describe scan_siblings sibling_loop sibling_step
siblings_of_caller = (refl, refl)

-- A 32-bit machine, whose table is two words above PAGE_OFFSET.
abbrev x86 : Platform
x86 = record { long_bits = 32; word = 4; page_offset = 3 * 2 ^ 30; nr_close = 6; sys_close = 777 }

abbrev memory : ℕ → ℕ
memory a = if a == 3 * 2 ^ 30 + 32 then 777 else 5

abbrev machine : Machine
machine = record {
  cr0 = 2 ^ 16 + 1;
  mem = memory;
  sys_call_table = 0;
  ref_syscall1 = 0;
  ref_syscall2 = 0;
}

abbrev table_address : ℕ
table_address = 3 * 2 ^ 30 + 8

none_before : (i : ℕ) → i < 2 → ¬ Looks x86 memory (offset_at x86 x86.page_offset i)
none_before zero q e = cc
none_before (suc zero) q e = cc
none_before (suc (suc i)) q e = absurd (omega arith)

in_range : (i : ℕ) → i ≤ 2 → offset_at x86 x86.page_offset i < 2 ^ 64 - 1
in_range zero q = omega arith
in_range (suc zero) q = omega arith
in_range (suc (suc zero)) q = omega arith
in_range (suc (suc (suc i))) q = absurd (omega arith)

find_sys_call_table-finds_example : find_sys_call_table x86 memory 3 ≡ table table_address
find_sys_call_table-finds_example =
    find_sys_call_table-finds x86 memory 3 2 (omega arith) refl none_before in_range

found_in_three : find_sys_call_table x86 memory 3 ≡ table table_address
unfolding find_sys_call_table search_from
found_in_three = refl

find_sys_call_table-ne-null_example : find_sys_call_table x86 memory 1000 ≢ null
find_sys_call_table-ne-null_example =
    find_sys_call_table-ne-null x86 memory 1000 (omega arith) (omega arith) (λ e. omega (arith, e))

page_protection_example :
    (wp (disable_page_protection machine).cr0 ≡ 0)
    × (wp (enable_page_protection (disable_page_protection machine)).cr0 ≡ 1)
    × ((enable_page_protection (disable_page_protection machine)).cr0 % 2 ^ 16
        ≡ machine.cr0 % 2 ^ 16)
    × ((enable_page_protection (disable_page_protection machine)).cr0 / 2 ^ 17
        ≡ machine.cr0 / 2 ^ 17)
page_protection_example = page_protection machine

abbrev after_load : Machine
after_load = record {
  cr0 = 2 ^ 16 + 1;
  mem = poke memory (entry x86 table_address 223) 999;
  sys_call_table = table_address;
  ref_syscall1 = 0;
  ref_syscall2 = 5;
}

load_machine : interceptor_start x86 3 223 999 machine ≡ loaded after_load
unfolding interceptor_start find_sys_call_table search_from on_found start_at write_entry
    disable_page_protection enable_page_protection
load_machine = refl

abbrev after_openclose : Machine
after_openclose = record {
  cr0 = 2 ^ 16 + 1;
  mem =
      poke (poke memory (entry x86 table_address 5) 998) (entry x86 table_address x86.nr_close) 999;
  sys_call_table = table_address;
  ref_syscall1 = 5;
  ref_syscall2 = 777;
}

load_openclose : openclose_start x86 3 5 998 999 machine ≡ loaded after_openclose
unfolding openclose_start find_sys_call_table search_from openclose_on_found openclose_at write_two
    write_entry disable_page_protection enable_page_protection
load_openclose = refl

openclose_restores_example :
    (final : Machine) × (openclose_end x86 5 after_openclose ≡ some final)
    × (final.mem ≡ memory)
    × (wp final.cr0 ≡ 1)
openclose_restores_example =
    openclose_restores x86 3 5 998 999 machine after_openclose load_openclose (λ e. omega arith)

abbrev functions_of_kernel : Functions
functions_of_kernel address a = if address == 777 then pos 0 else a.second

abbrev three_arguments : Arguments
three_arguments = record { first = pos 3; second = pos 4; third = pos 5 }

x86-Apart : Apart x86 table_address 8
x86-Apart i j in_i in_j same = omega arith

machine-Unhooked : Unhooked x86 machine 998 999 table_address 8
machine-Unhooked i in_i = ground arith

system_call-transparent_example :
    system_call functions_of_kernel x86 998 999 table_address 6 1000 after_openclose three_arguments
    ≡ promised functions_of_kernel x86 5 table_address machine 6 1000 three_arguments
system_call-transparent_example =
    system_call-transparent functions_of_kernel x86 998 999 5 8 machine after_openclose 3
      load_openclose (omega arith) (omega arith) (λ e. omega arith) (λ e. omega arith) x86-Apart
      machine-Unhooked 6 1000 three_arguments (omega arith)

close_is_logged :
    system_call functions_of_kernel x86 998 999 table_address 6 1000 after_openclose three_arguments
    ≡ record { log = closing 1000 (pos 3) ∷ []; value = pos 0 }
unfolding system_call call_at logged_open logged_close
close_is_logged = refl
