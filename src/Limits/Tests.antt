-- ===== src/Limits/Tests.antt =====
-- preproj2/sys.c: runs of the calls on resource limits.
use cs3013_operating_systems.Prelude.{
  ℕ, ◌-◌, ◌^◌, ◌≤◌, ◌≡◌, refl, inl, none, some, List, [], ◌∷◌, true, false, arith,
}
use cs3013_operating_systems.Prelude.Int.{pos}
use cs3013_operating_systems.Limits.{
  Rlimit, Processes, Platform, Kernel, Call, set_call, prlimit_call, adjusted, rlim_to_rlim64,
  rlim64_to_rlim, rlim64_is_infinity, limit_calls, prlimit64, prlimit64_at,
  check_prlimit_permission, do_prlimit, early_refusal, store_rlimit, permission, write_rlimit,
  copy_old, einval, setrlimit,
}
use cs3013_operating_systems.Limits.Sound.{limit_calls-lower_only, limit_calls-Sound, Sound}
use cs3013_operating_systems.Limits.Words.{rlim64_to_rlim-rlim_to_rlim64, readable}
use cs3013_operating_systems.Limits.Adjusted.{readback}
use cs3013_operating_systems.Limits.Readback.{prlimit64_reads_back, Gives}

-- A 32-bit machine.
abbrev x86 : Platform
x86 = record {
  long_bits = 32;
  rlim_infinity = 2 ^ 32 - 1;
  rlim_nlimits = 16;
  rlimit_nofile = 7;
  rlimit_cpu = 0;
  nr_open = 1024;
}

abbrev user_kernel : Kernel
user_kernel = record {
  current = 10;
  capable = false;
  ns_capable = λ ns. false;
  task_setrlimit = λ resource new. pos 0;
  find_task_by_vpid = λ pid. none;
  copies_in = true;
  copies_out = true;
}

abbrev limit_of : ℕ → ℕ → Rlimit
limit_of cur max = record { rlim_cur = cur; rlim_max = max }

abbrev processes : Processes
processes a = record {
  sighand = true;
  rlim = λ r. limit_of 100 1000;
  cred = record { uid = 1; euid = 1; suid = 1; gid = 1; egid = 1; sgid = 1; user_ns = 1 };
  cpu_timer = none;
}

-- The CPU limit is set to 0, then raised in vain; the files' limit is lowered.
abbrev some_calls : List Call
some_calls =
    set_call 0 (limit_of 0 0)
    ∷ prlimit_call (pos 0) 0 (some (limit_of 5 1001)) true
    ∷ set_call 7 (limit_of 50 60)
    ∷ []

limit_calls-lower_only_example :
    ((limit_calls x86 user_kernel some_calls processes 10).rlim 7).rlim_max ≤ 1000
limit_calls-lower_only_example =
    limit_calls-lower_only x86 user_kernel refl some_calls processes 10 7

limit_calls-Sound_example :
    Sound x86 user_kernel 0 ((limit_calls x86 user_kernel some_calls processes 10).rlim 0)
limit_calls-Sound_example =
    limit_calls-Sound x86 user_kernel some_calls processes
      (λ a r. (inl (omega arith), λ e. omega arith)) 10 0

-- The exception: a limit of 1 over a greatest value of 0, which cannot be set again.
cpu_above_max :
    ((limit_calls x86 user_kernel some_calls processes 10).rlim 0 ≡ limit_of 1 0)
    × ((setrlimit x86 user_kernel 0 (limit_of 1 0) processes).retval ≡ einval)
unfolding limit_calls setrlimit prlimit64 prlimit64_at check_prlimit_permission do_prlimit
    early_refusal store_rlimit permission write_rlimit adjusted copy_old rlim64_to_rlim
    rlim64_is_infinity
cpu_above_max = (refl, refl)

small_and_large :
    (rlim64_to_rlim x86 (rlim_to_rlim64 x86 (limit_of 5 (2 ^ 32 - 1))) ≡ limit_of 5 (2 ^ 32 - 1))
    × (rlim_to_rlim64 x86 (rlim64_to_rlim x86 (limit_of 5 (2 ^ 40)))
        ≡ limit_of (readable x86 5) (readable x86 (2 ^ 40)))
small_and_large =
    rlim64_to_rlim-rlim_to_rlim64 x86 (inl refl, refl) (limit_of 5 (2 ^ 32 - 1))
      (limit_of 5 (2 ^ 40)) (omega arith) (omega arith) (omega arith) (omega arith)

set_to_zero :
    (prlimit64 x86 user_kernel (pos 0) 0 (some (limit_of 0 10)) true processes).retval ≡ pos 0
unfolding prlimit64 prlimit64_at check_prlimit_permission do_prlimit early_refusal store_rlimit
    permission write_rlimit adjusted copy_old rlim64_to_rlim rlim64_is_infinity
set_to_zero = refl

prlimit64_reads_back_example : Gives x86 user_kernel (readback x86 user_kernel 0 (limit_of 0 10)) (
    prlimit64 x86 user_kernel
      (pos 0)
      0
      none
      true
      (prlimit64 x86 user_kernel (pos 0) 0 (some (limit_of 0 10)) true processes).processes)
prlimit64_reads_back_example =
    prlimit64_reads_back x86 user_kernel (inl refl, refl) (pos 0) 0 (limit_of 0 10) true processes
      (omega arith) (omega arith) refl set_to_zero
