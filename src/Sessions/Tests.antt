-- ===== src/Sessions/Tests.antt =====
-- preproj2/sys.c: runs of the calls on process groups and sessions.
use cs3013_operating_systems.Prelude.{
  ℕ, ◌+◌, ◌<◌, ◌≡◌, refl, ◌==◌, if◌then◌else◌, Option, none, some, true, false, arith,
}
use cs3013_operating_systems.Prelude.Int.{ℤ, pos, eq_ℤ}
use cs3013_operating_systems.Sessions.{
  Processes, Thread, Kernel, setpgid_call, setsid_call, Reach, started, called, setsid, setpgid,
  getsid, getpgid, eperm, session_call, set_group, family_refusal, target_group,
}
use cs3013_operating_systems.Sessions.Invariant.{Promises, Ordered}
use cs3013_operating_systems.Sessions.Calls.{Reach-Ordered}
use cs3013_operating_systems.Sessions.Leaders.{setsid-leads}

-- A shell with pid 100, which leads a session, and two children in its group.
abbrev family : Processes
family a = record {
  pid = a + 100;
  pgrp = 100;
  session = 100;
  parent = 0;
  did_exec = false;
  leader = a == 0;
}

abbrev find_member : Processes → ℕ → Option ℕ
find_member ts g =
    if (ts 0).pgrp == g
    then some 0
    else if (ts 1).pgrp == g
    then some 1
    else if (ts 2).pgrp == g
    then some 2
    else none

abbrev kernel : ℕ → Kernel
kernel caller = record {
  current = caller;
  find_task_by_vpid =
      λ pid. if eq_ℤ pid (pos 101) then some (record { process = 1; is_leader = true }) else none;
  pgid_task = find_member;
  task_setpgid = λ p g. pos 0;
  task_getpgid = λ p. pos 0;
  task_getsid = λ p. pos 0;
  change_pgid = λ p g. record p { pgrp = g };
  set_special_pids = λ p s. record p { pgrp = s; session = s };
}

thread_in_three : (pid : ℤ) (t : Thread) → (kernel 0).find_task_by_vpid pid ≡ some t → t.process < 3
thread_in_three pid t e = ground (arith, e)

kernel-Promises : (caller : ℕ) → caller < 3 → Promises (kernel caller) 3
kernel-Promises caller q = record {
  current_is = q;
  thread_of = thread_in_three;
  some_member = λ ts g a e. ground (arith, e);
  no_member = λ ts g e a x y. ground (arith, e);
  changes = λ p g. refl;
  sets_special = λ p s. refl;
}

family-Ordered : Ordered 3 family
family-Ordered = record {
  own_pid = λ a b x y e. omega (arith, e);
  one_session = λ a b x y e. refl;
  with_leader = λ a b x y e. refl;
}

-- The shell puts a child into a group of its own, and the other child opens a session.
abbrev child_in_group : Processes
child_in_group = (session_call (kernel 0) (setpgid_call (pos 101) (pos 0)) family).1

abbrev child_in_session : Processes
child_in_session = (session_call (kernel 2) setsid_call child_in_group).1

two_calls : Reach (kernel 0) 3 family child_in_session
two_calls =
    called child_in_group 2 setsid_call
      (called family 0 (setpgid_call (pos 101) (pos 0)) started (omega arith)) (omega arith)

Reach-Ordered_example : Ordered 3 child_in_session
Reach-Ordered_example =
    Reach-Ordered (kernel 0) 3 family child_in_session (kernel-Promises 0 (omega arith))
      family-Ordered two_calls

new_session_then :
    let after = (setsid (kernel 2) family).1 in
    (getsid (kernel 2) (pos 0) after ≡ pos 102)
    × (getpgid (kernel 2) (pos 0) after ≡ pos 102)
    × (setsid (kernel 2) after ≡ (eperm, after))
unfolding setsid
new_session_then = setsid-leads (kernel 2) 3 family (kernel-Promises 2 (omega arith)) refl

groups_then : ((child_in_session 1).pgrp ≡ 101) × ((child_in_session 2).session ≡ 102)
unfolding setsid setpgid set_group family_refusal target_group
groups_then = (refl, refl)
