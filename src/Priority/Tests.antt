-- ===== src/Priority/Tests.antt =====
-- preproj2/sys.c: runs of `setpriority` and `getpriority`.
use cs3013_operating_systems.Prelude.{
  ◌≡◌, refl, ◌⊎◌, ◌==◌, if◌then◌else◌, none, some, [], ◌∷◌, true, false,
}
use cs3013_operating_systems.Prelude.Int.{pos, ◌-ℤ◌, ◌≤ℤ◌, eq_ℤ}
use cs3013_operating_systems.Priority.{
  Tasks, Kernel, set_one_prio_perm, set_one_prio, set_each, setpriority, getpriority, targets,
  eperm,
}
use cs3013_operating_systems.Priority.Allowed.{Agreed, setpriority-Allowed}
use cs3013_operating_systems.Priority.Readback.{getpriority-setpriority}

-- The caller, at 10, and a second thread of user 1000, and one of user 1001.
abbrev three_tasks : Tasks
three_tasks a = record {
  uid = if a == 30 then 1001 else 1000;
  euid = if a == 30 then 1001 else 1000;
  user_ns = 1;
  nice = pos 0;
  pgrp = 5;
}

abbrev kernel_answers : Kernel
kernel_answers = record {
  current = 10;
  ns_capable = λ ns. false;
  can_nice = λ p n. false;
  security_task_setnice = λ p n. pos 0;
  set_user_nice = λ p n. record p { nice = n };
  find_task_by_vpid = λ pid. if eq_ℤ pid (pos 30) then some 30 else none;
  find_vpid = λ pid. none;
  find_user = λ uid. true;
  group_threads = λ g. 10 ∷ 20 ∷ 30 ∷ [];
  all_threads = 10 ∷ 20 ∷ 30 ∷ [];
}

-- The threads of the caller's user are set to 25, which is cut to 19.
own_user : (setpriority kernel_answers (pos 2) (pos 0) (pos 25) three_tasks).0 ≡ pos 0
unfolding setpriority set_each set_one_prio set_one_prio_perm targets
own_user = refl

getpriority-setpriority_example :
    (getpriority kernel_answers
        (pos 2)
        (pos 0)
        ((setpriority kernel_answers (pos 2) (pos 0) (pos 25) three_tasks).1)
      ≡ pos 20 -ℤ pos 19)
    × (pos 1 ≤ℤ pos 20 -ℤ pos 19)
    × (pos 20 -ℤ pos 19 ≤ℤ pos 40)
getpriority-setpriority_example =
    getpriority-setpriority kernel_answers (pos 2) (pos 0) (pos 25) three_tasks (λ p n r. refl)
      (λ p n e. cc) own_user

-- The process of another user.
setpriority-Allowed_example :
    let after = (setpriority kernel_answers (pos 0) (pos 30) (pos 5) three_tasks).1 in
    (after 30 ≡ three_tasks 30)
    ⊎ ((after 30 ≡ record (three_tasks 30) { nice = pos 5 })
        × Agreed kernel_answers (pos 5) three_tasks 30)
setpriority-Allowed_example =
    setpriority-Allowed kernel_answers (pos 0) (pos 30) (pos 5) three_tasks (λ p n r. refl) 30

refused_to_others : (setpriority kernel_answers (pos 0) (pos 30) (pos 5) three_tasks).0 ≡ eperm
unfolding setpriority set_each set_one_prio set_one_prio_perm targets
refused_to_others = refl
