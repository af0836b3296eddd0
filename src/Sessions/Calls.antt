-- ===== src/Sessions/Calls.antt =====
-- preproj2/sys.c: `setpgid` and `setsid` keep process groups within sessions.
use cs3013_operating_systems.Prelude.{
  ℕ, ◌<◌, ◌≡◌, refl, sym, true, false, none, some, if◌then◌else◌, update, subst,
}
use cs3013_operating_systems.Prelude.Int.{ℤ, pos, eq_ℤ, ltb_ℤ}
use cs3013_operating_systems.Sessions.{
  Processes, Kernel, Call, setpgid_call, setsid_call, set_group, setpgid, setsid, session_call,
  Reach, started, called, eperm, esrch, einval,
}
use cs3013_operating_systems.Sessions.Invariant.{Promises, Ordered, changed_Ordered}
use cs3013_operating_systems.Sessions.Groups.{set_group-Ordered}

module _ (k : Kernel) (count : ℕ) (promises : Promises k count) where
  setsid-Ordered : (ts : Processes) → Ordered count ts → Ordered count ((setsid k ts).1)
  unfolding setsid
  setsid-Ordered ts o =
      let group_leader = ts k.current in
      let led = record group_leader { leader = true } in
      let own = group_leader.pid in
      elim group_leader.leader
        as (λ b. Ordered count (
          (if b then (eperm, ts) else elim (k.pgid_task ts own) as (λ y. ℤ × Processes) [
            | some g ↦ (eperm, ts)
            | none ↦ (pos own, update ts k.current (k.set_special_pids led own))
          ]).1)) [
            | true ↦ o
            | false ↦
                (elim (k.pgid_task ts own)
                    as (λ x.
                      k.pgid_task ts own ≡ x
                      → Ordered count (
                          (elim x as (λ y. ℤ × Processes) [
                            | some g ↦ (eperm, ts)
                            | none ↦ (pos own, update ts k.current (k.set_special_pids led own))
                          ]).1)) [
                            | some g ↦ λ e. o
                            | none ↦ λ e.
                                subst (λ q. Ordered count (update ts k.current q))
                                  (sym (promises.sets_special led own))
                                  (changed_Ordered count ts o k.current promises.current_is
                                    (record led { pgrp = own; session = own }) refl
                                    (λ a x n y. absurd (promises.no_member ts own e a x y))
                                    (λ a x n y. absurd (promises.no_member ts own e a x y))
                                    (λ b x n y.
                                      absurd (n (o.own_pid k.current b promises.current_is x y))))
                          ])
                  refl
          ]

  setpgid-Ordered :
      (pid pgid : ℤ) (ts : Processes) → Ordered count ts → Ordered count ((setpgid k pid pgid ts).1)
  unfolding setpgid
  setpgid-Ordered pid pgid ts o =
      let pid' = if eq_ℤ pid (pos 0) then pos (ts k.current).pid else pid in
      let pgid' = if eq_ℤ pgid (pos 0) then pid' else pgid in
      elim (ltb_ℤ pgid' (pos 0))
        as (λ b. Ordered count (
          (if b then (einval, ts) else elim (k.find_task_by_vpid pid') as (λ y. ℤ × Processes) [
            | none ↦ (esrch, ts)
            | some t ↦ if t.is_leader then set_group k ts t.process pid' pgid' else (einval, ts)
          ]).1)) [
            | true ↦ o
            | false ↦
                (elim (k.find_task_by_vpid pid')
                    as (λ x.
                      k.find_task_by_vpid pid' ≡ x
                      → Ordered count (
                          (elim x as (λ y. ℤ × Processes) [
                            | none ↦ (esrch, ts)
                            | some t ↦
                                if t.is_leader
                                then set_group k ts t.process pid' pgid'
                                else (einval, ts)
                          ]).1)) [
                            | none ↦ λ e. o
                            | some t ↦ λ e.
                                elim t.is_leader
                                  as (λ b. Ordered count (
                                    (if b
                                      then set_group k ts t.process pid' pgid'
                                      else (einval, ts)).1)) [
                                        | true ↦
                                            set_group-Ordered k count promises ts t.process pid'
                                              pgid' o (promises.thread_of pid' t e)
                                        | false ↦ o
                                      ]
                          ])
                  refl
          ]

  pub session_call-Ordered :
      (c : Call) (ts : Processes) → Ordered count ts → Ordered count ((session_call k c ts).1)
  session_call-Ordered (setpgid_call pid pgid) ts o = setpgid-Ordered pid pgid ts o
  session_call-Ordered setsid_call ts o = setsid-Ordered ts o

-- The kernel's promises do not depend on who calls.
for_caller :
    (k : Kernel) (count a : ℕ)
    → Promises k count
    → a < count
    → Promises (record k { current = a }) count
for_caller k count a promises in_a = record {
  current_is = in_a;
  thread_of = promises.thread_of;
  some_member = promises.some_member;
  no_member = promises.no_member;
  changes = promises.changes;
  sets_special = promises.sets_special;
}

-- Whatever calls of setpgid and setsid the processes make, in any order, this stays so if it was so:
-- their pids are different, every process group lies within one session, and the members of the
-- group that has a process's pid are in the session of that process. The kernel's lookups of pids and
-- groups are taken to find what there is, and `change_pid` and `__set_special_pids` to write the
-- group, and the group and session, only.
pub Reach-Ordered :
    (k : Kernel) (count : ℕ) (start ts : Processes)
    → Promises k count
    → Ordered count start
    → Reach k count start ts
    → Ordered count ts
Reach-Ordered k count start ts promises o started = o
Reach-Ordered k count start ts promises o (called ts' a c r in_a) =
    session_call-Ordered (record k { current = a }) count (for_caller k count a promises in_a) c ts'
      (Reach-Ordered k count start ts' promises o r)
