-- ===== src/Sessions/Leaders.antt =====
-- preproj2/sys.c: a process that opened a session.
use cs3013_operating_systems.Prelude.{
  ℕ, ◌≡◌, ◌∙◌, Bool, true, false, none, some, if◌then◌else◌, update, update_self, ap,
}
use cs3013_operating_systems.Prelude.Int.{ℤ, pos}
use cs3013_operating_systems.Sessions.{Process, Processes, Kernel, setsid, getsid, getpgid, eperm}
use cs3013_operating_systems.Sessions.Invariant.{Promises}

second_setsid :
    (k : Kernel) (ts : Processes) → (ts k.current).leader ≡ true → setsid k ts ≡ (eperm, ts)
unfolding setsid
second_setsid k ts e =
    ap {A = Bool}
      (λ b.
        if◌then◌else◌ {A = ℤ × Processes} b (eperm, ts)
          (elim (k.pgid_task ts (ts k.current).pid) [
            | some g ↦ (eperm, ts)
            | none ↦ (
              pos (ts k.current).pid,
              update ts k.current
                  (k.set_special_pids (record (ts k.current) { leader = true }) (ts k.current).pid),
            )
          ]))
      e

-- After a setsid that returned the caller's pid, the caller's session and process group have that
-- number, and it leads the session: a second setsid is refused and changes nothing.
pub setsid-leads :
    (k : Kernel) (count : ℕ) (ts : Processes)
    → Promises k count
    → (setsid k ts).0 ≡ pos (ts k.current).pid
    → let after = (setsid k ts).1 in
      (getsid k (pos 0) after ≡ pos (ts k.current).pid)
      × (getpgid k (pos 0) after ≡ pos (ts k.current).pid)
      × (setsid k after ≡ (eperm, after))
unfolding setsid getsid getpgid
setsid-leads k count ts promises e =
    let own = (ts k.current).pid in
    let led = record (ts k.current) { leader = true } in
    let new = update ts k.current (k.set_special_pids led own) in
    let set : new k.current ≡ record led { pgrp = own; session = own } =
      update_self ts k.current (k.set_special_pids led own) ∙ promises.sets_special led own in
    (elim (ts k.current).leader
        as (λ b.
          let r =
            if◌then◌else◌ {A = ℤ × Processes} b (eperm, ts)
              (elim (k.pgid_task ts own) [ some g ↦ (eperm, ts) | none ↦ (pos own, new) ]) in
          r.0 ≡ pos own
          → (pos (r.1 k.current).session ≡ pos own)
            × (pos (r.1 k.current).pgrp ≡ pos own)
            × (setsid k r.1 ≡ (eperm, r.1))) [
              | true ↦ λ x. cc
              | false ↦
                  elim (k.pgid_task ts own)
                    as (λ y.
                      let r = elim y as (λ z. ℤ × Processes) [
                        | some g ↦ (eperm, ts)
                        | none ↦ (pos own, new)
                      ] in
                      r.0 ≡ pos own
                      → (pos (r.1 k.current).session ≡ pos own)
                        × (pos (r.1 k.current).pgrp ≡ pos own)
                        × (setsid k r.1 ≡ (eperm, r.1))) [
                          | some g ↦ λ x. cc
                          | none ↦ λ x. (
                            ap {A = Process} (λ q. pos q.session) set,
                            ap {A = Process} (λ q. pos q.pgrp) set,
                            second_setsid k new (ap {A = Process} (λ q. q.leader) set),
                          )
                        ]
            ])
      e
