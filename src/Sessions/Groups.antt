-- ===== src/Sessions/Groups.antt =====
-- preproj2/sys.c: what `setpgid` does to the group of a process.
use cs3013_operating_systems.Prelude.{
  ℕ, ◌<◌, ◌≡◌, refl, inl, inr, true, false, Option, none, some, ◌==◌, if◌then◌else◌, arith,
}
use cs3013_operating_systems.Prelude.Int.{ℤ, pos, pos_part, eq_ℤ}
use cs3013_operating_systems.Sessions.{
  Processes, Kernel, family_refusal, target_group, move_to, set_group, eperm,
}
use cs3013_operating_systems.Sessions.Invariant.{Promises, Ordered, GoodGroup, move_to-Ordered}

module _ (k : Kernel) (count : ℕ) (promises : Promises k count) where
  -- A process whose group may be set is in the caller's session.
  family_refusal-none :
      (ts : Processes) (p : ℕ)
      → family_refusal k ts p ≡ none
      → (ts p).session ≡ (ts k.current).session
  unfolding family_refusal
  family_refusal-none ts p e = ground arith

  target_group-GoodGroup :
      (ts : Processes) (p : ℕ) (pid pgid : ℤ) (g : ℕ)
      → (ts p).session ≡ (ts k.current).session
      → target_group k ts p pid pgid ≡ some g
      → GoodGroup k count promises ts p g
  unfolding target_group
  target_group-GoodGroup ts p pid pgid g same e =
      let foreign = elim (k.pgid_task ts (pos_part pgid)) as (λ x. Option ℕ) [
        | none ↦ none
        | some m ↦ if (ts m).session == (ts k.current).session then some (pos_part pgid) else none
      ] in
      (elim (eq_ℤ pgid pid)
          as (λ b.
            (if b then some (ts p).pid else foreign) ≡ some g → GoodGroup k count promises ts p g) [
              | true ↦ λ x. inl cc
              | false ↦
                  (elim (k.pgid_task ts (pos_part pgid))
                      as (λ x.
                        k.pgid_task ts (pos_part pgid) ≡ x
                        → (elim x as (λ y. Option ℕ) [
                          | none ↦ none
                          | some m ↦
                              if (ts m).session == (ts k.current).session
                              then some (pos_part pgid)
                              else none
                        ])
                          ≡ some g
                        → GoodGroup k count promises ts p g) [
                          | none ↦ λ x y. cc
                          | some m ↦ λ x y. same_session m g x y
                        ])
                    refl
            ])
        e
    where
      same_session :
          (m g : ℕ)
          → k.pgid_task ts (pos_part pgid) ≡ some m
          → (if (ts m).session == (ts k.current).session then some (pos_part pgid) else none)
            ≡ some g
          → GoodGroup k count promises ts p g
      same_session m g x y =
          let (in_m, member) = promises.some_member ts (pos_part pgid) m x in
          inr (m, in_m, ground (arith, member, y), ground (arith, same, y))

  pub set_group-Ordered :
      (ts : Processes) (p : ℕ) (pid pgid : ℤ)
      → Ordered count ts
      → p < count
      → Ordered count ((set_group k ts p pid pgid).1)
  unfolding set_group
  set_group-Ordered ts p pid pgid o in_p =
      (elim (family_refusal k ts p)
          as (λ x.
            family_refusal k ts p ≡ x
            → Ordered count (
                (elim x as (λ y. ℤ × Processes) [
                  | some error ↦ (error, ts)
                  | none ↦
                      if (ts p).leader then (eperm, ts) else elim (target_group k ts p pid pgid) [
                        | none ↦ (eperm, ts)
                        | some g ↦
                            let err = k.task_setpgid (ts p) pgid in
                            if eq_ℤ err (pos 0) then (pos 0, move_to k ts p g) else (err, ts)
                      ]
                ]).1)) [
                  | some error ↦ λ e. o
                  | none ↦ λ e.
                      elim (ts p).leader
                        as (λ b. Ordered count (
                          (if b
                            then (eperm, ts)
                            else elim (target_group k ts p pid pgid) as (λ y. ℤ × Processes) [
                              | none ↦ (eperm, ts)
                              | some g ↦
                                  let err = k.task_setpgid (ts p) pgid in
                                  if eq_ℤ err (pos 0) then (pos 0, move_to k ts p g) else (err, ts)
                            ]).1)) [
                              | true ↦ o
                              | false ↦
                                  (elim (target_group k ts p pid pgid)
                                      as (λ x.
                                        target_group k ts p pid pgid ≡ x
                                        → Ordered count (
                                            (elim x as (λ y. ℤ × Processes) [
                                              | none ↦ (eperm, ts)
                                              | some g ↦
                                                  let err = k.task_setpgid (ts p) pgid in
                                                  if eq_ℤ err (pos 0)
                                                  then (pos 0, move_to k ts p g)
                                                  else (err, ts)
                                            ]).1)) [
                                              | none ↦ λ y. o
                                              | some g ↦ λ y.
                                                  elim (eq_ℤ (k.task_setpgid (ts p) pgid) (pos 0))
                                                    as (λ b. Ordered count (
                                                      (if◌then◌else◌ {A = ℤ × Processes} b
                                                        (pos 0, move_to k ts p g)
                                                        (k.task_setpgid (ts p) pgid, ts)).1)) [
                                                          | true ↦
                                                            move_to-Ordered k count promises ts p g
                                                            o in_p
                                                            (target_group-GoodGroup ts p pid pgid g
                                                            (family_refusal-none ts p e) y)
                                                          | false ↦ o
                                                        ]
                                            ])
                                    refl
                            ]
                ])
        refl
