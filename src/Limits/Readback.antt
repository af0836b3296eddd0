-- ===== src/Limits/Readback.antt =====
-- preproj2/sys.c: a limit that is read after it was set.
use cs3013_operating_systems.Prelude.{
  ℕ, ◌^◌, ◌<◌, ◌≡◌, refl, sym, ◌∙◌, Bool, true, false, Option, none, some, if◌then◌else◌, subst, ap,
  update, update_self, update_other, ℕ_discrete,
}
use cs3013_operating_systems.Prelude.Int.{ℤ, pos, eq_ℤ, eq_ℤ-nonzero}
use cs3013_operating_systems.Limits.{
  Rlimit, Task, Processes, Platform, Kernel, Outcome, Reply, rlim_to_rlim64, rlim64_to_rlim,
  adjusted, do_prlimit, copy_old, copy_out, esrch, efault, check_prlimit_permission, prlimit64_at,
  prlimit64,
}
use cs3013_operating_systems.Limits.Words.{LongWords}
use cs3013_operating_systems.Limits.Written.{read_again, cred_stays}
use cs3013_operating_systems.Limits.Adjusted.{readback, adjusted_words}

module _ (p : Platform) (k : Kernel) where
  copy_old-zero :
      (ts : Processes) (retval : ℤ) (convert : Rlimit → Rlimit) (old : Option Rlimit)
      → (copy_old p k ts retval convert old).retval ≡ pos 0
      → (retval ≡ pos 0) × ((copy_old p k ts retval convert old).processes ≡ ts)
  unfolding copy_old
  copy_old-zero ts retval convert none e = (e, refl)
  copy_old-zero ts retval convert (some old) e =
      (elim k.copies_out
          as (λ b.
            let r =
              if◌then◌else◌ {A = Reply} b
                (record { retval = retval; processes = ts; given = some (convert old) })
                (record { retval = efault; processes = ts; given = none }) in
            r.retval ≡ pos 0 → (retval ≡ pos 0) × (r.processes ≡ ts)) [
              | true ↦ λ x. (x, refl)
              | false ↦ λ x. cc
            ])
        e

  -- What a reply that gives a limit says.
  abbrev pub Gives : Rlimit → Reply → Type 0
  Gives l r = (r.retval ≡ pos 0) × (r.given ≡ some l)

  copy_old-some :
      (ts : Processes) (convert : Rlimit → Rlimit) (l : Rlimit)
      → k.copies_out ≡ true
      → Gives (convert l) (copy_old p k ts (pos 0) convert (some l))
  unfolding copy_old
  copy_old-some ts convert l e =
      subst
        (λ b. Gives (convert l) (
          if◌then◌else◌ {A = Reply} b
            (record { retval = pos 0; processes = ts; given = some (convert l) })
            (record { retval = efault; processes = ts; given = none })))
        (sym e) (refl, refl)

  module _ (a resource : ℕ) (new : Rlimit) (ts : Processes) (wants_old : Bool) where
    abbrev outcome : Outcome
    outcome = do_prlimit p k (ts a) resource (some new) wants_old

    abbrev after_set : Processes
    after_set = update ts a outcome.task

    reads_twice :
        (convert : Rlimit → Rlimit)
        → outcome.retval ≡ pos 0
        → k.copies_out ≡ true
        → Gives
            (convert (adjusted p k resource new))
            (copy_out p k after_set a convert (do_prlimit p k (after_set a) resource none true))
    reads_twice convert e out =
        subst
          (λ o.
            Gives (convert (adjusted p k resource new))
              (copy_old p k (update after_set a o.task) o.retval convert o.old))
          (sym (
            ap {A = Task} (λ t. do_prlimit p k t resource none true) (update_self ts a outcome.task)
            ∙ read_again p k (ts a) resource new wants_old e))
          (copy_old-some (update after_set a outcome.task) convert (adjusted p k resource new) out)

    creds_stay : outcome.retval ≡ pos 0 → (b : ℕ) → (after_set b).cred ≡ (ts b).cred
    creds_stay e b = elim (ℕ_discrete a b) [
      | yes same ↦
          subst (λ i. (after_set i).cred ≡ (ts i).cred) same
            (ap {A = Task} (λ t. t.cred) (update_self ts a outcome.task)
              ∙ cred_stays p k (ts a) resource new wants_old e)
      | no other ↦ ap {A = Task} (λ t. t.cred) (sym (update_other ts a outcome.task b other))
    ]

    may_again :
        outcome.retval ≡ pos 0
        → check_prlimit_permission p k after_set a ≡ check_prlimit_permission p k ts a
    unfolding check_prlimit_permission
    may_again e = rw (creds_stay e k.current, creds_stay e a) refl

  prlimit64_at-again :
      (a resource : ℕ) (new : Rlimit) (ts : Processes) (wants_old : Bool)
      → k.copies_out ≡ true
      → let first = prlimit64_at p k a resource (some new) wants_old ts in
        first.retval ≡ pos 0
        → Gives
            (rlim_to_rlim64 p (adjusted p k resource (rlim64_to_rlim p new)))
            (prlimit64_at p k a resource none true first.processes)
  unfolding prlimit64_at
  prlimit64_at-again a resource new ts wants_old out e =
      let ret = check_prlimit_permission p k ts a in
      let asked = rlim64_to_rlim p new in
      let o = outcome a resource asked ts wants_old in
      let ts' = after_set a resource asked ts wants_old in
      let result = rlim_to_rlim64 p (adjusted p k resource asked) in
      (elim (eq_ℤ ret (pos 0))
          as (λ b.
            let first =
              if◌then◌else◌ {A = Reply} b (copy_old p k ts' o.retval (rlim_to_rlim64 p) o.old)
                (record { retval = ret; processes = ts; given = none }) in
            eq_ℤ ret (pos 0) ≡ b
            → first.retval ≡ pos 0
            → Gives result (prlimit64_at p k a resource none true first.processes)) [
              | true ↦ λ x y.
                  let (done, same) = copy_old-zero ts' o.retval (rlim_to_rlim64 p) o.old y in
                  subst (λ t. Gives result (prlimit64_at p k a resource none true t)) (sym same)
                    (subst
                      (λ b. Gives result (
                        if◌then◌else◌ {A = Reply} b
                          (copy_out p k ts' a (rlim_to_rlim64 p)
                            (do_prlimit p k (ts' a) resource none true))
                          (record {
                            retval = check_prlimit_permission p k ts' a;
                            processes = ts';
                            given = none;
                          })))
                      (sym (
                        ap {A = ℤ} (λ r. eq_ℤ r (pos 0))
                          (may_again a resource asked ts wants_old done)
                        ∙ x))
                      (reads_twice a resource asked ts wants_old (rlim_to_rlim64 p) done out))
              | false ↦ λ x y. absurd (eq_ℤ-nonzero ret x y)
            ])
        refl e

  -- After a prlimit64 that set a limit and returned 0, a prlimit64 of the same pid that only asks
  -- for the limit returns 0 and gives what was set: an immediate expiry of the CPU time became one
  -- second, and a number that an unsigned long cannot tell from infinity became infinity. The
  -- second copy to the caller's memory is taken to succeed.
  pub prlimit64_reads_back :
      LongWords p
      → (pid : ℤ) (resource : ℕ) (new : Rlimit) (wants_old : Bool) (ts : Processes)
      → new.rlim_cur < 2 ^ 64
      → new.rlim_max < 2 ^ 64
      → k.copies_out ≡ true
      → (prlimit64 p k pid resource (some new) wants_old ts).retval ≡ pos 0
      → Gives (readback p k resource new) (
          prlimit64 p k pid resource none true
            (prlimit64 p k pid resource (some new) wants_old ts).processes)
  unfolding prlimit64
  prlimit64_reads_back w pid resource new wants_old ts c m out e =
      let bad : ℤ → Reply = λ x. record { retval = x; processes = ts; given = none } in
      let found = if eq_ℤ pid (pos 0) then some k.current else k.find_task_by_vpid pid in
      subst
        (λ l. Gives l (
          prlimit64 p k pid resource none true
            (prlimit64 p k pid resource (some new) wants_old ts).processes))
        (adjusted_words p k w resource new c m)
        ((elim k.copies_in
            as (λ b.
              let first =
                if b
                then elim found as (λ x. Reply) [
                  | none ↦ bad esrch
                  | some a ↦ prlimit64_at p k a resource (some new) wants_old ts
                ]
                else bad efault in
              first.retval ≡ pos 0
              → Gives (rlim_to_rlim64 p (adjusted p k resource (rlim64_to_rlim p new)))
                  (prlimit64 p k pid resource none true first.processes)) [
                    | true ↦
                        elim found
                          as (λ x.
                            let first = elim x as (λ y. Reply) [
                              | none ↦ bad esrch
                              | some a ↦ prlimit64_at p k a resource (some new) wants_old ts
                            ] in
                            let second = elim x as (λ y. Reply) [
                              | none ↦ record {
                                retval = esrch;
                                processes = first.processes;
                                given = none;
                              }
                              | some a ↦ prlimit64_at p k a resource none true first.processes
                            ] in
                            first.retval ≡ pos 0
                            → Gives
                                (rlim_to_rlim64 p (adjusted p k resource (rlim64_to_rlim p new)))
                                second) [
                                  | none ↦ λ x. cc
                                  | some a ↦ prlimit64_at-again a resource new ts wants_old out
                                ]
                    | false ↦ λ x. cc
                  ])
          e)
