-- ===== src/Limits/Written.antt =====
-- preproj2/sys.c: what a `do_prlimit` that set a limit leaves for the next one.
use cs3013_operating_systems.Prelude.{
  ℕ, ◌≡◌, refl, sym, ◌∙◌, ◌≢◌, Bool, true, false, Option, none, some, if◌then◌else◌, leb, arith,
  subst, ap, update_self,
}
use cs3013_operating_systems.Prelude.Int.{ℤ, pos, eq_ℤ, eq_ℤ-nonzero}
use cs3013_operating_systems.Limits.{
  Rlimit, Task, Platform, Kernel, Outcome, early_refusal, permission, adjusted, write_rlimit,
  store_rlimit, do_prlimit, einval, esrch,
}

module _ (p : Platform) (k : Kernel) where
  -- What a do_prlimit that set a limit found and left.
  record WasWritten (tsk : Task) (resource : ℕ) (new : Rlimit) (o : Outcome) : Type 0 where
    pub known : leb p.rlim_nlimits resource ≡ false
    pub there : tsk.sighand ≡ true
    pub written : o.task ≡ write_rlimit p k resource (adjusted p k resource new) tsk

  early_refusal-nonzero :
      (resource : ℕ) (new : Option Rlimit) (e : ℤ)
      → early_refusal p k resource new ≡ some e
      → e ≢ pos 0
  unfolding early_refusal
  early_refusal-nonzero resource none e x y = ground arith
  early_refusal-nonzero resource (some new) e x y = ground arith

  known_resource :
      (resource : ℕ) (new : Rlimit)
      → early_refusal p k resource (some new) ≡ none
      → leb p.rlim_nlimits resource ≡ false
  unfolding early_refusal
  known_resource resource new e = ground arith

  store_rlimit-zero :
      (resource : ℕ) (new : Rlimit) (wants_old : Bool) (tsk : Task)
      → (store_rlimit p k resource (some new) wants_old tsk).retval ≡ pos 0
      → (store_rlimit p k resource (some new) wants_old tsk).task
        ≡ write_rlimit p k resource (adjusted p k resource new) tsk
  unfolding store_rlimit
  store_rlimit-zero resource new wants_old tsk e =
      let error = permission p k resource new (tsk.rlim resource) in
      let set = write_rlimit p k resource (adjusted p k resource new) tsk in
      (elim (eq_ℤ error (pos 0))
          as (λ b.
            let o =
              if◌then◌else◌ {A = Outcome} b
                (record {
                  retval = pos 0;
                  task = set;
                  old = if wants_old then some (tsk.rlim resource) else none;
                })
                (record { retval = error; task = tsk; old = none }) in
            eq_ℤ error (pos 0) ≡ b → o.retval ≡ pos 0 → o.task ≡ set) [
              | true ↦ λ x y. refl
              | false ↦ λ x y. absurd (eq_ℤ-nonzero error x y)
            ])
        refl e

  do_prlimit-zero :
      (tsk : Task) (resource : ℕ) (new : Rlimit) (wants_old : Bool)
      → (do_prlimit p k tsk resource (some new) wants_old).retval ≡ pos 0
      → WasWritten tsk resource new (do_prlimit p k tsk resource (some new) wants_old)
  unfolding do_prlimit
  do_prlimit-zero tsk resource new wants_old e =
      let stored = store_rlimit p k resource (some new) wants_old tsk in
      let gone : Outcome = record { retval = esrch; task = tsk; old = none } in
      (elim (early_refusal p k resource (some new))
          as (λ x.
            let o = elim x as (λ y. Outcome) [
              | some error ↦ record { retval = error; task = tsk; old = none }
              | none ↦ if tsk.sighand then stored else gone
            ] in
            early_refusal p k resource (some new) ≡ x
            → o.retval ≡ pos 0
            → WasWritten tsk resource new o) [
              | some error ↦ λ x y. absurd (early_refusal-nonzero resource (some new) error x y)
              | none ↦ λ x.
                  (elim tsk.sighand
                      as (λ b.
                        let o = if b then stored else gone in
                        tsk.sighand ≡ b → o.retval ≡ pos 0 → WasWritten tsk resource new o) [
                          | true ↦ λ there y. record {
                            known = known_resource resource new x;
                            there = there;
                            written = store_rlimit-zero resource new wants_old tsk y;
                          }
                          | false ↦ λ there y. cc
                        ])
                    refl
            ])
        refl e

  do_prlimit-reads :
      (tsk : Task) (resource : ℕ)
      → leb p.rlim_nlimits resource ≡ false
      → tsk.sighand ≡ true
      → do_prlimit p k tsk resource none true
        ≡ record { retval = pos 0; task = tsk; old = some (tsk.rlim resource) }
  unfolding do_prlimit early_refusal store_rlimit
  do_prlimit-reads tsk resource known there =
      let done : Outcome = record { retval = pos 0; task = tsk; old = some (tsk.rlim resource) } in
      let gone : Outcome = record { retval = esrch; task = tsk; old = none } in
      subst
        (λ b.
          (elim (if b then some einval else none) as (λ x. Outcome) [
            | some error ↦ record { retval = error; task = tsk; old = none }
            | none ↦ if tsk.sighand then done else gone
          ])
          ≡ done)
        (sym known) (subst (λ b. (if b then done else gone) ≡ done) (sym there) refl)

  -- The limit that a call left, as the next one reads it.
  pub read_again :
      (tsk : Task) (resource : ℕ) (new : Rlimit) (wants_old : Bool)
      → (do_prlimit p k tsk resource (some new) wants_old).retval ≡ pos 0
      → let after = (do_prlimit p k tsk resource (some new) wants_old).task in
        do_prlimit p k after resource none true
        ≡ record { retval = pos 0; task = after; old = some (adjusted p k resource new) }
  unfolding write_rlimit
  read_again tsk resource new wants_old e =
      let w = do_prlimit-zero tsk resource new wants_old e in
      let after = (do_prlimit p k tsk resource (some new) wants_old).task in
      do_prlimit-reads after resource w.known (ap {A = Task} (λ t. t.sighand) w.written ∙ w.there)
      ∙ ap {A = Rlimit} (λ l. record { retval = pos 0; task = after; old = some l })
          (ap {A = Task} (λ t. t.rlim resource) w.written
            ∙ update_self tsk.rlim resource (adjusted p k resource new))

  -- Credentials stay.
  pub cred_stays :
      (tsk : Task) (resource : ℕ) (new : Rlimit) (wants_old : Bool)
      → (do_prlimit p k tsk resource (some new) wants_old).retval ≡ pos 0
      → (do_prlimit p k tsk resource (some new) wants_old).task.cred ≡ tsk.cred
  unfolding write_rlimit
  cred_stays tsk resource new wants_old e =
      ap {A = Task} (λ t. t.cred) (do_prlimit-zero tsk resource new wants_old e).written
