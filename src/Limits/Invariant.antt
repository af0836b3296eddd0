-- ===== src/Limits/Invariant.antt =====
-- preproj2/sys.c: what stays true of the limits of all processes, whatever calls are made.
use cs3013_operating_systems.Prelude.{
  ℕ, ◌≤◌, ◌≡◌, refl, sym, ◌⊎◌, inl, inr, Bool, true, false, Option, none, some, if◌then◌else◌,
  update, arith, ap, subst, update_self, update_other, ℕ_discrete,
}
use cs3013_operating_systems.Prelude.Int.{ℤ, pos, eq_ℤ}
use cs3013_operating_systems.Limits.{
  Rlimit, Task, Processes, Platform, Kernel, Outcome, Reply, Call, get_call, old_get_call, set_call,
  prlimit_call, early_refusal, permission, adjusted, write_rlimit, store_rlimit, do_prlimit,
  copy_old, copy_out, getrlimit, old_getrlimit, setrlimit, prlimit64_at, prlimit64, limit_call,
  convert_new, reads_in, rlim_to_rlim64, check_prlimit_permission, efault, esrch,
}

-- A limit that was written over another one of this number.
module _ (p : Platform) (k : Kernel) where
  pub record Granted (resource : ℕ) (old new : Rlimit) : Type 0 where
    pub ordered : new.rlim_cur ≤ new.rlim_max
    pub files : resource ≡ p.rlimit_nofile → new.rlim_max ≤ p.nr_open
    pub lowered : k.capable ≡ false → new.rlim_max ≤ old.rlim_max

  early_refusal-none :
      (resource : ℕ) (new : Rlimit)
      → early_refusal p k resource (some new) ≡ none
      → (new.rlim_cur ≤ new.rlim_max) × (resource ≡ p.rlimit_nofile → new.rlim_max ≤ p.nr_open)
  unfolding early_refusal
  early_refusal-none resource new e = (ground (arith, e), λ same. ground (arith, e, same))

  permission-zero :
      (resource : ℕ) (new rlim : Rlimit)
      → eq_ℤ (permission p k resource new rlim) (pos 0) ≡ true
      → k.capable ≡ false
      → new.rlim_max ≤ rlim.rlim_max
  unfolding permission
  permission-zero resource new rlim e unable = ground (arith, e, unable)

  -- A limit before and after a call: the same, or set.
  abbrev pub Changed : ℕ → Rlimit → Rlimit → Type 0
  Changed resource old new =
      (new ≡ old)
      ⊎ ((asked : Rlimit) × Granted resource old asked × (new ≡ adjusted p k resource asked))

  write_rlimit-Changed :
      (resource : ℕ) (new : Rlimit) (tsk : Task)
      → Granted resource (tsk.rlim resource) new
      → (r : ℕ)
      → Changed r (tsk.rlim r) ((write_rlimit p k resource (adjusted p k resource new) tsk).rlim r)
  unfolding write_rlimit
  write_rlimit-Changed resource new tsk g r = elim (ℕ_discrete resource r) [
    | yes e ↦
        subst (λ i. Changed i (tsk.rlim i) (update tsk.rlim resource (adjusted p k resource new) i))
          e (inr (new, g, update_self tsk.rlim resource (adjusted p k resource new)))
    | no other ↦ inl (sym (update_other tsk.rlim resource (adjusted p k resource new) r other))
  ]

  store_rlimit-Changed :
      (resource : ℕ) (new : Option Rlimit) (wants_old : Bool) (tsk : Task)
      → early_refusal p k resource new ≡ none
      → (r : ℕ) → Changed r (tsk.rlim r) ((store_rlimit p k resource new wants_old tsk).task.rlim r)
  unfolding store_rlimit
  store_rlimit-Changed resource none wants_old tsk e r = inl refl
  store_rlimit-Changed resource (some new) wants_old tsk e r =
      when_allowed (eq_ℤ (permission p k resource new (tsk.rlim resource)) (pos 0)) refl
    where
      when_allowed :
          (b : Bool)
          → eq_ℤ (permission p k resource new (tsk.rlim resource)) (pos 0) ≡ b
          → Changed r (tsk.rlim r) (
              (if◌then◌else◌ {A = Outcome} b
                  (record {
                    retval = pos 0;
                    task = write_rlimit p k resource (adjusted p k resource new) tsk;
                    old = if wants_old then some (tsk.rlim resource) else none;
                  })
                  (record {
                    retval = permission p k resource new (tsk.rlim resource);
                    task = tsk;
                    old = none;
                  })).task.rlim
                r)
      when_allowed false x = inl refl
      when_allowed true x =
          write_rlimit-Changed resource new tsk
            (record {
              ordered = (early_refusal-none resource new e).0;
              files = (early_refusal-none resource new e).1;
              lowered = permission-zero resource new (tsk.rlim resource) x;
            })
            r

  do_prlimit-Changed :
      (tsk : Task) (resource : ℕ) (new : Option Rlimit) (wants_old : Bool) (r : ℕ)
      → Changed r (tsk.rlim r) ((do_prlimit p k tsk resource new wants_old).task.rlim r)
  unfolding do_prlimit
  do_prlimit-Changed tsk resource new wants_old r =
      (elim (early_refusal p k resource new)
          as (λ x.
            early_refusal p k resource new ≡ x
            → Changed r (tsk.rlim r) (
                (elim x as (λ y. Outcome) [
                  | some error ↦ record { retval = error; task = tsk; old = none }
                  | none ↦
                      if tsk.sighand
                      then store_rlimit p k resource new wants_old tsk
                      else record { retval = esrch; task = tsk; old = none }
                ]).task.rlim
                  r)) [
                    | some error ↦ λ e. inl refl
                    | none ↦ λ e.
                        elim tsk.sighand
                          as (λ b. Changed r (tsk.rlim r) (
                            (if b
                                then store_rlimit p k resource new wants_old tsk
                                else record { retval = esrch; task = tsk; old = none }).task.rlim
                              r)) [
                                | true ↦ store_rlimit-Changed resource new wants_old tsk e r
                                | false ↦ inl refl
                              ]
                  ])
        refl

  copy_old-processes :
      (ts : Processes) (retval : ℤ) (convert : Rlimit → Rlimit) (old : Option Rlimit)
      → (copy_old p k ts retval convert old).processes ≡ ts
  unfolding copy_old
  copy_old-processes ts retval convert none = refl
  copy_old-processes ts retval convert (some old) =
      elim k.copies_out
        as (λ b.
          (if◌then◌else◌ {A = Reply} b
            (record { retval = retval; processes = ts; given = some (convert old) })
            (record { retval = efault; processes = ts; given = none })).processes
          ≡ ts) [ true ↦ refl | false ↦ refl ]

  copy_out-processes :
      (ts : Processes) (a : ℕ) (convert : Rlimit → Rlimit) (o : Outcome)
      → (copy_out p k ts a convert o).processes ≡ update ts a o.task
  copy_out-processes ts a convert o = copy_old-processes (update ts a o.task) o.retval convert o.old

  -- What a call does to the processes.
  abbrev Through : Processes → Processes → Type 0
  Through ts after =
      (after ≡ ts)
      ⊎ ((a resource : ℕ) × (new : Option Rlimit) × (wants_old : Bool) × (after
            ≡ update ts a (do_prlimit p k (ts a) resource new wants_old).task))

  prlimit64_at-Through :
      (a resource : ℕ) (new : Option Rlimit) (wants_old : Bool) (ts : Processes)
      → Through ts ((prlimit64_at p k a resource new wants_old ts).processes)
  unfolding prlimit64_at
  prlimit64_at-Through a resource new wants_old ts =
      elim (eq_ℤ (check_prlimit_permission p k ts a) (pos 0))
        as (λ b. Through ts (
          (if b
            then copy_out p k ts a (rlim_to_rlim64 p)
                (do_prlimit p k (ts a) resource (convert_new p k new) wants_old)
            else record {
              retval = check_prlimit_permission p k ts a;
              processes = ts;
              given = none;
            }).processes)) [
              | true ↦ inr (
                a,
                resource,
                convert_new p k new,
                wants_old,
                copy_out-processes ts a (rlim_to_rlim64 p)
                    (do_prlimit p k (ts a) resource (convert_new p k new) wants_old),
              )
              | false ↦ inl refl
            ]

  limit_call-Through : (c : Call) (ts : Processes) → Through ts ((limit_call p k c ts).processes)
  unfolding getrlimit old_getrlimit setrlimit prlimit64
  limit_call-Through (get_call resource) ts = inr (
    k.current,
    resource,
    none,
    true,
    copy_out-processes ts k.current (λ l. l) (do_prlimit p k (ts k.current) resource none true),
  )
  limit_call-Through (old_get_call resource) ts = inl (ground arith)
  limit_call-Through (set_call resource new) ts =
      elim k.copies_in
        as (λ b. Through ts (
          (if b
            then copy_out p k ts k.current (λ l. l)
                (do_prlimit p k (ts k.current) resource (some new) false)
            else record { retval = efault; processes = ts; given = none }).processes)) [
              | true ↦ inr (
                k.current,
                resource,
                some new,
                false,
                copy_out-processes ts k.current (λ l. l)
                    (do_prlimit p k (ts k.current) resource (some new) false),
              )
              | false ↦ inl refl
            ]
  limit_call-Through (prlimit_call pid resource new wants_old) ts =
      elim (reads_in p k new)
        as (λ b. Through ts (
          (if◌then◌else◌ {A = Reply} b
            (elim (if eq_ℤ pid (pos 0) then some k.current else k.find_task_by_vpid pid) [
              | none ↦ record { retval = esrch; processes = ts; given = none }
              | some a ↦ prlimit64_at p k a resource new wants_old ts
            ])
            (record { retval = efault; processes = ts; given = none })).processes)) [
              | true ↦
                  elim (if eq_ℤ pid (pos 0) then some k.current else k.find_task_by_vpid pid)
                    as (λ x. Through ts (
                      (elim x as (λ y. Reply) [
                        | none ↦ record { retval = esrch; processes = ts; given = none }
                        | some a ↦ prlimit64_at p k a resource new wants_old ts
                      ]).processes)) [
                        | none ↦ inl refl
                        | some a ↦ prlimit64_at-Through a resource new wants_old ts
                      ]
              | false ↦ inl refl
            ]

  -- Every limit of every process is the same behind a call, or it was set.
  pub limit_call-Changed :
      (c : Call) (ts : Processes) (a r : ℕ)
      → Changed r ((ts a).rlim r) (((limit_call p k c ts).processes a).rlim r)
  limit_call-Changed c ts a r = elim (limit_call-Through c ts) [
    | inl same ↦ inl (ap {A = Processes} (λ t. (t a).rlim r) same)
    | inr (b, resource, new, wants_old, same) ↦
        subst (λ t. Changed r ((ts a).rlim r) ((t a).rlim r)) (sym same)
          (at_process b (do_prlimit p k (ts b) resource new wants_old).task
            (do_prlimit-Changed (ts b) resource new wants_old r) (ℕ_discrete b a))
  ]
    where
      at_process :
          (b : ℕ) (t : Task)
          → Changed r ((ts b).rlim r) (t.rlim r)
          → Dec (b ≡ a)
          → Changed r ((ts a).rlim r) ((update ts b t a).rlim r)
      at_process b t d (yes e) =
          subst (λ i. Changed r ((ts i).rlim r) ((update ts b t i).rlim r)) e
            (subst (λ x. Changed r ((ts b).rlim r) (x.rlim r)) (sym (update_self ts b t)) d)
      at_process b t d (no other) =
          subst (λ x. Changed r ((ts a).rlim r) (x.rlim r)) (update_other ts b t a other) (inl refl)
