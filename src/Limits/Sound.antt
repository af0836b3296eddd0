-- ===== src/Limits/Sound.antt =====
-- preproj2/sys.c: the limits behind any sequence of calls.
use cs3013_operating_systems.Prelude.{
  ℕ, ◌≤◌, ◌≡◌, sym, ◌⊎◌, inl, inr, false, List, [], ◌∷◌, arith, subst,
}
use cs3013_operating_systems.Limits.{
  Rlimit, Processes, Platform, Kernel, Call, adjusted, limit_call, limit_calls,
}
use cs3013_operating_systems.Limits.Invariant.{Granted, Changed, limit_call-Changed}

module _ (p : Platform) (k : Kernel) where
  adjusted-parts :
      (r : ℕ) (l : Rlimit)
      → ((adjusted p k r l).rlim_max ≡ l.rlim_max)
        × (((adjusted p k r l).rlim_cur ≡ l.rlim_cur)
            ⊎ ((r ≡ p.rlimit_cpu) × ((adjusted p k r l).rlim_cur ≡ 1) × (l.rlim_cur ≡ 0)))
  unfolding adjusted
  adjusted-parts r l = ground arith

  lower_only :
      (r : ℕ) (old new : Rlimit)
      → k.capable ≡ false
      → Changed p k r old new
      → new.rlim_max ≤ old.rlim_max
  lower_only r old new unable (inl e) = subst (λ l. l.rlim_max ≤ old.rlim_max) (sym e) (omega arith)
  lower_only r old new unable (inr (asked, g, e)) =
      subst (λ l. l.rlim_max ≤ old.rlim_max) (sym e)
        (omega (arith, (adjusted-parts r asked).0, g.lowered unable))

  -- No sequence of calls by processes without CAP_SYS_RESOURCE raises the greatest value to which
  -- any limit of any process can be set.
  pub limit_calls-lower_only :
      k.capable ≡ false
      → (calls : List Call) (ts : Processes) (a r : ℕ)
      → ((limit_calls p k calls ts a).rlim r).rlim_max ≤ ((ts a).rlim r).rlim_max
  unfolding limit_calls
  limit_calls-lower_only unable [] ts a r = omega arith
  limit_calls-lower_only unable (c ∷ calls) ts a r =
      let ts' = (limit_call p k c ts).processes in
      omega (
        arith,
        limit_calls-lower_only unable calls ts' a r,
        lower_only r ((ts a).rlim r) ((ts' a).rlim r) unable (limit_call-Changed p k c ts a r),
      )

  -- A limit is not above its greatest value, but for a CPU limit of one second over a greatest value
  -- of 0; the greatest value of the open files is not above sysctl_nr_open.
  abbrev pub Sound : ℕ → Rlimit → Type 0
  Sound r l =
      ((l.rlim_cur ≤ l.rlim_max) ⊎ ((r ≡ p.rlimit_cpu) × (l.rlim_cur ≡ 1) × (l.rlim_max ≡ 0)))
      × (r ≡ p.rlimit_nofile → l.rlim_max ≤ p.nr_open)

  adjusted-Sound :
      (r : ℕ) (old asked : Rlimit) → Granted p k r old asked → Sound r (adjusted p k r asked)
  adjusted-Sound r old asked g =
      let (same_max, cur) = adjusted-parts r asked in
      (ground (arith, same_max, cur, g.ordered), λ e. omega (arith, same_max, g.files e))

  Changed-Sound : (r : ℕ) (old new : Rlimit) → Changed p k r old new → Sound r old → Sound r new
  Changed-Sound r old new (inl e) s = subst (λ l. Sound r l) (sym e) s
  Changed-Sound r old new (inr (asked, g, e)) s =
      subst (λ l. Sound r l) (sym e) (adjusted-Sound r old asked g)

  -- Every sequence of calls keeps the limits of all processes sound: no limit is above its greatest
  -- value, with one exception that do_prlimit makes, a CPU limit of 1 over a greatest value of 0, and
  -- the greatest value of the open files is at most sysctl_nr_open.
  pub limit_calls-Sound :
      (calls : List Call) (ts : Processes)
      → ((a r : ℕ) → Sound r ((ts a).rlim r))
      → (a r : ℕ) → Sound r ((limit_calls p k calls ts a).rlim r)
  unfolding limit_calls
  limit_calls-Sound [] ts s a r = s a r
  limit_calls-Sound (c ∷ calls) ts s a r =
      let ts' = (limit_call p k c ts).processes in
      limit_calls-Sound calls ts'
        (λ b i.
          Changed-Sound i ((ts b).rlim i) ((ts' b).rlim i) (limit_call-Changed p k c ts b i)
            (s b i))
        a r
