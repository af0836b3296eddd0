-- ===== src/Priority/Readback.antt =====
-- preproj2/sys.c: `getpriority` after `setpriority`.
use cs3013_operating_systems.Prelude.{
  ℕ, ◌≡◌, refl, sym, ◌∙◌, ◌≢◌, ◌⊎◌, inl, inr, Bool, true, false, ◌&&◌, List, [], ◌∷◌, Option, none,
  some, if◌then◌else◌, arith, ap, subst, update_self,
}
use cs3013_operating_systems.Prelude.Int.{ℤ, pos, ltb_ℤ, eq_ℤ, ◌≤ℤ◌, ◌-ℤ◌}
use cs3013_operating_systems.Priority.{
  Task, Tasks, Kernel, clamp_nice, passes, bad_which, set_one_prio, set_each, setpriority, get_each,
  getpriority, targets, esrch, eperm, eacces, einval,
}
use cs3013_operating_systems.Priority.Allowed.{
  InRange, clamp_nice-InRange, SetsNice, set_one_prio-cases, WasSet, WasRefused, ids_stay,
  set_each-Allowed,
}

-- The security module does not answer -ESRCH.
abbrev pub NoSuchProcess : Kernel → Type 0
NoSuchProcess k = (p : Task) (n : ℤ) → k.security_task_setnice p n ≢ esrch

-- The error, and what `getpriority` has by then.
abbrev Together : ℤ → ℤ → ℤ → Type 0
Together n error retval =
    ((error ≡ pos 0) × (retval ≡ pos 20 -ℤ n)) ⊎ ((error ≡ esrch) × (retval ≡ esrch))

module _ (k : Kernel) (sets : SetsNice k) (no_esrch : NoSuchProcess k) (n : ℤ) (r : InRange n) where
  -- An error that is neither 0 nor -ESRCH stays.
  abbrev Open : ℤ → Type 0
  Open error = (error ≡ pos 0) ⊎ (error ≡ esrch)

  refused-Open :
      (a : ℕ) (error : ℤ) (tasks : Tasks)
      → WasRefused k n tasks a error
      → ¬ Open ((set_one_prio k a n error tasks).0)
  refused-Open a error tasks (e, same, nonzero, x) o =
      from_reason e nonzero x (subst Open (ap {A = ℤ × Tasks} (λ o. o.0) same) o)
    where
      from_reason :
          (e : ℤ)
          → e ≢ pos 0
          → (e ≡ eperm) ⊎ (e ≡ eacces) ⊎ (e ≡ k.security_task_setnice (tasks a) n)
          → ¬ Open e
      from_reason e nonzero x (inl zero_error) = nonzero zero_error
      from_reason e nonzero (inl x) (inr y) = cc
      from_reason e nonzero (inr (inl x)) (inr y) = cc
      from_reason e nonzero (inr (inr x)) (inr y) = no_esrch (tasks a) n (sym x ∙ y)

  -- A visit that leaves 0 or -ESRCH set the nice value.
  visit-Open :
      (a : ℕ) (error : ℤ) (tasks : Tasks)
      → Open ((set_one_prio k a n error tasks).0)
      → WasSet k n tasks a error
  visit-Open a error tasks o = elim (set_one_prio-cases k n tasks a error) [
    | inl done ↦ done
    | inr refused ↦ absurd (refused-Open a error tasks refused o)
  ]

  new_error-Open : (error : ℤ) → Open (if eq_ℤ error esrch then pos 0 else error) → Open error
  new_error-Open error o = ground arith

  new_error : (error : ℤ) → Open error → (if eq_ℤ error esrch then pos 0 else error) ≡ pos 0
  new_error error o = ground arith

  -- The nice value of a thread that has it already stays.
  nice_stays :
      (only : Option ℕ) (threads : List ℕ) (error : ℤ) (tasks : Tasks) (a : ℕ)
      → (tasks a).nice ≡ n
      → ((set_each k only n threads error tasks).1 a).nice ≡ n
  nice_stays only threads error tasks a e =
      elim (set_each-Allowed k sets tasks n r only threads error tasks (λ b. inl refl) a) [
        | inl same ↦ ap {A = Task} (λ t. t.nice) same ∙ e
        | inr g ↦ ap {A = Task} (λ t. t.nice) g.given
      ]

  uid_stays :
      (only : Option ℕ) (threads : List ℕ) (error : ℤ) (tasks : Tasks) (a : ℕ)
      → ((set_each k only n threads error tasks).1 a).uid ≡ (tasks a).uid
  uid_stays only threads error tasks a =
      (ids_stay k sets tasks n r ((set_each k only n threads error tasks).1)
        (set_each-Allowed k sets tasks n r only threads error tasks (λ b. inl refl)) a).0

  passes-uid : (only : Option ℕ) (p q : Task) → p.uid ≡ q.uid → passes only p ≡ passes only q
  passes-uid none p q e = refl
  passes-uid (some uid) p q e = rw (e) refl

  same_branch : (b : Bool) (x : ℤ) → (if b then x else x) ≡ x
  same_branch true x = refl
  same_branch false x = refl

  below_top : ltb_ℤ esrch (pos 20 -ℤ n) ≡ true
  unfolding ◌-ℤ◌
  below_top = ground (arith, r)

  -- What `getpriority` takes over from a thread with the nice value.
  greatest :
      (error retval : ℤ)
      → Together n error retval
      → (if ltb_ℤ retval (pos 20 -ℤ n) then pos 20 -ℤ n else retval) ≡ pos 20 -ℤ n
  greatest error retval (inl (e, same)) =
      subst (λ v. (if ltb_ℤ v (pos 20 -ℤ n) then pos 20 -ℤ n else v) ≡ pos 20 -ℤ n) (sym same)
        (same_branch (ltb_ℤ (pos 20 -ℤ n) (pos 20 -ℤ n)) (pos 20 -ℤ n))
  greatest error retval (inr (e, same)) =
      subst (λ v. (if ltb_ℤ v (pos 20 -ℤ n) then pos 20 -ℤ n else v) ≡ pos 20 -ℤ n) (sym same)
        (ap {A = Bool} (λ b. if b then pos 20 -ℤ n else esrch) below_top)

  abbrev set_or_pass : ℕ → ℤ → Tasks → Bool → ℤ × Tasks
  set_or_pass a error tasks b = if b then set_one_prio k a n error tasks else (error, tasks)

  -- A visit that a result of 0 followed.
  visited :
      (a : ℕ) (error : ℤ) (tasks : Tasks)
      → Open ((set_one_prio k a n error tasks).0)
      → Open error
        × ((set_one_prio k a n error tasks).0 ≡ pos 0)
        × (((set_one_prio k a n error tasks).1 a).nice ≡ n)
  visited a error tasks o =
      let (agreed, done) = visit-Open a error tasks o in
      let open_error = new_error-Open error (subst Open (ap {A = ℤ × Tasks} (λ o. o.0) done) o) in
      (
        open_error,
        ap {A = ℤ × Tasks} (λ o. o.0) done ∙ new_error error open_error,
        ap {A = ℤ × Tasks} (λ o. (o.1 a).nice) done
            ∙ ap {A = Task} (λ t. t.nice)
                (update_self tasks a (k.set_user_nice (tasks a) n) ∙ sets (tasks a) n r),
      )

  early_Open :
      (only : Option ℕ) (threads : List ℕ) (error : ℤ) (tasks : Tasks)
      → (set_each k only n threads error tasks).0 ≡ pos 0
      → Open error
  unfolding set_each
  early_Open only [] error tasks e = inl e
  early_Open only (a ∷ threads) error tasks e =
      let next = set_or_pass a error tasks (passes only (tasks a)) in
      early_step (passes only (tasks a)) (early_Open only threads next.0 next.1 e)
    where
      early_step : (b : Bool) → Open ((set_or_pass a error tasks b).0) → Open error
      early_step true o = (visited a error tasks o).0
      early_step false o = o

  nice_of :
      (a : ℕ) (error : ℤ) (tasks : Tasks) (b : Bool)
      → Open ((set_or_pass a error tasks b).0)
      → b ≡ true
      → ((set_or_pass a error tasks b).1 a).nice ≡ n
  nice_of a error tasks true o e = (visited a error tasks o).2
  nice_of a error tasks false o e = cc

  -- What `getpriority` has after a thread, which passes its test as it did before.
  abbrev get_one : Bool → Task → ℤ → ℤ
  get_one b p retval = if b && ltb_ℤ retval (pos 20 -ℤ p.nice) then pos 20 -ℤ p.nice else retval

  after_visit :
      (a : ℕ) (error retval : ℤ) (tasks : Tasks) (p : Task) (b : Bool)
      → Open ((set_or_pass a error tasks b).0)
      → (b ≡ true → p.nice ≡ n)
      → Together n error retval
      → Together n ((set_or_pass a error tasks b).0) (get_one b p retval)
  after_visit a error retval tasks p true o nice t = inl (
    (visited a error tasks o).1,
    subst (λ m. (if ltb_ℤ retval (pos 20 -ℤ m) then pos 20 -ℤ m else retval) ≡ pos 20 -ℤ n)
        (sym (nice refl)) (greatest error retval t),
  )
  after_visit a error retval tasks p false o nice t = t

  -- Where the loop of `setpriority` ends with 0, that of `getpriority` then finds 20 less the nice
  -- value.
  read_back :
      (only : Option ℕ) (threads : List ℕ) (error retval : ℤ) (tasks : Tasks)
      → (set_each k only n threads error tasks).0 ≡ pos 0
      → Together n error retval
      → get_each k only ((set_each k only n threads error tasks).1) threads retval ≡ pos 20 -ℤ n
  unfolding set_each get_each
  read_back only [] error retval tasks e (inl (x, same)) = same
  read_back only [] error retval tasks e (inr (x, same)) = cc
  read_back only (a ∷ threads) error retval tasks e t =
      let b = passes only (tasks a) in
      let next = set_or_pass a error tasks b in
      let after = (set_each k only n threads next.0 next.1).1 in
      let o = early_Open only threads next.0 next.1 e in
      let same_test =
        passes-uid only (after a) (tasks a) (uid_stays only (a ∷ threads) error tasks a) in
      subst (λ c. get_each k only after threads (get_one c (after a) retval) ≡ pos 20 -ℤ n)
        (sym same_test)
        (read_back only threads next.0 (get_one b (after a) retval) next.1 e (
          after_visit a error retval tasks (after a) b o
            (λ is_true. nice_stays only threads next.0 next.1 a (nice_of a error tasks b o is_true))
            t))

  targets-stay :
      (tasks after : Tasks) (which who : ℤ)
      → (after k.current).uid ≡ (tasks k.current).uid
      → (after k.current).pgrp ≡ (tasks k.current).pgrp
      → targets k after which who ≡ targets k tasks which who
  unfolding targets
  targets-stay tasks after which who u g = rw (u, g) refl

offset_bounds : (n : ℤ) → InRange n → (pos 1 ≤ℤ pos 20 -ℤ n) × (pos 20 -ℤ n ≤ℤ pos 40)
unfolding ◌-ℤ◌
offset_bounds n r = ground (arith, r)

module _ (k : Kernel) (sets : SetsNice k) (silent : NoSuchProcess k) (which who n : ℤ)
    (r : InRange n) (tasks : Tasks) where
  good_which :
      let t = targets k tasks which who in
      let end = set_each k t.only n t.threads esrch tasks in
      end.0 ≡ pos 0
      → get_each k (targets k end.1 which who).only end.1 (targets k end.1 which who).threads esrch
        ≡ pos 20 -ℤ n
  good_which e =
      let t = targets k tasks which who in
      let after = (set_each k t.only n t.threads esrch tasks).1 in
      let (u, x, y, g) =
        ids_stay k sets tasks n r after
          (set_each-Allowed k sets tasks n r t.only t.threads esrch tasks (λ b. inl refl))
          k.current in
      subst (λ t. get_each k t.only after t.threads esrch ≡ pos 20 -ℤ n)
        (sym (targets-stay k sets silent n r tasks after which who u g))
        (read_back k sets silent n r t.only t.threads esrch esrch tasks e (inr (refl, refl)))

-- After a `setpriority` that returned 0, `getpriority` of the same processes returns 20 less the
-- nice value that was asked for, put into -20 to 19: a number from 1 to 40. `set_user_nice` is taken
-- to write the nice value only, and the security module not to answer -ESRCH.
pub getpriority-setpriority :
    (k : Kernel) (which who niceval : ℤ) (tasks : Tasks)
    → SetsNice k
    → NoSuchProcess k
    → (setpriority k which who niceval tasks).0 ≡ pos 0
    → (getpriority k which who ((setpriority k which who niceval tasks).1)
        ≡ pos 20 -ℤ clamp_nice niceval)
      × (pos 1 ≤ℤ pos 20 -ℤ clamp_nice niceval)
      × (pos 20 -ℤ clamp_nice niceval ≤ℤ pos 40)
unfolding setpriority getpriority
getpriority-setpriority k which who niceval tasks sets silent e =
    let n = clamp_nice niceval in
    let r = clamp_nice-InRange niceval in
    let t = targets k tasks which who in
    let end = set_each k t.only n t.threads esrch tasks in
    (
      (elim (bad_which which)
            as (λ b.
              let final = if b then (einval, tasks) else end in
              final.0 ≡ pos 0
              → (if b
                  then einval
                  else get_each k (targets k final.1 which who).only final.1
                      (targets k final.1 which who).threads esrch)
                ≡ pos 20 -ℤ n) [
                  | true ↦ λ x. cc
                  | false ↦ good_which k sets silent which who n r tasks
                ])
          e,
      (offset_bounds n r).0,
      (offset_bounds n r).1,
    )
