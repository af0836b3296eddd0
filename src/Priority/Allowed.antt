-- ===== src/Priority/Allowed.antt =====
-- preproj2/sys.c: what `setpriority` may change.
use cs3013_operating_systems.Prelude.{
  ℕ, ◌≡◌, refl, sym, ◌∙◌, ◌≢◌, ◌⊎◌, inl, inr, Bool, true, false, not, ◌&&◌, List, [], ◌∷◌, Option,
  if◌then◌else◌, update, update_self, update_other, ℕ_discrete, arith, ap, subst,
}
use cs3013_operating_systems.Prelude.Int.{ℤ, pos, negsuc, ltb_ℤ, eq_ℤ, eq_ℤ-nonzero, ◌≤ℤ◌}
use cs3013_operating_systems.Priority.{
  Task, Tasks, Kernel, clamp_nice, passes, bad_which, set_one_prio_perm, set_one_prio, set_each,
  setpriority, targets, esrch, einval, eperm, eacces,
}

-- The nice values that there are.
abbrev pub InRange : ℤ → Type 0
InRange n = (negsuc 19 ≤ℤ n) × (n ≤ℤ pos 19)

pub clamp_nice-InRange : (n : ℤ) → InRange (clamp_nice n)
clamp_nice-InRange n = ground arith

-- set_user_nice writes a nice value that there is, and nothing else of what the calls look at.
abbrev pub SetsNice : Kernel → Type 0
SetsNice k = (p : Task) (n : ℤ) → InRange n → k.set_user_nice p n ≡ record p { nice = n }

-- Three tests, the first and the last of which must hold.
three_tests {ℓ} :
    {A : Type ℓ} (p q r : Bool) (x y z w : A)
    → ((p ≡ true)
        × (q ≡ false)
        × (r ≡ true)
        × ((if not p then x else if q then y else if not r then z else w) ≡ w))
      ⊎ (((if not p then x else if q then y else if not r then z else w) ≡ x)
          ⊎ (((if not p then x else if q then y else if not r then z else w) ≡ y)
              ⊎ ((r ≡ false)
                  × ((if not p then x else if q then y else if not r then z else w) ≡ z))))
three_tests false q r x y z w = inr (inl refl)
three_tests true true r x y z w = inr (inr (inl refl))
three_tests true false false x y z w = inr (inr (inr (refl, refl)))
three_tests true false true x y z w = inl (refl, refl, refl, refl)

-- Some time of set_one_prio: it gave the thread the nice value, or it refused.
module _ (k : Kernel) (n : ℤ) (tasks : Tasks) (a : ℕ) where
  pub record Agreed : Type 0 where
    pub permitted : set_one_prio_perm k tasks a ≡ true
    pub able : (ltb_ℤ n (tasks a).nice && not (k.can_nice (tasks a) n)) ≡ false
    pub silent : eq_ℤ (k.security_task_setnice (tasks a) n) (pos 0) ≡ true

  abbrev pub WasSet : ℤ → Type 0
  WasSet error =
      Agreed
      × (set_one_prio k a n error tasks ≡ (
        if eq_ℤ error esrch then pos 0 else error,
        update tasks a (k.set_user_nice (tasks a) n),
      ))

  abbrev pub WasRefused : ℤ → Type 0
  WasRefused error =
      (e : ℤ) × (set_one_prio k a n error tasks ≡ (e, tasks))
      × (e ≢ pos 0)
      × ((e ≡ eperm) ⊎ (e ≡ eacces) ⊎ (e ≡ k.security_task_setnice (tasks a) n))

  pub set_one_prio-cases : (error : ℤ) → WasSet error ⊎ WasRefused error
  unfolding set_one_prio
  set_one_prio-cases error =
      elim (three_tests {A = ℤ × Tasks} (set_one_prio_perm k tasks a)
        (ltb_ℤ n (tasks a).nice && not (k.can_nice (tasks a) n))
        (eq_ℤ (k.security_task_setnice (tasks a) n) (pos 0)) (eperm, tasks) (eacces, tasks)
        (k.security_task_setnice (tasks a) n, tasks)
        (if eq_ℤ error esrch then pos 0 else error, update tasks a (k.set_user_nice (tasks a) n))) [
          | inl (perm, able, agreed, e) ↦
              inl (record { permitted = perm; able = able; silent = agreed }, e)
          | inr (inl e) ↦ inr (eperm, e, (λ x. cc), inl refl)
          | inr (inr (inl e)) ↦ inr (eacces, e, (λ x. cc), inr (inl refl))
          | inr (inr (inr (other, e))) ↦ inr (
            k.security_task_setnice (tasks a) n,
            e,
            eq_ℤ-nonzero (k.security_task_setnice (tasks a) n) other,
            inr (inr refl),
          )
        ]

module _ (k : Kernel) (sets : SetsNice k) (start : Tasks) (n : ℤ) (r : InRange n) where
  -- Thread `a` got the nice value, and the caller was allowed to give it.
  pub record Given (t : Task) (a : ℕ) : Type 0 where
    pub given : t ≡ record (start a) { nice = n }
    pub agreed : Agreed k n start a

  abbrev pub Allowed : Tasks → Type 0
  Allowed tasks = (a : ℕ) → (tasks a ≡ start a) ⊎ Given (tasks a) a

  -- What a permission depends on stays.
  pub ids_stay :
      (tasks : Tasks)
      → Allowed tasks
      → (a : ℕ)
      → ((tasks a).uid ≡ (start a).uid)
        × ((tasks a).euid ≡ (start a).euid)
        × ((tasks a).user_ns ≡ (start a).user_ns)
        × ((tasks a).pgrp ≡ (start a).pgrp)
  ids_stay tasks l a = elim (l a) [
    | inl e ↦ rw (e) (refl, refl, refl, refl)
    | inr g ↦ rw (g.given) (refl, refl, refl, refl)
  ]

  set_one_prio_perm-stays :
      (tasks : Tasks)
      → Allowed tasks
      → (a : ℕ) → set_one_prio_perm k tasks a ≡ set_one_prio_perm k start a
  unfolding set_one_prio_perm
  set_one_prio_perm-stays tasks l a =
      let (u, e, s, g) = ids_stay tasks l a in
      let (u', e', s', g') = ids_stay tasks l k.current in rw (u, e, s, e', s') refl

  -- The thread after one more visit.
  set_again :
      (tasks : Tasks) (a : ℕ)
      → Allowed tasks
      → Agreed k n tasks a
      → Given (k.set_user_nice (tasks a) n) a
  set_again tasks a l agreed = elim (l a) [
    | inl same ↦ record {
      given = sets (tasks a) n r ∙ ap {A = Task} (λ t. record t { nice = n }) same;
      agreed = record {
        permitted = sym (set_one_prio_perm-stays tasks l a) ∙ agreed.permitted;
        able = subst (λ t. (ltb_ℤ n t.nice && not (k.can_nice t n)) ≡ false) same agreed.able;
        silent = subst (λ t. eq_ℤ (k.security_task_setnice t n) (pos 0) ≡ true) same agreed.silent;
      };
    }
    | inr g ↦ record {
      given = sets (tasks a) n r ∙ ap {A = Task} (λ t. record t { nice = n }) g.given;
      agreed = g.agreed;
    }
  ]

  set_one_prio-Allowed :
      (a : ℕ) (error : ℤ) (tasks : Tasks)
      → Allowed tasks
      → Allowed ((set_one_prio k a n error tasks).1)
  set_one_prio-Allowed a error tasks l = elim (set_one_prio-cases k n tasks a error) [
    | inr (e, same, x, y) ↦ subst (λ t. Allowed t) (sym (ap (λ o. o.1) same)) l
    | inl (agreed, same) ↦
        subst (λ t. Allowed t) (sym (ap (λ o. o.1) same))
          (λ b. set_or_not b (ℕ_discrete a b) (set_again tasks a l agreed))
  ]
    where
      set_or_not :
          (b : ℕ)
          → Dec (a ≡ b)
          → Given (k.set_user_nice (tasks a) n) a
          → (update tasks a (k.set_user_nice (tasks a) n) b ≡ start b)
            ⊎ Given (update tasks a (k.set_user_nice (tasks a) n) b) b
      set_or_not b (yes e) g = inr (
          subst (λ c. Given (update tasks a (k.set_user_nice (tasks a) n) c) c) e
            (subst (λ t. Given t a) (sym (update_self tasks a (k.set_user_nice (tasks a) n))) g))
      set_or_not b (no other) g =
          subst (λ t. (t ≡ start b) ⊎ Given t b)
            (update_other tasks a (k.set_user_nice (tasks a) n) b other) (l b)

  pub set_each-Allowed :
      (only : Option ℕ) (threads : List ℕ) (error : ℤ) (tasks : Tasks)
      → Allowed tasks
      → Allowed ((set_each k only n threads error tasks).1)
  unfolding set_each
  set_each-Allowed only [] error tasks l = l
  set_each-Allowed only (a ∷ threads) error tasks l =
      let next = if passes only (tasks a) then set_one_prio k a n error tasks else (error, tasks) in
      set_each-Allowed only threads next.0 next.1
        (elim (passes only (tasks a))
          as (λ b. Allowed ((if b then set_one_prio k a n error tasks else (error, tasks)).1)) [
            | true ↦ set_one_prio-Allowed a error tasks l
            | false ↦ l
          ])

-- Whatever `setpriority` returns, every thread is as it was, or it has the given nice value, put into
-- -20 to 19, and nothing else of it changed. The second happens only if the caller has its
-- permission (the same user, or CAP_SYS_NICE), may lower the nice value where it is lowered, and
-- the security module agrees. `set_user_nice` is taken to write the nice value only.
pub setpriority-Allowed :
    (k : Kernel) (which who niceval : ℤ) (tasks : Tasks)
    → SetsNice k
    → (a : ℕ)
    → let after = (setpriority k which who niceval tasks).1 in
      (after a ≡ tasks a)
      ⊎ ((after a ≡ record (tasks a) { nice = clamp_nice niceval })
          × Agreed k (clamp_nice niceval) tasks a)
unfolding setpriority
setpriority-Allowed k which who niceval tasks sets a =
    let t = targets k tasks which who in
    let n = clamp_nice niceval in
    elim (bad_which which)
      as (λ b.
        let after = (if b then (einval, tasks) else set_each k t.only n t.threads esrch tasks).1 in
        (after a ≡ tasks a) ⊎ ((after a ≡ record (tasks a) { nice = n }) × Agreed k n tasks a)) [
          | true ↦ inl refl
          | false ↦ from_Given (
              set_each-Allowed k sets tasks n (clamp_nice-InRange niceval) t.only t.threads esrch
                tasks (λ b. inl refl) a)
        ]
  where
    from_Given :
        {t : Task}
        → (t ≡ tasks a) ⊎ Given k sets tasks (clamp_nice niceval) (clamp_nice-InRange niceval) t a
        → (t ≡ tasks a)
          ⊎ ((t ≡ record (tasks a) { nice = clamp_nice niceval })
              × Agreed k (clamp_nice niceval) tasks a)
    from_Given (inl e) = inl e
    from_Given (inr g) = inr (g.given, g.agreed)
