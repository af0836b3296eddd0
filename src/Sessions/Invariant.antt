-- ===== src/Sessions/Invariant.antt =====
-- preproj2/sys.c: process groups and sessions, whatever calls are made.
use cs3013_operating_systems.Prelude.{
  ℕ, ◌<◌, ◌≡◌, refl, sym, ◌∙◌, ◌≢◌, ◌⊎◌, inl, inr, true, false, not, none, some, ◌==◌,
  if◌then◌else◌, update, update_self, update_other, ℕ_discrete, ap, subst,
}
use cs3013_operating_systems.Prelude.Int.{ℤ}
use cs3013_operating_systems.Sessions.{Process, Processes, Thread, Kernel, move_to}

-- What the kernel's functions promise, for the processes at the addresses below `count`.
pub record Promises (k : Kernel) (count : ℕ) : Type 0 where
  pub current_is : k.current < count
  pub thread_of : (pid : ℤ) (t : Thread) → k.find_task_by_vpid pid ≡ some t → t.process < count
  pub some_member :
      (ts : Processes) (g a : ℕ) → k.pgid_task ts g ≡ some a → (a < count) × ((ts a).pgrp ≡ g)
  pub no_member :
      (ts : Processes) (g : ℕ) → k.pgid_task ts g ≡ none → (a : ℕ) → a < count → (ts a).pgrp ≢ g
  pub changes : (p : Process) (g : ℕ) → k.change_pgid p g ≡ record p { pgrp = g }
  pub sets_special :
      (p : Process) (s : ℕ) → k.set_special_pids p s ≡ record p { pgrp = s; session = s }

-- The pids are different, a process group lies in one session, and so do a process and the group
-- that has its pid.
pub record Ordered (count : ℕ) (ts : Processes) : Type 0 where
  pub own_pid : (a b : ℕ) → a < count → b < count → (ts a).pid ≡ (ts b).pid → a ≡ b
  pub one_session :
      (a b : ℕ)
      → a < count
      → b < count
      → (ts a).pgrp ≡ (ts b).pgrp
      → (ts a).session ≡ (ts b).session
  pub with_leader :
      (a b : ℕ) → a < count → b < count → (ts a).pgrp ≡ (ts b).pid → (ts a).session ≡ (ts b).session

module _ (count : ℕ) (ts : Processes) (o : Ordered count ts) (p : ℕ) (in_p : p < count) where
  abbrev Others : (Process → Type 0) → Type 0
  Others holds = (a : ℕ) → a < count → p ≢ a → holds (ts a)

  -- A relation on all pairs of processes, after `p` changed.
  one_changed :
      (holds : Process → Type 0) (q : Process)
      → holds q
      → Others holds
      → (a : ℕ) → a < count
      → holds (update ts p q a)
  one_changed holds q self others a x = elim (ℕ_discrete p a) [
    | yes e ↦ subst (λ i. holds (update ts p q i)) e (subst holds (sym (update_self ts p q)) self)
    | no other ↦ subst holds (update_other ts p q a other) (others a x other)
  ]

  pairs_changed :
      (related : Process → Process → Type 0) (q : Process)
      → related q q
      → Others (λ r. related r q)
      → Others (λ r. related q r)
      → ((a b : ℕ) → a < count → b < count → related (ts a) (ts b))
      → (a b : ℕ) → a < count
      → b < count
      → related (update ts p q a) (update ts p q b)
  pairs_changed related q self left right old a b x y =
      one_changed (λ r. related r (update ts p q b)) q
        (one_changed (λ r. related q r) q self right b y)
        (λ c z n. one_changed (λ r. related (ts c) r) q (left c z n) (λ d u m. old c d z u) b y) a x

  pid_stays : (q : Process) → q.pid ≡ (ts p).pid → (a : ℕ) → (update ts p q a).pid ≡ (ts a).pid
  pid_stays q e a = elim (ℕ_discrete p a) [
    | yes same ↦
        subst (λ i. (update ts p q i).pid ≡ (ts i).pid) same
          (ap {A = Process} (λ r. r.pid) (update_self ts p q) ∙ e)
    | no other ↦ ap {A = Process} (λ r. r.pid) (sym (update_other ts p q a other))
  ]

  -- One process changed its group and its session.
  pub changed_Ordered :
      (q : Process)
      → q.pid ≡ (ts p).pid
      → Others (λ r. r.pgrp ≡ q.pgrp → r.session ≡ q.session)
      → Others (λ r. r.pgrp ≡ q.pid → r.session ≡ q.session)
      → Others (λ r. q.pgrp ≡ r.pid → q.session ≡ r.session)
      → Ordered count (update ts p q)
  changed_Ordered q same_pid in_group to_leader of_leader = record {
    own_pid =
        λ a b x y e. o.own_pid a b x y (sym (pid_stays q same_pid a) ∙ e ∙ pid_stays q same_pid b);
    one_session =
        pairs_changed (λ r s. r.pgrp ≡ s.pgrp → r.session ≡ s.session) q (λ e. refl) in_group
          (λ a x n e. sym (in_group a x n (sym e))) o.one_session;
    with_leader =
        pairs_changed (λ r s. r.pgrp ≡ s.pid → r.session ≡ s.session) q (λ e. refl) to_leader
          of_leader o.with_leader;
  }

-- A process that goes to a group of its session, or to the one that has its pid.
module _ (k : Kernel) (count : ℕ) (promises : Promises k count) where
  -- The group is one of the session, if it is not the process's own.
  abbrev pub GoodGroup : Processes → ℕ → ℕ → Type 0
  GoodGroup ts p g =
      (g ≡ (ts p).pid)
      ⊎ ((m : ℕ) × (m < count) × ((ts m).pgrp ≡ g) × ((ts m).session ≡ (ts p).session))

  member_session :
      (ts : Processes) (p g : ℕ)
      → Ordered count ts
      → p < count
      → GoodGroup ts p g
      → (a : ℕ) → a < count
      → (ts a).pgrp ≡ g
      → (ts a).session ≡ (ts p).session
  member_session ts p g o in_p (inl own) a x e = o.with_leader a p x in_p (e ∙ own)
  member_session ts p g o in_p (inr (m, in_m, member, same)) a x e =
      o.one_session a m x in_m (e ∙ sym member) ∙ same

  good_leader :
      (ts : Processes) (p g : ℕ)
      → Ordered count ts
      → p < count
      → GoodGroup ts p g
      → (b : ℕ) → b < count
      → p ≢ b
      → g ≡ (ts b).pid
      → (ts p).session ≡ (ts b).session
  good_leader ts p g o in_p (inl own) b y n e = absurd (n (o.own_pid p b in_p y (sym own ∙ e)))
  good_leader ts p g o in_p (inr (m, in_m, member, same)) b y n e =
      sym same ∙ o.with_leader m b in_m y (member ∙ e)

  pub move_to-Ordered :
      (ts : Processes) (p g : ℕ)
      → Ordered count ts
      → p < count
      → GoodGroup ts p g
      → Ordered count (move_to k ts p g)
  move_to-Ordered ts p g o in_p good =
      elim ((ts p).pgrp == g)
        as (λ b. Ordered count (if not b then update ts p (k.change_pgid (ts p) g) else ts)) [
          | true ↦ o
          | false ↦
              subst (λ q. Ordered count (update ts p q)) (sym (promises.changes (ts p) g))
                (changed_Ordered count ts o p in_p (record (ts p) { pgrp = g }) refl
                  (λ a x n e. member_session ts p g o in_p good a x e)
                  (λ a x n e. o.with_leader a p x in_p e)
                  (λ b y n e. good_leader ts p g o in_p good b y n e))
        ]
