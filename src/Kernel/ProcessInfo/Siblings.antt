-- ===== src/Kernel/ProcessInfo/Siblings.antt =====
-- project2/intercept.c: the entries of the sibling list that are next in age to the caller.
use cs3013_operating_systems.Prelude.{
  ℕ, ◌≤◌, ◌<◌, ◌≡◌, refl, ◌∙◌, ◌⊎◌, inl, inr, List, [], ◌∷◌, reverse, arith, subst,
}
use cs3013_operating_systems.Prelude.Int.{ℤ, pos, negsuc}
use cs3013_operating_systems.Kernel.ProcessInfo.{
  Task, Conversions, Current, ullong_max, SiblingScan, sibling_start, sibling_step, sibling_loop,
  scan_siblings, no_pid_zero, describe,
}
use cs3013_operating_systems.Kernel.ProcessInfo.Children.{All, All-reverse, ◌∈◌, started}

module _ (k : Conversions) (start : ℕ) where
  -- No entry that started before the caller started after `n`, and the like for those after it.
  abbrev Above : ℕ → Task → Type 0
  Above n x = (start ≤ started k x) ⊎ (started k x ≤ n)

  abbrev Below : ℕ → Task → Type 0
  Below n x = (started k x ≤ start) ⊎ (n ≤ started k x)

  older_choice :
      (s : SiblingScan) (t : Task)
      → (started k t < start)
          × (s.tmp_st1 < started k t)
          × ((sibling_step k start s t).tmp_st1 ≡ started k t)
          × ((sibling_step k start s t).tmp_pid1 ≡ pos t.pid)
        ⊎ Above s.tmp_st1 t
          × ((sibling_step k start s t).tmp_st1 ≡ s.tmp_st1)
          × ((sibling_step k start s t).tmp_pid1 ≡ s.tmp_pid1)
  unfolding sibling_step
  older_choice s t = ground arith

  younger_choice :
      (s : SiblingScan) (t : Task)
      → (start < started k t)
          × (started k t < s.tmp_st2)
          × ((sibling_step k start s t).tmp_st2 ≡ started k t)
          × ((sibling_step k start s t).tmp_pid2 ≡ pos t.pid)
        ⊎ Below s.tmp_st2 t
          × ((sibling_step k start s t).tmp_st2 ≡ s.tmp_st2)
          × ((sibling_step k start s t).tmp_pid2 ≡ s.tmp_pid2)
  unfolding sibling_step
  younger_choice s t = ground arith

  abbrev OlderOf : SiblingScan → SiblingScan → List Task → Type 0
  OlderOf s r ts =
      (s.tmp_st1 ≤ r.tmp_st1)
      × All (Above r.tmp_st1) ts
      × ((r.tmp_st1 ≡ s.tmp_st1) × (r.tmp_pid1 ≡ s.tmp_pid1)
          ⊎ ((t : Task) × (t ∈ ts)
              × (started k t < start)
              × (s.tmp_st1 < started k t)
              × (r.tmp_pid1 ≡ pos t.pid)
              × (r.tmp_st1 ≡ started k t)))

  abbrev YoungerOf : SiblingScan → SiblingScan → List Task → Type 0
  YoungerOf s r ts =
      (r.tmp_st2 ≤ s.tmp_st2)
      × All (Below r.tmp_st2) ts
      × ((r.tmp_st2 ≡ s.tmp_st2) × (r.tmp_pid2 ≡ s.tmp_pid2)
          ⊎ ((t : Task) × (t ∈ ts)
              × (start < started k t)
              × (started k t < s.tmp_st2)
              × (r.tmp_pid2 ≡ pos t.pid)
              × (r.tmp_st2 ≡ started k t)))

  sibling_loop-older : (s : SiblingScan) (ts : List Task) → OlderOf s (sibling_loop k start s ts) ts
  unfolding sibling_loop
  sibling_loop-older s [] = (omega arith, tt, inl (refl, refl))
  sibling_loop-older s (t ∷ ts) =
      let (up, above, older) = sibling_loop-older (sibling_step k start s t) ts in
      elim (older_choice s t) [
        | inl (a, b, e, p) ↦ (
          omega arith,
          (inr (omega arith), above),
          elim older [
            | inl (f, q) ↦ inr (t, inl refl, a, b, q ∙ p, f ∙ e)
            | inr (u, m, l, w, q, f) ↦ inr (u, inr m, l, omega arith, q, f)
          ],
        )
        | inr (a, e, p) ↦ (
          omega arith,
          (omega arith, above),
          elim older [
            | inl (f, q) ↦ inl (f ∙ e, q ∙ p)
            | inr (u, m, l, w, q, f) ↦ inr (u, inr m, l, omega arith, q, f)
          ],
        )
      ]

  sibling_loop-younger :
      (s : SiblingScan) (ts : List Task) → YoungerOf s (sibling_loop k start s ts) ts
  unfolding sibling_loop
  sibling_loop-younger s [] = (omega arith, tt, inl (refl, refl))
  sibling_loop-younger s (t ∷ ts) =
      let (down, below, younger) = sibling_loop-younger (sibling_step k start s t) ts in
      elim (younger_choice s t) [
        | inl (a, b, e, p) ↦ (
          omega arith,
          (inr (omega arith), below),
          elim younger [
            | inl (f, q) ↦ inr (t, inl refl, a, b, q ∙ p, f ∙ e)
            | inr (u, m, l, w, q, f) ↦ inr (u, inr m, l, omega arith, q, f)
          ],
        )
        | inr (a, e, p) ↦ (
          omega arith,
          (omega arith, below),
          elim younger [
            | inl (f, q) ↦ inl (f ∙ e, q ∙ p)
            | inr (u, m, l, w, q, f) ↦ inr (u, inr m, l, omega arith, q, f)
          ],
        )
      ]

  older-stable :
      (s : SiblingScan) (n : ℕ) (p : ℤ) (ts : List Task)
      → s.tmp_st1 ≡ n
      → s.tmp_pid1 ≡ p
      → All (Above n) ts
      → (sibling_loop k start s ts).tmp_pid1 ≡ p
  unfolding sibling_loop
  older-stable s n p [] e f a = f
  older-stable s n p (t ∷ ts) e f a = elim (older_choice s t) [
    | inl (b, c, g, q) ↦ absurd (omega (arith, a.0))
    | inr (b, g, q) ↦ older-stable (sibling_step k start s t) n p ts (g ∙ e) (q ∙ f) a.1
  ]

  younger-stable :
      (s : SiblingScan) (n : ℕ) (p : ℤ) (ts : List Task)
      → s.tmp_st2 ≡ n
      → s.tmp_pid2 ≡ p
      → All (Below n) ts
      → (sibling_loop k start s ts).tmp_pid2 ≡ p
  unfolding sibling_loop
  younger-stable s n p [] e f a = f
  younger-stable s n p (t ∷ ts) e f a = elim (younger_choice s t) [
    | inl (b, c, g, q) ↦ absurd (omega (arith, a.0))
    | inr (b, g, q) ↦ younger-stable (sibling_step k start s t) n p ts (g ∙ e) (q ∙ f) a.1
  ]

  -- `p` belongs to an entry that started before the caller, after time 0, and after which no other
  -- such entry started, or is -1 and all entries that started before the caller did so at time 0.
  pub data NextOlder (ts : List Task) (p : ℤ) : Type 0 where
    no_older : p ≡ negsuc 0 → All (Above 0) ts → NextOlder ts p
    next_older :
        (t : Task)
        → t ∈ ts
        → started k t < start
        → 0 < started k t
        → p ≡ pos t.pid
        → All (Above (started k t)) ts
        → NextOlder ts p

  -- The like for the entries that started after the caller, up to the end of the clock's range.
  pub data NextYounger (ts : List Task) (p : ℤ) : Type 0 where
    no_younger : p ≡ negsuc 0 → All (Below ullong_max) ts → NextYounger ts p
    next_younger :
        (t : Task)
        → t ∈ ts
        → start < started k t
        → started k t < ullong_max
        → p ≡ pos t.pid
        → All (Below (started k t)) ts
        → NextYounger ts p

  pub scan_siblings-older : (ts : List Task) → NextOlder ts (scan_siblings k start ts).tmp_pid1
  unfolding scan_siblings
  scan_siblings-older ts =
      let s = sibling_loop k start sibling_start ts in
      let (_, above, older) = sibling_loop-older sibling_start ts in
      let back =
        older-stable s s.tmp_st1 s.tmp_pid1 (reverse ts) refl refl
          (All-reverse (Above s.tmp_st1) ts above) in
      elim older [
        | inl (f, q) ↦ no_older (back ∙ q) (subst (λ n. All (Above n) ts) f above)
        | inr (t, m, l, w, q, f) ↦
            next_older t m l w (back ∙ q) (subst (λ n. All (Above n) ts) f above)
      ]

  pub scan_siblings-younger : (ts : List Task) → NextYounger ts (scan_siblings k start ts).tmp_pid2
  unfolding scan_siblings
  scan_siblings-younger ts =
      let s = sibling_loop k start sibling_start ts in
      let (_, below, younger) = sibling_loop-younger sibling_start ts in
      let back =
        younger-stable s s.tmp_st2 s.tmp_pid2 (reverse ts) refl refl
          (All-reverse (Below s.tmp_st2) ts below) in
      elim younger [
        | inl (f, q) ↦ no_younger (back ∙ q) (subst (λ n. All (Below n) ts) f below)
        | inr (t, m, l, w, q, f) ↦
            next_younger t m l w (back ∙ q) (subst (λ n. All (Below n) ts) f below)
      ]

-- What the report says of the siblings.
pub record SiblingReport (k : Conversions) (c : Current) : Type 0 where
  pub older : ℤ
  pub reported : (describe k c).older_sibling ≡ no_pid_zero older
  pub next_older_entry : NextOlder k (k.timespec_to_ns c.task.start_time) c.siblings older
  pub next_younger_entry :
      NextYounger k (k.timespec_to_ns c.task.start_time) c.siblings (describe k c).younger_sibling

-- The two sibling pids of the report: of the entries on the sibling list, the younger sibling is
-- the first to have started after the caller, and before the end of the clock's range, and the older
-- one is the last to have started before the caller and after time 0, save that the pid 0 is
-- reported as -1. Where there is no such entry, the pid is -1: an entry that started at time 0 is
-- never reported as the older one, nor one that started at the end of the range as the younger one.
pub siblings_next_in_age : (k : Conversions) (c : Current) → SiblingReport k c
unfolding describe
siblings_next_in_age k c = record {
  older = (scan_siblings k (k.timespec_to_ns c.task.start_time) c.siblings).tmp_pid1;
  reported = refl;
  next_older_entry = scan_siblings-older k (k.timespec_to_ns c.task.start_time) c.siblings;
  next_younger_entry = scan_siblings-younger k (k.timespec_to_ns c.task.start_time) c.siblings;
}
