-- ===== src/Kernel/ProcessInfo/Children.antt =====
-- project2/intercept.c: the times of the children are counted twice, and the child that is reported
-- as the youngest is the one that started first.
use cs3013_operating_systems.Prelude.{
  ℕ, ◌+◌, ◌*◌, ◌^◌, ◌≤◌, ◌<◌, ◌≡◌, refl, ◌∙◌, ◌⊎◌, inl, inr, List, [], ◌∷◌, ◌++◌, reverse,
  reverse-cons, arith, subst,
}
use cs3013_operating_systems.Prelude.Totals.{total, total-reverse}
use cs3013_operating_systems.Prelude.Int.{ℤ, pos}
use cs3013_operating_systems.Kernel.ProcessInfo.{
  Task, Conversions, Current, ullong_max, ChildScan, child_step, child_start, child_loop,
  scan_children, describe,
}

-- Every task of the list satisfies `P`.
abbrev pub All : (Task → Type 0) → List Task → Type 0
All P [] = Unit
All P (t ∷ ts) = P t × All P ts

All-append : (P : Task → Type 0) (xs ys : List Task) → All P xs → All P ys → All P (xs ++ ys)
All-append P [] ys a b = b
All-append P (x ∷ xs) ys a b = (a.0, All-append P xs ys a.1 b)

pub All-reverse : (P : Task → Type 0) (xs : List Task) → All P xs → All P (reverse xs)
All-reverse P [] a = tt
All-reverse P (x ∷ xs) a =
    rw (reverse-cons) (All-append P (reverse xs) (x ∷ []) (All-reverse P xs a.1) (a.0, tt))

infix 50 ◌∈◌
abbrev pub ◌∈◌ : Task → List Task → Type 0
t ∈ [] = ⊥
t ∈ (x ∷ xs) = (t ≡ x) ⊎ (t ∈ xs)

module _ (k : Conversions) where
  abbrev pub started : Task → ℕ
  started t = k.timespec_to_ns t.start_time

  abbrev pub user : Task → ℕ
  user t = k.cputime_to_usecs t.utime

  abbrev pub system : Task → ℕ
  system t = k.cputime_to_usecs t.stime

  cutime-child_loop :
      (s : ChildScan) (ts : List Task)
      → s.cutime + total user ts < 2 ^ 64
      → (child_loop k s ts).cutime ≡ s.cutime + total user ts
  unfolding child_loop total child_step
  cutime-child_loop s [] h = omega arith
  cutime-child_loop s (t ∷ ts) h = ground (arith, cutime-child_loop (child_step k s t) ts)

  cstime-child_loop :
      (s : ChildScan) (ts : List Task)
      → s.cstime + total system ts < 2 ^ 64
      → (child_loop k s ts).cstime ≡ s.cstime + total system ts
  unfolding child_loop total child_step
  cstime-child_loop s [] h = omega arith
  cstime-child_loop s (t ∷ ts) h = ground (arith, cstime-child_loop (child_step k s t) ts)

  cutime-scan :
      (cs : List Task)
      → 2 * total user cs < 2 ^ 64
      → (scan_children k cs).cutime ≡ 2 * total user cs
  unfolding scan_children
  cutime-scan cs h =
      let first = cutime-child_loop child_start cs (omega arith) in
      let turned = total-reverse user cs in
      omega (arith, cutime-child_loop (child_loop k child_start cs) (reverse cs) (omega arith))

  cstime-scan :
      (cs : List Task)
      → 2 * total system cs < 2 ^ 64
      → (scan_children k cs).cstime ≡ 2 * total system cs
  unfolding scan_children
  cstime-scan cs h =
      let first = cstime-child_loop child_start cs (omega arith) in
      let turned = total-reverse system cs in
      omega (arith, cstime-child_loop (child_loop k child_start cs) (reverse cs) (omega arith))

  -- Where no sum overflows a signed 64-bit number, the times of the children are reported twice
  -- over.
  pub children_times_doubled :
      (c : Current)
      → 2 * total user c.children < 2 ^ 63
      → 2 * total system c.children < 2 ^ 63
      → ((describe k c).cutime ≡ 2 * total user c.children)
        × ((describe k c).cstime ≡ 2 * total system c.children)
  unfolding describe
  children_times_doubled c h g =
      (cutime-scan c.children (omega arith), cstime-scan c.children (omega arith))

  -- What one pass over `ts` leaves: the earliest start so far, and whose it is.
  record Pass (s r : ChildScan) (ts : List Task) : Type 0 where
    down : r.tmp_st1 ≤ s.tmp_st1
    below : All (λ x. r.tmp_st1 ≤ started x) ts
    whose :
        (r.tmp_st1 ≡ s.tmp_st1) × (r.tmp_pid1 ≡ s.tmp_pid1)
        ⊎ ((t : Task) × (t ∈ ts) × (r.tmp_pid1 ≡ pos t.pid) × (r.tmp_st1 ≡ started t))

  child_step-choice :
      (s : ChildScan) (t : Task)
      → (started t < s.tmp_st1)
          × ((child_step k s t).tmp_st1 ≡ started t)
          × ((child_step k s t).tmp_pid1 ≡ pos t.pid)
        ⊎ (s.tmp_st1 ≤ started t)
          × ((child_step k s t).tmp_st1 ≡ s.tmp_st1)
          × ((child_step k s t).tmp_pid1 ≡ s.tmp_pid1)
  unfolding child_step
  child_step-choice s t = ground arith

  child_loop-Pass : (s : ChildScan) (ts : List Task) → Pass s (child_loop k s ts) ts
  unfolding child_loop
  child_loop-Pass s [] = record { down = omega arith; below = tt; whose = inl (refl, refl) }
  child_loop-Pass s (t ∷ ts) =
      let rest = child_loop-Pass (child_step k s t) ts in
      let down = rest.down in
      elim (child_step-choice s t) [
        | inl (lt, e, p) ↦ record {
          down = omega arith;
          below = (omega arith, rest.below);
          whose = elim rest.whose [
            | inl (f, q) ↦ inr (t, inl refl, q ∙ p, f ∙ e)
            | inr (u, m, q, f) ↦ inr (u, inr m, q, f)
          ];
        }
        | inr (le, e, p) ↦ record {
          down = omega arith;
          below = (omega arith, rest.below);
          whose = elim rest.whose [
            | inl (f, q) ↦ inl (f ∙ e, q ∙ p)
            | inr (u, m, q, f) ↦ inr (u, inr m, q, f)
          ];
        }
      ]

  -- A pass that meets no earlier start changes nothing.
  child_loop-stable :
      (s : ChildScan) (n : ℕ) (p : ℤ) (ts : List Task)
      → s.tmp_st1 ≡ n
      → s.tmp_pid1 ≡ p
      → All (λ x. n ≤ started x) ts
      → (child_loop k s ts).tmp_pid1 ≡ p
  unfolding child_loop
  child_loop-stable s n p [] e f a = f
  child_loop-stable s n p (t ∷ ts) e f a = elim (child_step-choice s t) [
    | inl (lt, g, q) ↦ absurd (omega (arith, a.0))
    | inr (le, g, q) ↦ child_loop-stable (child_step k s t) n p ts (g ∙ e) (q ∙ f) a.1
  ]

  -- `t` is a child of the list, and none of them started before it.
  pub record FirstStarted (t : Task) (cs : List Task) : Type 0 where
    pub member : t ∈ cs
    pub earliest : All (λ x. started t ≤ started x) cs

  All-map :
      (P Q : Task → Type 0) → ((t : Task) → P t → Q t) → (ts : List Task) → All P ts → All Q ts
  All-map P Q f [] a = tt
  All-map P Q f (t ∷ ts) a = (f t a.0, All-map P Q f ts a.1)

  -- Where the caller has a child, and the first of them started before the end of the clock's range,
  -- the pid reported as the youngest child's is that of a child that none of them started before.
  pub youngest_child-is_oldest :
      (c : Current) (child : Task) (others : List Task)
      → c.children ≡ child ∷ others
      → started child < ullong_max
      → (t : Task) × ((describe k c).youngest_child ≡ pos t.pid) × FirstStarted t c.children
  unfolding describe scan_children
  youngest_child-is_oldest c child others e h =
      let s = child_loop k child_start c.children in
      let pass = child_loop-Pass child_start c.children in
      let back =
        child_loop-stable s s.tmp_st1 s.tmp_pid1 (reverse c.children) refl refl
          (All-reverse (λ x. s.tmp_st1 ≤ started x) c.children pass.below) in
      elim pass.whose [
        | inl (f, q) ↦
            absurd (omega (arith, (subst (All (λ x. s.tmp_st1 ≤ started x)) e pass.below).0))
        | inr (t, m, q, f) ↦ (
          t,
          back ∙ q,
          record {
            member = m;
            earliest =
                All-map (λ x. s.tmp_st1 ≤ started x) (λ x. started t ≤ started x)
                  (λ x le. omega arith) c.children pass.below;
          },
        )
      ]
