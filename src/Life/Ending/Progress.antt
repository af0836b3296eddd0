-- ===== src/Life/Ending/Progress.antt =====
-- project3/life.cpp: where the game goes on behind the last generation, parent and threads end.
use cs3013_operating_systems.Prelude.{
  some, ◌∙◌, ℕ, ◌+◌, ◌-◌, ◌*◌, ◌≤◌, ◌<◌, ◌≡◌, refl, ap, false, none, update, arith, ◌⊎◌, inl, inr,
  ℕ_discrete, dec_lt, Option-cases,
}
use cs3013_operating_systems.Life.Ending.{
  Thread, arriving, counted, waiting, sending, exited, Parent, last_gendone, stopping, going,
  counting, joining, ended, Run, Step, count, open_barrier, leave_shut, pass, send_alldone,
  receive_last, send_stop, all_stopped, send_go, all_going, receive, all_done, join, finish, Reach,
  start, later,
}
use cs3013_operating_systems.Prelude.Tally.{
  tally, tally-all_same, tally-update, tally_le, tally_cover, tally_find,
}
use cs3013_operating_systems.Life.Ending.Balance.{
  early, past, gone, present, mail, Inv, past_le, gone_le, present-gone, gone_exited, somewhere,
}
use cs3013_operating_systems.Life.Ending.Messages.{at, Reach-Inv}

-- The steps that a thread has still to do.
abbrev pub rank : Thread → ℕ
rank arriving = 4
rank counted = 3
rank waiting = 2
rank sending = 1
rank exited = 0

module _ (n : ℕ) where
  -- The steps that are still to do.
  abbrev parent_rank : Parent → ℕ
  parent_rank last_gendone = n + n + n + 5
  parent_rank (stopping k) = 0
  parent_rank (going k) = (n + 1 - k) + (n + n + 4)
  parent_rank (counting c) = (n - c) + (n + 3)
  parent_rank (joining k) = (n + 1 - k) + 2
  parent_rank ended = 0

  abbrev left : Run → ℕ
  left s = tally rank s.threads n + parent_rank s.parent

  Step-left : (s t : Run) → Inv n s → Step n false s t → left t < left s
  Step-left s t v (count i h l e) =
      omega (arith, tally-update rank s.threads i counted n h l, ap rank e)
  Step-left s t v (open_barrier i e f) =
      let (h, l) = somewhere n s v i counted e (λ g. cc) in
      omega (arith, tally-update rank s.threads i waiting n h l, ap rank e)
  Step-left s t v (leave_shut i e f) =
      let (h, l) = somewhere n s v i counted e (λ g. cc) in
      omega (arith, tally-update rank s.threads i waiting n h l, ap rank e)
  Step-left s t v (pass i e p) =
      let (h, l) = somewhere n s v i waiting e (λ g. cc) in
      omega (arith, tally-update rank s.threads i sending n h l, ap rank e)
  Step-left s t v (send_alldone i e f) =
      let (h, l) = somewhere n s v i sending e (λ g. cc) in
      omega (arith, tally-update rank s.threads i exited n h l, ap rank e)
  Step-left s t v (receive_last e f) = omega (arith, ap parent_rank e)
  Step-left s t v (send_stop k e l f) = absurd (at n s (stopping k) e v)
  Step-left s t v (all_stopped k e l) = absurd (at n s (stopping k) e v)
  Step-left s t v (send_go k e l f) = omega (arith, ap parent_rank e)
  Step-left s t v (all_going k e l) = omega (arith, ap parent_rank e)
  Step-left s t v (receive c e l f) = omega (arith, ap parent_rank e)
  Step-left s t v (all_done c e l) = omega (arith, ap parent_rank e)
  Step-left s t v (join k e l f) = omega (arith, ap parent_rank e)
  Step-left s t v (finish k e l) = omega (arith, ap parent_rank e)

  -- A step of the run.
  abbrev pub Goes : Run → Type 0
  Goes s = (t : Run) × Step n false s t

  early-Goes :
      (s : Run) (i : ℕ) (p : Thread) → s.threads i ≡ p → 1 ≤ i → i ≤ n → 0 < early p → Goes s
  early-Goes s i arriving e h l o = (_, count i h l e)
  early-Goes s i counted e h l o = elim (ℕ_discrete s.barrier_count n) [
    | yes f ↦ (_, open_barrier i e f)
    | no f ↦ (_, leave_shut i e f)
  ]
  early-Goes s i waiting e h l o = absurd (omega arith)
  early-Goes s i sending e h l o = absurd (omega arith)
  early-Goes s i exited e h l o = absurd (omega arith)

  -- While a thread has not exited and the parent's mailbox is empty, a thread can go on.
  thread_Goes :
      (s : Run)
      → Inv n s
      → s.boxes 0 ≡ none
      → (i : ℕ) (p : Thread) → s.threads i ≡ p
      → 1 ≤ i
      → i ≤ n
      → 0 < present p
      → Goes s
  thread_Goes s v f i arriving e h l o = early-Goes s i arriving e h l (omega arith)
  thread_Goes s v f i counted e h l o = early-Goes s i counted e h l (omega arith)
  thread_Goes s v f i waiting e h l o = elim v.opens [
    | inl q ↦
        let (j, a, b, c) = tally_find early s.threads n q in early-Goes s j (s.threads j) refl a b c
    | inr q ↦ (_, pass i e (omega (arith, tally_le past s.threads n past_le)))
  ]
  thread_Goes s v f i sending e h l o = (_, send_alldone i e f)
  thread_Goes s v f i exited e h l o = absurd (omega arith)

  receive_Goes : (s : Run) (c : ℕ) → Inv n s → s.parent ≡ counting c → c < n → Goes s
  receive_Goes s c v e h = elim (Option-cases (s.boxes 0)) [
    | inr (m, f) ↦
        let is_alldone = (at n s (counting c) e v).2 m f in
        (_, receive c e h (f ∙ ap some is_alldone))
    | inl f ↦
        let b = at n s (counting c) e v in
        let (i, a, l, o) =
          tally_find present s.threads n
            (omega (arith, tally_cover gone present s.threads n present-gone, b.0, ap mail f)) in
        thread_Goes s v f i (s.threads i) refl a l o
  ]

  last_Goes : (s : Run) → Inv n s → s.parent ≡ last_gendone → Goes s
  last_Goes s v e = (_, receive_last e (at n s last_gendone e v).0)

  all_exited : (s : Run) (k : ℕ) → tally gone s.threads n ≡ n → 1 ≤ k → k ≤ n → s.threads k ≡ exited
  all_exited s k e h l =
      let f = update s.threads k exited in
      let g : 1 ≤ gone (s.threads k) =
        omega (arith, tally-update gone s.threads k exited n h l, tally_le gone f n gone_le) in
      gone_exited (s.threads k) g

  parent_Goes : (s : Run) (p : Parent) → Inv n s → s.parent ≡ p → (s.parent ≡ ended) ⊎ Goes s
  parent_Goes s last_gendone v e = inr (last_Goes s v e)
  parent_Goes s (stopping k) v e = absurd (at n s (stopping k) e v)
  parent_Goes s (going k) v e = elim (dec_lt n k) [
    | yes l ↦ inr (_, all_going k e l)
    | no l ↦ inr (_, send_go k e (omega arith) ((at n s (going k) e v).2 k (omega arith)))
  ]
  parent_Goes s (counting c) v e = elim (ℕ_discrete c n) [
    | yes f ↦ inr (_, all_done c e f)
    | no f ↦ inr (receive_Goes s c v e (omega (arith, (at n s (counting c) e v).1)))
  ]
  parent_Goes s (joining k) v e = elim (dec_lt n k) [
    | yes l ↦ inr (_, finish k e l)
    | no l ↦ inr (
      _,
      join k e (omega arith)
          (all_exited s k (at n s (joining k) e v).0 (at n s (joining k) e v).1 (omega arith)),
    )
  ]
  parent_Goes s ended v e = inl e

-- The number of steps of a run.
abbrev pub steps : {n : ℕ} → {s : Run} → Reach n false s → ℕ
steps start = 0
steps (later r p) = steps r + 1

steps-left : (n : ℕ) (s : Run) → 1 ≤ n → (r : Reach n false s) → steps r + left n s ≤ 7 * n + 5
steps-left n s h start = omega (arith, tally-all_same rank arriving 4 n refl)
steps-left n t h (later {s} r p) =
    omega (arith, steps-left n s h r, Step-left n s t (Reach-Inv n s h r) p)

-- Where the game is not found to be over after the last generation, `main` ends, with any number of
-- threads and in every order of their steps: a run has at most 7 n + 5 steps, and while the parent
-- has not ended there is a next one.
pub game_goes_on-ends :
    (n : ℕ) (s : Run)
    → 1 ≤ n
    → (r : Reach n false s)
    → (steps r ≤ 7 * n + 5) × ((s.parent ≡ ended) ⊎ ((t : Run) × Step n false s t))
game_goes_on-ends n s h r =
    (omega (arith, steps-left n s h r), parent_Goes n s s.parent (Reach-Inv n s h r) refl)
