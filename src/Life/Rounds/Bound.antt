-- ===== src/Life/Rounds/Bound.antt =====
-- project3/life.cpp: a run has a greatest number of steps.
use cs3013_operating_systems.Prelude.{
  ℕ, suc, ◌-◌, ◌*◌, ◌+◌, ◌≤◌, ◌<◌, ◌≡◌, refl, ap, ◌∙◌, subst, Bool, true, false, List, [], ◌∷◌,
  ◌==◌, if◌then◌else◌, update, arith,
}
use cs3013_operating_systems.Prelude.Tally.{tally}
use cs3013_operating_systems.Life.{Matrices}
use cs3013_operating_systems.Life.Neighbors.{Padded}
use cs3013_operating_systems.Life.Rounds.{
  Thread, unranged, awaiting, computing, over, exited, Parent, ranging, going, gathering, stopping,
  joining, ended, finished, Run, range_for,
}
use cs3013_operating_systems.Life.Rounds.Holds.{underway, phase}
use cs3013_operating_systems.Life.Rounds.Invariant.{round, Shows}
use cs3013_operating_systems.Life.Rounds.{
  Step, Reach, send_range, all_ranged, send_go, all_going, gather, halt, next, last, send_stop,
  all_stopped, join, finish, recv_range, recv_go, compute, report, recv_stop, start, later,
}
use cs3013_operating_systems.Prelude.Totals.{total}
use cs3013_operating_systems.Prelude.Tally.{tally-update, tally-all_same}
use cs3013_operating_systems.Life.{LineRange, all_ranges}
use cs3013_operating_systems.Life.Cells.{Cell, thread_cells, cells_of}
use cs3013_operating_systems.Life.Rounds.Shares.{one_share, length-all_ranges}
use cs3013_operating_systems.Life.Rounds.Invariant.{same_round, Shows-computes}
use cs3013_operating_systems.Life.Rounds.Threads.{gone}
use cs3013_operating_systems.Life.Rounds.Steps.{Keeps, Reach-Inv}

abbrev pub size : List Cell → ℕ
size = total (λ c. 1)

mul_next : (a b x : ℕ) → b < a → (a - b) * x ≡ (a - (b + 1)) * x + x
mul_next a b x h = let e : a - b ≡ suc (a - (b + 1)) = omega arith in rw e (omega arith)

mul_first : (a x : ℕ) → 0 < a → a * x ≡ (a - (0 + 1)) * x + x
mul_first a x h = let e : a ≡ suc (a - (0 + 1)) = omega arith in ap (λ k. k * x) e ∙ omega arith

minus_zero : (a x : ℕ) → (a - 0) * x ≡ a * x
minus_zero a x = ap (λ k. k * x) (let e : a - 0 ≡ a = omega arith in e)

module _ (lines columns n gens : ℕ) where
  -- The number of the cells of all threads.
  abbrev pub all_cells : ℕ
  all_cells = size (cells_of columns (all_ranges lines n))

  -- The steps that a thread, and the parent, have still to do at most.
  abbrev rank : Thread → ℕ
  rank unranged = gens * (all_cells + 3) + 2
  rank (awaiting r g) = (gens - g) * (all_cells + 3) + 1
  rank (computing r g cs) = (gens - (g + 1)) * (all_cells + 3) + size cs + 2
  rank over = 0
  rank exited = 0

  abbrev parent_rank : Parent → ℕ
  parent_rank (ranging k) = (n + 1 - k) + gens * (n + n + 2) + (n + n + 9)
  parent_rank (going g k) = (gens - (g + 1)) * (n + n + 2) + (n + 1 - k) + (n + n + n + 8)
  parent_rank (gathering g c) = (gens - (g + 1)) * (n + n + 2) + (n - c) + (n + n + 7)
  parent_rank (stopping g k) = (n + 1 - k) + (n + 4)
  parent_rank (joining k) = (n + 1 - k) + 2
  parent_rank ended = 0
  parent_rank finished = 0

  abbrev pub most_steps : ℕ
  most_steps = n * (gens * (all_cells + 3) + 2) + (gens * (n + n + 2) + (n + n + n + 9))

module _ (lines columns n gens : ℕ) (positive : 0 < n) (enough : n ≤ lines) (narrow : columns < 40)
    (first : Matrices) where
  abbrev left_steps : Run → ℕ
  left_steps s =
      tally (rank lines columns n gens) s.threads n + parent_rank lines columns n gens s.parent

  cells_le :
      (i : ℕ)
      → 1 ≤ i
      → i ≤ n
      → size (thread_cells columns (range_for lines n i)) ≤ all_cells lines columns n gens
  cells_le i h l =
      one_share columns (λ c. 1) (record { value1 = 0; value2 = 0 }) (all_ranges lines n) (i - 1)
        (omega (arith, length-all_ranges lines n positive))

  -- A step of thread `i`.
  thread_step :
      (s : Run) (i : ℕ) (t : Thread)
      → 1 ≤ i
      → i ≤ n
      → rank lines columns n gens t < rank lines columns n gens (s.threads i)
      → tally (rank lines columns n gens) (update s.threads i t) n
        < tally (rank lines columns n gens) s.threads n
  thread_step s i t h l p =
      omega (arith, tally-update (rank lines columns n gens) s.threads i t n h l)

  -- Which round a thread with GO is in.
  in_round :
      (s : Run) (i g : ℕ)
      → phase s.parent i ≡ underway g
      → Keeps lines columns n gens positive enough narrow first s
      → g < gens
  in_round s i g e v =
      (Shows-computes lines columns n gens first (round s.parent) g
        (record { line = 0; column = 0 }) s.matrices (same_round s.parent i g e) v.shown).0

  cell_step :
      (r : LineRange) (g : ℕ) (c : Cell) (cs : List Cell) (t : Thread)
      → t ≡ computing r g (c ∷ cs)
      → rank lines columns n gens (computing r g cs) < rank lines columns n gens t
  unfolding total
  cell_step r g c cs t e = omega (arith, ap (rank lines columns n gens) e)

  report_step :
      (r : LineRange) (g : ℕ) (t : Thread)
      → t ≡ computing r g []
      → rank lines columns n gens (if g + 1 == gens then over else awaiting r (g + 1))
        < rank lines columns n gens t
  report_step r g t e = by_test (g + 1 == gens)
    where
      by_test :
          (b : Bool)
          → rank lines columns n gens (if b then over else awaiting r (g + 1))
            < rank lines columns n gens t
      by_test true = omega (arith, ap (rank lines columns n gens) e)
      by_test false = omega (arith, ap (rank lines columns n gens) e)

  Step-left :
      (s t : Run)
      → Keeps lines columns n gens positive enough narrow first s
      → Step lines columns n gens first s t
      → left_steps t < left_steps s
  Step-left s t v (send_range k e l f) = omega (arith, ap (parent_rank lines columns n gens) e)
  Step-left s t v (all_ranged k e l) = omega (
    arith,
    ap (parent_rank lines columns n gens) e,
    mul_first gens (n + n + 2)
        (subst (λ p. Shows lines columns n gens first (round p) s.matrices) e v.shown).0,
  )
  Step-left s t v (send_go g k e l f) = omega (arith, ap (parent_rank lines columns n gens) e)
  Step-left s t v (all_going g k e l) = omega (arith, ap (parent_rank lines columns n gens) e)
  Step-left s t v (gather g c e l f) = omega (arith, ap (parent_rank lines columns n gens) e)
  Step-left s t v (halt g c e f l h) = omega (arith, ap (parent_rank lines columns n gens) e)
  Step-left s t v (next g c e f l h) =
      omega (arith, ap (parent_rank lines columns n gens) e, mul_next gens (g + 1) (n + n + 2) l)
  Step-left s t v (last g c e f l) = omega (arith, ap (parent_rank lines columns n gens) e)
  Step-left s t v (send_stop g k e l f) = omega (arith, ap (parent_rank lines columns n gens) e)
  Step-left s t v (all_stopped g k e l) = omega (arith, ap (parent_rank lines columns n gens) e)
  Step-left s t v (join k e l f) = omega (arith, ap (parent_rank lines columns n gens) e)
  Step-left s t v (finish k e l) = omega (arith, ap (parent_rank lines columns n gens) e)
  Step-left s t v (recv_range i r h l e f) =
      let d = thread_step s i (awaiting r 0) h l (
        omega (
          arith,
          ap (rank lines columns n gens) e,
          minus_zero gens (all_cells lines columns n gens + 3),
        )) in
      omega arith
  Step-left s t v (recv_go i g r h l e f) =
      let (a, same) =
        gone lines columns n gens i (s.threads i) (s.boxes i) s.matrices (phase s.parent i) r g e f
          (v.all i h l) in
      let d = thread_step s i (computing r g (thread_cells columns r)) h l (
        omega (
          arith,
          ap (rank lines columns n gens) e,
          cells_le i h l,
          ap (λ q. size (thread_cells columns q)) same,
          mul_next gens g (all_cells lines columns n gens + 3) (in_round s i g a v),
        )) in
      omega arith
  Step-left s t v (compute i g r c cs h l e) =
      let d = thread_step s i (computing r g cs) h l (cell_step r g c cs (s.threads i) e) in
      omega arith
  Step-left s t v (report i g r h l e f) =
      let d =
        thread_step s i (if g + 1 == gens then over else awaiting r (g + 1)) h l
          (report_step r g (s.threads i) e) in
      omega arith
  Step-left s t v (recv_stop i g r h l e f) =
      let d = thread_step s i exited h l (omega (arith, ap (rank lines columns n gens) e)) in
      omega arith

  abbrev pub steps : {s : Run} → Reach lines columns n gens first s → ℕ
  steps start = 0
  steps (later r p) = steps r + 1

  pub steps-left :
      0 < gens
      → Padded lines columns first.before
      → (s : Run) (r : Reach lines columns n gens first s)
      → steps r + left_steps s ≤ most_steps lines columns n gens
  steps-left h p s start = omega (
    arith,
    tally-all_same (rank lines columns n gens) unranged
        (gens * (all_cells lines columns n gens + 3) + 2) n refl,
  )
  steps-left h p t (later {s} r q) = omega (
    arith,
    steps-left h p s r,
    Step-left s t (Reach-Inv lines columns n gens positive enough narrow first h p s r) q,
  )
