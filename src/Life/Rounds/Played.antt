-- ===== src/Life/Rounds/Played.antt =====
-- project3/life.cpp: the threads play the game, in any order of their steps, and come to its end.
use cs3013_operating_systems.Prelude.{
  Bool-cases, dec_lt, ℕ, ◌+◌, ◌≤◌, ◌<◌, ◌≡◌, refl, ap, subst, ◌⊎◌, inl, inr, List, [], ◌∷◌, none,
  arith, ℕ_discrete,
}
use cs3013_operating_systems.Life.{Matrices}
use cs3013_operating_systems.Life.Neighbors.{Padded, alive}
use cs3013_operating_systems.Life.Game.{stops}
use cs3013_operating_systems.Life.Rounds.{
  computing, over, Parent, ranging, going, gathering, stopping, joining, ended, finished, Run,
  range_for,
}
use cs3013_operating_systems.Life.Rounds.Holds.{
  Phase, unsent, ready, idle, stopped, phase, Underway, told, busy, again, out, Holds,
}
use cs3013_operating_systems.Life.Rounds.Invariant.{reported, mail, round, Shows}
use cs3013_operating_systems.Life.Rounds.{
  Step, Reach, send_range, all_ranged, send_go, all_going, gather, halt, next, last, send_stop,
  all_stopped, join, finish, recv_range, recv_go, compute, report, recv_stop,
}
use cs3013_operating_systems.Life.Rounds.Parents.{at, held_at}
use cs3013_operating_systems.Prelude.Totals.{total}
use cs3013_operating_systems.Prelude.Tally.{tally_missing}
use cs3013_operating_systems.Life.{LineRange}
use cs3013_operating_systems.Life.Cells.{Cell, hits}
use cs3013_operating_systems.Life.Evolution.{generations, Same}
use cs3013_operating_systems.Life.Rounds.Shares.{only_owner}
use cs3013_operating_systems.Life.Rounds.Threads.{working}
use cs3013_operating_systems.Life.Rounds.Steps.{Keeps, Reach-Inv}
use cs3013_operating_systems.Life.Rounds.Bound.{most_steps, steps, steps-left}

module _ (lines columns n gens : ℕ) (positive : 0 < n) (enough : n ≤ lines) (narrow : columns < 40)
    (first : Matrices) where
  -- A step of the run.
  abbrev pub Goes : Run → Type 0
  Goes s = (t : Run) × Step lines columns n gens first s t

  -- The parent has joined the threads; or it has the last generation, all threads are behind their
  -- loops, and all mailboxes are empty.
  abbrev pub Ends : Run → Type 0
  Ends s =
      (s.parent ≡ ended)
      ⊎ ((s.parent ≡ finished)
          × (s.boxes 0 ≡ none)
          × ((i : ℕ) → 1 ≤ i → i ≤ n → (s.threads i ≡ over) × (s.boxes i ≡ none)))

  module _ (s : Run) (v : Keeps lines columns n gens positive enough narrow first s) where
    held :
        (p : Parent) (c : Phase) (k : ℕ)
        → s.parent ≡ p
        → phase p k ≡ c
        → 1 ≤ k
        → k ≤ n
        → Holds lines columns n gens c k (s.threads k) (s.boxes k) s.matrices
    held p c k e f h l = held_at lines columns n gens positive enough narrow first s p c k e f v h l

    -- A thread that has not reported goes on, while the parent's mailbox is empty.
    thread_Goes :
        (g i : ℕ)
        → 1 ≤ i
        → i ≤ n
        → s.boxes 0 ≡ none
        → reported g (s.threads i) ≡ 0
        → Underway lines columns n gens g i (s.threads i) (s.boxes i) s.matrices
        → Goes s
    thread_Goes g i h l b z (told e f) = (_, recv_go i g (range_for lines n i) h l e f)
    thread_Goes g i h l b z (busy [] e f p) = (_, report i g (range_for lines n i) h l e b)
    thread_Goes g i h l b z (busy (c ∷ cs) e f p) =
        (_, compute i g (range_for lines n i) c cs h l e)
    thread_Goes g i h l b z (again e f q p) = absurd (ground arith)
    thread_Goes g i h l b z (out e f q p) = absurd (ground arith)

    send_range_Goes : (k : ℕ) → s.parent ≡ ranging k → k ≤ n → Goes s
    send_range_Goes k e l =
        let one =
          (at lines columns n gens positive enough narrow first s (ranging k) e v).counted.1 in
        (_, send_range k e l (held (ranging k) unsent k e (ground arith) one l).1)

    send_go_Goes : (g k : ℕ) → s.parent ≡ going g k → k ≤ n → Goes s
    send_go_Goes g k e l =
        let one =
          (at lines columns n gens positive enough narrow first s (going g k) e v).counted.1 in
        elim (held (going g k) (ready g) k e (ground arith) one l) [
          | inl (a, x, y) ↦ (_, recv_range k (range_for lines n k) one l x y)
          | inr (x, y) ↦ (_, send_go g k e l y)
        ]

    gather_Goes : (g c : ℕ) → s.parent ≡ gathering g c → c < n → Goes s
    gather_Goes g c e l =
        let v' = at lines columns n gens positive enough narrow first s (gathering g c) e v in
        elim (v.only) [
          | inr full ↦ (_, gather g c e l full)
          | inl empty ↦
              let (i, h, q, z) =
                tally_missing (reported g) s.threads n
                  (omega (arith, v'.counted.0, ap mail empty)) in
              thread_Goes g i h q empty z (v'.all i h q)
        ]

    decide_Goes : (g c : ℕ) → s.parent ≡ gathering g c → c ≡ n → Goes s
    decide_Goes g c e f =
        let more =
          (at lines columns n gens positive enough narrow first s (gathering g c) e v).shown.0 in
        elim (ℕ_discrete (g + 1) gens) [
          | yes all_done ↦ (_, last g c e f all_done)
          | no not_done ↦ elim (Bool-cases (stops lines columns s.matrices)) [
            | inl halts ↦ (_, halt g c e f (omega arith) halts)
            | inr goes_on ↦ (_, next g c e f (omega arith) goes_on)
          ]
        ]

    send_stop_Goes : (g k : ℕ) → s.parent ≡ stopping g k → k ≤ n → Goes s
    send_stop_Goes g k e l =
        let one =
          (at lines columns n gens positive enough narrow first s (stopping g k) e v).counted.1 in
        (_, send_stop g k e l (held (stopping g k) idle k e (ground arith) one l).2)

    join_Goes : (k : ℕ) → s.parent ≡ joining k → k ≤ n → Goes s
    join_Goes k e l =
        let one =
          (at lines columns n gens positive enough narrow first s (joining k) e v).counted.1 in
        elim (held (joining k) stopped k e (ground arith) one l) [
          | inl (g, x, y) ↦ (_, recv_stop k g (range_for lines n k) one l x y)
          | inr (x, y) ↦ (_, join k e l x)
        ]

    run_Goes : (p : Parent) → s.parent ≡ p → Ends s ⊎ Goes s
    run_Goes (ranging k) e = elim (dec_lt n k) [
      | yes l ↦ inr (_, all_ranged k e l)
      | no l ↦ inr (send_range_Goes k e (omega arith))
    ]
    run_Goes (going g k) e = elim (dec_lt n k) [
      | yes l ↦ inr (_, all_going g k e l)
      | no l ↦ inr (send_go_Goes g k e (omega arith))
    ]
    run_Goes (gathering g c) e = elim (ℕ_discrete c n) [
      | yes f ↦ inr (decide_Goes g c e f)
      | no f ↦ inr (
          gather_Goes g c e (
            omega (
              arith,
              (at lines columns n gens positive enough narrow first s (gathering g c) e
                  v).counted.1,
            )))
    ]
    run_Goes (stopping g k) e = elim (dec_lt n k) [
      | yes l ↦ inr (_, all_stopped g k e l)
      | no l ↦ inr (send_stop_Goes g k e (omega arith))
    ]
    run_Goes (joining k) e = elim (dec_lt n k) [
      | yes l ↦ inr (_, finish k e l)
      | no l ↦ inr (join_Goes k e (omega arith))
    ]
    run_Goes ended e = inl (inl e)
    run_Goes finished e =
        let v' = at lines columns n gens positive enough narrow first s finished e v in
        inl (inr (e, v'.counted, v'.all))

-- Parent and threads, from the ranges on, in every order of their steps, with at least one thread and
-- no more than lines, at least one generation, fewer than 40 lines and 40 columns, which keeps all
-- reads within a matrix, and zeros just right of and below the cells: once the parent has left its
-- loop, since there is nothing left to do or since the last generation is there, the cells alive in
-- `after` are those of the game after all generations.
pub run-Same :
    (lines columns n gens : ℕ) (first : Matrices) (s : Run)
    → 0 < n
    → n ≤ lines
    → columns < 40
    → lines < 40
    → 0 < gens
    → Padded lines columns first.before
    → Reach lines columns n gens first s
    → round s.parent ≡ none
    → Same lines columns
        (alive s.matrices.after)
        (generations lines columns gens (alive first.before))
run-Same lines columns n gens first s positive enough narrow low more padded r e =
    subst (λ o. Shows lines columns n gens first o s.matrices) e
      (Reach-Inv lines columns n gens positive enough narrow first more padded s r).shown

-- With at least one thread and no more than lines, at least one generation, fewer than 40 columns,
-- and zeros just right of and below the cells, a run has at most `most_steps` steps, and while it is
-- not at its end there is a next one. At the end the parent has joined the threads, or all of them
-- are behind their loops with all mailboxes empty.
pub run-Ends :
    (lines columns n gens : ℕ) (first : Matrices) (positive : 0 < n) (enough : n ≤ lines)
    (narrow : columns < 40)
    → 0 < gens
    → Padded lines columns first.before
    → (s : Run) (r : Reach lines columns n gens first s)
    → (steps lines columns n gens positive enough narrow first r ≤ most_steps lines columns n gens)
      × (Ends lines columns n gens positive enough narrow first s
          ⊎ Goes lines columns n gens positive enough narrow first s)
run-Ends lines columns n gens first positive enough narrow more padded s r = (
  omega (arith, steps-left lines columns n gens positive enough narrow first more padded s r),
  run_Goes lines columns n gens positive enough narrow first s
      (Reach-Inv lines columns n gens positive enough narrow first more padded s r) s.parent refl,
)

-- With at least one thread and no more than lines, at least one generation, fewer than 40 columns,
-- and zeros just right of and below the cells, no cell of the matrix is at any time among the cells
-- that two threads have still to compute.
pub run_one_writer :
    (lines columns n gens : ℕ) (first : Matrices) (s : Run)
    → 0 < n
    → n ≤ lines
    → columns < 40
    → 0 < gens
    → Padded lines columns first.before
    → Reach lines columns n gens first s
    → (i j g h x y : ℕ) (q r : LineRange) (cs ds : List Cell) → 1 ≤ i
    → i ≤ n
    → 1 ≤ j
    → j ≤ n
    → s.threads i ≡ computing q g cs
    → s.threads j ≡ computing r h ds
    → x < lines
    → y < columns
    → 0 < total (hits x y) cs
    → 0 < total (hits x y) ds
    → i ≡ j
run_one_writer lines columns n gens first s positive enough narrow more padded reach i j g h x y q r
      cs ds a b c d e f k l hit hit' =
    let v = Reach-Inv lines columns n gens positive enough narrow first more padded s reach in
    let one =
      working lines columns n gens i (s.threads i) (s.boxes i) s.matrices (phase s.parent i) q g cs
        e (v.all i a b) in
    let two =
      working lines columns n gens j (s.threads j) (s.boxes j) s.matrices (phase s.parent j) r h ds
        f (v.all j c d) in
    only_owner lines columns n positive enough i j x y k l a b c d (omega (arith, one.3.own x y))
      (omega (arith, two.3.own x y))
