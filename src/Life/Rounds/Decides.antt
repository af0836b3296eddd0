-- ===== src/Life/Rounds/Decides.antt =====
-- project3/life.cpp: what the parent decides when all threads have reported.
use cs3013_operating_systems.Prelude.{
  ℕ, ◌+◌, ◌≤◌, ◌<◌, ◌≡◌, sym, ap, subst, ◌⊎◌, inl, inr, true, Option, none, arith,
}
use cs3013_operating_systems.Prelude.Tally.{tally_zero, tally_le, tally_full}
use cs3013_operating_systems.Life.{Matrices, update_matrix}
use cs3013_operating_systems.Life.Neighbors.{alive}
use cs3013_operating_systems.Life.Game.{stops}
use cs3013_operating_systems.Life.Evolution.{generations, Same}
use cs3013_operating_systems.Life.Rounds.{
  Msg, Thread, awaiting, over, going, gathering, stopping, finished, Run, range_for,
}
use cs3013_operating_systems.Life.Rounds.Holds.{Phase, ready, idle, phase, Holds}
use cs3013_operating_systems.Life.Rounds.Invariant.{reported, reported_le, mail, Inv}
use cs3013_operating_systems.Life.Rounds.Grid.{
  AllComputed, computed-generations, halted-generations, updated-generations,
}
use cs3013_operating_systems.Life.Rounds.Parents.{mail_zero, at, turns, reports}

module _ (lines columns n gens : ℕ) (positive : 0 < n) (enough : n ≤ lines) (narrow : columns < 40)
    (first : Matrices) where
  abbrev pub Keeps : Run → Type 0
  Keeps s = Inv lines columns n gens first s

  -- A thread that has reported, with its mailbox.
  abbrev States : ℕ → ℕ → Thread → Option Msg → Type 0
  States g i t b =
      (b ≡ none)
      × (((t ≡ awaiting (range_for lines n i) (g + 1)) × (g + 1 < gens))
          ⊎ ((t ≡ over) × (g + 1 ≡ gens)))

  idles :
      (g i : ℕ) (t : Thread) (b : Option Msg) (m : Matrices) {c : Phase}
      → c ≡ idle
      → g + 1 < gens
      → States g i t b
      → Holds lines columns n gens c i t b m
  idles g i t b m e l (f, inl (x, y)) =
      subst (λ c. Holds lines columns n gens c i t b m) (sym e) (g + 1, x, f)
  idles g i t b m e l (f, inr (x, y)) = absurd (omega arith)

  readies :
      (g i : ℕ) (t : Thread) (b : Option Msg) (m : Matrices) (c : Phase)
      → c ≡ ready (g + 1)
      → g + 1 < gens
      → States g i t b
      → Holds lines columns n gens c i t b m
  readies g i t b m c e l (f, inl (x, y)) =
      subst (λ c. Holds lines columns n gens c i t b m) (sym e) (inr (x, f))
  readies g i t b m c e l (f, inr (x, y)) = absurd (omega arith)

  waits :
      (g i : ℕ) (t : Thread) (b : Option Msg)
      → g + 1 < gens
      → States g i t b
      → reported (g + 1) t ≡ 0
  waits g i t b l (f, inl (x, y)) = ground arith
  waits g i t b l (f, inr (x, y)) = absurd (omega arith)

  ends :
      (g i : ℕ) (t : Thread) (b : Option Msg)
      → g + 1 ≡ gens
      → States g i t b
      → (t ≡ over) × (b ≡ none)
  ends g i t b l (f, inl (x, y)) = absurd (omega arith)
  ends g i t b l (f, inr (x, y)) = (x, f)

  -- A round is over: all threads have reported, and the mailbox is empty.
  record Gathered (g : ℕ) (s : Run) : Type 0 where
    emptied : s.boxes 0 ≡ none
    computed :
        AllComputed lines columns n gens positive enough narrow (alive first.before) s.matrices
    states : (i : ℕ) → 1 ≤ i → i ≤ n → States g i (s.threads i) (s.boxes i)

  gathered : (s : Run) (g c : ℕ) → s.parent ≡ gathering g c → c ≡ n → Keeps s → Gathered g s
  gathered s g c e f v =
      let v' = at lines columns n gens positive enough narrow first s (gathering g c) e v in
      let few = tally_le (reported g) s.threads n (reported_le g) in
      let full =
        tally_full (reported g) s.threads n (reported_le g) (omega (arith, v'.counted.0)) in
      let one = λ (i : ℕ) (h : 1 ≤ i) (l : i ≤ n).
        reports lines columns n gens positive enough narrow first g i (s.threads i) (s.boxes i)
          s.matrices (v'.all i h l) (full i h l) in
      record {
        emptied = mail_zero (s.boxes 0) (omega (arith, v'.counted.0));
        computed = λ i h l. (one i h l).0;
        states = λ i h l. ((one i h l).1, (one i h l).2);
      }

  pub halt-Inv :
      (s : Run) (g c : ℕ)
      → s.parent ≡ gathering g c
      → c ≡ n
      → g + 1 < gens
      → stops lines columns s.matrices ≡ true
      → Keeps s
      → Keeps (record s { parent = stopping g 1 })
  halt-Inv s g c e f l h v =
      let v' = at lines columns n gens positive enough narrow first s (gathering g c) e v in
      let w = gathered s g c e f v in
      turns lines columns n gens positive enough narrow first s (gathering g c) (stopping g 1) e v
        (λ i a b q.
          idles g i (s.threads i) (s.boxes i) s.matrices (ground arith) l (w.states i a b))
        (w.emptied, omega arith)
        (halted-generations lines columns n gens positive enough narrow (alive first.before)
          s.matrices g w.computed v'.shown.1 v'.shown.2 l h)

  pub next-Inv :
      (s : Run) (g c : ℕ)
      → s.parent ≡ gathering g c
      → c ≡ n
      → g + 1 < gens
      → Keeps s
      → Keeps
          (record s { parent = going (g + 1) 1; matrices = update_matrix lines columns s.matrices })
  next-Inv s g c e f l v =
      let v' = at lines columns n gens positive enough narrow first s (gathering g c) e v in
      let w = gathered s g c e f v in
      let m = update_matrix lines columns s.matrices in
      let (padded, same) =
        updated-generations lines columns n gens positive enough narrow (alive first.before)
          s.matrices g w.computed v'.shown.1 v'.shown.2 in
      record {
        all = λ i a b.
            readies g i (s.threads i) (s.boxes i) m (phase (going (g + 1) 1) i) (ground arith) l
              (w.states i a b);
        counted = (
          omega (
            arith,
            ap mail w.emptied,
            tally_zero (reported (g + 1)) s.threads n
                (λ i a b. waits g i (s.threads i) (s.boxes i) l (w.states i a b)),
          ),
          omega arith,
        );
        only = v.only;
        shown = (l, padded, same);
      }

  pub last-Inv :
      (s : Run) (g c : ℕ)
      → s.parent ≡ gathering g c
      → c ≡ n
      → g + 1 ≡ gens
      → Keeps s
      → Keeps (record s { parent = finished })
  last-Inv s g c e f l v =
      let v' = at lines columns n gens positive enough narrow first s (gathering g c) e v in
      let w = gathered s g c e f v in
      turns lines columns n gens positive enough narrow first s (gathering g c) finished e v
        (λ i a b q. ends g i (s.threads i) (s.boxes i) l (w.states i a b)) w.emptied
        (subst
          (λ k.
            Same lines columns (alive s.matrices.after)
              (generations lines columns k (alive first.before)))
          l
          (computed-generations lines columns n gens positive enough narrow (alive first.before)
            s.matrices g w.computed v'.shown.1 v'.shown.2))
