-- ===== src/Life/Rounds/Threads.antt =====
-- project3/life.cpp: what a thread that can make a step knows, and that its step keeps the invariant.
use cs3013_operating_systems.Prelude.{
  ℕ, ◌+◌, ◌≤◌, ◌≡◌, refl, sym, ap, subst, ◌⊎◌, inl, inr, List, [], ◌∷◌, Option, none, some, ◌==◌,
  if◌then◌else◌, update, update_self, update_other, arith, ℕ_discrete,
}
use cs3013_operating_systems.Life.{Matrices, LineRange}
use cs3013_operating_systems.Life.Cells.{Cell, thread_cells}
use cs3013_operating_systems.Life.Rounds.{
  Msg, range, go, gendone, stop, Thread, unranged, awaiting, computing, over, exited, Run,
  range_for,
}
use cs3013_operating_systems.Life.Rounds.Holds.{
  Phase, unsent, ready, underway, idle, stopped, left, through, phase, Part, Underway, told, busy,
  again, out, Holds, computes, Holds-computes, Part-next, Part-all,
}
use cs3013_operating_systems.Life.Rounds.Invariant.{
  reported, round, same_round, phase_stopped, Shows-computes, Counts, Inv, one_thread, Counts-same,
  Counts-report,
}

module _ (lines columns n gens : ℕ) (i : ℕ) (t : Thread) (b : Option Msg) (m : Matrices) where
  abbrev own_range : LineRange
  own_range = range_for lines n i

  pub ranged :
      (ph : Phase) (r : LineRange)
      → t ≡ unranged
      → b ≡ some (range r)
      → Holds lines columns n gens ph i t b m
      → (ph ≡ ready 0) × (r ≡ own_range)
  ranged unsent r e f h = absurd cc
  ranged (ready g) r e f (inl h) = (ap ready h.0, cc)
  ranged (ready g) r e f (inr h) = absurd cc
  ranged (underway g) r e f (told x y) = absurd cc
  ranged (underway g) r e f (busy ds x y p) = absurd cc
  ranged (underway g) r e f (again x y l p) = absurd cc
  ranged (underway g) r e f (out x y l p) = absurd cc
  ranged idle r e f (g, x, y) = absurd cc
  ranged stopped r e f (inl (g, x, y)) = absurd cc
  ranged stopped r e f (inr h) = absurd cc
  ranged left r e f h = absurd cc
  ranged through r e f h = absurd cc

  pub gone :
      (ph : Phase) (r : LineRange) (k : ℕ)
      → t ≡ awaiting r k
      → b ≡ some go
      → Holds lines columns n gens ph i t b m
      → (ph ≡ underway k) × (r ≡ own_range)
  gone unsent r k e f h = absurd cc
  gone (ready g) r k e f (inl h) = absurd cc
  gone (ready g) r k e f (inr h) = absurd cc
  gone (underway g) r k e f (told x y) = (cc, cc)
  gone (underway g) r k e f (busy ds x y p) = absurd cc
  gone (underway g) r k e f (again x y l p) = absurd cc
  gone (underway g) r k e f (out x y l p) = absurd cc
  gone idle r k e f (g, x, y) = absurd cc
  gone stopped r k e f (inl (g, x, y)) = absurd cc
  gone stopped r k e f (inr h) = absurd cc
  gone left r k e f h = absurd cc
  gone through r k e f h = absurd cc

  pub working :
      (ph : Phase) (r : LineRange) (k : ℕ) (cs : List Cell)
      → t ≡ computing r k cs
      → Holds lines columns n gens ph i t b m
      → (ph ≡ underway k) × (r ≡ own_range) × (b ≡ none) × Part lines columns n gens i cs m
  working unsent r k cs e h = absurd cc
  working (ready g) r k cs e (inl h) = absurd cc
  working (ready g) r k cs e (inr h) = absurd cc
  working (underway g) r k cs e (told x y) = absurd cc
  working (underway g) r k cs e (busy ds x y p) =
      let same : ds ≡ cs = cc in (cc, cc, y, subst (λ c. Part lines columns n gens i c m) same p)
  working (underway g) r k cs e (again x y l p) = absurd cc
  working (underway g) r k cs e (out x y l p) = absurd cc
  working idle r k cs e (g, x, y) = absurd cc
  working stopped r k cs e (inl (g, x, y)) = absurd cc
  working stopped r k cs e (inr h) = absurd cc
  working left r k cs e h = absurd cc
  working through r k cs e h = absurd cc

  halted :
      (ph : Phase) (r : LineRange) (k : ℕ)
      → t ≡ awaiting r k
      → b ≡ some stop
      → Holds lines columns n gens ph i t b m
      → ph ≡ stopped
  halted unsent r k e f h = absurd cc
  halted (ready g) r k e f (inl h) = absurd cc
  halted (ready g) r k e f (inr h) = absurd cc
  halted (underway g) r k e f (told x y) = absurd cc
  halted (underway g) r k e f (busy ds x y p) = absurd cc
  halted (underway g) r k e f (again x y l p) = absurd cc
  halted (underway g) r k e f (out x y l p) = absurd cc
  halted idle r k e f (g, x, y) = absurd cc
  halted stopped r k e f (inl (g, x, y)) = refl
  halted stopped r k e f (inr h) = absurd cc
  halted left r k e f h = absurd cc
  halted through r k e f h = absurd cc

module _ (lines columns n gens : ℕ) (first : Matrices) (narrow : columns ≤ 40) (s : Run)
    (v : Inv lines columns n gens first s) (i : ℕ) (low : 1 ≤ i) (high : i ≤ n) where
  -- What holds of the thread before its step.
  held : Holds lines columns n gens (phase s.parent i) i (s.threads i) (s.boxes i) s.matrices
  held = v.all i low high

  moves :
      (t : Thread) (b : Option Msg)
      → Holds lines columns n gens (phase s.parent i) i t b s.matrices
      → ((g : ℕ) → round s.parent ≡ some g → reported g t ≡ reported g (s.threads i))
      → Inv lines columns n gens first
          (record s { threads = update s.threads i t; boxes = update s.boxes i b })
  moves t b h f = record {
    all =
        one_thread lines columns n gens first i s.parent s.parent s.threads (update s.threads i t)
          s.boxes (update s.boxes i b) s.matrices
          (λ j d l. (refl, update_other s.threads i t j d, update_other s.boxes i b j d))
          (subst
            (λ c.
              Holds lines columns n gens (phase s.parent i) i c (update s.boxes i b i) s.matrices)
            (sym (update_self s.threads i t))
            (subst (λ c. Holds lines columns n gens (phase s.parent i) i t c s.matrices)
              (sym (update_self s.boxes i b)) h))
          v.all;
    counted =
        subst (λ c. Counts lines columns n gens first s.parent c (update s.threads i t)) mailbox
          (Counts-same lines columns n gens first s.parent (s.boxes 0) s.threads i t low high f
            v.counted);
    only = subst (λ c. (c ≡ none) ⊎ (c ≡ some gendone)) mailbox v.only;
    shown = v.shown;
  }
    where
      mailbox : s.boxes 0 ≡ update s.boxes i b 0
      mailbox = ground arith

  pub recv_range-Inv :
      (r : LineRange)
      → s.threads i ≡ unranged
      → s.boxes i ≡ some (range r)
      → Inv lines columns n gens first
          (record s { threads = update s.threads i (awaiting r 0); boxes = update s.boxes i none })
  recv_range-Inv r e f =
      let (a, same) =
        ranged lines columns n gens i (s.threads i) (s.boxes i) s.matrices (phase s.parent i) r e f
          held in
      moves (awaiting r 0) none
        (subst (λ c. Holds lines columns n gens c i (awaiting r 0) none s.matrices) (sym a)
          (inr (ap (λ q. awaiting q 0) same, refl)))
        (λ g q. ground arith)

  pub recv_go-Inv :
      (g : ℕ) (r : LineRange)
      → s.threads i ≡ awaiting r g
      → s.boxes i ≡ some go
      → Inv lines columns n gens first (record s {
        threads = update s.threads i (computing r g (thread_cells columns r));
        boxes = update s.boxes i none;
      })
  recv_go-Inv g r e f =
      let (a, same) =
        gone lines columns n gens i (s.threads i) (s.boxes i) s.matrices (phase s.parent i) r g e f
          held in
      let cells = thread_cells columns (range_for lines n i) in
      let now = same_round s.parent i g a in
      moves (computing r g (thread_cells columns r)) none
        (subst
          (λ c.
            Holds lines columns n gens c i (computing r g (thread_cells columns r)) none s.matrices)
          (sym a)
          (busy cells (ap (λ q. computing q g (thread_cells columns q)) same) refl
            (Part-all lines columns n gens i s.matrices narrow)))
        (λ k q. ground arith)

  pub recv_stop-Inv :
      (g : ℕ) (r : LineRange)
      → s.threads i ≡ awaiting r g
      → s.boxes i ≡ some stop
      → Inv lines columns n gens first
          (record s { threads = update s.threads i exited; boxes = update s.boxes i none })
  recv_stop-Inv g r e f =
      let a =
        halted lines columns n gens i (s.threads i) (s.boxes i) s.matrices (phase s.parent i) r g e
          f held in
      moves exited none
        (subst (λ c. Holds lines columns n gens c i exited none s.matrices) (sym a)
          (inr (refl, refl)))
        (λ k q. absurd (cc (phase_stopped s.parent i a)))

  pub compute-Inv :
      (g : ℕ) (r : LineRange) (c : Cell) (cs : List Cell)
      → s.threads i ≡ computing r g (c ∷ cs)
      → Inv lines columns n gens first (record s {
        threads = update s.threads i (computing r g cs);
        matrices = computes lines columns n gens c s.matrices;
      })
  compute-Inv g r c cs e =
      let (a, same, f, p) =
        working lines columns n gens i (s.threads i) (s.boxes i) s.matrices (phase s.parent i) r g
          (c ∷ cs) e held in
      let (low_column, p') = Part-next lines columns n gens i c cs s.matrices narrow p in
      let m' = computes lines columns n gens c s.matrices in
      let t = computing r g cs in
      record {
        all =
            one_thread lines columns n gens first i s.parent s.parent s.threads
              (update s.threads i t) s.boxes s.boxes m'
              (λ j d l. (refl, update_other s.threads i t j d, refl))
              (subst (λ q. Holds lines columns n gens (phase s.parent i) i q (s.boxes i) m')
                (sym (update_self s.threads i t))
                (subst (λ q. Holds lines columns n gens q i t (s.boxes i) m') (sym a)
                  (busy cs (ap (λ q. computing q g cs) same) f p')))
              (λ j x y.
                Holds-computes lines columns n gens (phase s.parent j) j (s.threads j) (s.boxes j)
                  s.matrices c narrow low_column (v.all j x y));
        counted =
            Counts-same lines columns n gens first s.parent (s.boxes 0) s.threads i t low high
              (λ k q. ground arith) v.counted;
        only = v.only;
        shown =
            (Shows-computes lines columns n gens first (round s.parent) g c s.matrices
              (same_round s.parent i g a) v.shown).1;
      }

  pub report-Inv :
      (g : ℕ) (r : LineRange)
      → s.threads i ≡ computing r g []
      → s.boxes 0 ≡ none
      → Inv lines columns n gens first (record s {
        threads = update s.threads i (if g + 1 == gens then over else awaiting r (g + 1));
        boxes = update s.boxes 0 (some gendone);
      })
  report-Inv g r e f =
      let (a, same, h, p) =
        working lines columns n gens i (s.threads i) (s.boxes i) s.matrices (phase s.parent i) r g
          [] e held in
      let t = if g + 1 == gens then over else awaiting r (g + 1) in
      let (more, _) =
        Shows-computes lines columns n gens first (round s.parent) g no_cell s.matrices
          (same_round s.parent i g a) v.shown in
      let done : Underway lines columns n gens g i t (s.boxes i) s.matrices =
        elim (ℕ_discrete (g + 1) gens) [
          | yes all_done ↦ out (ground arith) h all_done p
          | no not_done ↦ again (ground arith) h (omega arith) p
        ] in
      record {
        all =
            one_thread lines columns n gens first i s.parent s.parent s.threads
              (update s.threads i t) s.boxes (update s.boxes 0 (some gendone)) s.matrices
              (λ j d l. (refl, update_other s.threads i t j d, ground arith))
              (subst
                (λ q.
                  Holds lines columns n gens (phase s.parent i) i q
                    (update s.boxes 0 (some gendone) i) s.matrices)
                (sym (update_self s.threads i t))
                (subst (λ q. Holds lines columns n gens (phase s.parent i) i t q s.matrices) own_box
                  (subst (λ q. Holds lines columns n gens q i t (s.boxes i) s.matrices) (sym a)
                    done)))
              v.all;
        counted =
            Counts-report lines columns n gens first s.parent g (s.boxes 0) s.threads i t low high a
              f (ground arith) (ground arith) v.counted;
        only = inr refl;
        shown = v.shown;
      }
    where
      own_box : s.boxes i ≡ update s.boxes 0 (some gendone) i
      own_box = ground arith

      no_cell : Cell
      no_cell = record { line = 0; column = 0 }
