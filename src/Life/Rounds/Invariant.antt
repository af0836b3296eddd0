-- ===== src/Life/Rounds/Invariant.antt =====
-- project3/life.cpp: what holds of parent, threads, mailboxes and matrices at every point of a run.
use cs3013_operating_systems.Prelude.{
  ℕ, ◌+◌, ◌≤◌, ◌<◌, ◌≡◌, refl, sym, ap, subst, ◌≢◌, ◌⊎◌, inl, Option, none, some, ◌==◌,
  if◌then◌else◌, update, arith, ℕ_discrete,
}
use cs3013_operating_systems.Prelude.Tally.{tally, tally-update}
use cs3013_operating_systems.Life.{Matrices}
use cs3013_operating_systems.Life.Cells.{Cell}
use cs3013_operating_systems.Life.Neighbors.{Padded, alive}
use cs3013_operating_systems.Life.Evolution.{generations, Same}
use cs3013_operating_systems.Life.Rounds.{
  Msg, gendone, Thread, unranged, awaiting, over, Parent, ranging, going, gathering, stopping,
  joining, ended, finished, Run, begin,
}
use cs3013_operating_systems.Life.Rounds.Holds.{unsent, underway, stopped, phase, Holds, computes}

-- Threads that have reported in the round after `g` generations.
abbrev pub reported : ℕ → Thread → ℕ
reported g (awaiting r h) = if h == g + 1 then 1 else 0
reported g over = 1
reported g _ = 0

abbrev pub mail : Option Msg → ℕ
mail none = 0
mail (some m) = 1

-- How many generations the parent has behind it while it is in its loop.
abbrev pub round : Parent → Option ℕ
round (ranging k) = some 0
round (going g k) = some g
round (gathering g c) = some g
round _ = none

pub same_round : (p : Parent) (i g : ℕ) → phase p i ≡ underway g → round p ≡ some g
same_round (ranging k) i g e = ground arith
same_round (going h k) i g e = ground arith
same_round (gathering h c) i g e = cc
same_round (stopping h k) i g e = ground arith
same_round (joining k) i g e = ground arith
same_round ended i g e = cc
same_round finished i g e = cc

pub phase_stopped : (p : Parent) (i : ℕ) → phase p i ≡ stopped → round p ≡ none
phase_stopped (ranging k) i e = absurd (ground arith)
phase_stopped (going h k) i e = absurd (ground arith)
phase_stopped (gathering h c) i e = absurd cc
phase_stopped (stopping h k) i e = refl
phase_stopped (joining k) i e = refl
phase_stopped ended i e = refl
phase_stopped finished i e = refl

pub reported_le : (g : ℕ) (t : Thread) → reported g t ≤ 1
reported_le g t = ground arith

module _ (lines columns n gens : ℕ) (first : Matrices) where
  abbrev pub All : Parent → (ℕ → Thread) → (ℕ → Option Msg) → Matrices → Type 0
  All p ts bs m = (i : ℕ) → 1 ≤ i → i ≤ n → Holds lines columns n gens (phase p i) i (ts i) (bs i) m

  -- The parent's mailbox has GENDONE of a thread that has reported and is not counted yet.
  abbrev pub Counts : Parent → Option Msg → (ℕ → Thread) → Type 0
  Counts (ranging k) b ts = (b ≡ none) × (1 ≤ k)
  Counts (going g k) b ts = (tally (reported g) ts n ≡ mail b) × (1 ≤ k)
  Counts (gathering g c) b ts = (tally (reported g) ts n ≡ c + mail b) × (c ≤ n)
  Counts (stopping g k) b ts = (b ≡ none) × (1 ≤ k)
  Counts (joining k) b ts = (b ≡ none) × (1 ≤ k)
  Counts _ b ts = b ≡ none

  -- `before` shows the game after so many generations; or `after` shows it after all.
  abbrev pub Shows : Option ℕ → Matrices → Type 0
  Shows (some g) m =
      (g < gens)
      × Padded lines columns m.before
      × Same lines columns (alive m.before) (generations lines columns g (alive first.before))
  Shows none m =
      Same lines columns (alive m.after) (generations lines columns gens (alive first.before))

  pub Shows-computes :
      (o : Option ℕ) (g : ℕ) (c : Cell) (m : Matrices)
      → o ≡ some g
      → Shows o m
      → (g < gens) × Shows o (computes lines columns n gens c m)
  Shows-computes none g c m e h = absurd cc
  Shows-computes (some k) g c m e h = let same : k ≡ g = cc in (omega (arith, h.0), h)

  pub record Inv (s : Run) : Type 0 where
    pub all : All s.parent s.threads s.boxes s.matrices
    pub counted : Counts s.parent (s.boxes 0) s.threads
    pub only : (s.boxes 0 ≡ none) ⊎ (s.boxes 0 ≡ some gendone)
    pub shown : Shows (round s.parent) s.matrices

  pub begin-Inv :
      0 < gens → Padded lines columns first.before → Inv (begin lines columns n gens first)
  unfolding generations
  begin-Inv more padded = record {
    all = λ i h l.
        subst (λ c. Holds lines columns n gens c i unranged none first) (sym (none_sent i h))
          (refl, refl);
    counted = (refl, omega arith);
    only = inl refl;
    shown = (more, padded, λ i j p q. refl);
  }
    where
      none_sent : (i : ℕ) → 1 ≤ i → phase (ranging 1) i ≡ unsent
      none_sent i h = ground arith

  -- A step changes what holds of one thread.
  pub one_thread :
      (i : ℕ) (p p' : Parent) (ts ts' : ℕ → Thread) (bs bs' : ℕ → Option Msg) (m : Matrices)
      → ((j : ℕ) → i ≢ j → 1 ≤ j → (phase p j ≡ phase p' j) × (ts j ≡ ts' j) × (bs j ≡ bs' j))
      → Holds lines columns n gens (phase p' i) i (ts' i) (bs' i) m
      → All p ts bs m
      → All p' ts' bs' m
  one_thread i p p' ts ts' bs bs' m f h a j l q = elim (ℕ_discrete i j) [
    | yes e ↦ subst (λ x. Holds lines columns n gens (phase p' x) x (ts' x) (bs' x) m) e h
    | no e ↦
        let (x, y, z) = f j e l in
        subst (λ c. Holds lines columns n gens (phase p' j) j (ts' j) c m) z
          (subst (λ c. Holds lines columns n gens (phase p' j) j c (bs j) m) y
            (subst (λ c. Holds lines columns n gens c j (ts j) (bs j) m) x (a j l q)))
  ]

  -- A thread's step that is no report.
  pub Counts-same :
      (p : Parent) (b : Option Msg) (ts : ℕ → Thread) (i : ℕ) (t : Thread)
      → 1 ≤ i
      → i ≤ n
      → ((g : ℕ) → round p ≡ some g → reported g t ≡ reported g (ts i))
      → Counts p b ts
      → Counts p b (update ts i t)
  Counts-same (ranging k) b ts i t h l f c = c
  Counts-same (going g k) b ts i t h l f c =
      (omega (arith, c.0, tally-update (reported g) ts i t n h l, f g refl), c.1)
  Counts-same (gathering g k) b ts i t h l f c =
      (omega (arith, c.0, tally-update (reported g) ts i t n h l, f g refl), c.1)
  Counts-same (stopping g k) b ts i t h l f c = c
  Counts-same (joining k) b ts i t h l f c = c
  Counts-same ended b ts i t h l f c = c
  Counts-same finished b ts i t h l f c = c

  -- A report of thread `i`, in a round of the parent.
  pub Counts-report :
      (p : Parent) (g : ℕ) (b : Option Msg) (ts : ℕ → Thread) (i : ℕ) (t : Thread)
      → 1 ≤ i
      → i ≤ n
      → phase p i ≡ underway g
      → b ≡ none
      → reported g (ts i) ≡ 0
      → reported g t ≡ 1
      → Counts p b ts
      → Counts p (some gendone) (update ts i t)
  Counts-report (ranging k) g b ts i t h l e f x y c = absurd (ground arith)
  Counts-report (going r k) g b ts i t h l e f x y c =
      let same : r ≡ g = ground arith in
      (
        subst (λ q. tally (reported q) (update ts i t) n ≡ 1) (sym same)
            (omega (
              arith,
              tally-update (reported g) ts i t n h l,
              ap (λ q. tally (reported q) ts n) same,
              c.0,
              ap mail f,
            )),
        c.1,
      )
  Counts-report (gathering r k) g b ts i t h l e f x y c =
      let same : r ≡ g = cc in
      (
        subst (λ q. tally (reported q) (update ts i t) n ≡ k + 1) (sym same)
            (omega (
              arith,
              tally-update (reported g) ts i t n h l,
              ap (λ q. tally (reported q) ts n) same,
              c.0,
              ap mail f,
            )),
        c.1,
      )
  Counts-report (stopping r k) g b ts i t h l e f x y c = absurd (ground arith)
  Counts-report (joining k) g b ts i t h l e f x y c = absurd (ground arith)
  Counts-report ended g b ts i t h l e f x y c = absurd cc
  Counts-report finished g b ts i t h l e f x y c = absurd cc
