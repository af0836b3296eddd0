-- ===== src/Life/Rounds/Holds.antt =====
-- project3/life.cpp: what can be the case of one thread, its mailbox and its cells, by what the
-- parent has done.
use cs3013_operating_systems.Prelude.{
  ℕ, ◌+◌, ◌-◌, ◌≤◌, ◌<◌, ◌≡◌, ◌∙◌, ◌⊎◌, List, [], ◌∷◌, Option, none, some, ltb, if◌then◌else◌,
  arith,
}
use cs3013_operating_systems.Prelude.Totals.{total}
use cs3013_operating_systems.Life.{address, Matrices, next_cell, compute_cell}
use cs3013_operating_systems.Life.Cells.{
  Cell, thread_cells, hits, wide, compute_cell-at, wide-column,
}
use cs3013_operating_systems.Life.Ranges.{lines_cells-wide}
use cs3013_operating_systems.Life.Rounds.Shares.{mine}
use cs3013_operating_systems.Life.Rounds.{
  Msg, range, go, stop, Thread, unranged, awaiting, computing, over, exited, Parent, ranging, going,
  gathering, stopping, joining, ended, finished, range_for,
}

pub data Phase : Type 0 where
  unsent : Phase
  ready : ℕ → Phase
  underway : ℕ → Phase
  idle : Phase
  stopped : Phase
  left : Phase
  through : Phase

abbrev pub phase : Parent → ℕ → Phase
phase (ranging k) i = if ltb i k then ready 0 else unsent
phase (going g k) i = if ltb i k then underway g else ready g
phase (gathering g c) i = underway g
phase (stopping g k) i = if ltb i k then stopped else idle
phase (joining k) i = if ltb i k then left else stopped
phase ended i = left
phase finished i = through

module _ (lines columns n gens : ℕ) where
  -- Thread `i` has still to compute `cs`, and has computed its other cells.
  pub record Part (i : ℕ) (cs : List Cell) (m : Matrices) : Type 0 where
    pub computed :
        (x y : ℕ)
        → x < lines
        → y < columns
        → 0 < mine lines columns n i x y
        → total (hits x y) cs ≡ 0
        → m.after (address x y) ≡ next_cell lines columns m.before x y
    pub own : (x y : ℕ) → total (hits x y) cs ≤ mine lines columns n i x y
    pub narrow : total wide cs ≡ 0

  pub data Underway (g i : ℕ) (t : Thread) (b : Option Msg) (m : Matrices) : Type 0 where
    told : t ≡ awaiting (range_for lines n i) g → b ≡ some go → Underway g i t b m
    busy :
        (cs : List Cell)
        → t ≡ computing (range_for lines n i) g cs
        → b ≡ none
        → Part i cs m
        → Underway g i t b m
    again :
        t ≡ awaiting (range_for lines n i) (g + 1)
        → b ≡ none
        → g + 1 < gens
        → Part i [] m
        → Underway g i t b m
    out : t ≡ over → b ≡ none → g + 1 ≡ gens → Part i [] m → Underway g i t b m

  abbrev pub Holds : Phase → ℕ → Thread → Option Msg → Matrices → Type 0
  Holds unsent i t b m = (t ≡ unranged) × (b ≡ none)
  Holds (ready g) i t b m =
      ((g ≡ 0) × (t ≡ unranged) × (b ≡ some (range (range_for lines n i))))
      ⊎ ((t ≡ awaiting (range_for lines n i) g) × (b ≡ none))
  Holds (underway g) i t b m = Underway g i t b m
  Holds idle i t b m = (g : ℕ) × (t ≡ awaiting (range_for lines n i) g) × (b ≡ none)
  Holds stopped i t b m =
      ((g : ℕ) × (t ≡ awaiting (range_for lines n i) g) × (b ≡ some stop))
      ⊎ ((t ≡ exited) × (b ≡ none))
  Holds left i t b m = (t ≡ exited) × (b ≡ none)
  Holds through i t b m = (t ≡ over) × (b ≡ none)

  -- Another cell is computed.
  abbrev pub computes : Cell → Matrices → Matrices
  computes c m = record m { after = compute_cell lines columns m.before c.line c.column m.after }

  Part-computes :
      (i : ℕ) (cs : List Cell) (m : Matrices) (c : Cell)
      → columns ≤ 40
      → c.column < 40
      → Part i cs m
      → Part i cs (computes c m)
  Part-computes i cs m c w h p = record {
    computed = λ x y a b q e.
        compute_cell-at lines columns m.before c.line c.column m.after x y h (omega arith)
        ∙ ground (arith, p.computed x y a b q e);
    own = p.own;
    narrow = p.narrow;
  }

  pub Holds-computes :
      (ph : Phase) (i : ℕ) (t : Thread) (b : Option Msg) (m : Matrices) (c : Cell)
      → columns ≤ 40
      → c.column < 40
      → Holds ph i t b m
      → Holds ph i t b (computes c m)
  Holds-computes unsent i t b m c w h v = v
  Holds-computes (ready g) i t b m c w h v = v
  Holds-computes (underway g) i t b m c w h (told e f) = told e f
  Holds-computes (underway g) i t b m c w h (busy cs e f p) =
      busy cs e f (Part-computes i cs m c w h p)
  Holds-computes (underway g) i t b m c w h (again e f l p) =
      again e f l (Part-computes i [] m c w h p)
  Holds-computes (underway g) i t b m c w h (out e f l p) = out e f l (Part-computes i [] m c w h p)
  Holds-computes idle i t b m c w h v = v
  Holds-computes stopped i t b m c w h v = v
  Holds-computes left i t b m c w h v = v
  Holds-computes through i t b m c w h v = v

  -- The next cell of the thread itself.
  pub Part-next :
      (i : ℕ) (c : Cell) (cs : List Cell) (m : Matrices)
      → columns ≤ 40
      → Part i (c ∷ cs) m
      → (c.column < 40) × Part i cs (computes c m)
  unfolding total
  Part-next i c cs m w p =
      let h = wide-column lines columns m.before c (omega (arith, p.narrow)) in
      (
        h,
        record {
          computed = λ x y a b q e.
              compute_cell-at lines columns m.before c.line c.column m.after x y h (omega arith)
              ∙ ground (arith, p.computed x y a b q);
          own = λ x y. omega (arith, p.own x y);
          narrow = omega (arith, p.narrow);
        },
      )

  pub Part-all :
      (i : ℕ) (m : Matrices) → columns ≤ 40 → Part i (thread_cells columns (range_for lines n i)) m
  Part-all i m w = record {
    computed = λ x y a b q e. absurd (omega arith);
    own = λ x y. omega arith;
    narrow =
        let r = range_for lines n i in
        lines_cells-wide columns (r.value2 + 1 - r.value1) r.value1 w;
  }
