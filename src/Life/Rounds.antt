-- ===== src/Life/Rounds.antt =====
-- project3/life.cpp: parent and threads from the ranges to the last generation, in any order of
-- their steps; how they end after the last generation is `Life.Ending`. Sending and receiving a
-- message are single steps here, on mailboxes of one message: `Mailbox` has their parts. A thread
-- computes a cell in one step, and the parent copies the matrix in one. The matrices do not overlap,
-- as those of the program do not for fewer than 40 lines.
pub mod Shares
pub mod Holds
pub mod Invariant
pub mod Threads
pub mod Grid
pub mod Parents
pub mod Decides
pub mod Steps
pub mod Bound
pub mod Played
mod Tests
use cs3013_operating_systems.Prelude.{
  ℕ, ◌+◌, ◌-◌, ◌≤◌, ◌<◌, ◌≡◌, Bool, true, false, List, [], ◌∷◌, Option, none, some, ◌==◌,
  if◌then◌else◌, update, get_or,
}
use package.cs3013_operating_systems.Life.{
  Matrices, LineRange, all_ranges, compute_cell, update_matrix,
}
use package.cs3013_operating_systems.Life.Cells.{Cell, thread_cells}
use package.cs3013_operating_systems.Life.Game.{stops}

pub data Msg : Type 0 where
  range : LineRange → Msg
  go : Msg
  gendone : Msg
  stop : Msg

-- A thread; the number is that of the generations that it has behind it.
pub data Thread : Type 0 where
  unranged : Thread  -- before it receives RANGE
  awaiting : LineRange → ℕ → Thread  -- before it receives GO or STOP
  computing : LineRange → ℕ → List Cell → Thread  -- has these cells to compute
  over : Thread  -- behind its loop
  exited : Thread

-- The parent; `c_gen` is the number of the generations before this round of its loop.
pub data Parent : Type 0 where
  ranging : ℕ → Parent  -- sends RANGE to this thread next
  going : (c_gen : ℕ) → ℕ → Parent  -- sends GO to this thread next
  gathering : (c_gen : ℕ) → ℕ → Parent  -- genDoneCounter
  stopping : (c_gen : ℕ) → ℕ → Parent  -- sends STOP to this thread next
  joining : ℕ → Parent  -- joins this thread next
  ended : Parent
  finished : Parent  -- has the last generation

-- The mailboxes hold a message or none; the parent's is 0.
pub record Run : Type 0 where
  pub parent : Parent
  pub threads : ℕ → Thread
  pub boxes : ℕ → Option Msg
  pub matrices : Matrices

-- The lines of thread `i`.
abbrev pub range_for : ℕ → ℕ → ℕ → LineRange
range_for lines n i = get_or (all_ranges lines n) (i - 1) (record { value1 = 0; value2 = 0 })

-- `gens` is numberOfGenerations.
module _ (lines columns n gens : ℕ) (m : Matrices) where
  abbrev pub begin : Run
  begin = record { parent = ranging 1; threads = λ i. unranged; boxes = λ i. none; matrices = m }

  pub data Step (s : Run) : Run → Type 0 where
    -- The parent.
    send_range :
        (k : ℕ)
        → s.parent ≡ ranging k
        → k ≤ n
        → s.boxes k ≡ none
        → Step s (record s {
          parent = ranging (k + 1);
          boxes = update s.boxes k (some (range (range_for lines n k)));
        })
    all_ranged : (k : ℕ) → s.parent ≡ ranging k → n < k → Step s (record s { parent = going 0 1 })
    send_go :
        (g k : ℕ)
        → s.parent ≡ going g k
        → k ≤ n
        → s.boxes k ≡ none
        → Step s (record s { parent = going g (k + 1); boxes = update s.boxes k (some go) })
    all_going :
        (g k : ℕ) → s.parent ≡ going g k → n < k → Step s (record s { parent = gathering g 0 })
    gather :
        (g c : ℕ)
        → s.parent ≡ gathering g c
        → c < n
        → s.boxes 0 ≡ some gendone
        → Step s (record s { parent = gathering g (c + 1); boxes = update s.boxes 0 none })
    -- isAllZero() || hasNotChanged()
    halt :
        (g c : ℕ)
        → s.parent ≡ gathering g c
        → c ≡ n
        → g + 1 < gens
        → stops lines columns s.matrices ≡ true
        → Step s (record s { parent = stopping g 1 })
    next :
        (g c : ℕ)
        → s.parent ≡ gathering g c
        → c ≡ n
        → g + 1 < gens
        → stops lines columns s.matrices ≡ false
        → Step s (record s {
          parent = going (g + 1) 1;
          matrices = update_matrix lines columns s.matrices;
        })
    last :
        (g c : ℕ)
        → s.parent ≡ gathering g c
        → c ≡ n
        → g + 1 ≡ gens
        → Step s (record s { parent = finished })
    send_stop :
        (g k : ℕ)
        → s.parent ≡ stopping g k
        → k ≤ n
        → s.boxes k ≡ none
        → Step s (record s { parent = stopping g (k + 1); boxes = update s.boxes k (some stop) })
    all_stopped :
        (g k : ℕ) → s.parent ≡ stopping g k → n < k → Step s (record s { parent = joining 1 })
    join :
        (k : ℕ)
        → s.parent ≡ joining k
        → k ≤ n
        → s.threads k ≡ exited
        → Step s (record s { parent = joining (k + 1) })
    finish : (k : ℕ) → s.parent ≡ joining k → n < k → Step s (record s { parent = ended })
    -- A thread.
    recv_range :
        (i : ℕ) (r : LineRange)
        → 1 ≤ i
        → i ≤ n
        → s.threads i ≡ unranged
        → s.boxes i ≡ some (range r)
        → Step s (record s {
          threads = update s.threads i (awaiting r 0);
          boxes = update s.boxes i none;
        })
    recv_go :
        (i g : ℕ) (r : LineRange)
        → 1 ≤ i
        → i ≤ n
        → s.threads i ≡ awaiting r g
        → s.boxes i ≡ some go
        → Step s (record s {
          threads = update s.threads i (computing r g (thread_cells columns r));
          boxes = update s.boxes i none;
        })
    compute :
        (i g : ℕ) (r : LineRange) (c : Cell) (cs : List Cell)
        → 1 ≤ i
        → i ≤ n
        → s.threads i ≡ computing r g (c ∷ cs)
        → Step s (record s {
          threads = update s.threads i (computing r g cs);
          matrices = record s.matrices {
            after = compute_cell lines columns s.matrices.before c.line c.column s.matrices.after;
          };
        })
    report :
        (i g : ℕ) (r : LineRange)
        → 1 ≤ i
        → i ≤ n
        → s.threads i ≡ computing r g []
        → s.boxes 0 ≡ none
        → Step s (record s {
          threads = update s.threads i (if g + 1 == gens then over else awaiting r (g + 1));
          boxes = update s.boxes 0 (some gendone);
        })
    recv_stop :
        (i g : ℕ) (r : LineRange)
        → 1 ≤ i
        → i ≤ n
        → s.threads i ≡ awaiting r g
        → s.boxes i ≡ some stop
        → Step s (record s { threads = update s.threads i exited; boxes = update s.boxes i none })

  pub data Reach : Run → Type 0 where
    start : Reach begin
    later : {s t : Run} → Reach s → Step s t → Reach t
