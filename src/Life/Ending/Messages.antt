-- ===== src/Life/Ending/Messages.antt =====
-- project3/life.cpp: the messages and the barrier stay in balance at every step of the end of a game
-- that goes on.
use cs3013_operating_systems.Prelude.{
  ℕ, ◌+◌, ◌-◌, ◌≤◌, ◌≡◌, refl, sym, ap, ◌∙◌, false, Option, none, some, update, arith, inr, subst,
}
use cs3013_operating_systems.Life.Ending.{
  Kind, alldone, go, arriving, counted, waiting, sending, exited, Parent, last_gendone, stopping,
  going, counting, joining, ended, Run, Step, count, open_barrier, leave_shut, pass, send_alldone,
  receive_last, send_stop, all_stopped, send_go, all_going, receive, all_done, join, finish, Reach,
  start, later,
}
use cs3013_operating_systems.Prelude.Tally.{tally, tally-update, tally_le}
use cs3013_operating_systems.Life.Ending.Balance.{
  here, gone, mail, Balance, Inv, gone_le, begin-Inv, update_inside, moves, somewhere, count-Opens,
  leave_shut-Opens, pass-Opens, exits-Opens,
}

module _ (n : ℕ) where
  exits-Balance :
      (boxes : ℕ → Option Kind) (g g' : ℕ) (p : Parent)
      → boxes 0 ≡ none
      → g' ≡ g + 1
      → g' ≤ n
      → Balance n boxes g p
      → Balance n (update boxes 0 (some alldone)) g' p
  exits-Balance boxes g g' last_gendone e f l b = absurd cc
  exits-Balance boxes g g' (stopping k) e f l b = b
  exits-Balance boxes g g' (going k) e f l b =
      (omega (arith, b.0, ap mail e), b.1, (λ j h. ground (arith, b.2 j)), λ m h. cc)
  exits-Balance boxes g g' (counting c) e f l b =
      (omega (arith, b.0, ap mail e), omega (arith, b.0, ap mail e), λ m h. cc)
  exits-Balance boxes g g' (joining k) e f l b = absurd (omega (arith, b.0))
  exits-Balance boxes g g' ended e f l b = absurd (omega arith)

  same_for_parent :
      (boxes : ℕ → Option Kind) (k : ℕ) (m : Option Kind) → 1 ≤ k → update boxes k m 0 ≡ boxes 0
  same_for_parent boxes k m h = ground arith

  parent_moves :
      (s : Run)
      → Inv n s
      → (p : Parent) (boxes : ℕ → Option Kind) → Balance n boxes (tally gone s.threads n) p
      → Inv n (record s { parent = p; boxes = boxes })
  parent_moves s v p boxes b = record {
    inside = v.inside;
    counter = v.counter;
    opens = v.opens;
    balance = b;
  }

  pub at :
      (s : Run) (p : Parent) → s.parent ≡ p → Inv n s → Balance n s.boxes (tally gone s.threads n) p
  at s p e v = subst (Balance n s.boxes (tally gone s.threads n)) e v.balance

  Step-Inv : (s t : Run) → Inv n s → Step n false s t → Inv n t
  Step-Inv s t v (count i h l e) =
      moves n s v i arriving counted (s.barrier_count + 1) s.alldone_sem h l e refl (omega arith)
        (count-Opens n s v i h l e)
  Step-Inv s t v (open_barrier i e f) =
      let (h, l) = somewhere n s v i counted e (λ g. cc) in
      moves n s v i counted waiting s.barrier_count (s.alldone_sem + (n + 1)) h l e refl refl
        (inr (omega arith))
  Step-Inv s t v (leave_shut i e f) =
      let (h, l) = somewhere n s v i counted e (λ g. cc) in
      moves n s v i counted waiting s.barrier_count s.alldone_sem h l e refl refl
        (leave_shut-Opens n s v i h l e f)
  Step-Inv s t v (pass i e p) =
      let (h, l) = somewhere n s v i waiting e (λ g. cc) in
      moves n s v i waiting sending s.barrier_count (s.alldone_sem - 1) h l e refl refl
        (pass-Opens n s v i h l e p)
  Step-Inv s t v (send_alldone i e f) =
      let (h, l) = somewhere n s v i sending e (λ g. cc) in
      record {
        inside = update_inside n s v i exited h l;
        counter = omega (arith, tally-update here s.threads i exited n h l, ap here e, v.counter);
        opens = exits-Opens n s v i h l e;
        balance =
            exits-Balance s.boxes (tally gone s.threads n)
              (tally gone (update s.threads i exited) n) s.parent f
              (omega (arith, tally-update gone s.threads i exited n h l, ap gone e))
              (tally_le gone (update s.threads i exited) n gone_le) v.balance;
      }
  Step-Inv s t v (receive_last e f) =
      let b = at s last_gendone e v in
      parent_moves s v (going 1) (update s.boxes 0 none)
        (b.1, omega arith, (λ j h. ground (arith, b.2 j)), λ m h. absurd cc)
  Step-Inv s t v (send_stop k e l f) = absurd (at s (stopping k) e v)
  Step-Inv s t v (all_stopped k e l) = absurd (at s (stopping k) e v)
  Step-Inv s t v (send_go k e l f) =
      let b = at s (going k) e v in
      parent_moves s v (going (k + 1)) (update s.boxes k (some go)) (
        (
          b.0 ∙ sym (ap mail (same_for_parent s.boxes k (some go) b.1)),
          omega (arith, b.1),
          (λ j h. ground (arith, b.1, b.2 j)),
          λ m h. b.3 m (sym (same_for_parent s.boxes k (some go) b.1) ∙ h),
        ))
  Step-Inv s t v (all_going k e l) =
      let b = at s (going k) e v in
      parent_moves s v (counting 0) s.boxes (omega (arith, b.0), omega arith, b.3)
  Step-Inv s t v (receive c e l f) =
      let b = at s (counting c) e v in
      parent_moves s v (counting (c + 1)) (update s.boxes 0 none)
        (omega (arith, b.0, ap mail f), omega arith, λ m h. absurd cc)
  Step-Inv s t v (all_done c e l) =
      let b = at s (counting c) e v in
      parent_moves s v (joining 1) s.boxes
        ((omega (arith, b.0, tally_le gone s.threads n gone_le), omega arith))
  Step-Inv s t v (join k e l f) =
      let b = at s (joining k) e v in
      parent_moves s v (joining (k + 1)) s.boxes ((b.0, omega arith))
  Step-Inv s t v (finish k e l) =
      let b = at s (joining k) e v in parent_moves s v ended s.boxes (b.0)

  pub Reach-Inv : (s : Run) → 1 ≤ n → Reach n false s → Inv n s
  Reach-Inv s h start = begin-Inv n h
  Reach-Inv t h (later {s} r p) = Step-Inv s t (Reach-Inv s h r) p
