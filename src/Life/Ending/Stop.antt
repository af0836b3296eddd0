-- ===== src/Life/Ending/Stop.antt =====
-- project3/life.cpp: where the game is found to be over after the last generation, `main` with two
-- and more threads does not end.
use cs3013_operating_systems.Prelude.{
  ℕ, ◌+◌, ◌-◌, ◌≤◌, ◌<◌, ◌≡◌, refl, sym, ap, ◌∙◌, ◌≢◌, true, Option, none, some, update, arith,
  subst, ℕ_discrete,
}
use cs3013_operating_systems.Life.Ending.{
  Kind, alldone, stop, Thread, counted, waiting, sending, exited, Parent, last_gendone, stopping,
  going, counting, joining, ended, Run, begin, Step, count, open_barrier, leave_shut, pass,
  send_alldone, receive_last, send_stop, all_stopped, send_go, all_going, receive, all_done, join,
  finish, Reach, start, later,
}

-- No thread has exited, or one has, and its message is in the parent's mailbox.
pub data Exited (threads : ℕ → Thread) (boxes : ℕ → Option Kind) : Type 0 where
  nobody : ((i : ℕ) → threads i ≢ exited) → Exited threads boxes
  only : (i : ℕ) → boxes 0 ≢ none → ((j : ℕ) → threads j ≡ exited → j ≡ i) → Exited threads boxes

-- What the parent has done: it has joined the threads before that which it joins next, and it does
-- not send GO. While it has to receive GENDONE, that is in its mailbox.
abbrev pub Done : ℕ → Run → Parent → Type 0
Done n s last_gendone = (s.boxes 0 ≢ none) × ((i : ℕ) → s.threads i ≢ exited)
Done n s (stopping k) = 1 ≤ k
Done n s (going k) = ⊥
Done n s (counting c) = ⊥
Done n s (joining k) = (1 ≤ k) × ((j : ℕ) → 1 ≤ j → j < k → s.threads j ≡ exited)
Done n s ended = (j : ℕ) → 1 ≤ j → j ≤ n → s.threads j ≡ exited

pub record Inv (n : ℕ) (s : Run) : Type 0 where
  pub few : Exited s.threads s.boxes
  pub done : Done n s s.parent

update_back :
    (f : ℕ → Thread) (i : ℕ) (p : Thread)
    → p ≢ exited
    → (j : ℕ) → update f i p j ≡ exited
    → f j ≡ exited
update_back f i p h j = ground arith

update_kept :
    (f : ℕ → Thread) (i : ℕ) (p : Thread)
    → f i ≢ exited
    → (j : ℕ) → f j ≡ exited
    → update f i p j ≡ exited
update_kept f i p h j = ground arith

update_more : (f : ℕ → Thread) (i j : ℕ) → f j ≡ exited → update f i exited j ≡ exited
update_more f i j e = ground arith

update_new : (f : ℕ → Thread) (i j : ℕ) → f j ≢ exited → update f i exited j ≡ exited → j ≡ i
update_new f i j h e = ground arith

module _ (n : ℕ) where
  begin-Inv : Inv n (begin n true)
  begin-Inv = record { few = nobody (λ i e. cc); done = ((λ e. cc), λ i e. cc) }

  -- A thread moves on, but does not exit.
  moves-Done :
      (s t : Run)
      → t.boxes ≡ s.boxes
      → ((j : ℕ) → t.threads j ≡ exited → s.threads j ≡ exited)
      → ((j : ℕ) → s.threads j ≡ exited → t.threads j ≡ exited)
      → (p : Parent) → Done n s p
      → Done n t p
  moves-Done s t e back kept last_gendone d =
      ((λ f. d.0 (ap (λ b. b 0) (sym e) ∙ f)), λ i f. d.1 i (back i f))
  moves-Done s t e back kept (stopping k) d = d
  moves-Done s t e back kept (going k) d = d
  moves-Done s t e back kept (counting k) d = d
  moves-Done s t e back kept (joining k) d = (d.0, λ j h l. kept j (d.1 j h l))
  moves-Done s t e back kept ended d = λ j h l. kept j (d j h l)

  moves :
      (s : Run) (i : ℕ) (p : Thread) (b a : ℕ)
      → p ≢ exited
      → s.threads i ≢ exited
      → Inv n s
      → Inv n (record s { threads = update s.threads i p; barrier_count = b; alldone_sem = a })
  moves s i p b a h q v = record {
    few = elim v.few [
      | nobody free ↦ nobody (λ j e. free j (update_back s.threads i p h j e))
      | only k full one ↦ only k full (λ j e. one j (update_back s.threads i p h j e))
    ];
    done =
        moves-Done s
          (record s { threads = update s.threads i p; barrier_count = b; alldone_sem = a }) refl
          (update_back s.threads i p h) (update_kept s.threads i p q) s.parent v.done;
  }

  -- The first thread that sends ALLDONE fills the parent's mailbox.
  exits-Done :
      (s : Run) (i : ℕ)
      → s.boxes 0 ≡ none
      → (p : Parent) → Done n s p
      → Done n
          (record s {
            threads = update s.threads i exited;
            boxes = update s.boxes 0 (some alldone);
          })
          p
  exits-Done s i e last_gendone d = absurd (d.0 e)
  exits-Done s i e (stopping k) d = d
  exits-Done s i e (going k) d = d
  exits-Done s i e (counting k) d = d
  exits-Done s i e (joining k) d = (d.0, λ j h l. update_more s.threads i j (d.1 j h l))
  exits-Done s i e ended d = λ j h l. update_more s.threads i j (d j h l)

  exits :
      (s : Run) (i : ℕ)
      → s.boxes 0 ≡ none
      → Inv n s
      → Inv n (record s {
        threads = update s.threads i exited;
        boxes = update s.boxes 0 (some alldone);
      })
  exits s i e v = record {
    few = elim v.few [
      | nobody free ↦ only i (λ f. cc) (λ j f. update_new s.threads i j (free j) f)
      | only k full one ↦ absurd (full e)
    ];
    done = exits-Done s i e s.parent v.done;
  }

  -- A message to a thread.
  carry :
      (s : Run) (k : ℕ) (m : Option Kind) → 1 ≤ k → Inv n s → Exited s.threads (update s.boxes k m)
  carry s k m h v = elim v.few [
    | nobody free ↦ nobody free
    | only i full one ↦ only i (λ e. full (ground arith)) one
  ]

  at : (s : Run) (p : Parent) → s.parent ≡ p → Inv n s → Done n s p
  at s p e v = subst (Done n s) e v.done

  Step-Inv : (s t : Run) → Inv n s → Step n true s t → Inv n t
  Step-Inv s t v (count i h l e) =
      moves s i counted (s.barrier_count + 1) s.alldone_sem (λ f. cc) (λ f. cc) v
  Step-Inv s t v (open_barrier i e f) =
      moves s i waiting s.barrier_count (s.alldone_sem + (n + 1)) (λ f. cc) (λ f. cc) v
  Step-Inv s t v (leave_shut i e f) =
      moves s i waiting s.barrier_count s.alldone_sem (λ f. cc) (λ f. cc) v
  Step-Inv s t v (pass i e h) =
      moves s i sending s.barrier_count (s.alldone_sem - 1) (λ f. cc) (λ f. cc) v
  Step-Inv s t v (send_alldone i e f) = exits s i f v
  Step-Inv s t v (receive_last e f) = record {
    few = nobody (at s last_gendone e v).1;
    done = omega arith;
  }
  Step-Inv s t v (send_stop k e l f) =
      let one = at s (stopping k) e v in
      record { few = carry s k (some stop) one v; done = omega arith }
  Step-Inv s t v (all_stopped k e l) = record {
    few = v.few;
    done = (omega arith, λ j h q. absurd (omega arith));
  }
  Step-Inv s t v (send_go k e l f) = absurd (at s (going k) e v)
  Step-Inv s t v (all_going k e l) = absurd (at s (going k) e v)
  Step-Inv s t v (receive c e l f) = absurd (at s (counting c) e v)
  Step-Inv s t v (all_done c e l) = absurd (at s (counting c) e v)
  Step-Inv s t v (join k e l f) =
      let d = at s (joining k) e v in
      record {
        few = v.few;
        done = (
          omega (arith, d.0),
          λ j h q. elim (ℕ_discrete j k) [
            | yes g ↦ subst (λ x. s.threads x ≡ exited) (sym g) f
            | no g ↦ d.1 j h (omega arith)
          ],
        );
      }
  Step-Inv s t v (finish k e l) =
      let d = at s (joining k) e v in record { few = v.few; done = λ j h q. d.1 j h (omega arith) }

  Reach-Inv : (s : Run) → Reach n true s → Inv n s
  Reach-Inv s start = begin-Inv
  Reach-Inv t (later {s} r p) = Step-Inv s t (Reach-Inv s r) p

-- With two threads and more, of which all are told to stop after their last generation, no run comes
-- to the end of main: the parent joins threads of which all but one wait for room in its mailbox.
pub stop_at_last-never_ends : (n : ℕ) (s : Run) → 2 ≤ n → Reach n true s → s.parent ≢ ended
stop_at_last-never_ends n s h r e =
    let v = Reach-Inv n s r in
    let d = at n s ended e v in
    elim v.few [
      | nobody free ↦ free 1 (d 1 (omega arith) (omega arith))
      | only i full one ↦
          omega (
            arith,
            one 1 (d 1 (omega arith) (omega arith)),
            one 2 (d 2 (omega arith) (omega arith)),
          )
    ]
