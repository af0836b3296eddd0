-- ===== src/Shell/Jobs/Sweep.antt =====
-- project1/doit_processes.cpp: the check with its indices and erasures takes each job once, from the
-- last to the first.
use mathlib.Core.List.{reverse-reverse}
use cs3013_operating_systems.Prelude.{
  ℕ, zero, suc, ◌+◌, ◌≡◌, refl, sym, ap, ◌∙◌, Bool, true, false, List, [], ◌∷◌, ◌++◌, append_assoc,
  append-nil, append-cons, some, length, length-reverse, get_elem?, get_elem?-append, if◌then◌else◌,
  update, arith, Bool-cases, inl, inr, subst, reverse, reverse-cons,
}
use cs3013_operating_systems.Shell.Jobs.{
  Process, Children, waits, erase, Swept, check_loop, check_finished_processes,
}

-- One job, asked after those in `r`.
abbrev pub put : (ℕ → Bool) → ℕ → Process → Swept → Swept
put ended number p r =
    if waits r.children ended p.pid
    then record {
      kept = r.kept;
      children = update r.children p.pid false;
      lines = r.lines ++ (record { number = number; process = p } ∷ []);
    }
    else record r { kept = p ∷ r.kept }

-- What is left of a job list, with the numbers from `number` on: the later jobs are asked first.
unfoldable pub sweep : (ℕ → Bool) → Children → ℕ → List Process → Swept
sweep ended children number [] = record { kept = []; children = children; lines = [] }
sweep ended children number (p ∷ ps) = put ended number p (sweep ended children (number + 1) ps)

erase-append :
    (xs : List Process) (p : Process) (ys : List Process)
    → erase (xs ++ (p ∷ ys)) (length xs) ≡ xs ++ ys
unfolding erase
erase-append [] p ys = refl
erase-append (x ∷ xs) p ys = ap (λ zs. x ∷ zs) (erase-append xs p ys)

module _ (ended : ℕ → Bool) where
  check_loop-some :
      (i : ℕ) (s : Swept) (p : Process)
      → get_elem? s.kept i ≡ some p
      → waits s.children ended p.pid ≡ true
      → check_loop ended (suc i) s
        ≡ check_loop ended i (record {
          kept = erase s.kept i;
          children = update s.children p.pid false;
          lines = s.lines ++ (record { number = i + 1; process = p } ∷ []);
        })
  unfolding check_loop
  check_loop-some i s p e w = rw (e, check_loop) (rw (w, check_loop) refl)

  check_loop-none :
      (i : ℕ) (s : Swept) (p : Process)
      → get_elem? s.kept i ≡ some p
      → waits s.children ended p.pid ≡ false
      → check_loop ended (suc i) s ≡ check_loop ended i s
  unfolding check_loop
  check_loop-none i s p e w = rw (e, check_loop) (rw (w, check_loop) refl)

-- A part of the list that is asked after another that stands behind it.
abbrev pub after : Swept → Swept → Swept
after a b = record { kept = b.kept ++ a.kept; children = b.children; lines = a.lines ++ b.lines }

abbrev nothing : Children → Swept
nothing children = record { kept = []; children = children; lines = [] }

after-nil : (a : Swept) → after a (record { kept = []; children = a.children; lines = [] }) ≡ a
after-nil a = ground (arith, append-nil a.lines)

module _ (ended : ℕ → Bool) where
  put-after :
      (a r : Swept) (number : ℕ) (x : Process)
      → put ended number x (after a r) ≡ after a (put ended number x r)
  put-after a r number x =
      ground (arith, append_assoc a.lines r.lines (record { number = number; process = x } ∷ []))

  sweep-snoc :
      (children : Children) (number m : ℕ) (front : List Process) (p : Process)
      → m ≡ number + length front
      → let a = put ended m p (nothing children) in
        sweep ended children number (front ++ (p ∷ []))
        ≡ after a (sweep ended a.children number front)
  unfolding sweep
  sweep-snoc children number m [] p e =
      let n : number ≡ m = omega arith in rw n (sym (after-nil (put ended m p (nothing children))))
  sweep-snoc children number m (x ∷ front) p e =
      let a = put ended m p (nothing children) in
      let r = sweep ended a.children (number + 1) front in
      rw (sweep-snoc children (number + 1) m front p (omega arith)) (put-after a r number x)

  check_loop-done : (s : Swept) → check_loop ended 0 s ≡ some s
  unfolding check_loop
  check_loop-done s = refl

  sweep-nil : (children : Children) → sweep ended children 1 [] ≡ nothing children
  unfolding sweep
  sweep-nil children = refl

  after-nothing : (s : Swept) → after s (sweep ended s.children 1 []) ≡ s
  after-nothing s = rw (sweep-nil s.children) (after-nil s)

  -- The job at the end of the front is asked.
  check_loop-last :
      (front : List Process) (p : Process) (i : ℕ) (s : Swept)
      → i ≡ length front
      → let a = put ended (i + 1) p (nothing s.children) in
        check_loop ended (suc i) (record s { kept = front ++ (p ∷ s.kept) })
        ≡ check_loop ended i (record {
          kept = front ++ (a.kept ++ s.kept);
          children = a.children;
          lines = s.lines ++ a.lines;
        })
  check_loop-last front p i s e = elim (Bool-cases (waits s.children ended p.pid)) [
    | inl w ↦
        check_loop-some ended i (record s { kept = front ++ (p ∷ s.kept) }) p
          (get_elem?-append front p s.kept i e) w
        ∙ ground (arith, w, e, erase-append front p s.kept)
    | inr w ↦
        check_loop-none ended i (record s { kept = front ++ (p ∷ s.kept) }) p
          (get_elem?-append front p s.kept i e) w
        ∙ ground (arith, w, append-nil s.lines)
  ]

  after_assoc : (a b c : Swept) → after (after a b) c ≡ after a (after b c)
  after_assoc a b c =
      ground (arith, append_assoc c.kept b.kept a.kept, append_assoc a.lines b.lines c.lines)

  check_loop-sweep :
      (zs : List Process) (i : ℕ) (s : Swept)
      → i ≡ length zs
      → check_loop ended i
          (record { kept = reverse zs ++ s.kept; children = s.children; lines = s.lines })
        ≡ some (after s (sweep ended s.children 1 (reverse zs)))
  check_loop-sweep [] zero s e = check_loop-done s ∙ ap some (sym (after-nothing s))
  check_loop-sweep [] (suc i) s e = absurd (omega arith)
  check_loop-sweep (p ∷ zs) zero s e = absurd (omega arith)
  check_loop-sweep (p ∷ zs) (suc i) s e =
      let front = reverse zs in
      let a = put ended (i + 1) p (nothing s.children) in
      let n : i ≡ length front = omega (arith, length-reverse zs) in
      rw (reverse-cons) (
        rw (sweep-snoc s.children 1 (i + 1) front p (omega arith), ← append-cons front p s.kept)
          (check_loop-last front p i s n
            ∙ check_loop-sweep zs i (after s a) (omega arith)
            ∙ ap some (after_assoc s a (sweep ended a.children 1 front))))

after-start : (children : Children) (r : Swept) → after (nothing children) r ≡ r
after-start children r = ground (arith, append-nil r.kept)

-- `checkFinishedProcesses` never takes an index out of range; it asks each job once, the last one
-- first, drops the jobs whose processes have ended and were not waited for before, keeps the others
-- in their order, and reports the dropped ones under the numbers that they had in the list.
pub check_finished_processes-sweep :
    (ended : ℕ → Bool) (children : Children) (processes : List Process)
    → check_finished_processes ended children processes ≡ some (sweep ended children 1 processes)
unfolding check_finished_processes
check_finished_processes-sweep ended children processes =
    let e : reverse (reverse processes) ++ [] ≡ processes =
      append-nil (reverse (reverse processes)) ∙ reverse-reverse processes in
    let loop =
      check_loop-sweep ended (reverse processes) (length processes) (nothing children)
        (sym (length-reverse processes)) in
    subst
      (λ ps.
        check_loop ended (length processes) (record { kept = ps; children = children; lines = [] })
        ≡ some (sweep ended children 1 processes))
      e
      (loop
        ∙ ap some (
            rw (reverse-reverse processes)
              (after-start children (sweep ended children 1 processes))))
