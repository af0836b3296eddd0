-- ===== src/Shell/Loop/Exit.antt =====
-- project1/doit_processes.cpp: `exit` waits for the jobs. It ends where each job is still a child,
-- and never where a job was waited for by another call.
use native.Mathlib.Nat.{add-zero}
use cs3013_operating_systems.Prelude.{
  ℕ, zero, suc, ◌+◌, ◌≡◌, refl, sym, ap, ◌∙◌, ◌⊎◌, inl, inr, Bool, true, false, List, [], ◌∷◌, ◌++◌,
  none, some, update, arith, Option-cases, subst,
}
use cs3013_operating_systems.Shell.Jobs.{Process, Children, Line}
use cs3013_operating_systems.Shell.Jobs.Sweep.{sweep, check_finished_processes-sweep}
use cs3013_operating_systems.Shell.Loop.{
  Shell, System, Turn, next, fails, Report, fork_error, parent_of, run_program, exit_loop,
}
use cs3013_operating_systems.Shell.Jobs.Waiting.{
  Waiting, AllEnded, Lost, Waiting-sweep, AllEnded-sweep, kept-ended, Lost-sweep,
}

module _ (ended : ℕ → ℕ → Bool) where
  exit_loop-empty :
      (fuel round : ℕ) (children : Children) → exit_loop ended fuel round children [] ≡ some []
  unfolding exit_loop
  exit_loop-empty zero round children = refl
  exit_loop-empty (suc fuel) round children = refl

  exit_loop-zero :
      (round : ℕ) (children : Children) (p : Process) (ps : List Process)
      → exit_loop ended 0 round children (p ∷ ps) ≡ none
  unfolding exit_loop
  exit_loop-zero round children p ps = refl

  -- One round of the waiting.
  exit_loop-suc :
      (fuel round : ℕ) (children : Children) (p : Process) (ps : List Process)
      → let r = sweep (ended round) children 1 (p ∷ ps) in
        exit_loop ended (suc fuel) round children (p ∷ ps)
        ≡ elim (exit_loop ended fuel (round + 1) r.children r.kept) [
          | none ↦ none
          | some lines ↦ some (r.lines ++ lines)
        ]
  unfolding exit_loop
  exit_loop-suc fuel round children p ps =
      rw (check_finished_processes-sweep (ended round) children (p ∷ ps), exit_loop) refl

  -- Where every job is a child of its own that nobody has waited for, and all of them have ended by
  -- some round, `exit` comes to its end after that round at the latest.
  pub exit_loop-ends :
      (n round : ℕ) (children : Children) (ps : List Process)
      → Waiting children ps
      → AllEnded (ended (round + n)) ps
      → (lines : List Line) × (exit_loop ended (suc n) round children ps ≡ some lines)
  exit_loop-ends n round children [] w a = ([], exit_loop-empty (suc n) round children)
  exit_loop-ends zero round children (p ∷ ps) w a =
      let r = sweep (ended round) children 1 (p ∷ ps) in
      let k =
        kept-ended (ended round) 1 children (p ∷ ps) w
          (subst (λ m. AllEnded (ended m) (p ∷ ps)) (add-zero round) a) in
      (
        r.lines ++ [],
        exit_loop-suc 0 round children p ps ∙ rw (k, exit_loop-empty 0 (round + 1) r.children) refl,
      )
  exit_loop-ends (suc n) round children (p ∷ ps) w a =
      let r = sweep (ended round) children 1 (p ∷ ps) in
      let (lines, e) =
        exit_loop-ends n (round + 1) r.children r.kept
          (Waiting-sweep (ended round) 1 children (p ∷ ps) w)
          (subst (λ m. AllEnded (ended m) r.kept)
            (let e : round + suc n ≡ round + 1 + n = omega arith in e)
            (AllEnded-sweep (ended round) (ended (round + suc n)) 1 children (p ∷ ps) a)) in
      (r.lines ++ lines, exit_loop-suc (suc n) round children p ps ∙ rw e refl)

  -- Where a job is no child any more, `exit` does not end, however many rounds it makes and
  -- whatever processes end.
  pub exit_loop-Lost :
      (fuel round : ℕ) (children : Children) (ps : List Process)
      → Lost children ps
      → exit_loop ended fuel round children ps ≡ none
  exit_loop-Lost fuel round children [] l = absurd l
  exit_loop-Lost zero round children (p ∷ ps) l = exit_loop-zero round children p ps
  exit_loop-Lost (suc fuel) round children (p ∷ ps) l =
      let r = sweep (ended round) children 1 (p ∷ ps) in
      exit_loop-suc fuel round children p ps
      ∙ rw
          (exit_loop-Lost fuel (round + 1) r.children r.kept
            (Lost-sweep (ended round) 1 children (p ∷ ps) l))
          refl

-- A job with this pid is in the list.
abbrev pub HasJob : ℕ → List Process → Type 0
HasJob n [] = ⊥
HasJob n (p ∷ ps) = (p.pid ≡ n) ⊎ HasJob n ps

HasJob-Lost :
    (n : ℕ) (children : Children) (ps : List Process)
    → HasJob n ps
    → Lost (update children n false) ps
HasJob-Lost n children [] h = h
HasJob-Lost n children (p ∷ ps) h = elim h [
  | inl e ↦ inl (ground arith)
  | inr m ↦ inr (HasJob-Lost n children ps m)
]

next-injective : {a b : Shell} {r t : Report} → ◌≡◌ {A = Turn} (next a r) (next b t) → a ≡ b
next-injective e = cc

module _ (sys : System) (sh : Shell) (background : Bool) (line : List ℕ) where
  pub run_program-none : sys.fork ≡ none → run_program sys sh background line ≡ fails fork_error
  unfolding run_program
  run_program-none e = rw (e, run_program) refl

  pub run_program-some :
      (pid : ℕ)
      → sys.fork ≡ some pid
      → run_program sys sh background line
        ≡ parent_of sys sh background line pid
            (some (sweep sys.ended (update sh.children pid true) 1 sh.processes))
  unfolding run_program
  run_program-some pid e =
      rw (e, run_program)
        (ap (parent_of sys sh background line pid)
          (check_finished_processes-sweep sys.ended (update sh.children pid true) sh.processes))

run_program-foreground :
    (sys : System) (sh after : Shell) (line : List ℕ) (report : Report)
    → run_program sys sh false line ≡ next after report
    → (children : Children) × (after.children ≡ update children sys.wait false)
run_program-foreground sys sh after line report e = elim (Option-cases (sys.fork)) [
  | inl n ↦
      let q : fails fork_error ≡ next after report =
        sym (run_program-none sys sh false line n) ∙ e in
      absurd (ground arith)
  | inr (pid, f) ↦
      let r = sweep sys.ended (update sh.children pid true) 1 sh.processes in
      let q = next-injective (sym e ∙ run_program-some sys sh false line pid f) in
      (r.children, ap (λ (s : Shell). s.children) q)
]

-- After a command in the foreground for which `wait(0)` has returned a job of the background, `exit`
-- does not end, whatever processes end and however long it waits.
pub run_program-loses_job :
    (sys : System) (sh after : Shell) (line : List ℕ) (report : Report)
    → run_program sys sh false line ≡ next after report
    → HasJob sys.wait after.processes
    → (ended : ℕ → ℕ → Bool) (rounds : ℕ)
    → exit_loop ended rounds 0 after.children after.processes ≡ none
run_program-loses_job sys sh after line report e h ended rounds =
    let (children, f) = run_program-foreground sys sh after line report e in
    exit_loop-Lost ended rounds 0 after.children after.processes (
      subst (λ c. Lost c after.processes) (sym f) (HasJob-Lost sys.wait children after.processes h))
