-- ===== src/Shell/Loop/Invariant.antt =====
-- project1/doit_processes.cpp: the jobs stay children of the shell with different pids, where
-- `wait(0)` returns for the command in the foreground.
use cs3013_operating_systems.Prelude.{
  ℕ, ◌≡◌, sym, ◌∙◌, ◌≢◌, Bool, true, List, [], ◌∷◌, ◌++◌, Option, none, some, get_or, arith,
  Bool-cases, Option-cases, inl, inr, subst, update,
}
use cs3013_operating_systems.Prelude.Text.{same_string}
use cs3013_operating_systems.Shell.Line.{
  Slot, garbage, null, word, Setup, no_words, filled, overrun, no_fuel, shell_line_setup, cd_word,
  jobs_word,
}
use cs3013_operating_systems.Shell.Jobs.{Process, Children}
use cs3013_operating_systems.Shell.Jobs.Sweep.{sweep}
use cs3013_operating_systems.Shell.Loop.{
  Shell, System, Turn, next, exits, exit_word, read_background, names, change_dir, parent_of,
  run_program, run_line, turn,
}
use cs3013_operating_systems.Shell.Loop.Exit.{run_program-none, run_program-some}
use cs3013_operating_systems.Shell.Jobs.Waiting.{
  Fresh, Waiting, Fresh-sweep, Waiting-sweep, Waiting-update, children-sweep,
}

-- The shell that a round leaves has its jobs as children.
abbrev pub Keeps : Turn → Type 0
Keeps (next sh report) = Waiting sh.children sh.processes
Keeps (exits sh) = Waiting sh.children sh.processes
Keeps _ = Unit

-- A new process has a pid that no job has, and `wait(0)` returns for it.
abbrev pub Own : System → Shell → Option ℕ → Type 0
Own sys sh none = Unit
Own sys sh (some pid) = Fresh pid sh.processes × (sys.wait ≡ pid)

Waiting-true :
    (n : ℕ) (children : Children) (ps : List Process)
    → Waiting children ps
    → Waiting (update children n true) ps
Waiting-true n children [] w = tt
Waiting-true n children (p ∷ ps) w = (ground arith, w.1, Waiting-true n children ps w.2)

Fresh-snoc :
    (n : ℕ) (ps : List Process) (q : Process) → Fresh n ps → n ≢ q.pid → Fresh n (ps ++ (q ∷ []))
Fresh-snoc n [] q f h = (h, tt)
Fresh-snoc n (p ∷ ps) q f h = (f.0, Fresh-snoc n ps q f.1 h)

Waiting-snoc :
    (children : Children) (ps : List Process) (q : Process)
    → Waiting children ps
    → Fresh q.pid ps
    → children q.pid ≡ true
    → Waiting children (ps ++ (q ∷ []))
Waiting-snoc children [] q w f h = (h, tt, tt)
Waiting-snoc children (p ∷ ps) q w f h =
    (w.0, Fresh-snoc p.pid ps q w.1 (λ e. f.0 (sym e)), Waiting-snoc children ps q w.2 f.1 h)

module _ (sys : System) (sh : Shell) (w : Waiting sh.children sh.processes) where
  parent_of-Keeps :
      (background : Bool) (line : List ℕ) (pid : ℕ)
      → Fresh pid sh.processes
      → sys.wait ≡ pid
      → Keeps (
          parent_of sys sh background line pid
            (some (sweep sys.ended (update sh.children pid true) 1 sh.processes)))
  parent_of-Keeps background line pid f e =
      let children = update sh.children pid true in
      let r = sweep sys.ended children 1 sh.processes in
      let kept =
        Waiting-sweep sys.ended 1 children sh.processes
          (Waiting-true pid sh.children sh.processes w) in
      let fresh = Fresh-sweep sys.ended pid 1 children sh.processes f in
      let mine : r.children pid ≡ true =
        children-sweep sys.ended pid 1 children sh.processes f ∙ ground arith in
      elim (Bool-cases background) [
        | inl b ↦ rw b (
            Waiting-snoc r.children r.kept (record { pid = pid; process_name = line }) kept fresh
              mine)
        | inr b ↦ rw (b, e) (Waiting-update sys.ended pid r.children r.kept fresh kept)
      ]

  run_program-Keeps :
      (background : Bool) (line : List ℕ)
      → Own sys sh sys.fork
      → Keeps (run_program sys sh background line)
  run_program-Keeps background line o = elim (Option-cases (sys.fork)) [
    | inl n ↦ rw (run_program-none sys sh background line n) tt
    | inr (pid, f) ↦
        let (fresh, e) = subst (Own sys sh) f o in
        rw (run_program-some sys sh background line pid f)
          (parent_of-Keeps background line pid fresh e)
  ]

  change_dir-Keeps : (v : Slot) → Keeps (change_dir sys sh v)
  unfolding change_dir
  change_dir-Keeps garbage = elim (Option-cases (sys.chdir sys.home)) [
    | inl e ↦ rw (e, change_dir) w
    | inr (d, e) ↦ rw (e, change_dir) w
  ]
  change_dir-Keeps null = elim (Option-cases (sys.chdir sys.home)) [
    | inl e ↦ rw (e, change_dir) w
    | inr (d, e) ↦ rw (e, change_dir) w
  ]
  change_dir-Keeps (word a) = elim (Option-cases (sys.chdir a)) [
    | inl e ↦ rw (e, change_dir) w
    | inr (d, e) ↦ rw (e, change_dir) w
  ]

  run_line-Keeps :
      (background : Bool) (line : List ℕ) (setup : Setup)
      → Own sys sh sys.fork
      → Keeps (run_line sys sh background line setup)
  unfolding run_line
  run_line-Keeps background line no_words o = w
  run_line-Keeps background line overrun o = tt
  run_line-Keeps background line no_fuel o = tt
  run_line-Keeps background line (filled argv) o = elim (Bool-cases (same_string line exit_word)) [
    | inl e ↦ rw (e, run_line) w
    | inr e ↦ elim (Bool-cases (names (get_or argv 0 garbage) cd_word)) [
      | inl c ↦ rw (e, c) (change_dir-Keeps (get_or argv 1 garbage))
      | inr c ↦ elim (Bool-cases (names (get_or argv 0 garbage) jobs_word)) [
        | inl j ↦ rw (e, c, j) w
        | inr j ↦ rw (e, c, j) (run_program-Keeps background line o)
      ]
    ]
  ]

-- Where the jobs are children of the shell with different pids, a new process gets a pid that no job
-- has, and `wait(0)` returns for the new process, this holds of the shell behind the round, whatever
-- the line and whichever jobs have ended.
pub turn-Keeps :
    (sys : System) (sh : Shell) (argv : List Slot) (line : List ℕ)
    → Waiting sh.children sh.processes
    → Own sys sh sys.fork
    → Keeps (turn sys sh argv line)
unfolding turn
turn-Keeps sys sh argv line w o = elim (Option-cases (read_background line)) [
  | inl n ↦ rw (n, turn) tt
  | inr ((background, rest), n) ↦
      rw (n, turn) (run_line-Keeps sys sh w background rest (shell_line_setup argv rest) o)
]
