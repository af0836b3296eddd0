-- ===== src/Shell/Jobs/Waiting.antt =====
-- project1/doit_processes.cpp: what `checkFinishedProcesses` makes of jobs that are children of the
-- shell, and of one that is no child any more.
use cs3013_operating_systems.Prelude.{
  ℕ, ◌+◌, ◌≡◌, refl, ◌∙◌, ◌≢◌, ◌⊎◌, inl, inr, Bool, true, false, List, [], ◌∷◌, update, arith,
  Bool-cases,
}
use cs3013_operating_systems.Shell.Jobs.{Process, Children, waits, Swept}
use cs3013_operating_systems.Shell.Jobs.Sweep.{put, sweep}

-- No job has this pid.
abbrev pub Fresh : ℕ → List Process → Type 0
Fresh n [] = Unit
Fresh n (p ∷ ps) = (n ≢ p.pid) × Fresh n ps

-- The jobs are children that nobody has waited for, with different pids.
abbrev pub Waiting : Children → List Process → Type 0
Waiting children [] = Unit
Waiting children (p ∷ ps) = (children p.pid ≡ true) × Fresh p.pid ps × Waiting children ps

abbrev pub AllEnded : (ℕ → Bool) → List Process → Type 0
AllEnded ended [] = Unit
AllEnded ended (p ∷ ps) = (ended p.pid ≡ true) × AllEnded ended ps

-- Some job is no child any more.
abbrev pub Lost : Children → List Process → Type 0
Lost children [] = ⊥
Lost children (p ∷ ps) = (children p.pid ≡ false) ⊎ Lost children ps

module _ (ended : ℕ → Bool) where
  pub children-put :
      (n number : ℕ) (p : Process) (r : Swept)
      → n ≢ p.pid
      → (put ended number p r).children n ≡ r.children n
  children-put n number p r h = ground arith

  pub children-sweep :
      (n number : ℕ) (children : Children) (ps : List Process)
      → Fresh n ps
      → (sweep ended children number ps).children n ≡ children n
  unfolding sweep
  children-sweep n number children [] f = refl
  children-sweep n number children (p ∷ ps) f =
      children-put n number p (sweep ended children (number + 1) ps) f.0
      ∙ children-sweep n (number + 1) children ps f.1

  pub Fresh-sweep :
      (n number : ℕ) (children : Children) (ps : List Process)
      → Fresh n ps
      → Fresh n (sweep ended children number ps).kept
  unfolding sweep
  Fresh-sweep n number children [] f = tt
  Fresh-sweep n number children (p ∷ ps) f =
      let r = sweep ended children (number + 1) ps in
      let h = Fresh-sweep n (number + 1) children ps f.1 in
      elim (Bool-cases (waits r.children ended p.pid)) [ inl w ↦ rw w h | inr w ↦ rw w (f.0, h) ]

  pub Waiting-update :
      (n : ℕ) (children : Children) (ps : List Process)
      → Fresh n ps
      → Waiting children ps
      → Waiting (update children n false) ps
  Waiting-update n children [] f w = tt
  Waiting-update n children (p ∷ ps) f w = (ground arith, w.1, Waiting-update n children ps f.1 w.2)

  pub Waiting-sweep :
      (number : ℕ) (children : Children) (ps : List Process)
      → Waiting children ps
      → let r = sweep ended children number ps in Waiting r.children r.kept
  unfolding sweep
  Waiting-sweep number children [] w = tt
  Waiting-sweep number children (p ∷ ps) w =
      let r = sweep ended children (number + 1) ps in
      let ih = Waiting-sweep (number + 1) children ps w.2 in
      let fresh = Fresh-sweep p.pid (number + 1) children ps w.1 in
      elim (Bool-cases (waits r.children ended p.pid)) [
        | inl e ↦ rw e (Waiting-update p.pid r.children r.kept fresh ih)
        | inr e ↦ rw e (children-sweep p.pid (number + 1) children ps w.1 ∙ w.0, fresh, ih)
      ]

  pub AllEnded-sweep :
      (other : ℕ → Bool) (number : ℕ) (children : Children) (ps : List Process)
      → AllEnded other ps
      → AllEnded other (sweep ended children number ps).kept
  unfolding sweep
  AllEnded-sweep other number children [] a = tt
  AllEnded-sweep other number children (p ∷ ps) a =
      let r = sweep ended children (number + 1) ps in
      let ih = AllEnded-sweep other (number + 1) children ps a.1 in
      elim (Bool-cases (waits r.children ended p.pid)) [ inl e ↦ rw e ih | inr e ↦ rw e (a.0, ih) ]

  pub kept-ended :
      (number : ℕ) (children : Children) (ps : List Process)
      → Waiting children ps
      → AllEnded ended ps
      → (sweep ended children number ps).kept ≡ []
  unfolding sweep
  kept-ended number children [] w a = refl
  kept-ended number children (p ∷ ps) w a =
      let child = children-sweep p.pid (number + 1) children ps w.1 ∙ w.0 in
      rw (child, a.0) (kept-ended (number + 1) children ps w.2 a.1)

  pub Lost-update :
      (n : ℕ) (children : Children) (ps : List Process)
      → Lost children ps
      → Lost (update children n false) ps
  Lost-update n children [] l = l
  Lost-update n children (p ∷ ps) l = elim l [
    | inl e ↦ inl (ground arith)
    | inr m ↦ inr (Lost-update n children ps m)
  ]

  pub children-false :
      (n number : ℕ) (children : Children) (ps : List Process)
      → children n ≡ false
      → (sweep ended children number ps).children n ≡ false
  unfolding sweep
  children-false n number children [] h = h
  children-false n number children (p ∷ ps) h =
      ground (arith, children-false n (number + 1) children ps h)

  pub Lost-sweep :
      (number : ℕ) (children : Children) (ps : List Process)
      → Lost children ps
      → let r = sweep ended children number ps in Lost r.children r.kept
  unfolding sweep
  Lost-sweep number children [] l = l
  Lost-sweep number children (p ∷ ps) l =
      let r = sweep ended children (number + 1) ps in
      elim l [
        | inl h ↦ let gone = children-false p.pid (number + 1) children ps h in rw gone (inl gone)
        | inr m ↦
            let ih = Lost-sweep (number + 1) children ps m in
            elim (Bool-cases (waits r.children ended p.pid)) [
              | inl e ↦ rw e (Lost-update p.pid r.children r.kept ih)
              | inr e ↦ rw e (inr ih)
            ]
      ]
