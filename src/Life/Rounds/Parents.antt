-- ===== src/Life/Rounds/Parents.antt =====
-- project3/life.cpp: the parent's steps keep the invariant.
use cs3013_operating_systems.Prelude.{
  ℕ, ◌+◌, ◌≤◌, ◌<◌, ◌≡◌, refl, sym, ap, ◌∙◌, subst, ◌≢◌, ◌⊎◌, inl, inr, [], Option, none, some,
  update, update_self, update_other, arith,
}
use cs3013_operating_systems.Life.{Matrices}
use cs3013_operating_systems.Life.Rounds.{
  Msg, gendone, Thread, awaiting, over, Parent, Run, range_for,
}
use cs3013_operating_systems.Life.Rounds.Holds.{
  Phase, ready, phase, Part, Underway, told, busy, again, out, Holds,
}
use cs3013_operating_systems.Life.Rounds.Invariant.{
  reported, mail, round, All, Counts, Shows, Inv, one_thread,
}

pub mail_zero : (b : Option Msg) → mail b ≡ 0 → b ≡ none
mail_zero none e = refl
mail_zero (some m) e = absurd (omega arith)

module _ (lines columns n gens : ℕ) (positive : 0 < n) (enough : n ≤ lines) (narrow : columns < 40)
    (first : Matrices) where
  pub at :
      (s : Run) (p : Parent)
      → s.parent ≡ p
      → Inv lines columns n gens first s
      → Inv lines columns n gens first (record s { parent = p })
  at s p e v = record {
    all = subst (λ q. All lines columns n gens first q s.threads s.boxes s.matrices) e v.all;
    counted = subst (λ q. Counts lines columns n gens first q (s.boxes 0) s.threads) e v.counted;
    only = v.only;
    shown = subst (λ q. Shows lines columns n gens first (round q) s.matrices) e v.shown;
  }

  pub held_at :
      (s : Run) (p : Parent) (c : Phase) (k : ℕ)
      → s.parent ≡ p
      → phase p k ≡ c
      → Inv lines columns n gens first s
      → 1 ≤ k
      → k ≤ n
      → Holds lines columns n gens c k (s.threads k) (s.boxes k) s.matrices
  held_at s p c k e f v h l =
      subst (λ c. Holds lines columns n gens c k (s.threads k) (s.boxes k) s.matrices)
        (ap (λ q. phase q k) e ∙ f) (v.all k h l)

  -- The parent sends to thread `k`.
  pub sends :
      (s : Run) (p p' : Parent) (c : Phase) (k : ℕ) (m : Msg)
      → s.parent ≡ p
      → ((j : ℕ) → k ≢ j → phase p j ≡ phase p' j)
      → phase p' k ≡ c
      → round p ≡ round p'
      → 1 ≤ k
      → Inv lines columns n gens first s
      → Holds lines columns n gens c k (s.threads k) (some m) s.matrices
      → Counts lines columns n gens first p' (s.boxes 0) s.threads
      → Inv lines columns n gens first (record s { parent = p'; boxes = update s.boxes k (some m) })
  sends s p p' c k m e f g o h v held counts =
      let v' = at s p e v in
      record {
        all =
            one_thread lines columns n gens first k p p' s.threads s.threads s.boxes
              (update s.boxes k (some m)) s.matrices
              (λ j d l. (f j d, refl, update_other s.boxes k (some m) j d))
              (subst (λ b. Holds lines columns n gens (phase p' k) k (s.threads k) b s.matrices)
                (sym (update_self s.boxes k (some m)))
                (subst (λ c. Holds lines columns n gens c k (s.threads k) (some m) s.matrices)
                  (sym g) held))
              v'.all;
        counted = subst (λ b. Counts lines columns n gens first p' b s.threads) mailbox counts;
        only = subst (λ b. (b ≡ none) ⊎ (b ≡ some gendone)) mailbox v.only;
        shown = subst (λ q. Shows lines columns n gens first q s.matrices) o v'.shown;
      }
    where
      mailbox : s.boxes 0 ≡ update s.boxes k (some m) 0
      mailbox = ground arith

  -- The parent goes on, with all threads as they are.
  pub turns :
      (s : Run) (p p' : Parent)
      → s.parent ≡ p
      → Inv lines columns n gens first s
      → ((i : ℕ)
          → 1 ≤ i
          → i ≤ n
          → Holds lines columns n gens (phase p i) i (s.threads i) (s.boxes i) s.matrices
          → Holds lines columns n gens (phase p' i) i (s.threads i) (s.boxes i) s.matrices)
      → Counts lines columns n gens first p' (s.boxes 0) s.threads
      → Shows lines columns n gens first (round p') s.matrices
      → Inv lines columns n gens first (record s { parent = p' })
  turns s p p' e v f counts shows = record {
    all = λ i h l. f i h l ((at s p e v).all i h l);
    counted = counts;
    only = v.only;
    shown = shows;
  }

  -- The phases of all threads are what they were.
  pub same_phase :
      (s : Run) (i : ℕ) (c c' : Phase)
      → c ≡ c'
      → Holds lines columns n gens c i (s.threads i) (s.boxes i) s.matrices
      → Holds lines columns n gens c' i (s.threads i) (s.boxes i) s.matrices
  same_phase s i c c' e h =
      subst (λ c. Holds lines columns n gens c i (s.threads i) (s.boxes i) s.matrices) e h

  pub not_reported :
      (g i : ℕ) (t : Thread) (b : Option Msg) (m : Matrices)
      → Holds lines columns n gens (ready g) i t b m
      → reported g t ≡ 0
  not_reported g i t b m (inl (a, e, f)) = ground arith
  not_reported g i t b m (inr (e, f)) = ground arith

  -- A thread that has reported, with all of its cells.
  pub reports :
      (g i : ℕ) (t : Thread) (b : Option Msg) (m : Matrices)
      → Underway lines columns n gens g i t b m
      → 0 < reported g t
      → Part lines columns n gens i [] m
        × (b ≡ none)
        × (((t ≡ awaiting (range_for lines n i) (g + 1)) × (g + 1 < gens))
            ⊎ ((t ≡ over) × (g + 1 ≡ gens)))
  reports g i t b m (told e f) h = absurd (ground arith)
  reports g i t b m (busy cs e f p) h = absurd (ground arith)
  reports g i t b m (again e f l p) h = (p, f, inl (e, l))
  reports g i t b m (out e f l p) h = (p, f, inr (e, l))
