-- ===== src/Life/Rounds/Steps.antt =====
-- project3/life.cpp: every step keeps the invariant.
use cs3013_operating_systems.Prelude.{
  ℕ, ◌+◌, ◌≤◌, ◌<◌, ◌≡◌, refl, ap, subst, inl, inr, none, some, update, arith,
}
use cs3013_operating_systems.Prelude.Tally.{tally_zero}
use cs3013_operating_systems.Life.{Matrices}
use cs3013_operating_systems.Life.Neighbors.{Padded}
use cs3013_operating_systems.Life.Rounds.{
  range, go, gendone, stop, awaiting, exited, ranging, going, gathering, stopping, joining, ended,
  Run, range_for,
}
use cs3013_operating_systems.Life.Rounds.Holds.{
  unsent, ready, underway, idle, stopped, left, phase, told, Holds,
}
use cs3013_operating_systems.Life.Rounds.Invariant.{reported, mail, Inv, one_thread}
use cs3013_operating_systems.Life.Rounds.{
  Step, Reach, send_range, all_ranged, send_go, all_going, gather, halt, next, last, send_stop,
  all_stopped, join, finish, recv_range, recv_go, compute, report, recv_stop, start, later,
}
use cs3013_operating_systems.Life.Rounds.Invariant.{begin-Inv}
use cs3013_operating_systems.Life.Rounds.Threads.{
  recv_range-Inv, recv_go-Inv, recv_stop-Inv, compute-Inv, report-Inv,
}
use cs3013_operating_systems.Life.Rounds.Decides.{halt-Inv, next-Inv, last-Inv}
use cs3013_operating_systems.Life.Rounds.Parents.{
  at, held_at, sends, turns, same_phase, not_reported,
}

module _ (lines columns n gens : ℕ) (positive : 0 < n) (enough : n ≤ lines) (narrow : columns < 40)
    (first : Matrices) where
  abbrev pub Keeps : Run → Type 0
  Keeps s = Inv lines columns n gens first s

  send_range-Inv :
      (s : Run) (k : ℕ)
      → s.parent ≡ ranging k
      → k ≤ n
      → s.boxes k ≡ none
      → Keeps s
      → Keeps (record s {
        parent = ranging (k + 1);
        boxes = update s.boxes k (some (range (range_for lines n k)));
      })
  send_range-Inv s k e l f v =
      let v' = at lines columns n gens positive enough narrow first s (ranging k) e v in
      let now : phase (ranging k) k ≡ unsent = ground arith in
      let h =
        held_at lines columns n gens positive enough narrow first s (ranging k) unsent k e now v
          v'.counted.1 l in
      sends lines columns n gens positive enough narrow first s (ranging k) (ranging (k + 1))
        (ready 0) k (range (range_for lines n k)) e (λ j d. ground arith) (ground arith) refl
        v'.counted.1 v (inl (refl, h.0, refl)) (v'.counted.0, omega arith)

  all_ranged-Inv :
      (s : Run) (k : ℕ)
      → s.parent ≡ ranging k
      → n < k
      → Keeps s
      → Keeps (record s { parent = going 0 1 })
  all_ranged-Inv s k e l v =
      let v' = at lines columns n gens positive enough narrow first s (ranging k) e v in
      let none_reported = tally_zero (reported 0) s.threads n (λ i h q.
        not_reported lines columns n gens positive enough narrow first 0 i (s.threads i) (s.boxes i)
          s.matrices
          (same_phase lines columns n gens positive enough narrow first s i (phase (ranging k) i)
            (ready 0) (ground arith) (v'.all i h q))) in
      turns lines columns n gens positive enough narrow first s (ranging k) (going 0 1) e v
        (λ i h q.
          same_phase lines columns n gens positive enough narrow first s i (phase (ranging k) i)
            (phase (going 0 1) i) (ground arith))
        (omega (arith, none_reported, ap mail v'.counted.0), omega arith) v'.shown

  send_go-Inv :
      (s : Run) (g k : ℕ)
      → s.parent ≡ going g k
      → k ≤ n
      → s.boxes k ≡ none
      → Keeps s
      → Keeps (record s { parent = going g (k + 1); boxes = update s.boxes k (some go) })
  send_go-Inv s g k e l f v =
      let v' = at lines columns n gens positive enough narrow first s (going g k) e v in
      let now : phase (going g k) k ≡ ready g = ground arith in
      let t : s.threads k ≡ awaiting (range_for lines n k) g =
        elim (held_at lines columns n gens positive enough narrow first s (going g k) (ready g) k e
          now v v'.counted.1 l) [ inl (a, x, y) ↦ absurd cc | inr (x, y) ↦ x ] in
      sends lines columns n gens positive enough narrow first s (going g k) (going g (k + 1))
        (underway g) k go e (λ j d. ground arith) (ground arith) refl v'.counted.1 v (told t refl)
        (v'.counted.0, omega arith)

  all_going-Inv :
      (s : Run) (g k : ℕ)
      → s.parent ≡ going g k
      → n < k
      → Keeps s
      → Keeps (record s { parent = gathering g 0 })
  all_going-Inv s g k e l v =
      let v' = at lines columns n gens positive enough narrow first s (going g k) e v in
      turns lines columns n gens positive enough narrow first s (going g k) (gathering g 0) e v
        (λ i h q.
          same_phase lines columns n gens positive enough narrow first s i (phase (going g k) i)
            (underway g) (ground arith))
        (omega (arith, v'.counted.0), omega arith) v'.shown

  gather-Inv :
      (s : Run) (g c : ℕ)
      → s.parent ≡ gathering g c
      → c < n
      → s.boxes 0 ≡ some gendone
      → Keeps s
      → Keeps (record s { parent = gathering g (c + 1); boxes = update s.boxes 0 none })
  gather-Inv s g c e l f v =
      let v' = at lines columns n gens positive enough narrow first s (gathering g c) e v in
      record {
        all = λ i h q.
            subst (λ b. Holds lines columns n gens (underway g) i (s.threads i) b s.matrices)
              (let b : s.boxes i ≡ update s.boxes 0 none i = ground arith in b) (v'.all i h q);
        counted = (omega (arith, v'.counted.0, ap mail f), omega arith);
        only = inl refl;
        shown = v'.shown;
      }

  send_stop-Inv :
      (s : Run) (g k : ℕ)
      → s.parent ≡ stopping g k
      → k ≤ n
      → s.boxes k ≡ none
      → Keeps s
      → Keeps (record s { parent = stopping g (k + 1); boxes = update s.boxes k (some stop) })
  send_stop-Inv s g k e l f v =
      let v' = at lines columns n gens positive enough narrow first s (stopping g k) e v in
      let now : phase (stopping g k) k ≡ idle = ground arith in
      let (h, x, y) =
        held_at lines columns n gens positive enough narrow first s (stopping g k) idle k e now v
          v'.counted.1 l in
      sends lines columns n gens positive enough narrow first s (stopping g k) (stopping g (k + 1))
        stopped k stop e (λ j d. ground arith) (ground arith) refl v'.counted.1 v (inl (h, x, refl))
        (v'.counted.0, omega arith)

  all_stopped-Inv :
      (s : Run) (g k : ℕ)
      → s.parent ≡ stopping g k
      → n < k
      → Keeps s
      → Keeps (record s { parent = joining 1 })
  all_stopped-Inv s g k e l v =
      let v' = at lines columns n gens positive enough narrow first s (stopping g k) e v in
      turns lines columns n gens positive enough narrow first s (stopping g k) (joining 1) e v
        (λ i h q.
          same_phase lines columns n gens positive enough narrow first s i (phase (stopping g k) i)
            (phase (joining 1) i) (ground arith))
        (v'.counted.0, omega arith) v'.shown

  join-Inv :
      (s : Run) (k : ℕ)
      → s.parent ≡ joining k
      → k ≤ n
      → s.threads k ≡ exited
      → Keeps s
      → Keeps (record s { parent = joining (k + 1) })
  join-Inv s k e l f v =
      let v' = at lines columns n gens positive enough narrow first s (joining k) e v in
      let now : phase (joining k) k ≡ stopped = ground arith in
      let then_ : left ≡ phase (joining (k + 1)) k = ground arith in
      let b : s.boxes k ≡ none =
        elim (held_at lines columns n gens positive enough narrow first s (joining k) stopped k e
          now v v'.counted.1 l) [ inl (g, x, y) ↦ absurd cc | inr (x, y) ↦ y ] in
      record {
        all =
            one_thread lines columns n gens first k (joining k) (joining (k + 1)) s.threads
              s.threads s.boxes s.boxes s.matrices (λ j d h. (ground arith, refl, refl))
              (same_phase lines columns n gens positive enough narrow first s k left
                (phase (joining (k + 1)) k) then_ (f, b))
              v'.all;
        counted = (v'.counted.0, omega arith);
        only = v.only;
        shown = v'.shown;
      }

  finish-Inv :
      (s : Run) (k : ℕ)
      → s.parent ≡ joining k
      → n < k
      → Keeps s
      → Keeps (record s { parent = ended })
  finish-Inv s k e l v =
      let v' = at lines columns n gens positive enough narrow first s (joining k) e v in
      turns lines columns n gens positive enough narrow first s (joining k) ended e v
        (λ i h q.
          same_phase lines columns n gens positive enough narrow first s i (phase (joining k) i)
            left (ground arith))
        v'.counted.0 v'.shown

  pub Step-Inv : (s t : Run) → Keeps s → Step lines columns n gens first s t → Keeps t
  Step-Inv s t v (send_range k e l f) = send_range-Inv s k e l f v
  Step-Inv s t v (all_ranged k e l) = all_ranged-Inv s k e l v
  Step-Inv s t v (send_go g k e l f) = send_go-Inv s g k e l f v
  Step-Inv s t v (all_going g k e l) = all_going-Inv s g k e l v
  Step-Inv s t v (gather g c e l f) = gather-Inv s g c e l f v
  Step-Inv s t v (halt g c e f l h) =
      halt-Inv lines columns n gens positive enough narrow first s g c e f l h v
  Step-Inv s t v (next g c e f l h) =
      next-Inv lines columns n gens positive enough narrow first s g c e f l v
  Step-Inv s t v (last g c e f l) =
      last-Inv lines columns n gens positive enough narrow first s g c e f l v
  Step-Inv s t v (send_stop g k e l f) = send_stop-Inv s g k e l f v
  Step-Inv s t v (all_stopped g k e l) = all_stopped-Inv s g k e l v
  Step-Inv s t v (join k e l f) = join-Inv s k e l f v
  Step-Inv s t v (finish k e l) = finish-Inv s k e l v
  Step-Inv s t v (recv_range i r h l e f) =
      recv_range-Inv lines columns n gens first (omega arith) s v i h l r e f
  Step-Inv s t v (recv_go i g r h l e f) =
      recv_go-Inv lines columns n gens first (omega arith) s v i h l g r e f
  Step-Inv s t v (compute i g r c cs h l e) =
      compute-Inv lines columns n gens first (omega arith) s v i h l g r c cs e
  Step-Inv s t v (report i g r h l e f) =
      report-Inv lines columns n gens first (omega arith) s v i h l g r e f
  Step-Inv s t v (recv_stop i g r h l e f) =
      recv_stop-Inv lines columns n gens first (omega arith) s v i h l g r e f

  pub Reach-Inv :
      0 < gens
      → Padded lines columns first.before
      → (s : Run) → Reach lines columns n gens first s
      → Keeps s
  Reach-Inv h p s start = begin-Inv lines columns n gens first h p
  Reach-Inv h p t (later {s} r q) = Step-Inv s t (Reach-Inv h p s r) q
