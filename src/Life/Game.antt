-- ===== src/Life/Game.antt =====
-- project3/life.cpp: the loop of `main` over the generations.
use cs3013_operating_systems.Prelude.{
  ℕ, zero, suc, ◌+◌, ◌≤◌, ◌<◌, ◌≡◌, refl, sym, ap, ◌∙◌, subst, Bool, true, false, not, ◌&&◌, ◌||◌,
  ltb, ◌==◌, if◌then◌else◌, arith, dec_lt, Bool-cases, inl, inr,
}
use cs3013_operating_systems.Prelude.Int.{ℤ, pos, negsuc}
use cs3013_operating_systems.Life.{
  address, nonzero, same_int, Matrices, all_ranges, update_matrix, is_all_zero, has_not_changed,
}
use cs3013_operating_systems.Life.Loops.{for_lines-write, for_lines-flag}
use cs3013_operating_systems.Life.Neighbors.{Padded, alive, next_grid}
use cs3013_operating_systems.Life.Generation.{run_threads, run_threads-next_grid}
use cs3013_operating_systems.Life.Evolution.{
  generations, Same, next_grid-Same, generations-Same, generations-still, generations-none,
  next_grid-dead, dead,
}

-- What the parent has at the end of its loop: the number of generations that it prints, the
-- matrices, and whether it has told the threads to stop though they had computed their last
-- generation.
pub record Played : Type 0 where
  pub c_gen : ℕ
  pub matrices : Matrices
  pub stopped_at_last : Bool

-- A generation of all threads.
abbrev pub generation : ℕ → ℕ → ℕ → Matrices → Matrices
generation lines columns n m = record m {
  after = run_threads lines columns m.before (all_ranges lines n) m.after;
}

abbrev pub stops : ℕ → ℕ → Matrices → Bool
stops lines columns m = is_all_zero lines columns m || has_not_changed lines columns m

-- The loop while at most `left` generations are to be computed: the threads' ALLDONE ends it after
-- the last one.
unfoldable pub play : ℕ → ℕ → ℕ → ℕ → ℕ → Matrices → Played
play lines columns n zero c_gen m = record { c_gen = c_gen; matrices = m; stopped_at_last = false }
play lines columns n (suc left) c_gen m =
    let m' = generation lines columns n m in
    elim (stops lines columns m') [
      | true ↦ record { c_gen = c_gen + 1; matrices = m'; stopped_at_last = left == 0 }
      | false ↦ play lines columns n left (c_gen + 1) (update_matrix lines columns m')
    ]

play-stop :
    (lines columns n left c_gen : ℕ) (m : Matrices)
    → stops lines columns (generation lines columns n m) ≡ true
    → play lines columns n (suc left) c_gen m ≡ record {
      c_gen = c_gen + 1;
      matrices = generation lines columns n m;
      stopped_at_last = left == 0;
    }
unfolding play
play-stop lines columns n left c_gen m e = rw (e, play) refl

play-go :
    (lines columns n left c_gen : ℕ) (m : Matrices)
    → stops lines columns (generation lines columns n m) ≡ false
    → play lines columns n (suc left) c_gen m
      ≡ play lines columns n left
          (c_gen + 1)
          (update_matrix lines columns (generation lines columns n m))
unfolding play
play-go lines columns n left c_gen m e = rw (e, play) refl

play-none :
    (lines columns n left c_gen : ℕ) (m : Matrices)
    → ¬ (0 < left)
    → (play lines columns n left c_gen (update_matrix lines columns m)).matrices.after ≡ m.after
unfolding play update_matrix
play-none lines columns n zero c_gen m h = refl
play-none lines columns n (suc left) c_gen m h = absurd (h (omega arith))

same_int-nonzero : (a b : ℤ) → same_int a b ≡ true → nonzero a ≡ nonzero b
same_int-nonzero (pos a) (pos b) e = ap (λ k. nonzero (pos k)) (let f : a ≡ b = ground arith in f)
same_int-nonzero (pos a) (negsuc b) e = cc
same_int-nonzero (negsuc a) (pos b) e = cc
same_int-nonzero (negsuc a) (negsuc b) e = refl

module _ (lines columns : ℕ) where
  is_all_zero-dead :
      (m : Matrices)
      → is_all_zero lines columns m ≡ true
      → Same lines columns (alive m.after) (dead lines columns)
  unfolding is_all_zero
  is_all_zero-dead m e i j p q =
      for_lines-flag (λ x y. nonzero (m.after (address x y))) columns lines 0 true i j e
        (omega arith) (omega arith) q

  has_not_changed-Same :
      (m : Matrices)
      → has_not_changed lines columns m ≡ true
      → Same lines columns (alive m.before) (alive m.after)
  unfolding has_not_changed
  has_not_changed-Same m e i j p q =
      let f =
        for_lines-flag (λ x y. not (same_int (m.before (address x y)) (m.after (address x y))))
          columns lines 0 true i j e (omega arith) (omega arith) q in
      same_int-nonzero (m.before (address i j)) (m.after (address i j)) (ground arith)

  update_matrix-at :
      (m : Matrices) (x y : ℕ)
      → columns ≤ 40
      → y < 40
      → (update_matrix lines columns m).before (address x y)
        ≡ (if ltb x lines && ltb y columns then m.after (address x y) else m.before (address x y))
  unfolding update_matrix
  update_matrix-at m x y w g =
      for_lines-write (λ i j. m.after (address i j)) columns lines 0 m.before x y w g ∙ ground arith

  pub update_matrix-alive :
      (m : Matrices)
      → columns ≤ 40
      → Same lines columns (alive (update_matrix lines columns m).before) (alive m.after)
  update_matrix-alive m w i j p q =
      ap nonzero (update_matrix-at m i j w (omega arith) ∙ ground arith)

  pub update_matrix-Padded :
      (m : Matrices)
      → columns < 40
      → Padded lines columns m.before
      → Padded lines columns (update_matrix lines columns m).before
  update_matrix-Padded m w padded = record {
    right = λ i p. update_matrix-at m i columns (omega arith) w ∙ ground (arith, padded.right i p);
    below = λ j p.
        update_matrix-at m lines j (omega arith) (omega arith) ∙ ground (arith, padded.below j p);
  }

  -- The stop condition: the next generation is this one.
  pub stops-still :
      (m : Matrices)
      → (is_all_zero lines columns m || has_not_changed lines columns m) ≡ true
      → Same lines columns (alive m.after) (next_grid lines columns (alive m.before))
      → Same lines columns (next_grid lines columns (alive m.after)) (alive m.after)
  stops-still m e fresh i j p q = elim (Bool-cases (is_all_zero lines columns m)) [
    | inl zeros ↦
        let d = is_all_zero-dead m zeros in
        next_grid-Same lines columns (alive m.after) (dead lines columns) d i j p q
        ∙ next_grid-dead lines columns i j p q
        ∙ sym (d i j p q)
    | inr some_one ↦
        let s = has_not_changed-Same m (ground arith) in
        next_grid-Same lines columns (alive m.after) (alive m.before) (λ x y a b. sym (s x y a b)) i
          j p q
        ∙ sym (fresh i j p q)
  ]

  module _ (n : ℕ) (positive : 0 < n) (enough : n ≤ lines) (narrow : columns < 40) where
    -- The matrix that is printed at the end shows the cells alive after all the generations that
    -- were asked for, also where the loop has ended early, since all cells are dead or since
    -- nothing has changed: where there is a generation to compute, from one thread to one for each
    -- line, fewer than 40 columns, and zeros just right of and below the cells at the start.
    pub play-generations :
        (left c_gen : ℕ) (m : Matrices)
        → 0 < left
        → Padded lines columns m.before
        → Same lines columns
            (alive (play lines columns n left c_gen m).matrices.after)
            (generations lines columns left (alive m.before))
    unfolding generations
    play-generations zero c_gen m h padded = absurd (omega arith)
    play-generations (suc left) c_gen m h padded =
        let m' = generation lines columns n m in
        let next = next_grid lines columns (alive m.before) in
        let fresh : Same lines columns (alive m'.after) next =
          run_threads-next_grid lines columns n m.before m.after positive enough (omega arith)
            padded in
        let m'' = update_matrix lines columns m' in
        let moved : Same lines columns (alive m''.before) next =
          λ i j p q. update_matrix-alive m' (omega arith) i j p q ∙ fresh i j p q in
        elim (Bool-cases (stops lines columns m')) [
          | inl stop ↦ λ i j p q.
              ap (λ r. alive r.matrices.after i j) (play-stop lines columns n left c_gen m stop)
              ∙ sym (
                  generations-still lines columns left (alive m'.after) (stops-still m' stop fresh)
                    i j p q)
              ∙ generations-Same lines columns left (alive m'.after) next fresh i j p q
          | inr on ↦ λ i j p q.
              ap (λ r. alive r.matrices.after i j) (play-go lines columns n left c_gen m on)
              ∙ elim (dec_lt 0 left) [
                | yes more ↦
                    play-generations left (c_gen + 1) m'' more
                      (update_matrix-Padded m' narrow padded) i j p q
                    ∙ generations-Same lines columns left (alive m''.before) next moved i j p q
                | no none ↦
                    ap (λ a. alive a i j) (play-none lines columns n left (c_gen + 1) m' none)
                    ∙ fresh i j p q
                    ∙ generations-none lines columns left next none i j
              ]
        ]

    -- If the threads are told to stop after their last generation, that is a still one: it is the
    -- same as the next one.
    pub stopped_at_last-still :
        (left c_gen : ℕ) (m : Matrices)
        → Padded lines columns m.before
        → (play lines columns n left c_gen m).stopped_at_last ≡ true
        → let shown = alive (play lines columns n left c_gen m).matrices.after in
          Same lines columns (next_grid lines columns shown) shown
    unfolding play
    stopped_at_last-still zero c_gen m padded e = cc
    stopped_at_last-still (suc left) c_gen m padded e =
        let m' = generation lines columns n m in
        let m'' = update_matrix lines columns m' in
        let Still = λ (r : Played).
          Same lines columns (next_grid lines columns (alive r.matrices.after))
            (alive r.matrices.after) in
        elim (Bool-cases (stops lines columns m')) [
          | inl stop ↦ subst Still (sym (play-stop lines columns n left c_gen m stop)) (
              stops-still m' stop (
                run_threads-next_grid lines columns n m.before m.after positive enough (omega arith)
                  padded))
          | inr on ↦ subst Still (sym (play-go lines columns n left c_gen m on)) (
              stopped_at_last-still left (c_gen + 1) m'' (update_matrix-Padded m' narrow padded) (
                sym (
                  ap {A = Played} (λ r. r.stopped_at_last)
                    (play-go lines columns n left c_gen m on))
                ∙ e))
        ]
