-- ===== src/Life/Ending/Balance.antt =====
-- project3/life.cpp: what holds at every point of the end of a game that is not found to be over:
-- the messages that are under way, and the barrier.
use cs3013_operating_systems.Prelude.{
  ℕ, ◌+◌, ◌-◌, ◌≤◌, ◌<◌, ◌≡◌, refl, sym, ap, ◌∙◌, ◌≢◌, false, Option, none, some, update, arith,
  ◌⊎◌, inl, inr, subst, ℕ_discrete,
}
use cs3013_operating_systems.Life.Ending.{
  gendone, Kind, alldone, Thread, arriving, counted, waiting, sending, exited, Parent, last_gendone,
  stopping, going, counting, joining, ended, Run, begin,
}
use cs3013_operating_systems.Prelude.Tally.{
  tally, tally-all_same, tally-update, tally_le, tally_cover,
}

-- Threads that have counted themselves, that may still open the barrier, that are through it, that
-- have exited, and that have not.
abbrev pub here : Thread → ℕ
here arriving = 0
here _ = 1

abbrev pub early : Thread → ℕ
early arriving = 1
early counted = 1
early _ = 0

abbrev pub past : Thread → ℕ
past sending = 1
past exited = 1
past _ = 0

abbrev pub gone : Thread → ℕ
gone exited = 1
gone _ = 0

abbrev pub present : Thread → ℕ
present exited = 0
present _ = 1

abbrev pub mail : Option Kind → ℕ
mail none = 0
mail (some m) = 1

abbrev pub OnlyAlldone : (ℕ → Option Kind) → Type 0
OnlyAlldone boxes = (m : Kind) → boxes 0 ≡ some m → m ≡ alldone

-- Every ALLDONE that was sent is in the parent's mailbox or received; the threads' mailboxes are
-- empty until they get GO.
abbrev pub Balance : ℕ → (ℕ → Option Kind) → ℕ → Parent → Type 0
Balance n boxes sent last_gendone =
    (boxes 0 ≡ some gendone) × (sent ≡ 0) × ((j : ℕ) → 1 ≤ j → boxes j ≡ none)
Balance n boxes sent (stopping k) = ⊥
Balance n boxes sent (going k) =
    (sent ≡ mail (boxes 0)) × (1 ≤ k) × ((j : ℕ) → k ≤ j → boxes j ≡ none) × OnlyAlldone boxes
Balance n boxes sent (counting c) = (sent ≡ c + mail (boxes 0)) × (c ≤ n) × OnlyAlldone boxes
Balance n boxes sent (joining k) = (sent ≡ n) × (1 ≤ k)
Balance n boxes sent ended = sent ≡ n

-- What the barrier needs: a thread that may still open it, or passes enough for all.
abbrev pub Opens : ℕ → (ℕ → Thread) → ℕ → Type 0
Opens n threads sem = (0 < tally early threads n) ⊎ (n + 1 ≤ sem + tally past threads n)

pub record Inv (n : ℕ) (s : Run) : Type 0 where
  pub inside : (i : ℕ) → s.threads i ≢ arriving → (1 ≤ i) × (i ≤ n)
  pub counter : s.barrier_count ≡ tally here s.threads n
  pub opens : Opens n s.threads s.alldone_sem
  pub balance : Balance n s.boxes (tally gone s.threads n) s.parent

pub early-here : (p : Thread) → 1 ≤ early p + here p
early-here p = ground arith

pub here_le : (p : Thread) → here p ≤ 1
here_le p = ground arith

pub gone_le : (p : Thread) → gone p ≤ 1
gone_le p = ground arith

pub past_le : (p : Thread) → past p ≤ 1
past_le p = ground arith

pub gone_exited : (p : Thread) → 1 ≤ gone p → p ≡ exited
gone_exited p h = ground arith

pub present-gone : (p : Thread) → 1 ≤ present p + gone p
present-gone p = ground arith

module _ (n : ℕ) where
  pub begin-Inv : 1 ≤ n → Inv n (begin n false)
  begin-Inv h = record {
    inside = λ i e. absurd (e refl);
    counter = omega (arith, tally-all_same here arriving 0 n refl);
    opens = inl (omega (arith, tally-all_same early arriving 1 n refl));
    balance = (refl, omega (arith, tally-all_same gone arriving 0 n refl), λ j p. ground arith);
  }

  module _ (s : Run) (v : Inv n s) where
    pub update_inside :
        (i : ℕ) (p : Thread)
        → 1 ≤ i
        → i ≤ n
        → (j : ℕ) → update s.threads i p j ≢ arriving
        → (1 ≤ j) × (j ≤ n)
    update_inside i p h l j e = elim (ℕ_discrete i j) [
      | yes g ↦ (omega arith, omega arith)
      | no g ↦ v.inside j (λ f. e (ground arith))
    ]

    -- A thread that is not yet at its end moves on, and does not exit.
    pub moves :
        (i : ℕ) (q p : Thread) (b a : ℕ)
        → 1 ≤ i
        → i ≤ n
        → s.threads i ≡ q
        → gone p ≡ gone q
        → b + here q ≡ s.barrier_count + here p
        → Opens n (update s.threads i p) a
        → Inv n (record s { threads = update s.threads i p; barrier_count = b; alldone_sem = a })
    moves i q p b a h l e g c o =
        let at : (w : Thread → ℕ) → w (s.threads i) ≡ w q = λ w. ap w e in
        record {
          inside = update_inside i p h l;
          counter = omega (arith, tally-update here s.threads i p n h l, at here, v.counter);
          opens = o;
          balance =
              subst (λ x. Balance n s.boxes x s.parent)
                (omega (arith, tally-update gone s.threads i p n h l, at gone)) v.balance;
        }

    pub somewhere : (i : ℕ) (q : Thread) → s.threads i ≡ q → q ≢ arriving → (1 ≤ i) × (i ≤ n)
    somewhere i q e h = v.inside i (λ f. h (sym e ∙ f))

    pub count-Opens :
        (i : ℕ)
        → 1 ≤ i
        → i ≤ n
        → s.threads i ≡ arriving
        → Opens n (update s.threads i counted) s.alldone_sem
    count-Opens i h l e = elim v.opens [
      | inl o ↦ inl (omega (arith, tally-update early s.threads i counted n h l, ap early e))
      | inr o ↦ inr (omega (arith, tally-update past s.threads i counted n h l, ap past e))
    ]

    -- A thread that finds the barrier shut leaves one behind that has yet to count itself.
    pub leave_shut-Opens :
        (i : ℕ)
        → 1 ≤ i
        → i ≤ n
        → s.threads i ≡ counted
        → s.barrier_count ≢ n
        → Opens n (update s.threads i waiting) s.alldone_sem
    leave_shut-Opens i h l e f =
        let t = update s.threads i waiting in
        inl (
          omega (
            arith,
            tally_cover here early t n early-here,
            tally_le here t n here_le,
            tally-update here s.threads i waiting n h l,
            ap here e,
            v.counter,
            f,
          ))

    pub pass-Opens :
        (i : ℕ)
        → 1 ≤ i
        → i ≤ n
        → s.threads i ≡ waiting
        → 0 < s.alldone_sem
        → Opens n (update s.threads i sending) (s.alldone_sem - 1)
    pass-Opens i h l e p = elim v.opens [
      | inl o ↦ inl (omega (arith, tally-update early s.threads i sending n h l, ap early e))
      | inr o ↦ inr (omega (arith, tally-update past s.threads i sending n h l, ap past e))
    ]

    pub exits-Opens :
        (i : ℕ)
        → 1 ≤ i
        → i ≤ n
        → s.threads i ≡ sending
        → Opens n (update s.threads i exited) s.alldone_sem
    exits-Opens i h l e = elim v.opens [
      | inl o ↦ inl (omega (arith, tally-update early s.threads i exited n h l, ap early e))
      | inr o ↦ inr (omega (arith, tally-update past s.threads i exited n h l, ap past e))
    ]
