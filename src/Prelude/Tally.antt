-- ===== src/Prelude/Tally.antt =====
-- The weights of threads, added up over the threads 1 to n.
use cs3013_operating_systems.Prelude.{
  subst, sym, ℕ, zero, suc, ◌+◌, ◌*◌, ◌≤◌, ◌<◌, ◌≡◌, refl, ap, update, arith, ℕ_discrete,
}

unfoldable pub tally {ℓ} : {A : Type ℓ} → (A → ℕ) → (ℕ → A) → ℕ → ℕ
tally w f zero = 0
tally w f (suc n) = w (f (suc n)) + tally w f n

module _ {ℓ} {A : Type ℓ} (w : A → ℕ) where
  pub tally-all_same : (p : A) (m n : ℕ) → w p ≡ m → tally w (λ i. p) n ≡ n * m
  unfolding tally
  tally-all_same p m zero e = omega arith
  tally-all_same p m (suc n) e = omega (arith, tally-all_same p m n e)

  tally_above : (f : ℕ → A) (i : ℕ) (p : A) (n : ℕ) → n < i → tally w (update f i p) n ≡ tally w f n
  unfolding tally
  tally_above f i p zero h = refl
  tally_above f i p (suc n) h = ground (arith, tally_above f i p n)

  pub tally-update :
      (f : ℕ → A) (i : ℕ) (p : A) (n : ℕ)
      → 1 ≤ i
      → i ≤ n
      → tally w (update f i p) n + w (f i) ≡ tally w f n + w p
  unfolding tally
  tally-update f i p zero h l = absurd (omega arith)
  tally-update f i p (suc n) h l = elim (ℕ_discrete i (suc n)) [
    | yes e ↦ ground (arith, tally_above f i p n, ap f e)
    | no e ↦ ground (arith, tally-update f i p n)
  ]

  pub tally_le : (f : ℕ → A) (n : ℕ) → ((p : A) → w p ≤ 1) → tally w f n ≤ n
  unfolding tally
  tally_le f zero h = omega arith
  tally_le f (suc n) h = omega (arith, h (f (suc n)), tally_le f n h)

  pub tally_cover :
      (v : A → ℕ) (f : ℕ → A) (n : ℕ) → ((p : A) → 1 ≤ v p + w p) → n ≤ tally v f n + tally w f n
  unfolding tally
  tally_cover v f zero h = omega arith
  tally_cover v f (suc n) h = omega (arith, h (f (suc n)), tally_cover v f n h)

  -- One that has a weight.
  pub tally_find :
      (f : ℕ → A) (n : ℕ) → 0 < tally w f n → (i : ℕ) × (1 ≤ i) × (i ≤ n) × (0 < w (f i))
  unfolding tally
  tally_find f zero h = absurd (omega arith)
  tally_find f (suc n) h = elim (ℕ_discrete (w (f (suc n))) 0) [
    | yes e ↦ let (i, p, q, r) = tally_find f n (omega arith) in (i, p, omega arith, r)
    | no e ↦ (suc n, omega arith, omega arith, omega arith)
  ]

  pub tally_zero : (f : ℕ → A) (n : ℕ) → ((i : ℕ) → 1 ≤ i → i ≤ n → w (f i) ≡ 0) → tally w f n ≡ 0
  unfolding tally
  tally_zero f zero h = refl
  tally_zero f (suc n) h =
      omega (
        arith,
        h (suc n) (omega arith) (omega arith),
        tally_zero f n (λ i a b. h i a (omega arith)),
      )

  -- Where all have the greatest weight.
  pub tally_full :
      (f : ℕ → A) (n : ℕ)
      → ((p : A) → w p ≤ 1)
      → n ≤ tally w f n
      → (i : ℕ) → 1 ≤ i
      → i ≤ n
      → 0 < w (f i)
  unfolding tally
  tally_full f zero h l i a b = absurd (omega arith)
  tally_full f (suc n) h l i a b = elim (ℕ_discrete i (suc n)) [
    | yes e ↦
        let last : 0 < w (f (suc n)) = omega (arith, tally_le f n h) in
        subst (λ k. 0 < w (f k)) (sym e) last
    | no e ↦ tally_full f n h (omega (arith, h (f (suc n)))) i a (omega arith)
  ]

  -- A thread without a weight.
  pub tally_missing :
      (f : ℕ → A) (n : ℕ) → tally w f n < n → (i : ℕ) × (1 ≤ i) × (i ≤ n) × (w (f i) ≡ 0)
  unfolding tally
  tally_missing f zero h = absurd (omega arith)
  tally_missing f (suc n) h = elim (ℕ_discrete (w (f (suc n))) 0) [
    | yes e ↦ (suc n, omega arith, omega arith, e)
    | no e ↦ let (i, p, q, r) = tally_missing f n (omega arith) in (i, p, omega arith, r)
  ]
