-- ===== src/Addem/Correct.antt =====
-- project3/addem.cpp: what `main` prints.
use mathlib.Core.List.{Perm}
use cs3013_operating_systems.Prelude.{
  ℕ, zero, suc, ◌+◌, ◌*◌, ◌/◌, ◌^◌, ◌<◌, ◌≡◌, refl, ap, ◌∙◌, List, [], ◌∷◌, arith, if◌then◌else◌,
  ◌==◌, ltb,
}
use cs3013_operating_systems.Prelude.Totals.{total, total-perm}
use cs3013_operating_systems.Prelude.Int.{ℤ, pos, negsuc}
use cs3013_operating_systems.Addem.{
  Msg, replies, full_sum, main, Outcome, prints, no_threads, too_many_threads,
}
use cs3013_operating_systems.Addem.Total.{triangle, gives, owes, full_sum_lem, replies-total}

-- `triangle` is the closed form that the loops compute.
pub triangle_closed : (n : ℕ) → 2 * triangle n ≡ n * (n + 1)
unfolding triangle
triangle_closed zero = refl
triangle_closed (suc n) = omega (arith, triangle_closed n)

module _ (fresh : Msg) where
  -- If 1 + ... + limit fits in an `int`, the parent's total is that sum, for every number of
  -- threads and whatever the order in which their replies arrive.
  pub full_sum-replies :
      (n limit : ℕ) (arrivals : List Msg)
      → 0 < n
      → triangle limit < 2 ^ 31
      → Perm arrivals (replies fresh (pos limit) n)
      → full_sum (pos 0) arrivals ≡ pos (triangle limit)
  full_sum-replies n limit arrivals p h perm =
      let (g, o) = replies-total fresh n limit p h in
      let g' = total-perm gives perm ∙ g in
      full_sum_lem 0 arrivals (total-perm owes perm ∙ o) (omega arith)
      ∙ ap (λ k. pos k) (let e : 0 + total gives arrivals ≡ triangle limit = omega arith in e)

-- What the usage of `addem` promises for a number of threads and a limit that is not negative.
abbrev pub promised : ℤ → ℕ → Outcome
promised (negsuc k) limit = no_threads
promised (pos n) limit =
    if n == 0
    then no_threads
    else if ltb 10 n
    then too_many_threads
    else prints (pos limit) (pos n) (pos (limit * (limit + 1) / 2))

triangle_half : (n : ℕ) → triangle n ≡ n * (n + 1) / 2
triangle_half n = omega (arith, triangle_closed n)

-- Where the limit is not negative and limit * (limit + 1) / 2 fits in an `int`, `main` refuses a
-- number of threads below 1 or above 10, and else prints limit * (limit + 1) / 2 as the total,
-- whatever the order in which the threads' replies arrive.
pub main-promised :
    (atoi : List ℕ → ℤ) (fresh : Msg) (arrivals : List Msg → List Msg) (a b : List ℕ) (limit : ℕ)
    → ((ms : List Msg) → Perm (arrivals ms) ms)
    → atoi b ≡ pos limit
    → limit * (limit + 1) / 2 < 2 ^ 31
    → main atoi fresh arrivals (a ∷ b ∷ []) ≡ promised (atoi a) limit
unfolding main
main-promised atoi fresh arrivals a b limit perm e h = by_threads (atoi a) refl
  where
    fits : triangle limit < 2 ^ 31
    fits = omega (arith, triangle_half limit)

    by_threads : (n : ℤ) → atoi a ≡ n → main atoi fresh arrivals (a ∷ b ∷ []) ≡ promised n limit
    by_threads (negsuc k) f = ground arith
    by_threads (pos n) f = ground (
      arith,
      triangle_half limit,
      full_sum-replies fresh n limit (arrivals (replies fresh (pos limit) n)),
      fits,
      perm (replies fresh (pos limit) n),
    )
