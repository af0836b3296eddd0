-- ===== src/Prelude/Totals.antt =====
-- The total of a weight over a list: over two lists, over a reversed list, in another order.
use mathlib.Core.List.{Perm, Permᴰ}
use mathlib.Core.Logic.{∥∥₁_elim}
use native.Mathlib.Nat.{ℕ_set}
use cs3013_operating_systems.Prelude.{
  ℕ, ◌+◌, ◌≡◌, refl, ap, ◌∙◌, List, [], ◌∷◌, ◌++◌, reverse, reverse-cons, arith,
}

module _ {ℓ} {A : Type ℓ} (w : A → ℕ) where
  unfoldable pub total : List A → ℕ
  total [] = 0
  total (x ∷ xs) = w x + total xs

  pub total-append : (xs ys : List A) → total (xs ++ ys) ≡ total xs + total ys
  unfolding total
  total-append [] ys = omega arith
  total-append (x ∷ xs) ys = omega (arith, total-append xs ys)

  pub total-reverse : (xs : List A) → total (reverse xs) ≡ total xs
  unfolding total
  total-reverse [] = refl
  total-reverse (x ∷ xs) =
      rw (reverse-cons) (omega (arith, total-append (reverse xs) (x ∷ []), total-reverse xs))

  total-permᴰ : {xs ys : List A} → Permᴰ xs ys → total xs ≡ total ys
  unfolding total
  total-permᴰ Permᴰ.nil = refl
  total-permᴰ (Permᴰ.cons {a} {b} e d) = omega (arith, ap w e, total-permᴰ d)
  total-permᴰ (Permᴰ.swap e f) = omega (arith, ap w e, ap w f)
  total-permᴰ (Permᴰ.trans d e) = total-permᴰ d ∙ total-permᴰ e

  pub total-perm : {xs ys : List A} → Perm xs ys → total xs ≡ total ys
  total-perm {xs} {ys} p = ∥∥₁_elim p (ℕ_set (total xs) (total ys)) total-permᴰ
