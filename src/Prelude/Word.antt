-- ===== src/Prelude/Word.antt =====
-- C's `int`: 32 bits in two's complement, as a signed integer.
use cs3013_operating_systems.Prelude.{
  ℕ, suc, ◌+◌, ◌-◌, ◌*◌, ◌/◌, ◌%◌, ◌^◌, ◌≤◌, ◌<◌, ◌≡◌, refl, arith, ltb, if◌then◌else◌,
}
use cs3013_operating_systems.Prelude.Int.{ℤ, pos, negsuc, ◌+ℤ◌, ◌-ℤ◌, ◌*ℤ◌}

-- The conversion of a wider value to `int`, as gcc does it: modulo 2^32.
unfoldable pub to_int : ℕ → ℤ
to_int n = let r = n % 2 ^ 32 in if ltb r (2 ^ 31) then pos r else negsuc (2 ^ 32 - r - 1)

pub to_int_lem : (n : ℕ) → n < 2 ^ 31 → to_int n ≡ pos n
unfolding to_int
to_int_lem n h = ground arith

-- a / n truncates towards zero. (The callers have n > 0.)
unfoldable pub div_int : ℤ → ℕ → ℤ
div_int (pos a) n = pos (a / n)
div_int (negsuc a) n = pos 0 -ℤ pos (suc a / n)

pub pos-add : (a b : ℕ) → pos a +ℤ pos b ≡ pos (a + b)
unfolding ◌+ℤ◌
pos-add a b = ground arith

pub pos-mul : (a b : ℕ) → pos a *ℤ pos b ≡ pos (a * b)
unfolding ◌*ℤ◌
pos-mul a b = ground arith

pub pos-sub : (a b : ℕ) → b ≤ a → pos a -ℤ pos b ≡ pos (a - b)
unfolding ◌-ℤ◌
pos-sub a b h = ground arith

pub div_int-pos : (a n : ℕ) → div_int (pos a) n ≡ pos (a / n)
unfolding div_int
div_int-pos a n = refl

-- `int` arithmetic wraps around, as gcc compiles it.
unfoldable pub wrap : ℤ → ℤ
unfolding to_int
wrap (pos n) = to_int n
wrap (negsuc n) = to_int (2 ^ 32 - 1 - n % 2 ^ 32)

unfoldable pub add_int : ℤ → ℤ → ℤ
unfolding wrap ◌+ℤ◌
add_int a b = wrap (a +ℤ b)

pub add_int-pos : (a b : ℕ) → a + b < 2 ^ 31 → add_int (pos a) (pos b) ≡ pos (a + b)
unfolding add_int
add_int-pos a b h = ground arith
