-- ===== src/Prelude/Text.antt =====
-- C strings as lists of bytes, without the zero at their end.
use cs3013_operating_systems.Prelude.{
  ℕ, ◌≡◌, refl, Bool, true, false, ◌&&◌, List, [], ◌∷◌, if◌then◌else◌, ◌==◌, arith,
}

abbrev pub same_string : List ℕ → List ℕ → Bool
same_string [] [] = true
same_string (a ∷ s) (b ∷ r) = a == b && same_string s r
same_string _ _ = false

pub same_string_refl : (s : List ℕ) → same_string s s ≡ true
same_string_refl [] = refl
same_string_refl (a ∷ s) = ground (arith, same_string_refl s)

-- The bytes up to the first zero.
unfoldable pub c_str : List ℕ → List ℕ
c_str [] = []
c_str (c ∷ s) = let rest = c_str s in if c == 0 then [] else c ∷ rest
