-- ===== src/Strings/Scan.antt =====
-- project4/proj4.cpp: the loop over bytes that `regular_read` and `mmap_regular_read` share.
pub mod Append
pub mod Count
pub mod Longest
use cs3013_operating_systems.Prelude.{ℕ, ◌+◌, Bool, ◌||◌, List, [], ◌∷◌, ◌==◌, if◌then◌else◌}
use cs3013_operating_systems.Prelude.Int.{ℤ, pos, ltb_ℤ}

-- `isspace` and `isprint` of <ctype.h>, on the value of a byte.
pub record Ctype : Type 0 where
  pub isspace : ℕ → Bool
  pub isprint : ℕ → Bool

abbrev pub is_text : Ctype → ℕ → Bool
is_text t c = t.isspace c || t.isprint c

-- The three counters that the functions take by reference. `max_length` starts at -1.
pub record Scan : Type 0 where
  pub str_length : ℕ
  pub num_strings : ℕ
  pub max_length : ℤ

-- (max < length)? length : max
abbrev pub raise : ℤ → ℕ → ℤ
raise m n = if ltb_ℤ m (pos n) then pos n else m

module _ (t : Ctype) where
  unfoldable pub advance : Scan → ℕ → Scan
  advance s c =
      if is_text t c
      then record s {
        str_length = s.str_length + 1;
        max_length = raise s.max_length (s.str_length + 1);
      }
      else record s { str_length = 0 }

  unfoldable pub scan_byte : Scan → ℕ → Scan
  unfolding advance
  scan_byte s c =
      let s' = advance s c in
      if s'.str_length == 4 then record s' { num_strings = s'.num_strings + 1 } else s'

  unfoldable pub scan : Scan → List ℕ → Scan
  unfolding scan_byte
  scan s [] = s
  scan s (c ∷ cs) = scan (scan_byte s c) cs
