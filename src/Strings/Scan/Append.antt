-- ===== src/Strings/Scan/Append.antt =====
-- project4/proj4.cpp: a scan in two parts.
use cs3013_operating_systems.Prelude.{ℕ, ◌≡◌, refl, List, [], ◌∷◌, ◌++◌}
use cs3013_operating_systems.Strings.Scan.{Ctype, Scan, scan_byte, scan}

pub scan-append :
    (t : Ctype) (s : Scan) (xs ys : List ℕ) → scan t s (xs ++ ys) ≡ scan t (scan t s xs) ys
unfolding scan
scan-append t s [] ys = refl
scan-append t s (x ∷ xs) ys = scan-append t (scan_byte t s x) xs ys

pub scan-nil : (t : Ctype) (s : Scan) → scan t s [] ≡ s
unfolding scan
scan-nil t s = refl
