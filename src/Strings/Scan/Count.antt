-- ===== src/Strings/Scan/Count.antt =====
-- project4/proj4.cpp: what `num_strings` counts, stated without the running counters.
use cs3013_operating_systems.Prelude.{
  ℕ, zero, suc, ◌+◌, ◌≡◌, refl, Bool, true, false, ◌&&◌, not, List, [], ◌∷◌, arith,
}
use cs3013_operating_systems.Prelude.Int.{ℤ}
use cs3013_operating_systems.Strings.Scan.{Ctype, is_text, Scan, scan_byte, scan}

abbrev pub bit : Bool → ℕ
bit true = 1
bit false = 0

module _ (t : Ctype) where
  -- The first `k` bytes are there, and are text.
  unfoldable pub begins : ℕ → List ℕ → Bool
  begins zero cs = true
  begins (suc k) [] = false
  begins (suc k) (c ∷ cs) = is_text t c && begins k cs

  -- The positions where a run of text starts that has at least four bytes; `within` says that the
  -- byte before the first one is text.
  unfoldable pub count_strings : Bool → List ℕ → ℕ
  unfolding begins
  count_strings within [] = 0
  count_strings within (c ∷ cs) =
      bit (not within && begins 4 (c ∷ cs)) + count_strings (is_text t c) cs

  -- What the bytes `cs` add where `p` bytes of text stand before them.
  unfoldable pub gain : ℕ → List ℕ → ℕ
  gain zero cs = count_strings false cs
  gain (suc zero) cs = bit (begins 3 cs) + count_strings true cs
  gain (suc (suc zero)) cs = bit (begins 2 cs) + count_strings true cs
  gain (suc (suc (suc zero))) cs = bit (begins 1 cs) + count_strings true cs
  gain (suc (suc (suc (suc p)))) cs = count_strings true cs

  gain-nil : (p : ℕ) → gain p [] ≡ 0
  unfolding gain count_strings begins
  gain-nil zero = refl
  gain-nil (suc zero) = refl
  gain-nil (suc (suc zero)) = refl
  gain-nil (suc (suc (suc zero))) = refl
  gain-nil (suc (suc (suc (suc p)))) = refl

  gain-cons :
      (p : ℕ) (c : ℕ) (cs : List ℕ) (n : ℕ) (m : ℤ)
      → n + gain p (c ∷ cs)
        ≡ (scan_byte t (record { str_length = p; num_strings = n; max_length = m }) c).num_strings
          + gain
              (scan_byte t
                (record { str_length = p; num_strings = n; max_length = m })
                c).str_length
              cs
  unfolding gain count_strings begins scan_byte
  gain-cons zero c cs n m = ground arith
  gain-cons (suc zero) c cs n m = ground arith
  gain-cons (suc (suc zero)) c cs n m = ground arith
  gain-cons (suc (suc (suc zero))) c cs n m = ground arith
  gain-cons (suc (suc (suc (suc p)))) c cs n m = ground arith

  pub num_strings-scan :
      (s : Scan) (cs : List ℕ) → (scan t s cs).num_strings ≡ s.num_strings + gain s.str_length cs
  unfolding scan
  num_strings-scan s [] = omega (arith, gain-nil s.str_length)
  num_strings-scan s (c ∷ cs) = omega (
    arith,
    num_strings-scan (scan_byte t s c) cs,
    gain-cons s.str_length c cs s.num_strings s.max_length,
  )
