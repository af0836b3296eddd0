-- ===== src/Strings/Scan/Longest.antt =====
-- project4/proj4.cpp: what `max_length` measures, stated without the running counters.
use cs3013_operating_systems.Prelude.{
  ℕ, suc, ◌+◌, ◌≤◌, max, ◌≡◌, refl, ap, ◌∙◌, Bool, true, false, ◌||◌, List, [], ◌∷◌, ◌++◌, length,
  arith, if◌then◌else◌, Bool-cases, inl, inr, dec_le,
}
use cs3013_operating_systems.Prelude.Int.{pos_part, neg_part}
use cs3013_operating_systems.Strings.Scan.{Ctype, is_text, Scan, scan_byte, scan}

module _ (t : Ctype) where
  -- How many bytes of text stand at the front.
  unfoldable pub leading : List ℕ → ℕ
  leading [] = 0
  leading (c ∷ cs) = if is_text t c then suc (leading cs) else 0

  -- The length of the longest run of text.
  unfoldable pub longest : List ℕ → ℕ
  unfolding leading
  longest [] = 0
  longest (c ∷ cs) = max (leading (c ∷ cs)) (longest cs)

  abbrev pub has_text : List ℕ → Bool
  has_text [] = false
  has_text (c ∷ cs) = is_text t c || has_text cs

  abbrev pub AllText : List ℕ → Type 0
  AllText [] = Unit
  AllText (c ∷ cs) = (is_text t c ≡ true) × AllText cs

  -- `b` is a stretch of text somewhere in `cs`.
  abbrev pub Stretch : List ℕ → List ℕ → Type 0
  Stretch b cs = (before : List ℕ) × (after : List ℕ) × (cs ≡ before ++ (b ++ after)) × AllText b

  leading-stretch : (b after : List ℕ) → AllText b → length b ≤ leading (b ++ after)
  unfolding leading
  leading-stretch [] after h = omega arith
  leading-stretch (c ∷ b) after h = rw (h.0) (omega (arith, leading-stretch b after h.1))

  pub leading-le-longest : (cs : List ℕ) → leading cs ≤ longest cs
  unfolding longest
  leading-le-longest [] = omega arith
  leading-le-longest (c ∷ cs) = ground arith

  longest-append : (xs cs : List ℕ) → longest cs ≤ longest (xs ++ cs)
  unfolding longest
  longest-append [] cs = omega arith
  longest-append (x ∷ xs) cs = ground (arith, longest-append xs cs)

  -- No stretch of text is longer.
  pub Stretch-le-longest : (b cs : List ℕ) → Stretch b cs → length b ≤ longest cs
  Stretch-le-longest b cs (before, after, e, h) = rw e (
      omega (
        arith,
        leading-stretch b after h,
        leading-le-longest (b ++ after),
        longest-append before (b ++ after),
      ))

  leading-attained :
      (cs : List ℕ)
      → (b : List ℕ) × (after : List ℕ) × (cs ≡ b ++ after) × AllText b × (length b ≡ leading cs)
  unfolding leading
  leading-attained [] = ([], [], refl, tt, refl)
  leading-attained (c ∷ cs) = elim (Bool-cases (is_text t c)) [
    | inl h ↦
        let (b, after, e, k, l) = leading-attained cs in
        (c ∷ b, after, ap (◌∷◌ c) e, (h, k), rw h (ap suc l))
    | inr h ↦ ([], c ∷ cs, refl, tt, rw h)
  ]

  -- Some stretch of text is as long.
  pub longest-attained : (cs : List ℕ) → (b : List ℕ) × Stretch b cs × (length b ≡ longest cs)
  unfolding longest
  longest-attained [] = ([], ([], [], refl, tt), refl)
  longest-attained (c ∷ cs) = elim (dec_le (longest cs) (leading (c ∷ cs))) [
    | yes h ↦
        let (b, after, e, k, l) = leading-attained (c ∷ cs) in
        (b, ([], after, e, k), l ∙ omega arith)
    | no h ↦
        let (b, (before, after, e, k), l) = longest-attained cs in
        (b, (c ∷ before, after, ap (◌∷◌ c) e, k), l ∙ omega arith)
  ]

  pub str_length-scan_byte :
      (s : Scan) (c : ℕ)
      → (scan_byte t s c).str_length ≡ (if is_text t c then s.str_length + 1 else 0)
  unfolding scan_byte
  str_length-scan_byte s c = ground arith

  pos_part-scan_byte :
      (s : Scan) (c : ℕ)
      → pos_part (scan_byte t s c).max_length ≡ (
          if is_text t c
          then max (pos_part s.max_length) (s.str_length + 1)
          else pos_part s.max_length)
  unfolding scan_byte
  pos_part-scan_byte s c = ground arith

  neg_part-scan_byte :
      (s : Scan) (c : ℕ)
      → neg_part (scan_byte t s c).max_length ≡ (if is_text t c then 0 else neg_part s.max_length)
  unfolding scan_byte
  neg_part-scan_byte s c = ground arith

  -- A scan keeps `str_length` at or below `max_length`.
  str_length-le-max :
      (s : Scan) (c : ℕ)
      → s.str_length ≤ pos_part s.max_length
      → (scan_byte t s c).str_length ≤ pos_part (scan_byte t s c).max_length
  str_length-le-max s c h = ground (arith, str_length-scan_byte s c, pos_part-scan_byte s c)

  -- The number behind `max_length` once a scan is over.
  pub pos_part-scan :
      (s : Scan) (cs : List ℕ)
      → s.str_length ≤ pos_part s.max_length
      → pos_part (scan t s cs).max_length
        ≡ max (pos_part s.max_length) (max (s.str_length + leading cs) (longest cs))
  unfolding scan longest
  pos_part-scan s [] h = omega arith
  pos_part-scan s (c ∷ cs) h = ground (
    arith,
    pos_part-scan (scan_byte t s c) cs (str_length-le-max s c h),
    str_length-scan_byte s c,
    pos_part-scan_byte s c,
    leading-le-longest cs,
  )

  -- It stays negative exactly as long as no text was met.
  pub neg_part-scan :
      (s : Scan) (cs : List ℕ)
      → neg_part (scan t s cs).max_length ≡ (if has_text cs then 0 else neg_part s.max_length)
  unfolding scan
  neg_part-scan s [] = refl
  neg_part-scan s (c ∷ cs) =
      ground (arith, neg_part-scan (scan_byte t s c) cs, neg_part-scan_byte s c)
