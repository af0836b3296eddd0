-- ===== src/Shell/Line/Words.antt =====
-- project1/doit_processes.cpp: lines of words, and that these are their words.
use cs3013_operating_systems.Prelude.{
  ℕ, zero, suc, ◌<◌, ◌≡◌, refl, ◌≢◌, ap, ◌∙◌, List, [], ◌∷◌, map, ◌++◌, length, replicate, arith,
}
use cs3013_operating_systems.Prelude.Text.{c_str}
use cs3013_operating_systems.Prelude.Strtok.{all_words, parts, words}
use cs3013_operating_systems.Shell.Line.{space, is_space}

-- A line of words, each with so many spaces before it, and one space before the next.
abbrev pub line_of : List (ℕ × List ℕ) → List ℕ
line_of [] = []
line_of ((n, w) ∷ []) = replicate n space ++ w
line_of ((n, w) ∷ g ∷ gs) = replicate n space ++ (w ++ (space ∷ line_of (g ∷ gs)))

-- Text without spaces and zeros.
abbrev pub IsPlain : List ℕ → Type 0
IsPlain [] = Unit
IsPlain (c ∷ s) = (c ≢ space) × (c ≢ 0) × IsPlain s

abbrev pub IsWord : List ℕ → Type 0
IsWord w = (0 < length w) × IsPlain w

abbrev pub AllWords : List (ℕ × List ℕ) → Type 0
AllWords [] = Unit
AllWords ((n, w) ∷ gs) = IsWord w × AllWords gs

words-nil : words is_space [] ≡ []
unfolding words parts
words-nil = refl

words-spaces : (n : ℕ) (s : List ℕ) → words is_space (replicate n space ++ s) ≡ words is_space s
unfolding words parts
words-spaces zero s = refl
words-spaces (suc n) s = words-spaces n s

parts-IsPlain :
    (w r : List ℕ)
    → IsPlain w
    → (parts is_space (w ++ (space ∷ r)) ≡ record { first = w; others = words is_space r })
unfolding words parts
parts-IsPlain [] r h = refl
parts-IsPlain (c ∷ w) r h = ground (arith, parts-IsPlain w r h.2)

parts-last : (w : List ℕ) → IsPlain w → parts is_space w ≡ record { first = w; others = [] }
unfolding parts
parts-last [] h = refl
parts-last (c ∷ w) h = ground (arith, parts-last w h.2)

words-last : (w : List ℕ) → IsWord w → words is_space w ≡ w ∷ []
unfolding words
words-last [] h = absurd (omega arith)
words-last (c ∷ w) h = ap all_words (parts-last (c ∷ w) h.1)

words-then : (w r : List ℕ) → IsWord w → words is_space (w ++ (space ∷ r)) ≡ w ∷ words is_space r
unfolding words
words-then [] r h = absurd (omega arith)
words-then (c ∷ w) r h = ap all_words (parts-IsPlain (c ∷ w) r h.1)

-- The words of such a line are those that it was made of.
pub words-line_of :
    (gs : List (ℕ × List ℕ)) → AllWords gs → words is_space (line_of gs) ≡ map (λ g. g.1) gs
words-line_of [] h = words-nil
words-line_of ((n, w) ∷ []) h = words-spaces n w ∙ words-last w h.0
words-line_of ((n, w) ∷ g ∷ gs) h =
    words-spaces n (w ++ (space ∷ line_of (g ∷ gs)))
    ∙ words-then w (line_of (g ∷ gs)) h.0
    ∙ ap (λ ws. w ∷ ws) (words-line_of (g ∷ gs) h.1)

c_str-IsPlain : (w r : List ℕ) → IsPlain w → c_str (w ++ r) ≡ w ++ c_str r
unfolding c_str
c_str-IsPlain [] r h = refl
c_str-IsPlain (c ∷ w) r h = ground (arith, c_str-IsPlain w r h.2)

c_str-spaces : (n : ℕ) (r : List ℕ) → c_str (replicate n space ++ r) ≡ replicate n space ++ c_str r
unfolding c_str
c_str-spaces zero r = refl
c_str-spaces (suc n) r = ap (λ s. space ∷ s) (c_str-spaces n r)

c_str-nil : c_str [] ≡ []
unfolding c_str
c_str-nil = refl

c_str-space : (r : List ℕ) → c_str (space ∷ r) ≡ space ∷ c_str r
unfolding c_str
c_str-space r = refl

c_str-last : (w : List ℕ) → IsPlain w → c_str w ≡ w
unfolding c_str
c_str-last [] h = refl
c_str-last (c ∷ w) h = ground (arith, c_str-last w h.2)

pub c_str-line_of : (gs : List (ℕ × List ℕ)) → AllWords gs → c_str (line_of gs) ≡ line_of gs
c_str-line_of [] h = c_str-nil
c_str-line_of ((n, w) ∷ []) h =
    c_str-spaces n w ∙ ap (λ s. replicate n space ++ s) (c_str-last w h.0.1)
c_str-line_of ((n, w) ∷ g ∷ gs) h =
    c_str-spaces n (w ++ (space ∷ line_of (g ∷ gs)))
    ∙ ap (λ s. replicate n space ++ s)
        (c_str-IsPlain w (space ∷ line_of (g ∷ gs)) h.0.1
          ∙ ap (λ s. w ++ s)
              (c_str-space (line_of (g ∷ gs)) ∙ ap (λ s. space ∷ s) (c_str-line_of (g ∷ gs) h.1)))
