-- ===== src/Prelude/Strtok.antt =====
-- The C library's `strtok`, with any set of separators: it yields the words of a string.
use cs3013_operating_systems.Prelude.{
  ℕ, ◌<◌, ◌≤◌, ◌≡◌, refl, sym, Bool, false, List, [], ◌∷◌, Option, none, some, length,
  if◌then◌else◌, arith, Bool-cases, inl, inr,
}

-- The bytes before the first separator, and the words behind it.
pub record Parts : Type 0 where
  pub first : List ℕ
  pub others : List (List ℕ)

abbrev pub all_words : Parts → List (List ℕ)
all_words p = elim p.first [ [] ↦ p.others | c ∷ s ↦ (c ∷ s) ∷ p.others ]

module _ (sep : ℕ → Bool) where
  -- What `strtok` does: it skips separators, and cuts at the next one.
  unfoldable pub skip_separators : List ℕ → List ℕ
  skip_separators [] = []
  skip_separators (c ∷ s) = let rest = skip_separators s in if sep c then rest else c ∷ s

  unfoldable pub token_of : List ℕ → List ℕ
  token_of [] = []
  token_of (c ∷ s) = let rest = token_of s in if sep c then [] else c ∷ rest

  unfoldable pub after_token : List ℕ → List ℕ
  after_token [] = []
  after_token (c ∷ s) = let rest = after_token s in if sep c then s else rest

  abbrev pub cut_token : List ℕ → Option (List ℕ × List ℕ)
  cut_token [] = none
  cut_token (c ∷ r) = some (token_of (c ∷ r), after_token (c ∷ r))

  -- NULL, or a token and where the next call goes on.
  unfoldable pub strtok : List ℕ → Option (List ℕ × List ℕ)
  unfolding skip_separators token_of after_token
  strtok s = cut_token (skip_separators s)

  unfoldable pub parts : List ℕ → Parts
  parts [] = record { first = []; others = [] }
  parts (c ∷ s) =
      let p = parts s in
      if sep c
      then record { first = []; others = all_words p }
      else record p { first = c ∷ p.first }

  -- The longest stretches of a string that have no separator.
  unfoldable pub words : List ℕ → List (List ℕ)
  unfolding parts
  words s = all_words (parts s)

  first-token_of : (s : List ℕ) → (parts s).first ≡ token_of s
  unfolding parts token_of
  first-token_of [] = refl
  first-token_of (c ∷ s) = ground (arith, first-token_of s)

  others-after_token : (s : List ℕ) → (parts s).others ≡ words (after_token s)
  unfolding parts words after_token
  others-after_token [] = refl
  others-after_token (c ∷ s) = ground (arith, others-after_token s)

  words-skip_separators : (s : List ℕ) → words (skip_separators s) ≡ words s
  unfolding skip_separators words parts
  words-skip_separators [] = refl
  words-skip_separators (c ∷ s) = ground (arith, words-skip_separators s)

  length-after_token : (s : List ℕ) → length (after_token s) ≤ length s
  unfolding after_token
  length-after_token [] = omega arith
  length-after_token (c ∷ s) = ground (arith, length-after_token s)

  length-skip_separators : (s : List ℕ) → length (skip_separators s) ≤ length s
  unfolding skip_separators
  length-skip_separators [] = omega arith
  length-skip_separators (c ∷ s) = ground (arith, length-skip_separators s)

  -- No separator stands at the front.
  abbrev Starts : List ℕ → Type 0
  Starts [] = Unit
  Starts (c ∷ s) = sep c ≡ false

  skip_separators-Starts : (s : List ℕ) → Starts (skip_separators s)
  unfolding skip_separators
  skip_separators-Starts [] = tt
  skip_separators-Starts (c ∷ s) = elim (Bool-cases (sep c)) [
    | inl e ↦ rw e (skip_separators-Starts s)
    | inr e ↦ rw e (ground arith)
  ]

  -- NULL where there is no word, and else the first word and a rest with the others.
  abbrev pub Tokens : List ℕ → Option (List ℕ × List ℕ) → Type 0
  Tokens s none = words s ≡ []
  Tokens s (some (t, r)) = (words s ≡ t ∷ words r) × (length r < length s)

  cut_token-Tokens :
      (u s : List ℕ) → Starts u → words u ≡ words s → length u ≤ length s → Tokens s (cut_token u)
  unfolding words parts token_of after_token
  cut_token-Tokens [] s n e h = sym e
  cut_token-Tokens (c ∷ r) s n e h =
      ground (arith, first-token_of r, others-after_token r, length-after_token r)

  pub strtok-Tokens : (s : List ℕ) → Tokens s (strtok s)
  unfolding strtok
  strtok-Tokens s =
      cut_token-Tokens (skip_separators s) s (skip_separators-Starts s) (words-skip_separators s)
        (length-skip_separators s)
