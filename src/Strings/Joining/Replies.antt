-- ===== src/Strings/Joining/Replies.antt =====
-- project4/proj4.cpp: what can be the case of one thread of `mmap_read`, its message and its reply.
use cs3013_operating_systems.Prelude.{
  ℕ, ◌≡◌, refl, subst, ◌⊎◌, inl, inr, List, [], ◌∷◌, ◌++◌, Option, none, some, ltb, if◌then◌else◌,
}
use cs3013_operating_systems.Strings.Scan.{Ctype}
use cs3013_operating_systems.Strings.Files.{ok}
use cs3013_operating_systems.Strings.Threads.{Msg, sumthread, replies}
use cs3013_operating_systems.Strings.Joining.{
  Worker, receiving, replying, exited, Parent, ranging, joining, taking, ended,
}

-- What has become of the message for a thread.
pub data Phase : Type 0 where
  unsent : Phase
  underway : Phase
  answered : Phase
  done : Phase

abbrev pub phase : Parent → ℕ → Phase
phase (ranging k) i = if ltb i k then underway else unsent
phase (joining k) i = if ltb i k then answered else underway
phase (taking k) i = if ltb i k then done else answered
phase ended i = done

module _ (t : Ctype) (mem : List ℕ) where
  abbrev pub Sums : Msg → Msg → Type 0
  Sums m r = sumthread t mem m ≡ ok r

  -- A message, its thread, and their mailbox.
  abbrev pub Holds : Phase → Msg → Worker → Option Msg → Type 0
  Holds unsent m w b = (w ≡ receiving) × (b ≡ none)
  Holds underway m w b =
      ((w ≡ receiving) × (b ≡ some m))
      ⊎ (((r : Msg) × (w ≡ replying r) × (b ≡ none) × Sums m r)
          ⊎ ((r : Msg) × (w ≡ exited) × (b ≡ some r) × Sums m r))
  Holds answered m w b = (r : Msg) × (w ≡ exited) × (b ≡ some r) × Sums m r
  Holds done m w b = (w ≡ exited) × (b ≡ none)

  -- The messages with the replies to them.
  pub data Answers : List Msg → List Msg → Type 0 where
    nothing : Answers [] []
    more : {m r : Msg} {ms rs : List Msg} → Sums m r → Answers ms rs → Answers (m ∷ ms) (r ∷ rs)

  pub Answers-snoc :
      {ms rs : List Msg} (m r : Msg)
      → Answers ms rs
      → Sums m r
      → Answers (ms ++ (m ∷ [])) (rs ++ (r ∷ []))
  Answers-snoc m r nothing e = more e nothing
  Answers-snoc m r (more f a) e = more f (Answers-snoc m r a e)

  pub Answers-replies : {ms rs : List Msg} → Answers ms rs → replies t mem ms ≡ ok rs
  unfolding replies
  Answers-replies nothing = refl
  Answers-replies (more e a) = rw (e, Answers-replies a) refl

  pub receives :
      (ph : Phase) (c m r : Msg) (w w' : Worker) (b b' : Option Msg)
      → w ≡ receiving
      → b ≡ some m
      → Sums m r
      → w' ≡ replying r
      → b' ≡ none
      → Holds ph c w b
      → Holds ph c w' b'
  receives unsent c m r w w' b b' e f g x y h = absurd cc
  receives underway c m r w w' b b' e f g x y (inl h) =
      let z : m ≡ c = cc in inr (inl (r, x, y, subst (λ q. Sums q r) z g))
  receives underway c m r w w' b b' e f g x y (inr (inl h)) = absurd cc
  receives underway c m r w w' b b' e f g x y (inr (inr h)) = absurd cc
  receives answered c m r w w' b b' e f g x y h = absurd cc
  receives done c m r w w' b b' e f g x y h = absurd cc

  pub replied :
      (ph : Phase) (c r : Msg) (w w' : Worker) (b b' : Option Msg)
      → w ≡ replying r
      → b ≡ none
      → w' ≡ exited
      → b' ≡ some r
      → Holds ph c w b
      → Holds ph c w' b'
  replied unsent c r w w' b b' e f x y h = absurd cc
  replied underway c r w w' b b' e f x y (inl h) = absurd cc
  replied underway c r w w' b b' e f x y (inr (inl (r', u, z, g))) =
      let same : r' ≡ r = cc in inr (inr (r, x, y, subst (Sums c) same g))
  replied underway c r w w' b b' e f x y (inr (inr h)) = absurd cc
  replied answered c r w w' b b' e f x y h = absurd cc
  replied done c r w w' b b' e f x y h = absurd cc

  pub joined :
      (c : Msg) (w : Worker) (b : Option Msg)
      → w ≡ exited
      → Holds underway c w b
      → Holds answered c w b
  joined c w b e (inl h) = absurd cc
  joined c w b e (inr (inl h)) = absurd cc
  joined c w b e (inr (inr h)) = h
