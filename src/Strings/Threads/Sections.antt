-- ===== src/Strings/Threads/Sections.antt =====
-- project4/proj4.cpp: what `sumthread` learns of its section, against a scan of the whole file
-- that has reached the section in the state `q0`.
use cs3013_operating_systems.Prelude.{
  ℕ, ◌+◌, ◌≤◌, ◌≡◌, Bool, true, false, ◌&&◌, List, [], ◌∷◌, max, leb, ltb, arith, subst, inl, inr,
  Bool-cases,
}
use cs3013_operating_systems.Prelude.Int.{pos_part}
use cs3013_operating_systems.Strings.Scan.{Ctype, Scan, scan_byte, scan}
use cs3013_operating_systems.Strings.Scan.Count.{bit}
use cs3013_operating_systems.Strings.Threads.{Section, empty_section, section_byte}

abbrev pub FollowsBy : Bool → Scan → Section → Scan → Type 0
FollowsBy true q0 s q =
    (s.chars_at_begin ≡ s.str_length)
    × (s.max_length ≡ s.str_length)
    × (s.num_strings ≡ bit (leb 4 s.str_length))
    × (q.str_length ≡ q0.str_length + s.str_length)
    × (q.num_strings
        ≡ q0.num_strings + bit (ltb q0.str_length 4 && leb 4 (q0.str_length + s.str_length)))
    × (pos_part q.max_length ≡ max (pos_part q0.max_length) (q0.str_length + s.str_length))
FollowsBy false q0 s q =
    (s.chars_at_begin ≤ s.max_length)
    × (s.str_length ≤ s.max_length)
    × (q.str_length ≡ s.str_length)
    × (q.num_strings + bit (leb 4 q0.str_length && leb 4 s.chars_at_begin)
        ≡ q0.num_strings
          + s.num_strings
          + bit (
              leb 4 (q0.str_length + s.chars_at_begin)
              && (ltb s.chars_at_begin 4 && ltb q0.str_length 4)))
    × (pos_part q.max_length
        ≡ max (pos_part q0.max_length) (max (q0.str_length + s.chars_at_begin) s.max_length))

-- The section's counters `s` and the scan's `q`, after the same bytes of the section.
abbrev pub Follows : Scan → Section → Scan → Type 0
Follows q0 s q = FollowsBy s.is_beginning q0 s q

module _ (t : Ctype) where
  unfoldable pub section : Section → List ℕ → Section
  section s [] = s
  section s (c ∷ cs) = section (section_byte t s c) cs

  Follows-byte_begin :
      (q0 : Scan) (s : Section) (q : Scan) (c : ℕ)
      → s.is_beginning ≡ true
      → FollowsBy true q0 s q
      → Follows q0 (section_byte t s c) (scan_byte t q c)
  unfolding section_byte scan_byte
  Follows-byte_begin q0 s q c b f = ground arith

  Follows-byte_later :
      (q0 : Scan) (s : Section) (q : Scan) (c : ℕ)
      → s.is_beginning ≡ false
      → FollowsBy false q0 s q
      → Follows q0 (section_byte t s c) (scan_byte t q c)
  unfolding section_byte scan_byte
  Follows-byte_later q0 s q c b f = ground arith

  Follows-byte :
      (q0 : Scan) (s : Section) (q : Scan) (c : ℕ)
      → Follows q0 s q
      → Follows q0 (section_byte t s c) (scan_byte t q c)
  Follows-byte q0 s q c f = elim (Bool-cases s.is_beginning) [
    | inl e ↦ Follows-byte_begin q0 s q c e (subst (λ b. FollowsBy b q0 s q) e f)
    | inr e ↦ Follows-byte_later q0 s q c e (subst (λ b. FollowsBy b q0 s q) e f)
  ]

  Follows-bytes :
      (q0 : Scan) (s : Section) (q : Scan) (cs : List ℕ)
      → Follows q0 s q
      → Follows q0 (section s cs) (scan t q cs)
  unfolding section scan
  Follows-bytes q0 s q [] f = f
  Follows-bytes q0 s q (c ∷ cs) f =
      Follows-bytes q0 (section_byte t s c) (scan_byte t q c) cs (Follows-byte q0 s q c f)

  pub Follows-section :
      (q0 : Scan) (cs : List ℕ)
      → q0.str_length ≤ pos_part q0.max_length
      → Follows q0 (section empty_section cs) (scan t q0 cs)
  Follows-section q0 cs h = Follows-bytes q0 empty_section q0 cs (ground arith)
