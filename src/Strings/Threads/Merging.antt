-- ===== src/Strings/Threads/Merging.antt =====
-- project4/proj4.cpp: one round of the parent's loop in `mmap_read` carries the result of a scan
-- over one more section.
use cs3013_operating_systems.Prelude.{
  ℕ, ◌≤◌, ◌<◌, ◌≡◌, refl, ◌⊎◌, inl, inr, true, false, arith, subst, Bool-cases,
}
use cs3013_operating_systems.Prelude.Int.{ℤ, pos, pos_part, neg_part, ◌+ℤ◌}
use cs3013_operating_systems.Strings.Scan.{Scan}
use cs3013_operating_systems.Strings.Threads.{
  Msg, Section, alldone_type, Merge, is_whole, merge_whole, merge_mixed, merge_step, max_ℤ,
}
use cs3013_operating_systems.Strings.Threads.Sections.{FollowsBy, Follows}

-- What `sumthread` sends back.
abbrev pub reply : Msg → Section → Msg
reply message s = record message {
  type = alldone_type;
  value1 = pos s.num_strings;
  value2 = pos s.chars_at_begin;
  value3 = pos s.str_length;
  value4 = pos s.max_length;
}

-- The parent's variables `m` stand for a scan that has reached `q`. `previous_end` is exact below
-- four, and else only known to be four or more.
pub record Agrees (m : Merge) (q : Scan) : Type 0 where
  pub previous : ℕ
  pub strings : m.num_strings ≡ pos q.num_strings
  pub top : pos_part m.max_length ≡ pos_part q.max_length
  pub end : m.length_end ≡ pos q.str_length
  pub previous_eq : m.previous_end ≡ pos previous
  pub near : (previous ≡ q.str_length) ⊎ ((4 ≤ previous) × (4 ≤ q.str_length))
  pub bounded : q.str_length ≤ pos_part q.max_length

-- The parent sees the section for what it is: one run of at least four bytes, or one with a byte
-- that is no text and that does not pass its test for a run.
abbrev pub IsClear : Section → Type 0
IsClear s =
    (s.is_beginning ≡ true) × (4 ≤ s.str_length)
    ⊎ (s.is_beginning ≡ false)
      × (((s.chars_at_begin ≡ s.str_length) × (s.num_strings ≤ 1) × (0 < s.chars_at_begin)) → ⊥)

module _ (m : Merge) (q0 q : Scan) (s : Section) (message : Msg) (a : Agrees m q0) where
  open a use {previous, strings, top, end, previous_eq, near, bounded}

  whole_test :
      s.is_beginning ≡ true
      → 4 ≤ s.str_length
      → FollowsBy true q0 s q
      → is_whole (reply message s) ≡ true
  whole_test b l f = ground arith

  mixed_test :
      (((s.chars_at_begin ≡ s.str_length) × (s.num_strings ≤ 1) × (0 < s.chars_at_begin)) → ⊥)
      → is_whole (reply message s) ≡ false
  mixed_test h = ground arith

  merge_whole-strings :
      4 ≤ s.str_length
      → FollowsBy true q0 s q
      → (merge_whole m (reply message s)).num_strings ≡ pos q.num_strings
  unfolding merge_whole
  merge_whole-strings l f = ground arith

  merge_whole-Agrees :
      4 ≤ s.str_length → FollowsBy true q0 s q → Agrees (merge_whole m (reply message s)) q
  unfolding merge_whole
  merge_whole-Agrees l f = record {
    previous = s.str_length;
    strings = merge_whole-strings l f;
    top = ground arith;
    end = ground arith;
    previous_eq = refl;
    near = ground arith;
    bounded = ground arith;
  }

  merge_mixed-strings :
      FollowsBy false q0 s q → (merge_mixed m (reply message s)).num_strings ≡ pos q.num_strings
  unfolding merge_mixed
  merge_mixed-strings f = ground arith

  merge_mixed-Agrees : FollowsBy false q0 s q → Agrees (merge_mixed m (reply message s)) q
  unfolding merge_mixed
  merge_mixed-Agrees f = record {
    previous = s.str_length;
    strings = merge_mixed-strings f;
    top = ground arith;
    end = ground arith;
    previous_eq = refl;
    near = ground arith;
    bounded = ground arith;
  }

  -- One round of the loop, on the reply of a section that the parent sees for what it is.
  pub merge_step-Agrees : IsClear s → Follows q0 s q → Agrees (merge_step m (reply message s)) q
  unfolding merge_step
  merge_step-Agrees (inl (b, l)) f =
      let g = subst (λ x. FollowsBy x q0 s q) b f in rw (whole_test b l g) (merge_whole-Agrees l g)
  merge_step-Agrees (inr (b, h)) f =
      rw (mixed_test h) (merge_mixed-Agrees (subst (λ x. FollowsBy x q0 s q) b f))

max_ℤ-nonneg : (a b : ℤ) → neg_part a ≡ 0 → neg_part (max_ℤ a b) ≡ 0
max_ℤ-nonneg a b h = ground arith

max_ℤ-nonneg_right : (a b : ℤ) → neg_part b ≡ 0 → neg_part (max_ℤ a b) ≡ 0
max_ℤ-nonneg_right a b h = ground arith

add-nonneg : (a : ℤ) (k : ℕ) → neg_part a ≡ 0 → neg_part (a +ℤ pos k) ≡ 0
unfolding ◌+ℤ◌
add-nonneg a k h = ground arith

-- Every round leaves `max_length` at 0 or more.
pub merge_step-nonneg :
    (m : Merge) (s : Section) (message : Msg)
    → neg_part m.length_end ≡ 0
    → neg_part (merge_step m (reply message s)).max_length ≡ 0
unfolding merge_step merge_whole merge_mixed
merge_step-nonneg m s message h = elim (Bool-cases (is_whole (reply message s))) [
  | inl e ↦ rw e (max_ℤ-nonneg _ m.max_length (add-nonneg m.length_end s.chars_at_begin h))
  | inr e ↦ rw e (
      max_ℤ-nonneg _ m.max_length
        (max_ℤ-nonneg_right (m.length_end +ℤ pos s.chars_at_begin) (pos s.max_length) refl))
]

lost :
    (m : Merge) (q0 q : Scan) (s : Section) (message : Msg)
    → Agrees m q0
    → FollowsBy false q0 s q
    → s.chars_at_begin ≡ s.str_length
    → 0 < s.chars_at_begin
    → s.chars_at_begin < 4
    → s.num_strings ≤ 1
    → 4 ≤ q0.str_length
    → (merge_whole m (reply message s)).num_strings +ℤ pos 1 ≡ pos q.num_strings
unfolding merge_whole
lost m q0 q s message a g e l u n p = ground arith

-- A section with a byte that is no text is taken for a run where it begins and ends with equally
-- much text and has at most one string. If that is less than four bytes and the text before the
-- section is a string, the parent counts one string too few.
pub ambiguous_section-loses_string :
    (m : Merge) (q0 q : Scan) (s : Section) (message : Msg)
    → Agrees m q0
    → Follows q0 s q
    → s.is_beginning ≡ false
    → s.chars_at_begin ≡ s.str_length
    → 0 < s.chars_at_begin
    → s.chars_at_begin < 4
    → s.num_strings ≤ 1
    → 4 ≤ q0.str_length
    → (merge_step m (reply message s)).num_strings +ℤ pos 1 ≡ pos q.num_strings
unfolding merge_step
ambiguous_section-loses_string m q0 q s message a f b e l u n p =
    let g = subst (λ x. FollowsBy x q0 s q) b f in
    let w : is_whole (reply message s) ≡ true = ground arith in
    rw w (lost m q0 q s message a g e l u n p)
