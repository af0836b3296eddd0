-- ===== src/Strings/Threads/Cut.antt =====
-- project4/proj4.cpp: the RANGE messages cut the mapped memory into consecutive sections, and every
-- thread answers for its own.
use cs3013_operating_systems.Prelude.{
  ℕ, zero, suc, ◌+◌, ◌-◌, ◌*◌, ◌<◌, ◌≡◌, refl, sym, ap, subst, ◌∙◌, List, [], ◌∷◌, ◌++◌, length,
  take, drop, joined, length-append, length-drop, length-take, take-append-drop, get_elem?-append,
  append-cons, append_assoc, append-nil, arith,
}
use cs3013_operating_systems.Prelude.Int.{ℤ, pos, pos_part, ◌+ℤ◌, ◌-ℤ◌, ◌*ℤ◌}
use cs3013_operating_systems.Prelude.Word.{pos-add, pos-sub, pos-mul}
use cs3013_operating_systems.Strings.Scan.{Ctype}
use cs3013_operating_systems.Strings.Files.{Result, ok}
use cs3013_operating_systems.Strings.Threads.{
  Msg, Section, empty_section, section_byte, section_loop, sumthread, range_message, range_messages,
  replies,
}
use cs3013_operating_systems.Strings.Threads.Sections.{section}
use cs3013_operating_systems.Strings.Threads.Merging.{reply}

-- `left` sections of `range` bytes, and what remains.
unfoldable pub cut : ℕ → ℕ → List ℕ → List (List ℕ)
cut range zero cs = cs ∷ []
cut range (suc left) cs = take range cs ∷ cut range left (drop range cs)

pub joined-cut : (range left : ℕ) (cs : List ℕ) → joined (cut range left cs) ≡ cs
unfolding cut
joined-cut range zero cs = append-nil cs
joined-cut range (suc left) cs =
    ap (◌++◌ (take range cs)) (joined-cut range left (drop range cs)) ∙ take-append-drop range cs

module _ (t : Ctype) (fresh : Msg) where
  section_loop_lem :
      (before cs after : List ℕ) (i : ℕ) (s : Section)
      → i ≡ length before
      → section_loop t (before ++ (cs ++ after)) (length cs) (pos i) s ≡ ok (section t s cs)
  unfolding section_loop section
  section_loop_lem before [] after i s e = refl
  section_loop_lem before (c ∷ cs) after i s e = rw (get_elem?-append before c (cs ++ after) i e) (
      subst
        (λ mem.
          section_loop t mem (length cs) (pos i +ℤ pos 1) (section_byte t s c)
          ≡ ok (section t s (c ∷ cs)))
        (sym (append-cons before c (cs ++ after)))
        (rw (pos-add i 1) (
          section_loop_lem (before ++ (c ∷ [])) cs after (i + 1) (section_byte t s c)
            (omega (arith, length-append before (c ∷ []))))))

  rounds : (a l : ℕ) → 0 < l → pos_part (pos (a + l - 1) -ℤ pos a +ℤ pos 1) ≡ l
  unfolding ◌-ℤ◌ ◌+ℤ◌
  rounds a l h = ground arith

  -- A thread that is sent the bounds of a section answers with the counters of the section.
  sumthread_lem :
      (before cs after : List ℕ)
      → 0 < length cs
      → sumthread t
          (before ++ (cs ++ after))
          (range_message fresh (pos (length before)) (pos (length before + length cs - 1)))
        ≡ ok (reply (range_message fresh (pos 0) (pos 0)) (section t empty_section cs))
  unfolding sumthread
  sumthread_lem before cs after h = rw (
    rounds (length before) (length cs) h,
    section_loop_lem before cs after (length before) empty_section refl,
  )

  sumthread_at :
      (mem before cs after : List ℕ) (from to : ℤ)
      → mem ≡ before ++ (cs ++ after)
      → from ≡ pos (length before)
      → to ≡ pos (length before + length cs - 1)
      → 0 < length cs
      → sumthread t mem (range_message fresh from to)
        ≡ ok (reply (range_message fresh (pos 0) (pos 0)) (section t empty_section cs))
  sumthread_at mem before cs after from to e f g h = rw (e, f, g) (sumthread_lem before cs after h)

  replies-cons :
      (mem : List ℕ) (m r : Msg) (ms rs : List Msg)
      → sumthread t mem m ≡ ok r
      → replies t mem ms ≡ ok rs
      → replies t mem (m ∷ ms) ≡ ok (r ∷ rs)
  unfolding replies
  replies-cons mem m r ms rs e f = rw (e, f)

  replies-nil : (mem : List ℕ) → replies t mem [] ≡ ok []
  unfolding replies
  replies-nil mem = refl

  -- The replies to the threads' messages, in their order.
  unfoldable pub answers : List (List ℕ) → List Msg
  answers [] = []
  answers (cs ∷ css) =
      reply (range_message fresh (pos 0) (pos 0)) (section t empty_section cs) ∷ answers css

  unfoldable pub last_message : ℕ → ℕ → ℕ → Msg
  last_message range n size = range_message fresh (pos (n * range)) (pos (size - 1))

  -- The same memory and the same last message, written another way.
  moved :
      (before front rest cs : List ℕ)
      → front ++ rest ≡ cs
      → (ms : List Msg) (r : Result (List Msg)) (j k range size : ℕ) → j ≡ k
      → replies t ((before ++ front) ++ rest) (ms ++ (last_message range j size ∷ [])) ≡ r
      → replies t (before ++ cs) (ms ++ (last_message range k size ∷ [])) ≡ r
  moved before front rest cs e ms r j k range size f h =
      rw (← e, ← append_assoc before front rest, ← f) h

  first_bounds :
      (i range : ℕ) → 0 < range → pos (i + 1) *ℤ pos range -ℤ pos 1 ≡ pos (i * range + range - 1)
  first_bounds i range r = rw (pos-mul (i + 1) range) (
      pos-sub ((i + 1) * range) 1 (grind arith)
      ∙ ap (λ k. pos k) (let e : (i + 1) * range - 1 ≡ i * range + range - 1 = omega arith in e))

  pub replies-cut :
      (range left i : ℕ) (before cs : List ℕ) (size : ℕ)
      → length before ≡ i * range
      → 0 < range
      → left * range < length cs
      → size ≡ length before + length cs
      → replies t
          (before ++ cs)
          (range_messages fresh (pos range) left i ++ (last_message range (i + left) size ∷ []))
        ≡ ok (answers (cut range left cs))
  unfolding range_messages answers cut last_message
  replies-cut range zero i before cs size b r l e =
      replies-cons (before ++ cs) _ _ [] []
        (sumthread_at (before ++ cs) before cs [] _ _ (ap (◌++◌ before) (sym (append-nil cs)))
          (ap (λ k. pos k) (let z : (i + 0) * range ≡ length before = omega arith in z))
          (ap (λ k. pos k) (let z : size - 1 ≡ length before + length cs - 1 = omega arith in z))
          (omega arith))
        (replies-nil (before ++ cs))
  replies-cut range (suc left) i before cs size b r l e =
      let front = take range cs in
      let rest = drop range cs in
      let len : length front ≡ range = omega (arith, length-take range cs) in
      replies-cons (before ++ cs) _ _ _ _
        (sumthread_at (before ++ cs) before front rest _ _
          (ap (◌++◌ before) (sym (take-append-drop range cs)))
          (pos-mul i range ∙ ap (λ k. pos k) (sym b))
          (first_bounds i range r
            ∙ ap (λ k. pos k)
                (let z : i * range + range - 1 ≡ length before + length front - 1 = omega arith in
                  z))
          (omega arith))
        (moved before front rest cs (take-append-drop range cs)
          (range_messages fresh (pos range) left (i + 1)) _ (i + 1 + left) (i + suc left) range size
          (omega arith)
          (replies-cut range left (i + 1) (before ++ front) rest size
            (omega (arith, length-append before front)) r (omega (arith, length-drop range cs))
            (omega (arith, length-append before front, length-drop range cs))))
