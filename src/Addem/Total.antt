-- ===== src/Addem/Total.antt =====
-- project3/addem.cpp: the total is the sum of the numbers up to the limit, for every number of
-- threads and every order of arrival.
use native.Mathlib.Nat.{add-zero, zero-add, zero-mul}
use native.Mathlib.Numerals.{add-one}
use cs3013_operating_systems.Prelude.{
  ℕ, zero, suc, ◌+◌, ◌-◌, ◌*◌, ◌/◌, ◌^◌, ◌≤◌, ◌<◌, ◌≡◌, refl, sym, ap, subst, ◌∙◌, List, [], ◌∷◌,
  ◌++◌, map, map-append, arith,
}
use cs3013_operating_systems.Prelude.Totals.{total, total-append}
use cs3013_operating_systems.Prelude.Int.{ℤ, pos, pos_part, neg_part, ◌+ℤ◌, ◌-ℤ◌, ◌*ℤ◌}
use cs3013_operating_systems.Prelude.Word.{div_int-pos, add_int-pos, pos-add, pos-mul}
use cs3013_operating_systems.Addem.{
  Msg, sum_loop, sumthread, range_message, range_messages, replies, full_sum,
}

-- 1 + 2 + ... + n
unfoldable pub triangle : ℕ → ℕ
triangle zero = 0
triangle (suc n) = triangle n + suc n

-- A weight of messages, added up.
abbrev pub gives : Msg → ℕ
gives m = pos_part m.value1

abbrev pub owes : Msg → ℕ
owes m = neg_part m.value1

pos_of : (a : ℤ) → neg_part a ≡ 0 → a ≡ pos (pos_part a)
pos_of a h = ground arith

pub full_sum_lem :
    (a : ℕ) (ms : List Msg)
    → total owes ms ≡ 0
    → a + total gives ms < 2 ^ 31
    → full_sum (pos a) ms ≡ pos (a + total gives ms)
unfolding full_sum total
full_sum_lem a [] z h = ap (λ k. pos k) (let e : a ≡ a + 0 = omega arith in e)
full_sum_lem a (m ∷ ms) z h =
    let n : neg_part m.value1 ≡ 0 = omega arith in
    rw (pos_of m.value1 n, add_int-pos a (gives m) (omega arith))
      (full_sum_lem (a + gives m) ms (omega arith) (omega arith)
        ∙ ap (λ k. pos k)
            (let e : a + gives m + total gives ms ≡ a + (gives m + total gives ms) = omega arith in
              e))

triangle-zero : triangle 0 ≡ 0
unfolding triangle
triangle-zero = refl

triangle-suc : (n : ℕ) → triangle (n + 1) ≡ triangle n + n + 1
unfolding triangle
triangle-suc n = rw add-one (omega arith)

triangle_mono : (a k : ℕ) → triangle a ≤ triangle (a + k)
triangle_mono a zero = rw add-zero (omega arith)
triangle_mono a (suc k) =
    let e : a + suc k ≡ a + k + 1 = omega arith in
    rw e (omega (arith, triangle-suc (a + k), triangle_mono a k))

-- From `a + 1` on, `left` rounds add up what lies between the two triangular numbers.
sum_loop_lem :
    (left a s r : ℕ)
    → r + triangle a ≡ s + triangle (a + left)
    → r < 2 ^ 31
    → sum_loop left (pos (a + 1)) (pos s) ≡ pos r
unfolding sum_loop
sum_loop_lem zero a s r e h =
    ap (λ k. pos k) (let f : s ≡ r = omega (arith, ap triangle (add-zero a)) in f)
sum_loop_lem (suc left) a s r e h =
    let n : a + suc left ≡ a + 1 + left = omega arith in
    let t = triangle-suc a in
    let m = triangle_mono (a + 1) left in
    let e' = e ∙ ap (λ k. s + triangle k) n in
    rw (add_int-pos s (a + 1) (omega arith), pos-add (a + 1) 1)
      (sum_loop_lem left (a + 1) (s + (a + 1)) r (omega arith) h)

rounds_lem : (a b : ℕ) → a ≤ b → pos_part (pos b -ℤ pos (a + 1) +ℤ pos 1) ≡ b - a
unfolding ◌-ℤ◌ ◌+ℤ◌
rounds_lem a b h = ground arith

module _ (fresh : Msg) where
  -- A thread that is sent `a + 1` and `b` answers with the sum of the numbers between.
  sumthread_lem :
      (a b r : ℕ)
      → a ≤ b
      → r + triangle a ≡ triangle b
      → r < 2 ^ 31
      → (sumthread (range_message fresh (pos (a + 1)) (pos b))).value1 ≡ pos r
  unfolding sumthread
  sumthread_lem a b r h e f =
      let n : b ≡ a + (b - a) = omega arith in
      rw (rounds_lem a b h) (
        sum_loop_lem (b - a) a 0 r
          (e
            ∙ ap triangle n
            ∙ (let z : triangle (a + (b - a)) ≡ 0 + triangle (a + (b - a)) = omega arith in z))
          f)

  thread_at :
      (i k range : ℕ) (to : ℤ) (b : ℕ)
      → to ≡ pos b
      → b ≡ i * range + k
      → triangle b < 2 ^ 31
      → (sumthread (range_message fresh (pos i *ℤ pos range +ℤ pos 1) to)).value1
        ≡ pos (triangle b - triangle (i * range))
  thread_at i k range to b e f h =
      let m : triangle (i * range) ≤ triangle b =
        subst (λ x. triangle (i * range) ≤ triangle x) (sym f) (triangle_mono (i * range) k) in
      rw (e, pos-mul i range, pos-add (i * range) 1)
        (sumthread_lem (i * range) b (triangle b - triangle (i * range)) (omega arith) (omega arith)
          (omega arith))

  -- What the first `left` threads from `i` on contribute.
  first_threads :
      (range left i : ℕ)
      → triangle ((i + left) * range) < 2 ^ 31
      → (total gives (map sumthread (range_messages fresh (pos range) left i))
            + triangle (i * range)
          ≡ triangle ((i + left) * range))
        × (total owes (map sumthread (range_messages fresh (pos range) left i)) ≡ 0)
  unfolding total range_messages
  first_threads range zero i h = (omega (arith, ap (λ k. triangle (k * range)) (add-zero i)), refl)
  first_threads range (suc left) i h =
      let n : (i + suc left) * range ≡ (i + 1 + left) * range = omega arith in
      let up : (i + 1 + left) * range ≡ (i + 1) * range + left * range = omega arith in
      let one : (i + 1) * range ≡ i * range + range = omega arith in
      let m1 = triangle_mono ((i + 1) * range) (left * range) in
      let m0 = triangle_mono (i * range) range in
      let a = ap triangle n in
      let b = ap triangle up in
      let c = ap triangle one in
      let rest = first_threads range left (i + 1) (omega arith) in
      let t =
        thread_at i range range (pos (i + 1) *ℤ pos range) ((i + 1) * range) (pos-mul (i + 1) range)
          one (omega arith) in
      (omega (arith, ap pos_part t, rest.0), omega (arith, ap neg_part t, rest.1))

  -- The last message of the parent.
  last_reply : ℕ → ℕ → ℕ → Msg
  last_reply range k n = sumthread (range_message fresh (pos k *ℤ pos range +ℤ pos 1) (pos n))

  replies_lem :
      (n limit : ℕ)
      → replies fresh (pos limit) n
        ≡ map sumthread (range_messages fresh (pos (limit / n)) (n - 1) 0)
          ++ (last_reply (limit / n) (n - 1) limit ∷ [])
  unfolding replies last_reply
  replies_lem n limit = rw (div_int-pos limit n) (
      map-append sumthread (range_messages fresh (pos (limit / n)) (n - 1) 0)
        (range_message fresh (pos (n - 1) *ℤ pos (limit / n) +ℤ pos 1) (pos limit) ∷ []))

  last_room : (n limit : ℕ) → 0 < n → (n - 1) * (limit / n) ≤ limit
  last_room n limit p = grind arith

  pub replies-total :
      (n limit : ℕ)
      → 0 < n
      → triangle limit < 2 ^ 31
      → (total gives (replies fresh (pos limit) n) ≡ triangle limit)
        × (total owes (replies fresh (pos limit) n) ≡ 0)
  unfolding total last_reply
  replies-total n limit p h =
      let range = limit / n in
      let k = n - 1 in
      let room = last_room n limit p in
      let split : limit ≡ k * range + (limit - k * range) = omega arith in
      let most = triangle_mono (k * range) (limit - k * range) in
      let same = ap triangle split in
      let zero_k = ap (λ (x : ℕ). triangle (x * range)) (zero-add k) in
      let none : triangle (0 * range) ≡ 0 = ap triangle (zero-mul range) ∙ triangle-zero in
      let firsts = first_threads range k 0 (omega arith) in
      let t = thread_at k (limit - k * range) range (pos limit) limit refl split h in
      rw (replies_lem n limit) (
        omega (
          arith,
          total-append gives (map sumthread (range_messages fresh (pos range) k 0))
              (last_reply range k limit ∷ []),
          ap pos_part t,
          firsts.0,
        ),
        omega (
          arith,
          total-append owes (map sumthread (range_messages fresh (pos range) k 0))
              (last_reply range k limit ∷ []),
          ap neg_part t,
          firsts.1,
        ),
      )
