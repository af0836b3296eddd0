-- ===== src/Strings/Threads/Correct.antt =====
-- project4/proj4.cpp: `mmap_read` with threads prints what `mmap_regular_read` prints, where the
-- parent sees each section for what it is.
use cs3013_operating_systems.Prelude.{
  ℕ, zero, suc, ◌+◌, ◌-◌, ◌*◌, ◌/◌, ◌≤◌, ◌<◌, ◌≡◌, refl, ap, subst, inl, List, [], ◌∷◌, ◌++◌,
  length, take, drop, joined, arith,
}
use cs3013_operating_systems.Prelude.Int.{ℤ, pos, negsuc, pos_part, neg_part}
use cs3013_operating_systems.Prelude.Word.{to_int_lem, div_int-pos, pos-sub, pos-mul}
use cs3013_operating_systems.Strings.Scan.{Ctype, Scan, scan}
use cs3013_operating_systems.Strings.Scan.Append.{scan-append, scan-nil}
use cs3013_operating_systems.Strings.Files.{FileEnv, ok}
use cs3013_operating_systems.Strings.Reading.{Reading, mmap_regular_read}
use cs3013_operating_systems.Strings.Reading.Direct.{start, Mapped, mmap_regular_read-scan}
use cs3013_operating_systems.Strings.Threads.{
  Msg, empty_section, range_message, range_messages, all_messages, replies, Merge, merge_step,
  merge_all, Merged, mmap_read,
}
use cs3013_operating_systems.Strings.Threads.Sections.{section, Follows-section}
use cs3013_operating_systems.Strings.Threads.Merging.{
  reply, Agrees, IsClear, merge_step-Agrees, merge_step-nonneg,
}
use cs3013_operating_systems.Strings.Threads.Cut.{
  cut, joined-cut, answers, last_message, replies-cut,
}

-- The parent sees every section for what it is.
abbrev pub AllClear : Ctype → List (List ℕ) → Type 0
AllClear t [] = Unit
AllClear t (cs ∷ css) = IsClear (section t empty_section cs) × AllClear t css

-- `mmap_read` with `n` threads and `mmap_regular_read` both return; they agree on the size and the
-- number of strings, and on the greatest length but for -1, which becomes 0.
pub record SameAsDirect (t : Ctype) (fresh : Msg) (env : FileEnv) (n : ℕ) : Type 0 where
  pub merged : Merged
  pub direct : Reading
  pub returns : mmap_read t env fresh n (negsuc 0) ≡ ok merged
  pub returns_direct : mmap_regular_read t env start ≡ ok direct
  pub size : merged.file_size ≡ direct.file_size
  pub strings : merged.num_strings ≡ pos direct.counters.num_strings
  pub longest_run : merged.max_length ≡ pos (pos_part direct.counters.max_length)

nonneg_eq : (a b : ℤ) → neg_part a ≡ 0 → pos_part a ≡ pos_part b → a ≡ pos (pos_part b)
nonneg_eq a b h e = ground arith

section_size : (n size : ℕ) → 0 < n → n ≤ size → (0 < size / n) × ((n - 1) * (size / n) < size)
section_size n size p h = (grind arith, grind arith)

module _ (t : Ctype) (fresh : Msg) where
  -- The parent's variables after the reply for the section `cs`.
  abbrev after : Merge → List ℕ → Merge
  after m cs =
      merge_step m (reply (range_message fresh (pos 0) (pos 0)) (section t empty_section cs))

  after-Agrees :
      (m : Merge) (q : Scan) (cs : List ℕ)
      → Agrees m q
      → IsClear (section t empty_section cs)
      → Agrees (after m cs) (scan t q cs)
  after-Agrees m q cs a c =
      merge_step-Agrees m q (scan t q cs) (section t empty_section cs)
        (range_message fresh (pos 0) (pos 0)) a c (Follows-section t q cs a.bounded)

  merge_answers :
      (m : Merge) (q : Scan) (css : List (List ℕ))
      → Agrees m q
      → AllClear t css
      → Agrees (merge_all m (answers t fresh css)) (scan t q (joined css))
  unfolding merge_all answers
  merge_answers m q [] a c = rw (scan-nil t q) a
  merge_answers m q (cs ∷ css) a c =
      rw (scan-append t q cs (joined css))
        (merge_answers (after m cs) (scan t q cs) css (after-Agrees m q cs a c.0) c.1)

  merge_answers-nonneg :
      (m : Merge) (q : Scan) (css : List (List ℕ))
      → Agrees m q
      → AllClear t css
      → neg_part m.max_length ≡ 0
      → neg_part (merge_all m (answers t fresh css)).max_length ≡ 0
  unfolding merge_all answers
  merge_answers-nonneg m q [] a c h = h
  merge_answers-nonneg m q (cs ∷ css) a c h =
      merge_answers-nonneg (after m cs) (scan t q cs) css (after-Agrees m q cs a c.0) c.1 (
        merge_step-nonneg m (section t empty_section cs) (range_message fresh (pos 0) (pos 0))
          (ap neg_part a.end))

  -- There is at least one section, so `max_length` does not stay at -1.
  merge_cut-nonneg :
      (m : Merge) (q : Scan) (range left : ℕ) (bytes : List ℕ)
      → Agrees m q
      → AllClear t (cut range left bytes)
      → neg_part (merge_all m (answers t fresh (cut range left bytes))).max_length ≡ 0
  unfolding merge_all answers cut
  merge_cut-nonneg m q range zero bytes a c =
      merge_step-nonneg m (section t empty_section bytes) (range_message fresh (pos 0) (pos 0))
        (ap neg_part a.end)
  merge_cut-nonneg m q range (suc left) bytes a c =
      merge_answers-nonneg (after m (take range bytes)) (scan t q (take range bytes))
        (cut range left (drop range bytes)) (after-Agrees m q (take range bytes) a c.0) c.1
        (merge_step-nonneg m (section t empty_section (take range bytes))
          (range_message fresh (pos 0) (pos 0)) (ap neg_part a.end))

  all_messages_lem :
      (size n : ℕ)
      → 0 < size
      → all_messages fresh (pos size) n
        ≡ range_messages fresh (pos (size / n)) (n - 1) 0
          ++ (last_message t fresh (size / n) (n - 1) size ∷ [])
  unfolding all_messages last_message
  all_messages_lem size n h = rw (div_int-pos size n, pos-mul (n - 1) (size / n), pos-sub size 1 h)

  all_replies :
      (bytes : List ℕ) (n : ℕ)
      → 0 < n
      → n ≤ length bytes
      → replies t bytes (all_messages fresh (pos (length bytes)) n)
        ≡ ok (answers t fresh (cut (length bytes / n) (n - 1) bytes))
  all_replies bytes n p h = rw (all_messages_lem (length bytes) n (omega arith)) (
      let (r, l) = section_size n (length bytes) p h in
      subst
        (λ k.
          replies t bytes (
            range_messages fresh (pos (length bytes / n)) (n - 1) 0
            ++ (last_message t fresh (length bytes / n) k (length bytes) ∷ []))
          ≡ ok (answers t fresh (cut (length bytes / n) (n - 1) bytes)))
        (let z : 0 + (n - 1) ≡ n - 1 = omega arith in z)
        (replies-cut t fresh (length bytes / n) (n - 1) 0 [] bytes (length bytes) (omega arith) r l
          (omega arith)))

  -- The parent's variables before its loop, as `main` calls it.
  abbrev merge_start : Merge
  merge_start = record {
    num_strings = pos 0;
    max_length = negsuc 0;
    length_end = pos 0;
    previous_end = pos 0;
  }

  start-Agrees : Agrees merge_start start
  start-Agrees = record {
    previous = 0;
    strings = refl;
    top = refl;
    end = refl;
    previous_eq = refl;
    near = inl refl;
    bounded = omega arith;
  }

  -- Where the file is mapped whole and has at least as many bytes as there are threads, `mmap_read`
  -- with `n` threads succeeds, and gives the file size, the number of strings and the greatest length
  -- that `mmap_regular_read` gives, save that the greatest length is 0 and not -1 on a file without
  -- text. This is on the condition that every section is clear to the parent: it is one run of text
  -- of at least four bytes, or it has a byte that is no text, and does not pass the parent's test
  -- for a run: to begin and end with equally much text, not none, and to hold at most one string.
  pub mmap_read-eq-mmap_regular_read :
      (env : FileEnv) (n : ℕ)
      → Mapped env
      → 0 < n
      → n ≤ env.st_size
      → AllClear t (cut (env.st_size / n) (n - 1) env.bytes)
      → SameAsDirect t fresh env n
  unfolding mmap_read
  mmap_read-eq-mmap_regular_read env n m p h c =
      let css = cut (env.st_size / n) (n - 1) env.bytes in
      let end = merge_all merge_start (answers t fresh css) in
      let a : Agrees end (scan t start env.bytes) =
        subst (λ bs. Agrees end (scan t start bs)) (joined-cut (env.st_size / n) (n - 1) env.bytes)
          (merge_answers merge_start start css start-Agrees c) in
      let sized : replies t env.bytes (all_messages fresh (pos env.st_size) n)
          ≡ ok (answers t fresh css) =
        subst
          (λ k.
            replies t env.bytes (all_messages fresh (pos k) n)
            ≡ ok (answers t fresh (cut (k / n) (n - 1) env.bytes)))
          m.whole (all_replies env.bytes n p (omega arith)) in
      record {
        merged = record {
          file_size = pos env.st_size;
          num_strings = end.num_strings;
          max_length = end.max_length;
        };
        direct = record { file_size = pos env.st_size; counters = scan t start env.bytes };
        returns =
            rw (m.opened, m.has_size, to_int_lem env.st_size m.fits, m.mapped, sized, m.unmapped);
        returns_direct = mmap_regular_read-scan t env start m;
        size = refl;
        strings = a.strings;
        longest_run =
            nonneg_eq end.max_length (scan t start env.bytes).max_length
              (merge_cut-nonneg merge_start start (env.st_size / n) (n - 1) env.bytes start-Agrees
                c)
              a.top;
      }
