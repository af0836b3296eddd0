-- ===== src/Strings/Joining/Tests.antt =====
-- project4/proj4.cpp: a run of two threads, of which the second one is the first to be ready.
use cs3013_operating_systems.Prelude.{
  ℕ, ◌+◌, ◌*◌, ◌≤◌, ◌≡◌, refl, ◌⊎◌, List, [], ◌∷◌, ◌&&◌, leb, ◌==◌, if◌then◌else◌, arith,
  ℕ_discrete, subst, sym,
}
use cs3013_operating_systems.Prelude.Int.{pos}
use cs3013_operating_systems.Prelude.Word.{div_int}
use cs3013_operating_systems.Strings.Scan.{Ctype}
use cs3013_operating_systems.Strings.Threads.{Msg, range_messages, all_messages, sumthread}
use cs3013_operating_systems.Strings.Joining.{
  message_for, Run, Reach, start, later, receive, reply, send, all_sent, join, all_joined, take,
  finish,
}
use cs3013_operating_systems.Strings.Joining.Replies.{Sums}
use cs3013_operating_systems.Strings.Joining.Progress.{AllSum, Ends, Goes, steps, joined_run-Ends}

abbrev ascii : Ctype
ascii = record { isspace = λ c. c == 32; isprint = λ c. leb 32 c && leb c 126 }

-- abcde, and two zeros behind it
abbrev bytes : List ℕ
bytes = 97 ∷ 98 ∷ 99 ∷ 100 ∷ 101 ∷ 0 ∷ 0 ∷ []

abbrev blank : Msg
blank = record {
  i_from = 0;
  type = 0;
  value1 = pos 0;
  value2 = pos 0;
  value3 = pos 0;
  value4 = pos 0;
}

abbrev for_thread : ℕ → Msg
for_thread = message_for blank (pos 7) 2

-- The counts of "abc" and of "de" with the zeros.
abbrev count_of : ℕ → Msg
count_of i =
    if i == 1
    then record {
      i_from = 0;
      type = 2;
      value1 = pos 0;
      value2 = pos 3;
      value3 = pos 3;
      value4 = pos 3;
    }
    else record {
      i_from = 0;
      type = 2;
      value1 = pos 0;
      value2 = pos 2;
      value3 = pos 0;
      value4 = pos 2;
    }

first_Sums : Sums ascii bytes (for_thread 1) (count_of 1)
unfolding sumthread all_messages range_messages div_int
first_Sums = refl

second_Sums : Sums ascii bytes (for_thread 2) (count_of 2)
unfolding sumthread all_messages range_messages div_int
second_Sums = refl

both_AllSum : AllSum ascii bytes 2 for_thread
both_AllSum i h l = elim (ℕ_discrete i 1) [
  | yes e ↦
      subst (λ x. (r : Msg) × Sums ascii bytes (for_thread x) r) (sym e) (count_of 1, first_Sums)
  | no e ↦
      let two : 2 ≡ i = omega arith in
      subst (λ x. (r : Msg) × Sums ascii bytes (for_thread x) r) two (count_of 2, second_Sums)
]

second_first : (s : Run) × Reach ascii bytes 2 for_thread s
second_first = (
  _,
  later
      (later
        (later
          (later
            (later
              (later
                (later
                  (later
                    (later
                      (later
                        (later
                          (later (later start (send 1 refl (omega arith) refl))
                            (send 2 refl (omega arith) refl))
                          (receive 2 (for_thread 2) (count_of 2) (omega arith) (omega arith) refl
                            refl second_Sums))
                        (reply 2 (count_of 2) (omega arith) (omega arith) refl refl))
                      (receive 1 (for_thread 1) (count_of 1) (omega arith) (omega arith) refl refl
                        first_Sums))
                    (reply 1 (count_of 1) (omega arith) (omega arith) refl refl))
                  (all_sent 3 refl (omega arith)))
                (join 1 refl (omega arith) refl))
              (join 2 refl (omega arith) refl))
            (all_joined 3 refl (omega arith)))
          (take 1 (count_of 1) refl (omega arith) refl))
        (take 2 (count_of 2) refl (omega arith) refl))
      (finish 3 refl (omega arith)),
)

joined_run-Ends_example :
    (steps ascii bytes 2 for_thread second_first.1 ≤ 5 * 2 + 4)
    × (Ends ascii bytes 2 for_thread (all_messages blank (pos 7) 2) second_first.0
        ⊎ Goes ascii bytes 2 for_thread second_first.0)
joined_run-Ends_example =
    joined_run-Ends ascii bytes (pos 7) 2 blank (omega arith) both_AllSum second_first.0
      second_first.1
