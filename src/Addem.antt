-- ===== src/Addem.antt =====
-- project3/addem.cpp: threads that add up the numbers from 1 to a limit, each over its own range.
-- The messages travel as `Mailbox` says.
pub mod Total
pub mod Correct
mod Tests
use cs3013_operating_systems.Prelude.{
  ℕ, zero, suc, ◌+◌, ◌-◌, List, [], ◌∷◌, ◌++◌, map, ◌==◌, if◌then◌else◌, Bool, true, false,
}
use cs3013_operating_systems.Prelude.Int.{ℤ, pos, pos_part, ltb_ℤ, ◌+ℤ◌, ◌-ℤ◌, ◌*ℤ◌}
use cs3013_operating_systems.Prelude.Word.{div_int, add_int}

abbrev pub max_thread : ℕ
max_thread = 10

abbrev pub range_type : ℕ
range_type = 1

abbrev pub alldone_type : ℕ
alldone_type = 2

pub record Msg : Type 0 where
  pub i_from : ℕ
  pub type : ℕ
  pub value1 : ℤ
  pub value2 : ℤ

-- The loop of `sumthread`, with `left` rounds to go.
unfoldable pub sum_loop : ℕ → ℤ → ℤ → ℤ
unfolding add_int
sum_loop zero value sum = sum
sum_loop (suc left) value sum = sum_loop left (value +ℤ pos 1) (add_int sum value)

-- What the thread sends to the parent.
unfoldable pub sumthread : Msg → Msg
unfolding sum_loop ◌-ℤ◌
sumthread message = record message {
  type = alldone_type;
  value1 = sum_loop (pos_part (message.value2 -ℤ message.value1 +ℤ pos 1)) message.value1 (pos 0);
}

abbrev pub range_message : Msg → ℤ → ℤ → Msg
range_message fresh from to = record fresh {
  i_from = 0;
  type = range_type;
  value1 = from;
  value2 = to;
}

-- `left` more of the first `numberOfThreads - 1` messages, from thread `i` on. `fresh` is the local
-- `msg` before it is filled in.
unfoldable pub range_messages : Msg → ℤ → ℕ → ℕ → List Msg
unfolding ◌*ℤ◌ ◌+ℤ◌
range_messages fresh range zero i = []
range_messages fresh range (suc left) i =
    range_message fresh (pos i *ℤ range +ℤ pos 1) (pos (i + 1) *ℤ range)
    ∷ range_messages fresh range left (i + 1)

unfoldable pub all_messages : Msg → ℤ → ℕ → List Msg
unfolding range_messages div_int
all_messages fresh max_value n =
    let range = div_int max_value n in
    range_messages fresh range (n - 1) 0
    ++ (range_message fresh (pos (n - 1) *ℤ range +ℤ pos 1) max_value ∷ [])

-- The messages that the threads send to the parent, in the order of the threads.
unfoldable pub replies : Msg → ℤ → ℕ → List Msg
unfolding all_messages sumthread
replies fresh max_value n = map sumthread (all_messages fresh max_value n)

-- The parent adds up what arrives, whatever its type; only a message is printed for another type.
unfoldable pub full_sum : ℤ → List Msg → ℤ
unfolding add_int
full_sum sum [] = sum
full_sum sum (m ∷ ms) = full_sum (add_int sum m.value1) ms

-- How `main` ends. `prints` has the limit, the number of threads and the total.
pub data Outcome : Type 0 where
  invalid_input : Outcome
  no_threads : Outcome
  too_many_threads : Outcome
  prints : ℤ → ℤ → ℤ → Outcome

-- `atoi` is the C library's; `arrivals` the order in which the parent receives the replies.
unfoldable pub main : (List ℕ → ℤ) → Msg → (List Msg → List Msg) → List (List ℕ) → Outcome
unfolding replies full_sum
main atoi fresh arrivals (a ∷ b ∷ []) =
    let n = atoi a in
    let max_value = atoi b in
    if ltb_ℤ n (pos 1)
    then no_threads
    else if ltb_ℤ (pos max_thread) n
    then too_many_threads
    else prints max_value n (full_sum (pos 0) (arrivals (replies fresh max_value (pos_part n))))
main atoi fresh arrivals _ = invalid_input
