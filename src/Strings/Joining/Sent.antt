-- ===== src/Strings/Joining/Sent.antt =====
-- project4/proj4.cpp: the messages by thread and as the list in which `mmap_read` sends them.
use cs3013_operating_systems.Prelude.{
  ℕ, zero, suc, ◌+◌, ◌-◌, ◌≤◌, ◌≡◌, refl, sym, ap, ◌∙◌, List, [], ◌∷◌, ◌++◌, length, length-append,
  get_or, arith,
}
use cs3013_operating_systems.Prelude.Int.{ℤ, pos, ◌*ℤ◌, ◌-ℤ◌}
use cs3013_operating_systems.Strings.Threads.{Msg, range_message, range_messages, all_messages}
use cs3013_operating_systems.Strings.Joining.{message_for}
use cs3013_operating_systems.Prelude.Word.{div_int}

-- The messages for the threads 1 to `n`.
unfoldable pub sent : (ℕ → Msg) → ℕ → List Msg
sent messages zero = []
sent messages (suc n) = sent messages n ++ (messages (suc n) ∷ [])

sent-cons : (f : ℕ → Msg) (n : ℕ) → sent f (suc n) ≡ f 1 ∷ sent (λ i. f (suc i)) n
unfolding sent
sent-cons f zero = refl
sent-cons f (suc n) = ap (λ ms. ms ++ (f (suc (suc n)) ∷ [])) (sent-cons f n)

sent_same : (f g : ℕ → Msg) (n : ℕ) → ((i : ℕ) → 1 ≤ i → f i ≡ g i) → sent f n ≡ sent g n
unfolding sent
sent_same f g zero h = refl
sent_same f g (suc n) h = rw (sent_same f g n h, h (suc n) (omega arith)) refl

get_or-cons :
    (m : Msg) (ms : List Msg) (d : Msg) (i : ℕ)
    → 1 ≤ i
    → get_or (m ∷ ms) (suc i - 1) d ≡ get_or ms (i - 1) d
get_or-cons m ms d zero h = absurd (omega arith)
get_or-cons m ms d (suc i) h =
    let two : suc (suc i) - 1 ≡ suc i = omega arith in
    let one : suc i - 1 ≡ i = omega arith in rw (two, one) refl

sent_list : (ms : List Msg) (d : Msg) → sent (λ i. get_or ms (i - 1) d) (length ms) ≡ ms
unfolding sent
sent_list [] d = refl
sent_list (m ∷ ms) d =
    sent-cons (λ i. get_or (m ∷ ms) (i - 1) d) (length ms)
    ∙ ap (λ rest. m ∷ rest)
        (sent_same (λ i. get_or (m ∷ ms) (suc i - 1) d) (λ i. get_or ms (i - 1) d) (length ms)
            (λ i h. get_or-cons m ms d i h)
          ∙ sent_list ms d)

length-range_messages :
    (fresh : Msg) (range : ℤ) (n i : ℕ) → length (range_messages fresh range n i) ≡ n
unfolding range_messages
length-range_messages fresh range zero i = refl
length-range_messages fresh range (suc n) i =
    omega (arith, length-range_messages fresh range n (i + 1))

length-all_messages :
    (fresh : Msg) (file_size : ℤ) (n : ℕ) → 1 ≤ n → length (all_messages fresh file_size n) ≡ n
unfolding all_messages
length-all_messages fresh file_size n h =
    let range = div_int file_size n in
    let last = range_message fresh (pos (n - 1) *ℤ range) (file_size -ℤ pos 1) in
    omega (
      arith,
      length-append (range_messages fresh range (n - 1) 0) (last ∷ []),
      length-range_messages fresh range (n - 1) 0,
    )

pub sent-all_messages :
    (fresh : Msg) (file_size : ℤ) (n : ℕ)
    → 1 ≤ n
    → sent (message_for fresh file_size n) n ≡ all_messages fresh file_size n
sent-all_messages fresh file_size n h =
    ap (sent (message_for fresh file_size n)) (sym (length-all_messages fresh file_size n h))
    ∙ sent_list (all_messages fresh file_size n) fresh
