-- ===== src/Strings/Joining/Progress.antt =====
-- project4/proj4.cpp: `mmap_read` takes the replies in the order of the threads, whichever of them
-- is the first to be ready, and comes to its end.
use cs3013_operating_systems.Prelude.{
  ℕ, ◌+◌, ◌-◌, ◌*◌, ◌≤◌, ◌<◌, ◌≡◌, refl, ap, subst, ◌⊎◌, inl, inr, List, arith, dec_lt,
}
use cs3013_operating_systems.Strings.Scan.{Ctype}
use cs3013_operating_systems.Strings.Files.{ok}
use cs3013_operating_systems.Strings.Threads.{Msg, replies, all_messages}
use cs3013_operating_systems.Strings.Joining.{
  message_for, Worker, receiving, replying, exited, Parent, ranging, joining, taking, ended, Run,
  Step, receive, reply, send, all_sent, join, all_joined, take, finish, Reach, start, later,
}
use cs3013_operating_systems.Prelude.Tally.{tally, tally-all_same, tally-update}
use cs3013_operating_systems.Strings.Joining.Sent.{sent, sent-all_messages}
use cs3013_operating_systems.Prelude.Int.{ℤ}
use cs3013_operating_systems.Strings.Joining.Replies.{
  unsent, underway, answered, phase, Sums, Answers-replies,
}
use cs3013_operating_systems.Strings.Joining.Order.{Inv, at, holds_at, Reach-Inv}

-- The steps that a thread has still to do.
abbrev pub rank : Worker → ℕ
rank receiving = 2
rank (replying m) = 1
rank exited = 0

module _ (t : Ctype) (mem : List ℕ) (n : ℕ) (messages : ℕ → Msg) where
  abbrev parent_rank : Parent → ℕ
  parent_rank (ranging k) = (n + 1 - k) + (n + n + 4)
  parent_rank (joining k) = (n + 1 - k) + (n + 3)
  parent_rank (taking k) = (n + 1 - k) + 2
  parent_rank ended = 0

  abbrev left : Run → ℕ
  left s = tally rank s.workers n + parent_rank s.parent

  Step-left : (s u : Run) → Step t mem n messages s u → left u < left s
  Step-left s u (receive i m r h l e f g) =
      omega (arith, tally-update rank s.workers i (replying r) n h l, ap rank e)
  Step-left s u (reply i r h l e f) =
      omega (arith, tally-update rank s.workers i exited n h l, ap rank e)
  Step-left s u (send k e l f) = omega (arith, ap parent_rank e)
  Step-left s u (all_sent k e l) = omega (arith, ap parent_rank e)
  Step-left s u (join k e l f) = omega (arith, ap parent_rank e)
  Step-left s u (all_joined k e l) = omega (arith, ap parent_rank e)
  Step-left s u (take k m e l f) = omega (arith, ap parent_rank e)
  Step-left s u (finish k e l) = omega (arith, ap parent_rank e)

  abbrev pub steps : {s : Run} → Reach t mem n messages s → ℕ
  steps start = 0
  steps (later r p) = steps r + 1

  steps-left : (s : Run) (r : Reach t mem n messages s) → steps r + left s ≤ 5 * n + 4
  steps-left s start = omega (arith, tally-all_same rank receiving 2 n refl)
  steps-left u (later {s} r p) = omega (arith, steps-left s r, Step-left s u p)

  -- A step of the run.
  abbrev pub Goes : Run → Type 0
  Goes s = (u : Run) × Step t mem n messages s u

  -- The end: the messages taken are the replies in the order of the threads.
  abbrev pub Ends : List Msg → Run → Type 0
  Ends ms s = (s.parent ≡ ended) × (replies t mem ms ≡ ok s.taken)

  -- No thread fails on its message.
  abbrev pub AllSum : Type 0
  AllSum = (i : ℕ) → 1 ≤ i → i ≤ n → (r : Msg) × Sums t mem (messages i) r

  module _ (s : Run) (v : Inv t mem n messages s) (sums : AllSum) where
    send_Goes : (k : ℕ) → s.parent ≡ ranging k → k ≤ n → Goes s
    send_Goes k e l =
        let now : phase (ranging k) k ≡ unsent = ground arith in
        let one = (at t mem n messages s (ranging k) e v).received.0 in
        let h = holds_at t mem n messages s (ranging k) unsent k e now v one l in
        (_, send k e l h.1)

    join_Goes : (k : ℕ) → s.parent ≡ joining k → k ≤ n → Goes s
    join_Goes k e l =
        let now : phase (joining k) k ≡ underway = ground arith in
        let one = (at t mem n messages s (joining k) e v).received.0 in
        elim (holds_at t mem n messages s (joining k) underway k e now v one l) [
          | inl (w, b) ↦ let (r, f) = sums k one l in (_, receive k (messages k) r one l w b f)
          | inr (inl (r, w, b, f)) ↦ (_, reply k r one l w b)
          | inr (inr (r, w, b, f)) ↦ (_, join k e l w)
        ]

    take_Goes : (k : ℕ) → s.parent ≡ taking k → k ≤ n → Goes s
    take_Goes k e l =
        let now : phase (taking k) k ≡ answered = ground arith in
        let (j, q, h, a) = (at t mem n messages s (taking k) e v).received in
        let (r, w, b, f) =
          holds_at t mem n messages s (taking k) answered k e now v (omega arith) l in
        (_, take k r e l b)

    run_Goes : (p : Parent) → s.parent ≡ p → Ends (sent messages n) s ⊎ Goes s
    run_Goes (ranging k) e = elim (dec_lt n k) [
      | yes l ↦ inr (_, all_sent k e l)
      | no l ↦ inr (send_Goes k e (omega arith))
    ]
    run_Goes (joining k) e = elim (dec_lt n k) [
      | yes l ↦ inr (_, all_joined k e l)
      | no l ↦ inr (join_Goes k e (omega arith))
    ]
    run_Goes (taking k) e = elim (dec_lt n k) [
      | yes l ↦ inr (_, finish k e l)
      | no l ↦ inr (take_Goes k e (omega arith))
    ]
    run_Goes ended e = inl (e, Answers-replies t mem (at t mem n messages s ended e v).received)

-- The parent and the threads of `mmap_read`, where no thread fails on its message: in every order of
-- their steps a run has at most 5 n + 4 of them; while the parent has not ended there is a next one;
-- and then it has taken the threads' replies in the order in which it sent the ranges.
pub joined_run-Ends :
    (t : Ctype) (mem : List ℕ) (file_size : ℤ) (n : ℕ) (fresh : Msg)
    → 1 ≤ n
    → AllSum t mem n (message_for fresh file_size n)
    → (s : Run) (r : Reach t mem n (message_for fresh file_size n) s)
    → (steps t mem n (message_for fresh file_size n) r ≤ 5 * n + 4)
      × (Ends t mem n (message_for fresh file_size n) (all_messages fresh file_size n) s
          ⊎ Goes t mem n (message_for fresh file_size n) s)
joined_run-Ends t mem file_size n fresh h sums s r =
    let messages = message_for fresh file_size n in
    (
      omega (arith, steps-left t mem n messages s r),
      subst (λ ms. Ends t mem n messages ms s ⊎ Goes t mem n messages s)
          (sent-all_messages fresh file_size n h)
          (run_Goes t mem n messages s (Reach-Inv t mem n messages s r) sums s.parent refl),
    )
