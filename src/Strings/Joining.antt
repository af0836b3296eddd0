-- ===== src/Strings/Joining.antt =====
-- project4/proj4.cpp: the parent and the threads of `mmap_read` and their messages, in any order of
-- their steps. Thread `i` and the parent share mailbox `i`, in both directions, and the parent takes
-- the replies when it has joined all threads. Sending and receiving a message are single steps here,
-- on mailboxes of one message: `Mailbox` has their parts.
pub mod Replies
pub mod Sent
pub mod Order
pub mod Progress
mod Tests
use cs3013_operating_systems.Prelude.{
  ℕ, ◌+◌, ◌-◌, ◌≤◌, ◌<◌, ◌≡◌, List, [], ◌∷◌, ◌++◌, Option, none, some, update, get_or,
}
use package.cs3013_operating_systems.Strings.Scan.{Ctype}
use package.cs3013_operating_systems.Strings.Files.{Result, ok}
use package.cs3013_operating_systems.Strings.Threads.{Msg, sumthread, all_messages}
use cs3013_operating_systems.Prelude.Int.{ℤ}

pub data Worker : Type 0 where
  receiving : Worker  -- before recvMsg
  replying : Msg → Worker  -- before it sends this message
  exited : Worker

pub data Parent : Type 0 where
  ranging : ℕ → Parent  -- sends RANGE to this thread next
  joining : ℕ → Parent  -- joins this thread next
  taking : ℕ → Parent  -- receives from this mailbox next
  ended : Parent

-- `taken` is the messages that the parent has received.
pub record Run : Type 0 where
  pub parent : Parent
  pub workers : ℕ → Worker
  pub boxes : ℕ → Option Msg
  pub taken : List Msg

-- The message with the range of thread `i`.
abbrev pub message_for : Msg → ℤ → ℕ → ℕ → Msg
message_for fresh file_size n i = get_or (all_messages fresh file_size n) (i - 1) fresh

-- `messages` are those with the ranges, by the thread that they are for.
module _ (t : Ctype) (mem : List ℕ) (n : ℕ) (messages : ℕ → Msg) where
  abbrev pub begin : Run
  begin = record { parent = ranging 1; workers = λ i. receiving; boxes = λ i. none; taken = [] }

  pub data Step (s : Run) : Run → Type 0 where
    -- A thread.
    receive :
        (i : ℕ) (m r : Msg)
        → 1 ≤ i
        → i ≤ n
        → s.workers i ≡ receiving
        → s.boxes i ≡ some m
        → sumthread t mem m ≡ ok r
        → Step s
            (record s { workers = update s.workers i (replying r); boxes = update s.boxes i none })
    reply :
        (i : ℕ) (r : Msg)
        → 1 ≤ i
        → i ≤ n
        → s.workers i ≡ replying r
        → s.boxes i ≡ none
        → Step s
            (record s { workers = update s.workers i exited; boxes = update s.boxes i (some r) })
    -- The parent.
    send :
        (k : ℕ)
        → s.parent ≡ ranging k
        → k ≤ n
        → s.boxes k ≡ none
        → Step s
            (record s { parent = ranging (k + 1); boxes = update s.boxes k (some (messages k)) })
    all_sent : (k : ℕ) → s.parent ≡ ranging k → n < k → Step s (record s { parent = joining 1 })
    join :
        (k : ℕ)
        → s.parent ≡ joining k
        → k ≤ n
        → s.workers k ≡ exited
        → Step s (record s { parent = joining (k + 1) })
    all_joined : (k : ℕ) → s.parent ≡ joining k → n < k → Step s (record s { parent = taking 1 })
    take :
        (k : ℕ) (m : Msg)
        → s.parent ≡ taking k
        → k ≤ n
        → s.boxes k ≡ some m
        → Step s (record s {
          parent = taking (k + 1);
          boxes = update s.boxes k none;
          taken = s.taken ++ (m ∷ []);
        })
    finish : (k : ℕ) → s.parent ≡ taking k → n < k → Step s (record s { parent = ended })

  pub data Reach : Run → Type 0 where
    start : Reach begin
    later : {s u : Run} → Reach s → Step s u → Reach u
