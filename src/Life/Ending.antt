-- ===== src/Life/Ending.antt =====
-- project3/life.cpp: how parent and threads end, from the last GENDONE of the last generation on.
-- The threads, 1 to `n`, have all sent theirs; the last of them is still in the parent's mailbox.
-- Sending and receiving a message, and the posts that open the barrier, are single steps here, on
-- mailboxes of one message: `Mailbox` has the parts of the former.
pub mod Stop
pub mod Balance
pub mod Messages
pub mod Progress
mod Tests
use cs3013_operating_systems.Prelude.{
  ℕ, ◌+◌, ◌-◌, ◌≤◌, ◌<◌, ◌≡◌, ◌≢◌, Bool, Option, none, some, ◌==◌, if◌then◌else◌, update,
}

-- The types of the messages.
pub data Kind : Type 0 where
  alldone : Kind
  go : Kind
  gendone : Kind
  stop : Kind

pub data Thread : Type 0 where
  arriving : Thread  -- before sem_wait(&gendone_sem)
  counted : Thread  -- behind sem_post(&gendone_sem)
  waiting : Thread  -- before sem_wait(&alldone_sem)
  sending : Thread  -- before it sends ALLDONE
  exited : Thread

pub data Parent : Type 0 where
  last_gendone : Parent  -- receives the last GENDONE
  stopping : ℕ → Parent  -- sends STOP to this thread next
  going : ℕ → Parent  -- sends GO to this thread next
  counting : ℕ → Parent  -- allDoneCounter
  joining : ℕ → Parent  -- joins this thread next
  ended : Parent

-- The mailboxes hold a message or none; the parent's is 0.
pub record Run : Type 0 where
  pub parent : Parent
  pub threads : ℕ → Thread
  pub boxes : ℕ → Option Kind
  pub barrier_count : ℕ
  pub alldone_sem : ℕ

-- `stops` is isAllZero() || hasNotChanged() after the last generation.
module _ (n : ℕ) (stops : Bool) where
  abbrev pub begin : Run
  begin = record {
    parent = last_gendone;
    threads = λ i. arriving;
    boxes = λ i. if 0 == i then some gendone else none;
    barrier_count = 0;
    alldone_sem = 0;
  }

  pub data Step (s : Run) : Run → Type 0 where
    -- A thread: it counts itself, opens the barrier if it is the last, and passes it.
    count :
        (i : ℕ)
        → 1 ≤ i
        → i ≤ n
        → s.threads i ≡ arriving
        → Step s
            (record s { threads = update s.threads i counted; barrier_count = s.barrier_count + 1 })
    open_barrier :
        (i : ℕ)
        → s.threads i ≡ counted
        → s.barrier_count ≡ n
        → Step s (record s {
          threads = update s.threads i waiting;
          alldone_sem = s.alldone_sem + (n + 1);
        })
    leave_shut :
        (i : ℕ)
        → s.threads i ≡ counted
        → s.barrier_count ≢ n
        → Step s (record s { threads = update s.threads i waiting })
    pass :
        (i : ℕ)
        → s.threads i ≡ waiting
        → 0 < s.alldone_sem
        → Step s
            (record s { threads = update s.threads i sending; alldone_sem = s.alldone_sem - 1 })
    send_alldone :
        (i : ℕ)
        → s.threads i ≡ sending
        → s.boxes 0 ≡ none
        → Step s (record s {
          threads = update s.threads i exited;
          boxes = update s.boxes 0 (some alldone);
        })
    -- The parent.
    receive_last :
        s.parent ≡ last_gendone
        → s.boxes 0 ≡ some gendone
        → Step s (record s {
          parent = if stops then stopping 1 else going 1;
          boxes = update s.boxes 0 none;
        })
    send_stop :
        (k : ℕ)
        → s.parent ≡ stopping k
        → k ≤ n
        → s.boxes k ≡ none
        → Step s (record s { parent = stopping (k + 1); boxes = update s.boxes k (some stop) })
    all_stopped : (k : ℕ) → s.parent ≡ stopping k → n < k → Step s (record s { parent = joining 1 })
    send_go :
        (k : ℕ)
        → s.parent ≡ going k
        → k ≤ n
        → s.boxes k ≡ none
        → Step s (record s { parent = going (k + 1); boxes = update s.boxes k (some go) })
    all_going : (k : ℕ) → s.parent ≡ going k → n < k → Step s (record s { parent = counting 0 })
    receive :
        (c : ℕ)
        → s.parent ≡ counting c
        → c < n
        → s.boxes 0 ≡ some alldone
        → Step s (record s { parent = counting (c + 1); boxes = update s.boxes 0 none })
    all_done : (c : ℕ) → s.parent ≡ counting c → c ≡ n → Step s (record s { parent = joining 1 })
    join :
        (k : ℕ)
        → s.parent ≡ joining k
        → k ≤ n
        → s.threads k ≡ exited
        → Step s (record s { parent = joining (k + 1) })
    finish : (k : ℕ) → s.parent ≡ joining k → n < k → Step s (record s { parent = ended })

  pub data Reach : Run → Type 0 where
    start : Reach begin
    later : {s t : Run} → Reach s → Step s t → Reach t
