-- ===== src/Mailbox.antt =====
-- project3/addem.cpp, project3/life.cpp and project4/proj4.cpp share `sendMsg` and `recvMsg`: a
-- mailbox of one message between two semaphores. Here one mailbox and any number of threads that
-- send to it and receive from it, one atomic action at a time, in any order.
pub mod Order
mod Tests
use cs3013_operating_systems.Prelude.{
  ℕ, ◌+◌, ◌-◌, ◌<◌, ◌≡◌, Bool, List, [], ◌∷◌, ◌++◌, ◌==◌, if◌then◌else◌, update,
}

-- Where a thread stands in `sendMsg` or `recvMsg`.
pub data Pc (A : Type 0) : Type 0 where
  idle : Pc A
  copying_in : A → Pc A  -- in `sendMsg`, after sem_wait(&sem_s[iTo])
  posting_r : Pc A  -- in `sendMsg`, after the memcpy
  copying_out : Pc A  -- in `recvMsg`, after sem_wait(&sem_r[iFrom])
  posting_s : A → Pc A  -- in `recvMsg`, with its message

-- The semaphores, the slot, the threads, and the messages copied in and out so far.
pub record Box (A : Type 0) : Type 0 where
  pub sem_s : ℕ
  pub sem_r : ℕ
  pub slot : A
  pub pc : ℕ → Pc A
  pub sent : List A
  pub received : List A

-- The semaphores as `main` initialises them.
abbrev pub fresh_box : {A : Type 0} → A → Box A
fresh_box a = record { sem_s = 1; sem_r = 0; slot = a; pc = λ _. idle; sent = []; received = [] }

module _ {A : Type 0} where
  -- The actions of thread `i`.
  abbrev pub begin_send : Box A → ℕ → A → Box A
  begin_send s i m = record s { sem_s = s.sem_s - 1; pc = update s.pc i (copying_in m) }

  abbrev pub copy_in : Box A → ℕ → A → Box A
  copy_in s i m = record s { slot = m; pc = update s.pc i posting_r; sent = s.sent ++ (m ∷ []) }

  abbrev pub end_send : Box A → ℕ → Box A
  end_send s i = record s { sem_r = s.sem_r + 1; pc = update s.pc i idle }

  abbrev pub begin_recv : Box A → ℕ → Box A
  begin_recv s i = record s { sem_r = s.sem_r - 1; pc = update s.pc i copying_out }

  abbrev pub copy_out : Box A → ℕ → Box A
  copy_out s i = record s {
    pc = update s.pc i (posting_s s.slot);
    received = s.received ++ (s.slot ∷ []);
  }

  abbrev pub end_recv : Box A → ℕ → Box A
  end_recv s i = record s { sem_s = s.sem_s + 1; pc = update s.pc i idle }

  pub data Step (s : Box A) : Box A → Type 0 where
    wait_s : (i : ℕ) (m : A) → s.pc i ≡ idle → 0 < s.sem_s → Step s (begin_send s i m)
    memcpy_in : (i : ℕ) (m : A) → s.pc i ≡ copying_in m → Step s (copy_in s i m)
    post_r : (i : ℕ) → s.pc i ≡ posting_r → Step s (end_send s i)
    wait_r : (i : ℕ) → s.pc i ≡ idle → 0 < s.sem_r → Step s (begin_recv s i)
    memcpy_out : (i : ℕ) → s.pc i ≡ copying_out → Step s (copy_out s i)
    post_s : (i : ℕ) (m : A) → s.pc i ≡ posting_s m → Step s (end_recv s i)

  pub data Reach (a : A) : Box A → Type 0 where
    start : Reach a (fresh_box a)
    later : {s t : Box A} → Reach a s → Step s t → Reach a t
