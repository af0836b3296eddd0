-- ===== src/Mailbox/Order.antt =====
-- The mailbox protocol: one thread at a time is between the two semaphores, and the messages come
-- out as they went in.
use cs3013_operating_systems.Prelude.{
  update_self, update, ℕ, ◌<◌, ◌≡◌, refl, ◌≢◌, ◌⊎◌, inl, inr, [], ◌∷◌, ◌++◌, arith, subst, sym, ap,
  ◌∙◌,
}
use cs3013_operating_systems.Mailbox.{
  Pc, idle, copying_in, posting_r, copying_out, posting_s, Box, fresh_box, begin_send, copy_in,
  end_send, begin_recv, copy_out, end_recv, Step, wait_s, memcpy_in, post_r, wait_r, memcpy_out,
  post_s, Reach, start, later,
}

-- What holds the mailbox: `sem_s` or `sem_r` is up, or a thread is between them.
pub data Holder : Type 0 where
  empty : Holder
  full : Holder
  thread : ℕ → Holder

module _ {A : Type 0} where
  -- The slot holds a message that was copied in and not yet out, or none.
  abbrev pub OneInside : Box A → Type 0
  OneInside s = s.sent ≡ s.received ++ (s.slot ∷ [])

  abbrev pub NoneInside : Box A → Type 0
  NoneInside s = s.sent ≡ s.received

  abbrev pub Logs : Pc A → Box A → Type 0
  Logs idle s = ⊥
  Logs (copying_in m) s = NoneInside s
  Logs posting_r s = OneInside s
  Logs copying_out s = OneInside s
  Logs (posting_s m) s = NoneInside s

  abbrev pub Held : Holder → Box A → Type 0
  Held empty s = (s.sem_s ≡ 1) × (s.sem_r ≡ 0) × NoneInside s
  Held full s = (s.sem_s ≡ 0) × (s.sem_r ≡ 1) × OneInside s
  Held (thread i) s = (s.sem_s ≡ 0) × (s.sem_r ≡ 0) × Logs (s.pc i) s

  pub record Inv (h : Holder) (s : Box A) : Type 0 where
    pub held : Held h s
    pub others : (j : ℕ) → (s.pc j ≡ idle) ⊎ (h ≡ thread j)

  Inv-fresh : (a : A) → Inv empty (fresh_box a)
  Inv-fresh a = record { held = (refl, refl, refl); others = λ j. inl refl }

  -- Every thread but `i` stands outside the two functions.
  abbrev Alone : Box A → ℕ → Type 0
  Alone s i = (j : ℕ) → (s.pc j ≡ idle) ⊎ (i ≡ j)

  busy_holder :
      (h : Holder) (s : Box A) (i : ℕ) → Inv h s → s.pc i ≢ idle → (h ≡ thread i) × Alone s i
  busy_holder h s i v b = elim (v.others i) [
    | inl e ↦ absurd (b e)
    | inr e ↦ (e, λ j. ground (arith, v.others j))
  ]

  busy-Held : (h : Holder) (s : Box A) (i : ℕ) → Inv h s → s.pc i ≢ idle → Held (thread i) s
  busy-Held h s i v b = subst (λ x. Held x s) (busy_holder h s i v b).0 v.held

  empty-Held :
      (h : Holder) (s : Box A) → Inv h s → 0 < s.sem_s → Held empty s × ((i : ℕ) → Alone s i)
  empty-Held empty s v p = (v.held, λ i j. ground (arith, v.others j))
  empty-Held full s v p = absurd (omega (arith, v.held.0))
  empty-Held (thread k) s v p = absurd (omega (arith, v.held.0))

  full-Held : (h : Holder) (s : Box A) → Inv h s → 0 < s.sem_r → Held full s × ((i : ℕ) → Alone s i)
  full-Held empty s v p = absurd (omega (arith, v.held.1))
  full-Held full s v p = (v.held, λ i j. ground (arith, v.others j))
  full-Held (thread k) s v p = absurd (omega (arith, v.held.1))

  Logs-at : (s : Box A) (i : ℕ) {p : Pc A} → s.pc i ≡ p → Held (thread i) s → Logs p s
  Logs-at s i e h = subst (λ x. Logs x s) e h.2

  -- Thread `i` is between the semaphores, at `p`.
  inside :
      (s t : Box A) (i : ℕ) (p : Pc A)
      → Alone s i
      → t.pc ≡ update s.pc i p
      → (t.sem_s ≡ 0) × (t.sem_r ≡ 0) × Logs p t
      → Inv (thread i) t
  inside s t i p al e (a, b, l) = record {
    held = (a, b, subst (λ x. Logs x t) (sym (ap (λ f. f i) e ∙ update_self s.pc i p)) l);
    others = λ j. subst (λ f. (f j ≡ idle) ⊎ (thread i ≡ thread j)) (sym e) (ground (arith, al j));
  }

  outside : (s : Box A) (i : ℕ) → Alone s i → (j : ℕ) → update s.pc i idle j ≡ idle
  outside s i al j = ground (arith, al j)

  Step-Inv : {s t : Box A} (h : Holder) → Inv h s → Step s t → (h' : Holder) × Inv h' t
  Step-Inv {s} h v (wait_s i m e p) =
      let (a, b, l) = (empty-Held h s v p).0 in
      (
        thread i,
        inside s (begin_send s i m) i (copying_in m) ((empty-Held h s v p).1 i) refl
            (omega arith, b, l),
      )
  Step-Inv {s} h v (memcpy_in i m e) =
      let busy : s.pc i ≢ idle = λ q. cc in
      let k = busy-Held h s i v busy in
      (
        thread i,
        inside s (copy_in s i m) i posting_r (busy_holder h s i v busy).1 refl
            (k.0, k.1, ap (λ l. l ++ (m ∷ [])) (Logs-at s i e k)),
      )
  Step-Inv {s} h v (post_r i e) =
      let busy : s.pc i ≢ idle = λ q. cc in
      let k = busy-Held h s i v busy in
      (
        full,
        record {
          held = (k.0, omega (arith, k.1), Logs-at s i e k);
          others = λ j. inl (outside s i (busy_holder h s i v busy).1 j);
        },
      )
  Step-Inv {s} h v (wait_r i e p) =
      let (a, b, l) = (full-Held h s v p).0 in
      (
        thread i,
        inside s (begin_recv s i) i copying_out ((full-Held h s v p).1 i) refl (a, omega arith, l),
      )
  Step-Inv {s} h v (memcpy_out i e) =
      let busy : s.pc i ≢ idle = λ q. cc in
      let k = busy-Held h s i v busy in
      (
        thread i,
        inside s (copy_out s i) i (posting_s s.slot) (busy_holder h s i v busy).1 refl
            (k.0, k.1, Logs-at s i e k),
      )
  Step-Inv {s} h v (post_s i m e) =
      let busy : s.pc i ≢ idle = λ q. cc in
      let k = busy-Held h s i v busy in
      (
        empty,
        record {
          held = (omega (arith, k.0), k.1, Logs-at s i e k);
          others = λ j. inl (outside s i (busy_holder h s i v busy).1 j);
        },
      )

  inside_or_not :
      (h : Holder) (s : Box A)
      → Held h s
      → (s.sent ≡ s.received) ⊎ (s.sent ≡ s.received ++ (s.slot ∷ []))
  inside_or_not empty s k = inl k.2
  inside_or_not full s k = inr k.2
  inside_or_not (thread i) s k = by_pc (s.pc i) k.2
    where
      by_pc : (p : Pc A) → Logs p s → (s.sent ≡ s.received) ⊎ (s.sent ≡ s.received ++ (s.slot ∷ []))
      by_pc idle l = absurd l
      by_pc (copying_in m) l = inl l
      by_pc posting_r l = inr l
      by_pc copying_out l = inr l
      by_pc (posting_s m) l = inl l

  go_on :
      (s : Box A) (i : ℕ) (p : Pc A)
      → s.pc i ≡ p
      → Logs p s
      → (t : Box A) × (s.pc i ≢ idle) × Step s t
  go_on s i idle e l = absurd l
  go_on s i (copying_in m) e l = (copy_in s i m, λ q. cc, memcpy_in i m e)
  go_on s i posting_r e l = (end_send s i, λ q. cc, post_r i e)
  go_on s i copying_out e l = (copy_out s i, λ q. cc, memcpy_out i e)
  go_on s i (posting_s m) e l = (end_recv s i, λ q. cc, post_s i m e)

  can_go :
      (h : Holder) (s : Box A)
      → Held h s
      → (0 < s.sem_s) ⊎ (0 < s.sem_r) ⊎ ((i : ℕ) × (t : Box A) × (s.pc i ≢ idle) × Step s t)
  can_go empty s k = inl (omega (arith, k.0))
  can_go full s k = inr (inl (omega (arith, k.1)))
  can_go (thread i) s k = let (t, b, st) = go_on s i (s.pc i) refl k.2 in inr (inr (i, t, b, st))

  pub Reach-Inv : {a : A} {s : Box A} → Reach a s → (h : Holder) × Inv h s
  Reach-Inv {a} start = (empty, Inv-fresh a)
  Reach-Inv (later r st) = let (h, v) = Reach-Inv r in Step-Inv h v st

  -- Two threads are never between the semaphores of one mailbox together.
  pub mutual_exclusion :
      {a : A} {s : Box A} → Reach a s → (i j : ℕ) → s.pc i ≢ idle → s.pc j ≢ idle → i ≡ j
  mutual_exclusion {s} r i j b c =
      let (h, v) = Reach-Inv r in
      ground (arith, (busy_holder h s i v b).0, (busy_holder h s j v c).0)

  -- The messages come out in the order in which they went in, each once, and none but the last one
  -- sent is still inside.
  pub received-IsPrefix :
      {a : A} {s : Box A}
      → Reach a s
      → (s.sent ≡ s.received) ⊎ (s.sent ≡ s.received ++ (s.slot ∷ []))
  received-IsPrefix {s} r = let (h, v) = Reach-Inv r in inside_or_not h s v.held

  -- A reachable mailbox is never stuck: a new message can be sent, or one can be received, or a
  -- thread between the semaphores can go on.
  pub no_deadlock :
      {a : A} {s : Box A}
      → Reach a s
      → (0 < s.sem_s) ⊎ (0 < s.sem_r) ⊎ ((i : ℕ) × (t : Box A) × (s.pc i ≢ idle) × Step s t)
  no_deadlock {s} r = let (h, v) = Reach-Inv r in can_go h s v.held
