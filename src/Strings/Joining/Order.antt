-- ===== src/Strings/Joining/Order.antt =====
-- project4/proj4.cpp: what holds of all threads of `mmap_read` at every point of a run, and what the
-- parent has received.
use cs3013_operating_systems.Prelude.{
  update_self, update_other, ℕ, suc, ◌+◌, ◌≤◌, ◌≡◌, refl, sym, ap, ◌∙◌, subst, ◌≢◌, inl, List, [],
  ◌∷◌, ◌++◌, Option, none, some, update, arith, ℕ_discrete,
}
use cs3013_operating_systems.Strings.Scan.{Ctype}
use cs3013_operating_systems.Strings.Threads.{Msg}
use cs3013_operating_systems.Strings.Joining.{
  Worker, receiving, replying, exited, Parent, ranging, joining, taking, ended, Run, begin, Step,
  receive, reply, send, all_sent, join, all_joined, take, finish, Reach, start, later,
}
use cs3013_operating_systems.Strings.Joining.Sent.{sent}
use cs3013_operating_systems.Strings.Joining.Replies.{
  Phase, unsent, underway, answered, done, phase, Sums, Holds, Answers, nothing, Answers-snoc,
  receives, replied, joined,
}

module _ (t : Ctype) (mem : List ℕ) (n : ℕ) (messages : ℕ → Msg) where
  -- What the parent has received.
  abbrev pub Taken : Parent → List Msg → Type 0
  Taken (ranging k) rs = (1 ≤ k) × (rs ≡ [])
  Taken (joining k) rs = (1 ≤ k) × (rs ≡ [])
  Taken (taking k) rs = (j : ℕ) × (k ≡ suc j) × (j ≤ n) × Answers t mem (sent messages j) rs
  Taken ended rs = Answers t mem (sent messages n) rs

  abbrev pub All : Parent → (ℕ → Worker) → (ℕ → Option Msg) → Type 0
  All p ws bs = (i : ℕ) → 1 ≤ i → i ≤ n → Holds t mem (phase p i) (messages i) (ws i) (bs i)

  pub record Inv (s : Run) : Type 0 where
    pub all : All s.parent s.workers s.boxes
    pub received : Taken s.parent s.taken

  -- A step changes what holds of one thread.
  one_thread :
      (i : ℕ) (p p' : Parent) (ws ws' : ℕ → Worker) (bs bs' : ℕ → Option Msg)
      → ((j : ℕ) → i ≢ j → (phase p j ≡ phase p' j) × (ws j ≡ ws' j) × (bs j ≡ bs' j))
      → Holds t mem (phase p' i) (messages i) (ws' i) (bs' i)
      → All p ws bs
      → All p' ws' bs'
  one_thread i p p' ws ws' bs bs' f h a j l q = elim (ℕ_discrete i j) [
    | yes e ↦ subst (λ x. Holds t mem (phase p' x) (messages x) (ws' x) (bs' x)) e h
    | no e ↦
        let (x, y, z) = f j e in
        subst (λ c. Holds t mem (phase p' j) (messages j) (ws' j) c) z
          (subst (λ c. Holds t mem (phase p' j) (messages j) c (bs j)) y
            (subst (λ c. Holds t mem c (messages j) (ws j) (bs j)) x (a j l q)))
  ]

  begin-Inv : Inv (begin t mem n messages)
  begin-Inv = record {
    all = λ i h l.
        subst (λ c. Holds t mem c (messages i) receiving none) (sym (later_phase i h)) (refl, refl);
    received = (omega arith, refl);
  }
    where
      later_phase : (i : ℕ) → 1 ≤ i → phase (ranging 1) i ≡ unsent
      later_phase i h = ground arith

  -- A thread goes on.
  worker_moves :
      (s : Run) (i : ℕ) (w : Worker) (b : Option Msg)
      → Inv s
      → Holds t mem (phase s.parent i) (messages i) (update s.workers i w i) (update s.boxes i b i)
      → Inv (record s { workers = update s.workers i w; boxes = update s.boxes i b })
  worker_moves s i w b v h = record {
    all =
        one_thread i s.parent s.parent s.workers (update s.workers i w) s.boxes (update s.boxes i b)
          (λ j d. (refl, update_other s.workers i w j d, update_other s.boxes i b j d)) h v.all;
    received = v.received;
  }

  -- The parent goes on with one mailbox.
  parent_moves :
      (s : Run) (k : ℕ) (p : Parent) (b : Option Msg) (rs : List Msg)
      → Inv s
      → ((j : ℕ) → k ≢ j → phase s.parent j ≡ phase p j)
      → Holds t mem (phase p k) (messages k) (s.workers k) b
      → Taken p rs
      → Inv (record s { parent = p; boxes = update s.boxes k b; taken = rs })
  parent_moves s k p b rs v f h r = record {
    all =
        one_thread k s.parent p s.workers s.workers s.boxes (update s.boxes k b)
          (λ j d. (f j d, refl, update_other s.boxes k b j d))
          (subst (Holds t mem (phase p k) (messages k) (s.workers k))
            (sym (update_self s.boxes k b)) h)
          v.all;
    received = r;
  }

  pub at : (s : Run) (p : Parent) → s.parent ≡ p → Inv s → Inv (record s { parent = p })
  at s p e v = record {
    all = subst (λ q. All q s.workers s.boxes) e v.all;
    received = subst (λ q. Taken q s.taken) e v.received;
  }

  -- The parent goes on with none.
  turns :
      (s : Run) (p : Parent)
      → Inv s
      → ((i : ℕ) → 1 ≤ i → i ≤ n → phase s.parent i ≡ phase p i)
      → Taken p s.taken
      → Inv (record s { parent = p })
  turns s p v f r = record {
    all = λ i h l.
        subst (λ c. Holds t mem c (messages i) (s.workers i) (s.boxes i)) (f i h l) (v.all i h l);
    received = r;
  }

  pub holds_at :
      (s : Run) (p : Parent) (c : Phase) (k : ℕ)
      → s.parent ≡ p
      → phase p k ≡ c
      → Inv s
      → 1 ≤ k
      → k ≤ n
      → Holds t mem c (messages k) (s.workers k) (s.boxes k)
  holds_at s p c k e f v h l =
      subst (λ c. Holds t mem c (messages k) (s.workers k) (s.boxes k)) (ap (λ q. phase q k) e ∙ f)
        (v.all k h l)

  none_yet : (rs : List Msg) → rs ≡ [] → Answers t mem (sent messages 0) rs
  unfolding sent
  none_yet rs e = subst (Answers t mem []) (sym e) nothing

  next_Answers :
      (j k : ℕ) (rs : List Msg) (m : Msg)
      → k ≡ suc j
      → Answers t mem (sent messages j) rs
      → Sums t mem (messages k) m
      → Answers t mem (sent messages k) (rs ++ (m ∷ []))
  unfolding sent
  next_Answers j k rs m e a f =
      subst (λ x. Answers t mem (sent messages x) (rs ++ (m ∷ []))) (sym e)
        (Answers-snoc t mem (messages (suc j)) m a (subst (λ x. Sums t mem (messages x) m) e f))

  sends :
      (s : Run) (k : ℕ)
      → s.parent ≡ ranging k
      → k ≤ n
      → s.boxes k ≡ none
      → Inv s
      → Inv (record s { parent = ranging (k + 1); boxes = update s.boxes k (some (messages k)) })
  sends s k e l f v =
      let v' = at s (ranging k) e v in
      let now : phase (ranging k) k ≡ unsent = ground arith in
      let then_ : underway ≡ phase (ranging (k + 1)) k = ground arith in
      let h =
        holds_at (record s { parent = ranging k }) (ranging k) unsent k refl now v' v'.received.0
          l in
      parent_moves (record s { parent = ranging k }) k (ranging (k + 1)) (some (messages k)) s.taken
        v' (λ j d. ground arith)
        (subst (λ c. Holds t mem c (messages k) (s.workers k) (some (messages k))) then_
          (inl (h.0, refl)))
        (omega arith, v'.received.1)

  joins :
      (s : Run) (k : ℕ)
      → s.parent ≡ joining k
      → k ≤ n
      → s.workers k ≡ exited
      → Inv s
      → Inv (record s { parent = joining (k + 1) })
  joins s k e l f v =
      let v' = at s (joining k) e v in
      let now : phase (joining k) k ≡ underway = ground arith in
      let then_ : answered ≡ phase (joining (k + 1)) k = ground arith in
      let h =
        holds_at (record s { parent = joining k }) (joining k) underway k refl now v' v'.received.0
          l in
      record {
        all =
            one_thread k (joining k) (joining (k + 1)) s.workers s.workers s.boxes s.boxes
              (λ j d. (ground arith, refl, refl))
              (subst (λ c. Holds t mem c (messages k) (s.workers k) (s.boxes k)) then_
                (joined t mem (messages k) (s.workers k) (s.boxes k) f h))
              v'.all;
        received = (omega arith, v'.received.1);
      }

  takes :
      (s : Run) (k : ℕ) (m : Msg)
      → s.parent ≡ taking k
      → k ≤ n
      → s.boxes k ≡ some m
      → Inv s
      → Inv (record s {
        parent = taking (k + 1);
        boxes = update s.boxes k none;
        taken = s.taken ++ (m ∷ []);
      })
  takes s k m e l f v =
      let v' = at s (taking k) e v in
      let now : phase (taking k) k ≡ answered = ground arith in
      let then_ : done ≡ phase (taking (k + 1)) k = ground arith in
      let (j, q, r, a) = v'.received in
      let (m', w, b, c) =
        holds_at (record s { parent = taking k }) (taking k) answered k refl now v' (omega arith)
          l in
      let same : m' ≡ m = cc in
      parent_moves (record s { parent = taking k }) k (taking (k + 1)) none (s.taken ++ (m ∷ [])) v'
        (λ j d. ground arith)
        (subst (λ c. Holds t mem c (messages k) (s.workers k) none) then_ (w, refl))
        (k, omega arith, l, next_Answers j k s.taken m q a (subst (Sums t mem (messages k)) same c))

  Step-Inv : (s u : Run) → Inv s → Step t mem n messages s u → Inv u
  Step-Inv s u v (receive i m r h l e f g) = worker_moves s i (replying r) none v (
      receives t mem (phase s.parent i) (messages i) m r (s.workers i)
        (update s.workers i (replying r) i) (s.boxes i) (update s.boxes i none i) e f g
        (update_self s.workers i (replying r)) (update_self s.boxes i none) (v.all i h l))
  Step-Inv s u v (reply i r h l e f) = worker_moves s i exited (some r) v (
      replied t mem (phase s.parent i) (messages i) r (s.workers i) (update s.workers i exited i)
        (s.boxes i) (update s.boxes i (some r) i) e f (update_self s.workers i exited)
        (update_self s.boxes i (some r)) (v.all i h l))
  Step-Inv s u v (send k e l f) = sends s k e l f v
  Step-Inv s u v (all_sent k e l) =
      let v' = at s (ranging k) e v in
      turns (record s { parent = ranging k }) (joining 1) v' (λ i h q. ground arith)
        (omega arith, v'.received.1)
  Step-Inv s u v (join k e l f) = joins s k e l f v
  Step-Inv s u v (all_joined k e l) =
      let v' = at s (joining k) e v in
      turns (record s { parent = joining k }) (taking 1) v' (λ i h q. ground arith)
        (0, refl, omega arith, none_yet s.taken v'.received.1)
  Step-Inv s u v (take k m e l f) = takes s k m e l f v
  Step-Inv s u v (finish k e l) =
      let v' = at s (taking k) e v in
      let (j, q, r, a) = v'.received in
      turns (record s { parent = taking k }) ended v' (λ i h q. ground arith)
        (subst (λ x. Answers t mem (sent messages x) s.taken) (omega arith) a)

  pub Reach-Inv : (s : Run) → Reach t mem n messages s → Inv s
  Reach-Inv s start = begin-Inv
  Reach-Inv u (later {s} r p) = Step-Inv s u (Reach-Inv s r) p
