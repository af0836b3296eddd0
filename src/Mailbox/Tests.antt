-- ===== src/Mailbox/Tests.antt =====
-- The mailbox protocol of project3 and project4: a run, and the theorems at it.
use cs3013_operating_systems.Prelude.{ℕ, ◌<◌, ◌≡◌, refl, ◌≢◌, ◌⊎◌, [], ◌∷◌, ◌++◌, arith}
use cs3013_operating_systems.Mailbox.{
  Box, idle, fresh_box, begin_send, copy_in, end_send, begin_recv, Step, wait_s, memcpy_in, post_r,
  wait_r, Reach, start, later,
}
use cs3013_operating_systems.Mailbox.Order.{mutual_exclusion, received-IsPrefix, no_deadlock}

-- Thread 1 sends 7, and thread 0 begins to receive it.
abbrev box1 : Box ℕ
box1 = begin_send (fresh_box 0) 1 7

abbrev box2 : Box ℕ
box2 = copy_in box1 1 7

abbrev box3 : Box ℕ
box3 = end_send box2 1

abbrev box4 : Box ℕ
box4 = begin_recv box3 0

receiving : Reach 0 box4
receiving =
    later {s = box3}
      (later {s = box2}
        (later {s = box1} (later {s = fresh_box 0} start (wait_s 1 7 refl (omega arith)))
          (memcpy_in 1 7 refl))
        (post_r 1 refl))
      (wait_r 0 refl (omega arith))

abbrev receiver : ℕ
receiver = 0

busy : box4.pc 0 ≢ idle
busy e = cc

mutual_exclusion_example : receiver ≡ receiver
mutual_exclusion_example = mutual_exclusion receiving receiver receiver busy busy

received-IsPrefix_example :
    (box4.sent ≡ box4.received) ⊎ (box4.sent ≡ box4.received ++ (box4.slot ∷ []))
received-IsPrefix_example = received-IsPrefix receiving

no_deadlock_example :
    (0 < box4.sem_s) ⊎ (0 < box4.sem_r) ⊎ ((i : ℕ) × (t : Box ℕ) × (box4.pc i ≢ idle) × Step box4 t)
no_deadlock_example = no_deadlock receiving
