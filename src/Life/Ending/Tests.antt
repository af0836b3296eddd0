-- ===== src/Life/Ending/Tests.antt =====
-- project3/life.cpp: runs of the end of a game.
use cs3013_operating_systems.Prelude.{◌+◌, ◌*◌, ◌≤◌, ◌⊎◌, ◌≡◌, refl, true, false, ◌≢◌, arith}
use cs3013_operating_systems.Life.Ending.{
  Run, Step, ended, Reach, start, later, count, open_barrier, pass, send_alldone, receive_last,
  send_stop, all_stopped, send_go, all_going, receive, all_done, join, finish,
}
use cs3013_operating_systems.Life.Ending.Stop.{stop_at_last-never_ends}
use cs3013_operating_systems.Life.Ending.Progress.{steps, game_goes_on-ends}

-- One thread that is told to stop: it ends, its ALLDONE is left in the mailbox.
one_thread_stops : (s : Run) × Reach 1 true s × (s.parent ≡ ended)
one_thread_stops = (
  _,
  later
      (later
        (later
          (later
            (later
              (later
                (later
                  (later (later start (count 1 (omega arith) (omega arith) refl))
                    (open_barrier 1 refl refl))
                  (pass 1 refl (omega arith)))
                (receive_last refl refl))
              (send_alldone 1 refl refl))
            (send_stop 1 refl (omega arith) refl))
          (all_stopped 2 refl (omega arith)))
        (join 1 refl (omega arith) refl))
      (finish 2 refl (omega arith)),
  refl,
)

-- One thread that goes on: its ALLDONE is received.
one_thread_goes : (s : Run) × Reach 1 false s × (s.parent ≡ ended)
one_thread_goes = (
  _,
  later
      (later
        (later
          (later
            (later
              (later
                (later
                  (later
                    (later
                      (later (later start (count 1 (omega arith) (omega arith) refl))
                        (open_barrier 1 refl refl))
                      (pass 1 refl (omega arith)))
                    (receive_last refl refl))
                  (send_go 1 refl (omega arith) refl))
                (all_going 2 refl (omega arith)))
              (send_alldone 1 refl refl))
            (receive 0 refl (omega arith) refl))
          (all_done 1 refl refl))
        (join 1 refl (omega arith) refl))
      (finish 2 refl (omega arith)),
  refl,
)

-- Two threads: the parent has sent STOP to the first.
half_stopped : (s : Run) × Reach 2 true s
half_stopped =
    (_, later (later start (receive_last refl refl)) (send_stop 1 refl (omega arith) refl))

stop_at_last-never_ends_example : half_stopped.0.parent ≢ ended
stop_at_last-never_ends_example =
    stop_at_last-never_ends 2 half_stopped.0 (omega arith) half_stopped.1

game_goes_on-ends_example :
    (steps one_thread_goes.1 ≤ 7 * 1 + 5)
    × ((one_thread_goes.0.parent ≡ ended) ⊎ ((t : Run) × Step 1 false one_thread_goes.0 t))
game_goes_on-ends_example = game_goes_on-ends 1 one_thread_goes.0 (omega arith) one_thread_goes.1
