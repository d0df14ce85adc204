-- ===== src/Examples/Threads.antt =====
-- Two workers, three connections, and a stop.
use multi_player_game.Common.{
  ℕ, ◌≤◌, ◌≡◌, ◌⊎◌, none, some, arith, refl, true, false, List, [], ◌∷◌, ◌++◌, length,
}
use multi_player_game.Common.Int.{pos, ◌≤ℤ◌}
use multi_player_game.ThreadPool.{
  Task, Shared, crew, thread_count, create, submit, request_stop, join_all, worker_step,
  handler_return, notify_all, Act, moves, returns, wakes, act, nth_act, Event, submits, stops,
  notifies_all, acts, step, run,
}
use multi_player_game.ThreadPool.Leaving.{AllLeft}
use multi_player_game.ThreadPool.Drain.{accepted, Drained, run_drains}
use multi_player_game.ThreadPool.Shutdown.Progress.{listed}
use multi_player_game.ThreadPool.Shutdown.Rounds.{Covers, AllCover}
use multi_player_game.ThreadPool.Shutdown.Ends.{missed, stop_events, stop_ends}
use multi_player_game.Server.Accept.{
  num_threads, Round, accept_loop, hands_over, works, ended, run_serves,
}
use multi_player_game.ThreadPool.Capacity.{busy, run_capacity}

abbrev connection : ℕ → Task
connection n = record { fd = pos n; addr = "10.0.0.1" }

-- Two tasks are taken in one order and started in the other.
abbrev schedule : List Event
schedule =
    submits (connection 4)
    ∷ acts moves 1
    ∷ submits (connection 5)
    ∷ acts moves 0
    ∷ acts moves 0
    ∷ acts moves 1
    ∷ stops
    ∷ submits (connection 7)
    ∷ notifies_all
    ∷ acts returns 0
    ∷ acts returns 1
    ∷ acts moves 0
    ∷ acts moves 1
    ∷ []

abbrev end : Shared
end = (run schedule (create (pos 2))).shared

all_left : AllLeft (run schedule (create (pos 2))).workers
unfolding run step create crew thread_count submit request_stop notify_all nth_act act worker_step
    handler_return
all_left = (refl, (refl, tt))

started_first : end.started ≡ connection 5 ∷ connection 4 ∷ []
unfolding run step create crew thread_count submit request_stop notify_all nth_act act worker_step
    handler_return
started_first = refl

run_drains_example : (end.stopping ≡ true) × Drained end (accepted false schedule)
run_drains_example = run_drains (pos 2) schedule all_left

run_capacity_example :
    let p = run schedule (create (pos 2)) in
    (p.shared.active_tasks ≡ busy p.workers)
    × (p.shared.active_tasks ≤ thread_count (pos 2))
    × ((length p.workers ≡ thread_count (pos 2))
        ⊎ ((p.workers ≡ []) × (p.shared.stopping ≡ true) × (p.shared.tasks ≡ [])))
run_capacity_example = run_capacity (pos 2) schedule

-- Every thread takes a step, and its handler returns.
abbrev turn : List (Act × ℕ)
turn = (moves, 0) ∷ (moves, 1) ∷ (returns, 1) ∷ (returns, 0) ∷ []

abbrev turns : List (List (Act × ℕ))
turns = turn ∷ turn ∷ turn ∷ turn ∷ turn ∷ turn ∷ turn ∷ turn ∷ turn ∷ turn ∷ turn ∷ turn ∷ []

turn-Covers : Covers 2 turn
unfolding listed
turn-Covers i h = ground arith

turns_cover : AllCover 2 turns
turns_cover =
    let c : Covers 2 turn = turn-Covers in
    (c, (c, (c, (c, (c, (c, (c, (c, (c, (c, (c, (c, tt))))))))))))

-- A worker goes to sleep and is notified of the second connection only.
abbrev busy_day : List Event
busy_day =
    acts moves 1
    ∷ acts moves 1
    ∷ submits (connection 4)
    ∷ submits (connection 5)
    ∷ acts wakes 1
    ∷ acts moves 1
    ∷ submits (connection 6)
    ∷ []

nobody_missed : missed (run (busy_day ++ stops ∷ []) (create (pos 2))).workers ≡ false
unfolding run step create crew thread_count submit request_stop nth_act act worker_step missed
nobody_missed = refl

stop_ends_example :
    let end_of_day = run (busy_day ++ stop_events [] turns) (create (pos 2)) in
    AllLeft end_of_day.workers
    × (join_all end_of_day.workers ≡ [])
    × Drained end_of_day.shared (accepted false busy_day)
unfolding run step create crew thread_count submit request_stop nth_act act worker_step
stop_ends_example = stop_ends (pos 2) busy_day [] turns nobody_missed turns_cover (omega arith)

-- A worker has seen an empty queue, and is told before it sleeps.
abbrev empty_day : List Event
empty_day = acts moves 0 ∷ []

abbrev rounds : List Round
rounds =
    record { running = true; client = some (connection 4); still_running = true }
    ∷ record { running = true; client = some (connection 5); still_running = true }
    ∷ record { running = true; client = none; still_running = true }
    ∷ record { running = true; client = some (connection 6); still_running = true }
    ∷ record { running = true; client = none; still_running = false }
    ∷ []

run_serves_example :
    let end_of_day = run (busy_day ++ stop_events [] turns) (create (pos 2)) in
    AllLeft end_of_day.workers
    × (join_all end_of_day.workers ≡ [])
    × Drained end_of_day.shared (accept_loop rounds)
    × (pos 1 ≤ℤ pos 2)
    × (pos 2 ≤ℤ pos 32)
unfolding run step create crew thread_count submit request_stop nth_act act worker_step accept_loop
    num_threads
run_serves_example =
    run_serves (pos 2) (pos 8) rounds busy_day [] turns
      (works (works (hands_over (hands_over (works (works (hands_over ended))))))) nobody_missed
      turns_cover (omega arith)
