-- ===== src/AssignPool/Tests.antt =====
-- The theorems on the assignment pool at concrete schedules.
use mass_worker_llama_cpp.Prelude.{map, ℕ, ◌<◌, true, List, [], ◌∷◌, refl}
use mass_worker_llama_cpp.AssignPool.{
  begin_shutdown, Pool, parked, running, Event, posts, shuts_down, moves, init, step, run,
}
use mass_worker_llama_cpp.AssignPool.Invariant.{Inv, run-init-Inv}
use mass_worker_llama_cpp.AssignPool.Backlog.{
  IsFinished, measure, backlog-IsFinished, drain_terminates,
}

-- Two tasks on one thread; the pool drains while the first runs.
abbrev schedule : List Event
schedule = posts 7 ∷ moves 0 ∷ posts 8 ∷ shuts_down ∷ moves 0 ∷ moves 0 ∷ moves 0 ∷ moves 0 ∷ []

run-init-Inv_example : Inv (run (init 1) schedule)
run-init-Inv_example = run-init-Inv 1 schedule

-- A task is posted after the shutdown, and refused.
backlog-IsFinished_example :
    let p = run (init 1) (posts 7 ∷ moves 0 ∷ posts 8 ∷ []) in
    (is : List ℕ) × IsFinished p.accepted
      (run (run (begin_shutdown p) (posts 9 ∷ moves 0 ∷ [])) (map moves is))
backlog-IsFinished_example =
    backlog-IsFinished 1 (posts 7 ∷ moves 0 ∷ posts 8 ∷ []) (posts 9 ∷ moves 0 ∷ [])

abbrev draining : Pool
draining = record {
  max_threads = 2;
  queue = 8 ∷ [];
  idle = 1;
  draining = true;
  workers = running 7 ∷ parked ∷ [];
  accepted = 7 ∷ 8 ∷ [];
  started = 7 ∷ [];
  finished = [];
}

drain_terminates_example : measure (step draining (moves 1)) < measure draining
drain_terminates_example = drain_terminates draining 1 parked refl refl (λ e. cc)
