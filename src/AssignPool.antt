-- ===== src/AssignPool.antt =====
-- include/mass_worker/assign_pool.hpp and src/assign_pool.cpp: the pool that grows worker threads on
-- demand. Each critical section under `mu_` is one step, and a schedule is a list of steps in any
-- order; a task is a number.
pub mod Invariant
pub mod Backlog
mod Tests
use mass_worker_llama_cpp.Prelude.{
  ℕ, ◌+◌, ◌-◌, Bool, true, false, ◌&&◌, ◌||◌, List, [], ◌∷◌, ◌++◌, Option, none, some, ltb, ◌==◌,
  length, get_elem?, set, if◌then◌else◌,
}

-- Where a worker thread is: before its critical section, parked in `cv_.wait` (and counted in
-- `idle_`), in a task, or returned from `worker_loop`.
pub data Phase : Type 0 where
  ready parked exited : Phase
  running : ℕ → Phase

-- `accepted`, `started` and `finished` only record what happens, for the statements.
pub record Pool : Type 0 where
  pub max_threads : ℕ
  pub queue : List ℕ
  pub idle : ℕ
  pub draining : Bool
  pub workers : List Phase
  pub accepted : List ℕ
  pub started : List ℕ
  pub finished : List ℕ

-- The constructor: at least one thread.
pub init : ℕ → Pool
init max_threads = record {
  max_threads = if ltb 0 max_threads then max_threads else 1;
  queue = [];
  idle = 0;
  draining = false;
  workers = [];
  accepted = [];
  started = [];
  finished = [];
}

-- Enqueue, and spawn a worker when none is idle and the cap allows.
accept : ℕ → Pool → Pool
accept t p = record p {
  queue = p.queue ++ (t ∷ []);
  accepted = p.accepted ++ (t ∷ []);
  workers =
      if p.idle == 0 && ltb (length p.workers) p.max_threads
      then p.workers ++ (ready ∷ [])
      else p.workers;
}

pub post : ℕ → Pool → Pool
unfolding accept
post t p = if p.draining then p else accept t p

pub begin_shutdown : Pool → Pool
begin_shutdown p = record p { draining = true }

-- Past the wait: an empty queue ends the thread, otherwise it takes the oldest task.
take_task : ℕ → List ℕ → Pool → Pool
take_task i [] p = record p { workers = set p.workers i exited }
take_task i (t ∷ queue) p = record p {
  queue = queue;
  started = p.started ++ (t ∷ []);
  workers = set p.workers i (running t);
}

abbrev is_empty : List ℕ → Bool
is_empty [] = true
is_empty (t ∷ ts) = false

-- The predicate of the wait.
may_go : Pool → Bool
may_go p = p.draining || (if is_empty p.queue then false else true)

-- One step of a worker. A parked one that wakes with the predicate false goes on waiting; a ready
-- one that finds it true goes through `++idle_` and `--idle_` under one lock.
move : ℕ → Option Phase → Pool → Pool
unfolding take_task may_go
move i none p = p
move i (some exited) p = p
move i (some ready) p =
    if may_go p
    then take_task i p.queue p
    else record p { idle = p.idle + 1; workers = set p.workers i parked }
move i (some parked) p =
    if may_go p then take_task i p.queue (record p { idle = p.idle - 1 }) else p
move i (some (running t)) p = record p {
  finished = p.finished ++ (t ∷ []);
  workers = set p.workers i ready;
}

pub data Event : Type 0 where
  posts : ℕ → Event
  shuts_down : Event
  moves : ℕ → Event

pub step : Pool → Event → Pool
unfolding move post
step p (posts t) = post t p
step p shuts_down = begin_shutdown p
step p (moves i) = move i (get_elem? p.workers i) p

pub run : Pool → List Event → Pool
run p [] = p
run p (e ∷ es) = run (step p e) es
