-- ===== src/Runner/Session.antt =====
-- The threads of `run_one_session` of src/runner.cpp: the receive loop, the control thread that
-- loads and benchmarks, and the jobs that wait for the loads of their model. One move is one
-- critical section, or one call that no lock covers. Heartbeats, the watcher, the exit on a lost
-- device and what `execute` does are left out.
pub mod Events
pub mod Gate
mod Tests
use mass_worker_llama_cpp.Prelude.{
  ℕ, zero, suc, ◌+◌, ◌-◌, Bool, true, false, ◌&&◌, ◌||◌, not, List, [], ◌∷◌, ◌++◌, Option, none,
  some, Bytes, leb, if◌then◌else◌,
}
use mass_worker_llama_cpp.Prelude.Map.{Dict, lookup, contains, assign, erase}
use mass_worker_llama_cpp.Service.Messages.{
  HubMessage, assign_job, cancel_job, load_model, unload_model, delete_cache_files, set_devices,
  benchmark, model_benchmark, enrolled, not_set,
}

pub record Job : Type 0 where
  pub job_id : Bytes
  pub model_id : Bytes
  pub payload : Bytes

-- What the control thread has in hand: a message taken from the queue, or one whose frame, if it
-- has one, is on the wire.
pub data Control : Type 0 where
  idle : Control
  taken answered : HubMessage → Control

pub data Event : Type 0 where
  read_control : HubMessage → Event
  answered_control : HubMessage → Event
  handled_inline : HubMessage → Event
  started dropped : Job → Event

-- `marked` is a message that is counted in `pending` and not yet queued; `log` is what happened,
-- the newest event first.
pub record Session : Type 0 where
  pub marked : Option HubMessage
  pub control_q : List HubMessage
  pub control : Control
  pub pending : Dict ℕ
  pub waiting : List Job
  pub assign_done : Bool
  pub log : List Event

pub data Move : Type 0 where
  receive : HubMessage → Move
  push take answer release close : Move
  gate : ℕ → Move

abbrev pub init : Session
init = record {
  marked = none;
  control_q = [];
  control = idle;
  pending = [];
  waiting = [];
  assign_done = false;
  log = [];
}

-- `++pending_loads[mid]`.
count_of : Option ℕ → ℕ
count_of none = 0
count_of (some n) = n

pub increment : Bytes → Dict ℕ → Dict ℕ
unfolding count_of
increment mid m = assign mid (suc (count_of (lookup mid m))) m

-- `if (--it->second <= 0) erase(it)`.
lower : Bytes → Option ℕ → Dict ℕ → Dict ℕ
lower mid none m = m
lower mid (some n) m = if leb n 1 then erase mid m else assign mid (n - 1) m

pub decrement : Bytes → Dict ℕ → Dict ℕ
decrement mid m = lower mid (lookup mid m) m

mark : HubMessage → Dict ℕ → Session → Session
mark m pending s = record s { marked = some m; pending = pending; log = read_control m ∷ s.log }

inline : HubMessage → Session → Session
inline m s = record s { log = handled_inline m ∷ s.log }

dispatch : HubMessage → Session → Session
unfolding mark inline increment
dispatch (assign_job job mid payload) s = record s {
  waiting = s.waiting ++ (record { job_id = job; model_id = mid; payload = payload } ∷ []);
}
dispatch (load_model r) s = mark (load_model r) (increment r.model_id s.pending) s
dispatch (benchmark job device) s = mark (benchmark job device) s.pending s
dispatch (model_benchmark r) s = mark (model_benchmark r) s.pending s
dispatch (cancel_job job) s = inline (cancel_job job) s
dispatch (unload_model job mid) s = inline (unload_model job mid) s
dispatch (delete_cache_files names) s = inline (delete_cache_files names) s
dispatch (set_devices all ids) s = inline (set_devices all ids) s
dispatch (enrolled id secret) s = inline (enrolled id secret) s
dispatch not_set s = inline not_set s

-- The receive loop reads the next message when the last one is queued and the stream is open.
received : Option HubMessage → Bool → HubMessage → Session → Session
unfolding dispatch
received none false m s = dispatch m s
received none true m s = s
received (some x) done m s = s

pushed : Option HubMessage → Session → Session
pushed none s = s
pushed (some m) s = record s { marked = none; control_q = s.control_q ++ (m ∷ []) }

take_from : Control → List HubMessage → Session → Session
take_from idle [] s = s
take_from idle (m ∷ q) s = record s { control = taken m; control_q = q }
take_from (taken x) q s = s
take_from (answered x) q s = s

answer_from : Control → Session → Session
answer_from idle s = s
answer_from (taken m) s = record s { control = answered m; log = answered_control m ∷ s.log }
answer_from (answered m) s = s

-- Waiting assigns are released only behind the frame of the load.
freed : HubMessage → Dict ℕ → Dict ℕ
unfolding decrement
freed (load_model r) m = decrement r.model_id m
freed _ m = m

release_from : Control → Session → Session
unfolding freed
release_from idle s = s
release_from (taken m) s = s
release_from (answered m) s = record s { control = idle; pending = freed m s.pending }

-- The gate of `run_assign`: a job waits while a load of its model is pending; at the end of the
-- session it is dropped in that case. The source starts the job just after it has released the lock;
-- here that is one step, as nothing else of the model happens at the start.
pass_gate : Bool → Bool → Job → List Job → Session → Session
pass_gate is_pending done j rest s =
    if not (done || not is_pending)
    then s
    else if done && is_pending
    then record s { waiting = rest; log = dropped j ∷ s.log }
    else record s { waiting = rest; log = started j ∷ s.log }

-- The job at a place of the list, and the others.
pick : ℕ → List Job → Option (Job × List Job)
pick i [] = none
pick zero (j ∷ js) = some (j, js)
pick (suc i) (j ∷ js) = elim (pick i js) [ none ↦ none | some (k, ks) ↦ some (k, j ∷ ks) ]

gated : Option (Job × List Job) → Session → Session
unfolding pass_gate contains
gated none s = s
gated (some (j, rest)) s = pass_gate (contains j.model_id s.pending) s.assign_done j rest s

-- The stream is gone: the receive loop has ended.
closed : Option HubMessage → Session → Session
closed none s = record s { assign_done = true }
closed (some m) s = s

pub step : Move → Session → Session
unfolding received pushed take_from answer_from release_from gated pick closed
step (receive m) s = received s.marked s.assign_done m s
step push s = pushed s.marked s
step take s = take_from s.control s.control_q s
step answer s = answer_from s.control s
step release s = release_from s.control s
step close s = closed s.marked s
step (gate i) s = gated (pick i s.waiting) s

pub run : List Move → Session → Session
run [] s = s
run (m ∷ ms) s = run ms (step m s)
