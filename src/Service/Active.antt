-- ===== src/Service/Active.antt =====
-- Live-job accounting of src/worker_service.cpp: `ActiveGuard`, and the part of `heartbeat` that
-- reports models and capacity. Counts are `int32_t` far below their bound.
pub mod Guards
pub mod Capacity
use mass_worker_llama_cpp.Prelude.{
  ℕ, ◌+◌, ◌-◌, List, [], ◌∷◌, ◌++◌, Option, none, some, Bytes, leb, if◌then◌else◌,
}
use mass_worker_llama_cpp.Prelude.Map.{Dict, lookup, assign, erase}
use mass_worker_llama_cpp.Service.State.{Service, Model}

count_of : Option ℕ → ℕ
count_of none = 0
count_of (some n) = n

-- The constructor: `++counts_[model_id_]` starts a missing count at 0.
pub enter : Bytes → Service → Service
unfolding count_of
enter id s = record s {
  active_per_model = assign id (count_of (lookup id s.active_per_model) + 1) s.active_per_model;
  active_total = s.active_total + 1;
}

drop_count : Bytes → Option ℕ → Dict ℕ → Dict ℕ
drop_count id none m = m
drop_count id (some n) m = if leb (n - 1) 0 then erase id m else assign id (n - 1) m

-- The destructor. It runs after its constructor, so neither count is 0 and `-` is exact.
pub leave : Bytes → Service → Service
unfolding drop_count
leave id s = record s {
  active_per_model = drop_count id (lookup id s.active_per_model) s.active_per_model;
  active_total = s.active_total - 1;
}

-- One `LoadedModelStatus` of the heartbeat.
pub record ModelStatus : Type 0 where
  pub model_id : Bytes
  pub pool_size : ℕ
  pub active : ℕ
  pub device_ids : List Bytes
  pub files : List Bytes

files_of : Option (List Bytes) → List Bytes
files_of none = []
files_of (some fs) = fs

pub status : Service → Bytes → Model → ModelStatus
unfolding count_of files_of
status s id m = record {
  model_id = id;
  pool_size = m.pool_size;
  active = count_of (lookup id s.active_per_model);
  device_ids = m.device_ids;
  files = files_of (lookup id s.model_files);
}

-- One loop of the heartbeat, with the capacity summed so far: `std::max(0, pool - active)`.
statuses : Service → ℕ → Dict Model → ℕ × List ModelStatus
unfolding status
statuses s capacity [] = (capacity, [])
statuses s capacity ((id, m) ∷ ms) =
    let st = status s id m in
    let (total, rest) = statuses s (capacity + (st.pool_size - st.active)) ms in (total, st ∷ rest)

pub record Heartbeat : Type 0 where
  pub loaded_models : List ModelStatus
  pub active_jobs : ℕ
  pub available_capacity : ℕ

-- Device statistics and cache files are read from the hardware and the disk, and left out.
pub heartbeat : Service → Heartbeat
unfolding statuses
heartbeat s =
    let (chat_capacity, chats) = statuses s 0 s.chat_models in
    let (capacity, embeds) = statuses s chat_capacity s.embed_models in
    record {
      loaded_models = chats ++ embeds;
      active_jobs = s.active_total;
      available_capacity = capacity;
    }
