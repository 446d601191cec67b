-- ===== src/Service/Messages.antt =====
-- The wire messages, as far as src/worker_service.cpp reads and writes them: generated types, of
-- which only the fields that the code uses are listed.
use mass_worker_llama_cpp.Prelude.{ℕ, Bool, List, [], Bytes}
use mass_worker_llama_cpp.Prelude.Int.{ℤ}
use mass_worker_llama_cpp.Service.Errors.{FailureKind}

-- `ModelFileRole`; `other` is a value that this build does not know.
pub data FileRole : Type 0 where
  unspecified primary mmproj other : FileRole

pub record ModelFile : Type 0 where
  pub filename : Bytes
  pub url : Bytes
  pub sha256 : Bytes
  pub local_path : Bytes
  pub role : FileRole
  pub headers : List (Bytes × Bytes)

pub record LoadRequest : Type 0 where
  pub job_id : Bytes
  pub model_id : Bytes
  pub load_hints : Bytes
  pub files : List ModelFile
  pub max_concurrent : ℤ

pub record BenchRequest : Type 0 where
  pub model_id : Bytes
  pub load_hints : Bytes
  pub files : List ModelFile
  pub payload : Bytes

pub data HubMessage : Type 0 where
  assign_job : Bytes → Bytes → Bytes → HubMessage  -- job, model, payload
  cancel_job : Bytes → HubMessage
  load_model : LoadRequest → HubMessage
  unload_model : Bytes → Bytes → HubMessage  -- job, model
  delete_cache_files : List Bytes → HubMessage
  set_devices : Bool → List Bytes → HubMessage  -- all, device ids
  benchmark : Bytes → Bytes → HubMessage  -- job, device
  model_benchmark : BenchRequest → HubMessage
  enrolled : Bytes → Bytes → HubMessage  -- worker id, secret
  not_set : HubMessage

-- What `bench_one` measures; rates are opaque.
pub record BenchResult : Type 0 where
  pub device_id : Bytes
  pub rates : Bytes

-- `ModelBenchmarkMeasurements` but for the wall time; `graph_secs` is in clock ticks.
pub record BenchProbe : Type 0 where
  pub graph_secs : ℕ
  pub base_bytes : ℤ
  pub per_slot_bytes : ℤ

-- A terminal frame, `WorkerMessage`.
pub data Frame : Type 0 where
  job_completed : Bytes → Bytes → Frame  -- job, encoded final response
  job_failed : Bytes → Bytes → Frame  -- job, error
  load_done : Bytes → Bytes → ℕ → Frame  -- job, model, pool size
  load_failed : Bytes → Bytes → Bytes → Frame  -- job, model, error
  unload_done : Bytes → Bytes → Frame
  unload_failed : Bytes → Bytes → Bytes → Frame
  benched : Bytes → Bytes → List BenchResult → Frame  -- job, error, results
  model_bench_failed : Bytes → FailureKind → Bytes → Frame
  model_benched : Bytes → ℕ → BenchProbe → Frame  -- model, elapsed, measurements

-- What `execute_impl` comes back with: a frame, `nullptr`, or an exception's text.
pub data Reply : Type 0 where
  frame : Frame → Reply
  no_frame : Reply
  threw : Bytes → Reply

-- The text that a frame's error carries, if any.
unfoldable pub frame_error_text : Frame → Bytes
frame_error_text (job_completed id r) = []
frame_error_text (job_failed id msg) = msg
frame_error_text (load_done id mid pool) = []
frame_error_text (load_failed id mid msg) = msg
frame_error_text (unload_done id mid) = []
frame_error_text (unload_failed id mid msg) = msg
frame_error_text (benched id err rs) = err
frame_error_text (model_bench_failed mid kind msg) = msg
frame_error_text (model_benched mid t p) = []
