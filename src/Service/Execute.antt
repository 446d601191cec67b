-- ===== src/Service/Execute.antt =====
-- `execute` and `execute_impl` of src/worker_service.cpp: one hub message to its terminal frame.
pub mod Frames
pub mod Lost
use mass_worker_llama_cpp.Prelude.{
  ℕ, Bool, true, false, ◌||◌, List, [], ◌∷◌, ◌++◌, Option, none, some, Bytes, text, if◌then◌else◌,
}
use mass_worker_llama_cpp.Service.State.{Service}
use mass_worker_llama_cpp.Service.Placement.{set_enabled_devices}
use mass_worker_llama_cpp.Service.Cancel.{request_job_cancel}
use mass_worker_llama_cpp.Service.Errors.{classify_bench_failure, mentions_device_loss}
use mass_worker_llama_cpp.Service.Messages.{
  LoadRequest, BenchRequest, HubMessage, assign_job, cancel_job, load_model, unload_model,
  delete_cache_files, set_devices, benchmark, model_benchmark, enrolled, not_set, Frame, job_failed,
  load_failed, unload_failed, benched, model_bench_failed, Reply, frame, no_frame, threw,
  frame_error_text,
}
use mass_worker_llama_cpp.Service.Load.{Host, load, unload}
use mass_worker_llama_cpp.Service.Jobs.{Engine, assign}
use mass_worker_llama_cpp.Service.Bench.{Meter, benchmark_devices, run_model_benchmark}

-- Everything below the dispatcher, and the clock that `request_job_cancel` reads.
pub record World : Type 0 where
  pub host : Host
  pub engine : Engine
  pub meter : Meter
  pub now : ℕ

set_devices_of : Bool → List Bytes → Service → Service
set_devices_of true ids s = record s { enabled_devices = set_enabled_devices none }
set_devices_of false ids s = record s { enabled_devices = set_enabled_devices (some ids) }

module _ (w : World) where
  unfoldable pub execute_impl : HubMessage → Service → Service × Reply
  unfolding set_devices_of
  execute_impl (assign_job job_id mid payload) s = assign w.engine job_id mid payload s
  execute_impl (cancel_job id) s =
      (record s { cancel_requested = request_job_cancel id w.now s.cancel_requested }, no_frame)
  execute_impl (load_model req) s = load w.host req s
  execute_impl (unload_model job_id mid) s = unload job_id mid s
  execute_impl (delete_cache_files names) s = (s, no_frame)
  execute_impl (set_devices all ids) s = (set_devices_of all ids s, no_frame)
  execute_impl (benchmark job_id device) s = benchmark_devices w.meter job_id device s
  execute_impl (model_benchmark req) s = run_model_benchmark w.host w.engine w.meter req s
  execute_impl (enrolled id secret) s = (s, no_frame)
  execute_impl not_set s = (s, no_frame)

-- The error frame that the kind of the message expects; fire-and-forget kinds have none.
rescue : HubMessage → Bytes → Option Frame
rescue (assign_job job_id mid payload) msg = some (job_failed job_id msg)
rescue (load_model req) msg = some (load_failed req.job_id req.model_id msg)
rescue (unload_model job_id mid) msg = some (unload_failed job_id mid msg)
rescue (benchmark job_id device) msg = some (benched job_id msg [])
rescue (model_benchmark req) msg =
    some (model_bench_failed req.model_id (classify_bench_failure msg false) msg)
rescue m msg = none

-- Exceptions are folded into frames.
fold : HubMessage → Reply → Option Frame
unfolding rescue
fold m (frame f) = some f
fold m no_frame = none
fold m (threw msg) = rescue m (text "unhandled exception: " ++ msg)

-- The flag for a lost device is only ever raised.
note_loss : Option Frame → Service → Service
note_loss none s = s
note_loss (some f) s = record s {
  device_lost = s.device_lost || mentions_device_loss (frame_error_text f);
}

pub execute : World → HubMessage → Service → Service × Option Frame
unfolding execute_impl fold note_loss
execute w m s = let (s', r) = execute_impl w m s in let out = fold m r in (note_loss out s', out)
