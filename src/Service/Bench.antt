-- ===== src/Service/Bench.antt =====
-- The two benchmarks of src/worker_service.cpp: the device benchmark in `execute_impl` and
-- `run_model_benchmark`. What they measure is a parameter.
pub mod Verdicts
use mass_worker_llama_cpp.Prelude.{
  ℕ, Bool, true, false, List, [], ◌∷◌, ◌++◌, Option, none, some, Bytes, text, ltb, if◌then◌else◌,
}
use mass_worker_llama_cpp.Prelude.Int.{ℤ, pos}
use mass_worker_llama_cpp.Service.State.{Service, Model, abandoned}
use mass_worker_llama_cpp.Service.Placement.{allowed_load_devices, is_empty}
use mass_worker_llama_cpp.Service.Errors.{
  FailureKind, incapable, transient, ModelError, classify_bench_failure, classify_load_failure,
}
use mass_worker_llama_cpp.Service.Messages.{
  BenchRequest, BenchResult, BenchProbe, Frame, job_completed, job_failed, benched,
  model_bench_failed, model_benched, Reply, frame, no_frame, threw,
}
use mass_worker_llama_cpp.Service.Load.Config.{
  LoadHints, LoadKind, LoadConfig, embedding, group_by_role, to_chat_load_cfg, to_embed_load_cfg,
}
use mass_worker_llama_cpp.Service.Load.{
  Host, Fetched, fetched, fetch_failed, Loaded, loaded, failed, load_threw,
}
use mass_worker_llama_cpp.Service.Jobs.{Engine, run_job}

-- A device's result, or the text of its error or exception.
pub data Measured : Type 0 where
  measured : BenchResult → Measured
  unmeasured : Bytes → Measured

pub record Meter : Type 0 where
  pub devices : List Bytes  -- the identifiers that `Hardware` enumerates
  pub bench_one : Bytes → Service → Service × Measured
  pub probe : Model → Service → Service × BenchProbe
  pub job_id : Bytes  -- `monotonic_id("bench-")`
  pub elapsed : ℕ

-- One failing device does not discard the others: results and errors are collected apart.
record Tally : Type 0 where
  results : List BenchResult
  errors : List Bytes

record_device : Bytes → Measured → Tally → Tally
record_device id (measured r) t = record t { results = t.results ++ (r ∷ []) }
record_device id (unmeasured msg) t = record t {
  errors = t.errors ++ ((id ++ (text ": " ++ msg)) ∷ []);
}

-- The errors joined by "; ".
join_errors : Bytes → List Bytes → Bytes
join_errors joined [] = joined
join_errors [] (e ∷ es) = join_errors e es
join_errors (c ∷ s) (e ∷ es) = join_errors ((c ∷ s) ++ (text "; " ++ e)) es

module _ (meter : Meter) where
  run_devices : List Bytes → Service → Tally → Service × Tally
  unfolding record_device
  run_devices [] s t = (s, t)
  run_devices (id ∷ ids) s t =
      let (s', r) = meter.bench_one id s in run_devices ids s' (record_device id r t)

  -- No device named means every device.
  chosen : Bytes → List Bytes
  chosen [] = meter.devices
  chosen (c ∷ s) = (c ∷ s) ∷ []

  pub benchmark_devices : Bytes → Bytes → Service → Service × Reply
  unfolding run_devices join_errors chosen
  benchmark_devices job_id device s =
      let (s', t) = run_devices (chosen device) s (record { results = []; errors = [] }) in
      if abandoned s'
      then (s', no_frame)
      else (s', frame (benched job_id (join_errors [] t.errors) t.results))

bench_failure : Bytes → FailureKind → Bytes → Reply
bench_failure mid kind msg = frame (model_bench_failed mid kind msg)

-- A pool of one, on the whitelist's devices.
pub pool_of_one : List ℕ → List Bytes → LoadConfig → LoadConfig
pool_of_one devices ids cfg = record cfg {
  max_concurrent = pos 1;
  allowed_devices = devices;
  device_ids = ids;
}

-- The result of the payload: an error's text, or none.
data Payload : Type 0 where
  succeeded : Payload
  errored : Bytes → Payload

payload_of : Frame → Payload
payload_of (job_failed id msg) = errored msg
payload_of f = succeeded

module _ (host : Host) (engine : Engine) (meter : Meter) where
  finish_probe : Bytes → Service × BenchProbe → Service × Reply
  unfolding bench_failure
  finish_probe mid (s, p) =
      if ltb 0 p.graph_secs
      then (s, frame (model_benched mid meter.elapsed p))
      else (s, bench_failure mid transient (text "ModelBenchmark: calibration decode failed"))

  bench_failed_payload : Bytes → Bytes → Service → Service × Reply
  unfolding bench_failure
  bench_failed_payload mid msg s =
      (s, bench_failure mid (classify_bench_failure msg false) (text "ModelBenchmark: " ++ msg))

  -- After the payload ran; the model is unloaded on every way out, being in no table.
  after_payload : Bytes → Model → Service × Reply → Service × Reply
  unfolding finish_probe bench_failed_payload payload_of
  after_payload mid m (s, threw msg) = (s, threw msg)
  after_payload mid m (s, no_frame) =
      if abandoned s
      then (s, no_frame)
      else bench_failed_payload mid (text "payload produced no terminal frame") s
  after_payload mid m (s, frame f) = if abandoned s then (s, no_frame) else elim (payload_of f) [
    | errored msg ↦ bench_failed_payload mid msg s
    | succeeded ↦ finish_probe mid (meter.probe m s)
  ]

  bench_chat : BenchRequest → Service × Loaded → Service × Reply
  unfolding after_payload bench_failure
  bench_chat req (s, loaded m) =
      after_payload req.model_id m
        (run_job engine (some m) none req.model_id meter.job_id req.payload s)
  bench_chat req (s, failed e) = (
    s,
    bench_failure req.model_id (classify_load_failure e)
        (text "ModelBenchmark(chat): " ++ e.message),
  )
  bench_chat req (s, load_threw msg) = (s, threw msg)

  bench_embed : BenchRequest → Service × Loaded → Service × Reply
  unfolding after_payload bench_failure
  bench_embed req (s, loaded m) =
      after_payload req.model_id m
        (run_job engine none (some m) req.model_id meter.job_id req.payload s)
  bench_embed req (s, failed e) = (
    s,
    bench_failure req.model_id (classify_load_failure e)
        (text "ModelBenchmark(embed): " ++ e.message),
  )
  bench_embed req (s, load_threw msg) = (s, threw msg)

  bench_kind :
      BenchRequest
      → LoadHints
      → List ℕ
      → List Bytes
      → List (ℕ × Bytes)
      → LoadKind
      → Service
      → Service × Reply
  unfolding bench_chat bench_embed pool_of_one
  bench_kind req hints devices ids paths embedding s = bench_embed req (
      host.load_embed
        (pool_of_one devices ids
          (to_embed_load_cfg hints (group_by_role paths req.files) s.vram_headroom_pct))
        s)
  bench_kind req hints devices ids paths kind s = bench_chat req (
      host.load_chat
        (pool_of_one devices ids
          (to_chat_load_cfg hints (group_by_role paths req.files) s.vram_headroom_pct))
        s)

  bench_fetched :
      BenchRequest → LoadHints → List ℕ → List Bytes → Service → Fetched → Service × Reply
  unfolding bench_kind bench_failure
  bench_fetched req hints devices ids s (fetch_failed msg) =
      if abandoned s
      then (s, no_frame)
      else (s, bench_failure req.model_id transient (text "ModelBenchmark: " ++ msg))
  bench_fetched req hints devices ids s (fetched paths) =
      let rest = bench_kind req hints devices ids paths hints.kind s in
      if abandoned s then (s, no_frame) else rest

  bench_placed : BenchRequest → LoadHints → Option (List ℕ) → List Bytes → Service → Service × Reply
  unfolding bench_fetched
  bench_placed req hints none ids s = (s, threw [])
  bench_placed req hints (some devices) ids s =
      let (s', result) = host.fetch_all req.files s in bench_fetched req hints devices ids s' result

  pub run_model_benchmark : BenchRequest → Service → Service × Reply
  unfolding bench_placed bench_failure
  run_model_benchmark req s = elim (host.parse_hints req.load_hints) [
    | none ↦ (
      s,
      bench_failure req.model_id transient (text "ModelBenchmark: invalid load_hints encoding"),
    )
    | some hints ↦
        let whitelist = allowed_load_devices s.enabled_devices host.backend in
        if is_empty whitelist.ids
        then (
          s,
          bench_failure req.model_id transient
              (text "ModelBenchmark: no devices enabled for model loads"),
        )
        else bench_placed req hints whitelist.devices whitelist.ids s
  ]
