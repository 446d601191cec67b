-- ===== src/Service/Execute/Frames.antt =====
-- Which frames a message may get.
use mass_worker_llama_cpp.Prelude.{
  Bool, true, false, Option, none, some, Bytes, ◌≡◌, refl, ◌⊎◌, inl, inr,
}
use mass_worker_llama_cpp.Service.State.{Service, abandoned}
use mass_worker_llama_cpp.Service.Errors.{incapable, transient}
use mass_worker_llama_cpp.Service.Messages.{
  HubMessage, assign_job, cancel_job, load_model, unload_model, delete_cache_files, set_devices,
  benchmark, model_benchmark, enrolled, not_set, Frame, job_completed, job_failed, load_done,
  load_failed, unload_done, unload_failed, benched, model_bench_failed, model_benched, Reply, frame,
  no_frame, threw, LoadRequest, BenchRequest,
}
use mass_worker_llama_cpp.Service.Load.{unload}
use mass_worker_llama_cpp.Service.Load.Branches.{Answers, load-Answers, unload-replies}
use mass_worker_llama_cpp.Service.Jobs.Replies.{IsAnswer, assign-IsAnswer}
use mass_worker_llama_cpp.Service.Bench.{Meter, benchmark_devices}
use mass_worker_llama_cpp.Service.Bench.Verdicts.{
  IsVerdict, run_model_benchmark-IsVerdict, benchmark_devices-replies,
}
use mass_worker_llama_cpp.Service.Execute.{World, execute_impl, fold, note_loss, execute}

-- The frame is of the message's kind and carries its ids.
abbrev pub Routed : HubMessage → Frame → Type 0
Routed (assign_job job_id mid payload) (job_completed id r) = id ≡ job_id
Routed (assign_job job_id mid payload) (job_failed id msg) = id ≡ job_id
Routed (load_model req) (load_done id mid pool) = (id ≡ req.job_id) × (mid ≡ req.model_id)
Routed (load_model req) (load_failed id mid msg) = (id ≡ req.job_id) × (mid ≡ req.model_id)
Routed (unload_model job_id model) (unload_done id mid) = (id ≡ job_id) × (mid ≡ model)
Routed (unload_model job_id model) (unload_failed id mid msg) = (id ≡ job_id) × (mid ≡ model)
Routed (benchmark job_id device) (benched id err rs) = id ≡ job_id
Routed (model_benchmark req) (model_bench_failed id kind msg) = id ≡ req.model_id
Routed (model_benchmark req) (model_benched id t p) = id ≡ req.model_id
Routed m f = ⊥

-- The messages that are never answered.
abbrev pub is_silent : HubMessage → Bool
is_silent (cancel_job id) = true
is_silent (delete_cache_files names) = true
is_silent (set_devices all ids) = true
is_silent (enrolled id secret) = true
is_silent not_set = true
is_silent m = false

abbrev pub Outcome : HubMessage → Service → Option Frame → Type 0
Outcome m s (some f) = Routed m f × (is_silent m ≡ false)
Outcome m s none = (is_silent m ≡ true) ⊎ ((is_silent m ≡ false) × (abandoned s ≡ true))

job-Outcome :
    (job_id mid payload : Bytes) (s : Service) (r : Reply)
    → IsAnswer job_id r
    → Outcome (assign_job job_id mid payload) s (fold (assign_job job_id mid payload) r)
unfolding fold
job-Outcome job_id mid payload s (frame (job_completed id r)) a = (a, refl)
job-Outcome job_id mid payload s (frame (job_failed id msg)) a = (a, refl)
job-Outcome job_id mid payload s (threw msg) a = (refl, refl)
job-Outcome job_id mid payload s no_frame a = absurd a
job-Outcome job_id mid payload s (frame f) a = absurd a

load-Outcome :
    (req : LoadRequest) (s : Service) (r : Reply)
    → Answers req s r
    → Outcome (load_model req) s (fold (load_model req) r)
unfolding fold
load-Outcome req s (frame (load_done id mid pool)) a = ((a.0, a.1), refl)
load-Outcome req s (frame (load_failed id mid msg)) a = (a, refl)
load-Outcome req s (threw msg) a = ((refl, refl), refl)
load-Outcome req s no_frame a = inr (refl, a)
load-Outcome req s (frame f) a = absurd a

bench-Outcome :
    (w : World) (req : BenchRequest) (start : Service) (r : Service × Reply)
    → IsVerdict w.host w.engine w.meter req start r
    → Outcome (model_benchmark req) r.0 (fold (model_benchmark req) r.1)
unfolding fold
bench-Outcome w req start (s, frame (model_bench_failed id incapable msg)) a = (a.0, refl)
bench-Outcome w req start (s, frame (model_bench_failed id transient msg)) a = (a, refl)
bench-Outcome w req start (s, frame (model_benched id t p)) a = (a.0, refl)
bench-Outcome w req start (s, threw msg) a = (refl, refl)
bench-Outcome w req start (s, no_frame) a = inr (refl, a)
bench-Outcome w req start (s, frame f) a = absurd a

unload-Outcome :
    (job_id mid : Bytes) (s : Service)
    → Outcome
        (unload_model job_id mid)
        (unload job_id mid s).0
        (fold (unload_model job_id mid) (unload job_id mid s).1)
unfolding fold
unload-Outcome job_id mid s = elim (unload-replies job_id mid s) [
  | inl e ↦ rw e ((refl, refl), refl)
  | inr e ↦ rw e ((refl, refl), refl)
]

devices-Outcome :
    (meter : Meter) (job_id device : Bytes) (s : Service)
    → Outcome
        (benchmark job_id device)
        (benchmark_devices meter job_id device s).0
        (fold (benchmark job_id device) (benchmark_devices meter job_id device s).1)
unfolding fold
devices-Outcome meter job_id device s = elim (benchmark_devices-replies meter job_id device s) [
  | inl (e, a) ↦ rw e (inr (refl, a))
  | inr (err, rs, e) ↦ rw e (refl, refl)
]

impl-Outcome :
    (w : World) (m : HubMessage) (s : Service)
    → Outcome m (execute_impl w m s).0 (fold m (execute_impl w m s).1)
unfolding execute_impl fold
impl-Outcome w (assign_job job_id mid payload) s =
    job-Outcome job_id mid payload _ _ (assign-IsAnswer w.engine job_id mid payload s)
impl-Outcome w (cancel_job id) s = inl refl
impl-Outcome w (load_model req) s = load-Outcome req _ _ (load-Answers w.host req s)
impl-Outcome w (unload_model job_id mid) s = unload-Outcome job_id mid s
impl-Outcome w (delete_cache_files names) s = inl refl
impl-Outcome w (set_devices all ids) s = inl refl
impl-Outcome w (benchmark job_id device) s = devices-Outcome w.meter job_id device s
impl-Outcome w (model_benchmark req) s =
    bench-Outcome w req s _ (run_model_benchmark-IsVerdict w.host w.engine w.meter req s)
impl-Outcome w (enrolled id secret) s = inl refl
impl-Outcome w not_set s = inl refl

noted-Outcome :
    (m : HubMessage) (s : Service) (out : Option Frame)
    → Outcome m s out
    → Outcome m (note_loss out s) out
unfolding note_loss abandoned
noted-Outcome m s none h = h
noted-Outcome m s (some f) h = h

-- Every message that wants an answer gets exactly one frame, of its kind and under its ids, also when
-- the code below throws; the only exception is work that is abandoned because the stream or the
-- process is going. The messages that want no answer get none.
pub execute-Outcome :
    (w : World) (m : HubMessage) (s : Service) → Outcome m (execute w m s).0 (execute w m s).1
unfolding execute
execute-Outcome w m s = noted-Outcome m _ _ (impl-Outcome w m s)
