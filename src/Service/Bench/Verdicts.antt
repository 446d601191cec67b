-- ===== src/Service/Bench/Verdicts.antt =====
-- What a benchmark may tell MASS.
use mass_worker_llama_cpp.Prelude.{
  ℕ, ◌<◌, Bool, true, false, List, [], ◌++◌, Option, none, some, Bytes, text, ◌≡◌, refl, subst, ◌⊎◌,
  ◌≢◌, inl, inr, arith, Bool-cases, Option-cases, ltb,
}
use mathlib.Core.List.{append-nil}
use mass_worker_llama_cpp.Service.State.{Service, Model, abandoned}
use mass_worker_llama_cpp.Service.Placement.{allowed_load_devices, is_empty}
use mass_worker_llama_cpp.Service.Errors.{
  FailureKind, incapable, transient, ModelError, mentions_allocation_failure,
  is_context_create_failed, classify_bench_failure, classify_load_failure,
}
use mass_worker_llama_cpp.Service.Errors.Mentions.{mentions_allocation_failure-within}
use mass_worker_llama_cpp.Service.Messages.{
  BenchRequest, BenchResult, BenchProbe, benched, model_bench_failed, model_benched, Reply, frame,
  no_frame, threw,
}
use mass_worker_llama_cpp.Service.Load.Config.{
  LoadHints, LoadKind, to_chat_load_cfg, to_embed_load_cfg, group_by_role, embedding, chat,
  other_kind, unspecified_kind,
}
use mass_worker_llama_cpp.Service.Load.{
  Host, Fetched, fetched, fetch_failed, Loaded, loaded, failed, load_threw,
}
use mass_worker_llama_cpp.Service.Jobs.{Engine, run_job}
use mass_worker_llama_cpp.Service.Bench.{
  Meter, pool_of_one, Payload, succeeded, errored, payload_of, bench_failure, finish_probe,
  bench_failed_payload, after_payload, bench_chat, bench_embed, bench_kind, bench_fetched,
  bench_placed, run_model_benchmark, benchmark_devices, run_devices, chosen, join_errors,
}

-- What the load of this benchmark comes to: its hints, the devices that are enabled, its files and
-- a pool of one.
pub data Attempt (host : Host) (req : BenchRequest) (s : Service) : Loaded → Type 0 where
  chat_load :
      {hints : LoadHints} {devices : List ℕ} {paths : List (ℕ × Bytes)} {t : Service} {r : Loaded}
      → host.parse_hints req.load_hints ≡ some hints
      → (allowed_load_devices s.enabled_devices host.backend).devices ≡ some devices
      → host.fetch_all req.files s ≡ (t, fetched paths)
      → hints.kind ≢ embedding
      → (host.load_chat
          (pool_of_one devices
            (allowed_load_devices s.enabled_devices host.backend).ids
            (to_chat_load_cfg hints (group_by_role paths req.files) t.vram_headroom_pct))
          t).1
        ≡ r
      → Attempt host req s r
  embed_load :
      {hints : LoadHints} {devices : List ℕ} {paths : List (ℕ × Bytes)} {t : Service} {r : Loaded}
      → host.parse_hints req.load_hints ≡ some hints
      → (allowed_load_devices s.enabled_devices host.backend).devices ≡ some devices
      → host.fetch_all req.files s ≡ (t, fetched paths)
      → hints.kind ≡ embedding
      → (host.load_embed
          (pool_of_one devices
            (allowed_load_devices s.enabled_devices host.backend).ids
            (to_embed_load_cfg hints (group_by_role paths req.files) t.vram_headroom_pct))
          t).1
        ≡ r
      → Attempt host req s r

-- The two signals that a device set cannot hold a model.
pub data IsIncapable (host : Host) (req : BenchRequest) (s : Service) (msg : Bytes) : Type 0 where
  allocation : mentions_allocation_failure msg ≡ true → IsIncapable host req s msg
  no_context :
      {e : ModelError} (pre : Bytes)
      → Attempt host req s (failed e)
      → is_context_create_failed e.code ≡ true
      → msg ≡ pre ++ e.message
      → IsIncapable host req s msg

-- Where an exception of a benchmark comes from: the devices, the loader or the job that is the
-- payload.
pub data Throws (host : Host) (engine : Engine) (meter : Meter) (req : BenchRequest) (s : Service)
    (msg : Bytes) : Type 0 where
  by_devices :
      (allowed_load_devices s.enabled_devices host.backend).devices ≡ none
      → Throws host engine meter req s msg
  by_load : Attempt host req s (load_threw msg) → Throws host engine meter req s msg
  by_payload :
      {m : Model} (c e : Option Model) (t : Service)
      → Attempt host req s (loaded m)
      → (run_job engine c e req.model_id meter.job_id req.payload t).1 ≡ threw msg
      → Throws host engine meter req s msg

-- The permanent verdict has a reason, a measurement has a positive graph time, every frame names the
-- model, silence means that nobody is left to hear the answer, and an exception has an origin.
abbrev pub IsVerdict : Host → Engine → Meter → BenchRequest → Service → Service × Reply → Type 0
IsVerdict host engine meter req s (t, frame (model_bench_failed id incapable msg)) =
    (id ≡ req.model_id) × IsIncapable host req s msg
IsVerdict host engine meter req s (t, frame (model_bench_failed id transient msg)) =
    id ≡ req.model_id
IsVerdict host engine meter req s (t, frame (model_benched id secs p)) =
    (id ≡ req.model_id) × (0 < p.graph_secs)
IsVerdict host engine meter req s (t, no_frame) = abandoned t ≡ true
IsVerdict host engine meter req s (t, threw msg) = Throws host engine meter req s msg
IsVerdict host engine meter req s (t, frame f) = ⊥

-- A prefix keeps the mention.
prefixed :
    (pre msg : Bytes)
    → mentions_allocation_failure msg ≡ true
    → mentions_allocation_failure (pre ++ msg) ≡ true
prefixed pre msg h =
    subst (λ m. mentions_allocation_failure (pre ++ m) ≡ true) (append-nil msg)
      (mentions_allocation_failure-within pre msg [] h)

module _ (host : Host) (engine : Engine) (meter : Meter) (req : BenchRequest)
    (start : Service) where
  abbrev Judged : Service × Reply → Type 0
  Judged r = IsVerdict host engine meter req start r

  failure-IsVerdict :
      (kind : FailureKind) (msg : Bytes) (s : Service)
      → (kind ≡ incapable → IsIncapable host req start msg)
      → Judged (s, bench_failure req.model_id kind msg)
  unfolding bench_failure
  failure-IsVerdict incapable msg s h = (refl, h refl)
  failure-IsVerdict transient msg s h = refl

  classified :
      (msg : Bytes) (context : Bool) (pre : Bytes)
      → (context ≡ true → IsIncapable host req start (pre ++ msg))
      → classify_bench_failure msg context ≡ incapable
      → IsIncapable host req start (pre ++ msg)
  unfolding classify_bench_failure
  classified msg true pre h e = h refl
  classified msg false pre h e = allocation (prefixed pre msg (ground arith))

  bench_failed_payload-IsVerdict :
      (msg : Bytes) (s : Service)
      → Judged (bench_failed_payload host engine meter req.model_id msg s)
  unfolding bench_failed_payload
  bench_failed_payload-IsVerdict msg s =
      failure-IsVerdict _ _ s (classified msg false (text "ModelBenchmark: ") (λ x. cc))

  load_failure-IsVerdict :
      (e : ModelError) (pre : Bytes) (s : Service)
      → Attempt host req start (failed e)
      → Judged (s, bench_failure req.model_id (classify_load_failure e) (pre ++ e.message))
  unfolding classify_load_failure
  load_failure-IsVerdict e pre s h =
      failure-IsVerdict _ _ s
        (classified e.message (is_context_create_failed e.code) pre (λ c. no_context pre h c refl))

  finish_probe-IsVerdict :
      (r : Service × BenchProbe) → Judged (finish_probe host engine meter req.model_id r)
  unfolding finish_probe bench_failure
  finish_probe-IsVerdict (s, p) = elim (Bool-cases (ltb 0 p.graph_secs)) [
    | inl e ↦ rw e (refl, ground arith)
    | inr e ↦ rw e refl
  ]

  after_payload-IsVerdict :
      (m : Model) (r : Service × Reply)
      → ((msg : Bytes) → r.1 ≡ threw msg → Throws host engine meter req start msg)
      → Judged (after_payload host engine meter req.model_id m r)
  unfolding after_payload
  after_payload-IsVerdict m (s, threw msg) h = h msg refl
  after_payload-IsVerdict m (s, no_frame) h = elim (Bool-cases (abandoned s)) [
    | inl e ↦ rw e e
    | inr e ↦ rw e (bench_failed_payload-IsVerdict _ s)
  ]
  after_payload-IsVerdict m (s, frame f) h = elim (Bool-cases (abandoned s)) [
    | inl e ↦ rw e e
    | inr e ↦ rw e (judged (payload_of f))
  ]
    where
      judged :
          (p : Payload)
          → Judged (elim p as (λ x. Service × Reply) [
            | errored msg ↦ bench_failed_payload host engine meter req.model_id msg s
            | succeeded ↦ finish_probe host engine meter req.model_id (meter.probe m s)
          ])
      judged succeeded = finish_probe-IsVerdict (meter.probe m s)
      judged (errored msg) = bench_failed_payload-IsVerdict msg s

  bench_chat-IsVerdict :
      (r : Service × Loaded)
      → Attempt host req start r.1
      → Judged (bench_chat host engine meter req r)
  unfolding bench_chat
  bench_chat-IsVerdict (t, loaded m) h =
      after_payload-IsVerdict m _ (λ msg e. by_payload (some m) none t h e)
  bench_chat-IsVerdict (t, failed e) h = load_failure-IsVerdict e _ t h
  bench_chat-IsVerdict (t, load_threw msg) h = by_load h

  bench_embed-IsVerdict :
      (r : Service × Loaded)
      → Attempt host req start r.1
      → Judged (bench_embed host engine meter req r)
  unfolding bench_embed
  bench_embed-IsVerdict (t, loaded m) h =
      after_payload-IsVerdict m _ (λ msg e. by_payload none (some m) t h e)
  bench_embed-IsVerdict (t, failed e) h = load_failure-IsVerdict e _ t h
  bench_embed-IsVerdict (t, load_threw msg) h = by_load h

  bench_kind-IsVerdict :
      (hints : LoadHints) (devices : List ℕ) (paths : List (ℕ × Bytes)) (kind : LoadKind)
      (t : Service)
      → host.parse_hints req.load_hints ≡ some hints
      → (allowed_load_devices start.enabled_devices host.backend).devices ≡ some devices
      → host.fetch_all req.files start ≡ (t, fetched paths)
      → hints.kind ≡ kind
      → Judged (
          bench_kind host engine meter req hints devices
            (allowed_load_devices start.enabled_devices host.backend).ids
            paths
            kind
            t)
  unfolding bench_kind
  bench_kind-IsVerdict hints devices paths embedding t p d f k =
      bench_embed-IsVerdict _ (embed_load p d f k refl)
  bench_kind-IsVerdict hints devices paths other_kind t p d f k =
      bench_chat-IsVerdict _ (chat_load p d f (λ e. cc) refl)
  bench_kind-IsVerdict hints devices paths chat t p d f k =
      bench_chat-IsVerdict _ (chat_load p d f (λ e. cc) refl)
  bench_kind-IsVerdict hints devices paths unspecified_kind t p d f k =
      bench_chat-IsVerdict _ (chat_load p d f (λ e. cc) refl)

  bench_fetched-IsVerdict :
      (hints : LoadHints) (devices : List ℕ) (r : Service × Fetched)
      → host.parse_hints req.load_hints ≡ some hints
      → (allowed_load_devices start.enabled_devices host.backend).devices ≡ some devices
      → host.fetch_all req.files start ≡ r
      → Judged (
          bench_fetched host engine meter req hints devices
            (allowed_load_devices start.enabled_devices host.backend).ids
            r.0
            r.1)
  unfolding bench_fetched bench_failure
  bench_fetched-IsVerdict hints devices (s, fetch_failed msg) p d f =
      elim (Bool-cases (abandoned s)) [ inl e ↦ rw e e | inr e ↦ rw e refl ]
  bench_fetched-IsVerdict hints devices (s, fetched paths) p d f = elim (Bool-cases (abandoned s)) [
    | inl e ↦ rw e e
    | inr e ↦ rw e (bench_kind-IsVerdict hints devices paths hints.kind s p d f refl)
  ]

  bench_placed-IsVerdict :
      (hints : LoadHints) (devices : Option (List ℕ))
      → host.parse_hints req.load_hints ≡ some hints
      → (allowed_load_devices start.enabled_devices host.backend).devices ≡ devices
      → Judged (
          bench_placed host engine meter req hints devices
            (allowed_load_devices start.enabled_devices host.backend).ids
            start)
  unfolding bench_placed
  bench_placed-IsVerdict hints none p d = by_devices d
  bench_placed-IsVerdict hints (some devices) p d =
      bench_fetched-IsVerdict hints devices (host.fetch_all req.files start) p d refl

  -- A model benchmark gives the permanent verdict INCAPABLE only if its message tells of a refused
  -- allocation, or if its own load (of its files, with its hints, on the enabled devices and with a
  -- pool of one) failed to create the context of slot 0, with the error's text in its message. It
  -- gives a measurement only with a positive graph time, and sends no frame only if it is abandoned;
  -- if it throws, the devices, its load or its payload threw that.
  pub run_model_benchmark-IsVerdict : Judged (run_model_benchmark host engine meter req start)
  unfolding run_model_benchmark bench_failure
  run_model_benchmark-IsVerdict = elim (Option-cases (host.parse_hints req.load_hints)) [
    | inl e ↦ rw (e, run_model_benchmark) refl
    | inr (hints, e) ↦
        let w = allowed_load_devices start.enabled_devices host.backend in
        rw (e, run_model_benchmark)
          (elim (Bool-cases (is_empty w.ids)) [
            | inl f ↦ rw f refl
            | inr f ↦ rw f (bench_placed-IsVerdict hints w.devices e refl)
          ])
  ]

-- A device benchmark is silent only if it is abandoned.
pub benchmark_devices-replies :
    (meter : Meter) (job_id device : Bytes) (s : Service)
    → (((benchmark_devices meter job_id device s).1 ≡ no_frame)
        × (abandoned (benchmark_devices meter job_id device s).0 ≡ true))
      ⊎ ((err : Bytes) × (rs : List BenchResult) × ((benchmark_devices meter job_id device s).1
            ≡ frame (benched job_id err rs)))
unfolding benchmark_devices
benchmark_devices-replies meter job_id device s =
    let r = run_devices meter (chosen meter device) s (record { results = []; errors = [] }) in
    elim (Bool-cases (abandoned r.0)) [
      | inl e ↦ rw e (inl (refl, e))
      | inr e ↦ rw e (inr (join_errors [] r.1.errors, r.1.results, refl))
    ]
