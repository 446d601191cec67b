-- ===== src/Service/Load/Branches.antt =====
-- How a load and an unload are answered.
use mass_worker_llama_cpp.Prelude.{
  ℕ, ◌<◌, Bool, true, false, ◌||◌, ◌&&◌, List, Option, none, some, Bytes, text, text_eq,
  text_eq_refl, ◌≡◌, refl, ◌⊎◌, inl, inr, arith, Bool-cases, Option-cases, if◌then◌else◌, length,
}
use mass_worker_llama_cpp.Prelude.Map.{lookup, contains, contains-erase, contains-lookup}
use mass_worker_llama_cpp.Service.State.{Service, abandoned}
use mass_worker_llama_cpp.Service.Placement.{
  allowed_load_devices, is_empty, is_enabled, gpu_id, cpu_id, gpu_devs, cpu_dev, is_some,
}
use mass_worker_llama_cpp.Service.Placement.Ids.{enabled_placement_ids-nil_iff}
use mass_worker_llama_cpp.Service.Placement.Devices.{allowed_load_devices-ids}
use mass_worker_llama_cpp.Service.Messages.{
  LoadRequest, Reply, frame, no_frame, threw, load_done, load_failed, unload_done, unload_failed,
}
use mass_worker_llama_cpp.Service.Load.Config.{
  LoadHints, LoadKind, LoadConfig, unspecified_kind, other_kind, chat, embedding,
}
use mass_worker_llama_cpp.Service.Load.Tables.{InStep, contains-try_emplace}
use mass_worker_llama_cpp.Service.Load.{
  Host, Fetched, fetched, fetch_failed, Loaded, loaded, failed, load_threw, register_chat,
  register_embed, finish_chat, finish_embed, load_as_chat, load_as_embed, load_kind, after_fetch,
  fetch_and_load, load, unload_embed, unload,
}

-- The model is in one of the two tables.
abbrev pub is_loaded : Bytes → Service → Bool
is_loaded id s = contains id s.chat_models || contains id s.embed_models

-- A success names the request and a model that is loaded, a failure names the request, and silence
-- means that nobody is left to hear the answer.
abbrev pub Answers : LoadRequest → Service → Reply → Type 0
Answers req s (frame (load_done id mid pool)) =
    (id ≡ req.job_id) × (mid ≡ req.model_id) × (is_loaded req.model_id s ≡ true)
Answers req s (frame (load_failed id mid msg)) = (id ≡ req.job_id) × (mid ≡ req.model_id)
Answers req s no_frame = abandoned s ≡ true
Answers req s (threw msg) = Unit {0}
Answers req s (frame f) = ⊥

finish_chat-Answers :
    (req : LoadRequest) (r : Service × Loaded)
    → Answers req (finish_chat req r).0 (finish_chat req r).1
unfolding finish_chat register_chat
finish_chat-Answers req (s, loaded m) = (
  refl,
  refl,
  ground (
    arith,
    contains-try_emplace req.model_id req.model_id m s.chat_models,
    text_eq_refl req.model_id,
  ),
)
finish_chat-Answers req (s, failed e) = (refl, refl)
finish_chat-Answers req (s, load_threw msg) = tt

finish_embed-Answers :
    (req : LoadRequest) (r : Service × Loaded)
    → Answers req (finish_embed req r).0 (finish_embed req r).1
unfolding finish_embed register_embed
finish_embed-Answers req (s, loaded m) = (
  refl,
  refl,
  ground (
    arith,
    contains-try_emplace req.model_id req.model_id m s.embed_models,
    text_eq_refl req.model_id,
  ),
)
finish_embed-Answers req (s, failed e) = (refl, refl)
finish_embed-Answers req (s, load_threw msg) = tt

module _ (host : Host) where
  load_as_chat-Answers :
      (req : LoadRequest) (cfg : LoadConfig) (s : Service)
      → Answers req (load_as_chat host req cfg s).0 (load_as_chat host req cfg s).1
  unfolding load_as_chat
  load_as_chat-Answers req cfg s = elim (Option-cases (lookup req.model_id s.chat_models)) [
    | inl e ↦ rw (e, load_as_chat) (finish_chat-Answers req (host.load_chat cfg s))
    | inr (m, e) ↦
        rw (e, load_as_chat) (refl, refl, rw (contains-lookup req.model_id s.chat_models, e))
  ]

  load_as_embed-Answers :
      (req : LoadRequest) (cfg : LoadConfig) (s : Service)
      → Answers req (load_as_embed host req cfg s).0 (load_as_embed host req cfg s).1
  unfolding load_as_embed
  load_as_embed-Answers req cfg s = elim (Option-cases (lookup req.model_id s.embed_models)) [
    | inl e ↦ rw (e, load_as_embed) (finish_embed-Answers req (host.load_embed cfg s))
    | inr (m, e) ↦
        rw (e, load_as_embed)
          (refl, refl, ground (arith, contains-lookup req.model_id s.embed_models, e))
  ]

  load_kind-Answers :
      (req : LoadRequest) (hints : LoadHints) (devices : List ℕ) (ids : List Bytes)
      (paths : List (ℕ × Bytes)) (kind : LoadKind) (s : Service)
      → let r = load_kind host req hints devices ids paths kind s in Answers req r.0 r.1
  unfolding load_kind
  load_kind-Answers req hints devices ids paths embedding s = load_as_embed-Answers req _ s
  load_kind-Answers req hints devices ids paths other_kind s = load_as_embed-Answers req _ s
  load_kind-Answers req hints devices ids paths chat s = load_as_chat-Answers req _ s
  load_kind-Answers req hints devices ids paths unspecified_kind s = load_as_chat-Answers req _ s

  after_fetch-Answers :
      (req : LoadRequest) (hints : LoadHints) (devices : List ℕ) (ids : List Bytes) (s : Service)
      (result : Fetched)
      → let r = after_fetch host req hints devices ids s result in Answers req r.0 r.1
  unfolding after_fetch
  after_fetch-Answers req hints devices ids s (fetch_failed msg) = elim (Bool-cases (abandoned s)) [
    | inl e ↦ rw e e
    | inr e ↦ rw e (refl, refl)
  ]
  after_fetch-Answers req hints devices ids s (fetched paths) = elim (Bool-cases (abandoned s)) [
    | inl e ↦ rw e e
    | inr e ↦ rw e (load_kind-Answers req hints devices ids paths hints.kind s)
  ]

  fetch_and_load-Answers :
      (req : LoadRequest) (hints : LoadHints) (devices : Option (List ℕ)) (ids : List Bytes)
      (s : Service)
      → let r = fetch_and_load host req hints devices ids s in Answers req r.0 r.1
  unfolding fetch_and_load
  fetch_and_load-Answers req hints none ids s = tt
  fetch_and_load-Answers req hints (some devices) ids s =
      after_fetch-Answers req hints devices ids _ _

  -- Whatever the fetch, the loaders and the other threads do, a load is answered to its request or
  -- throws: a success comes only with the model in a table, and no frame only when the stream or
  -- the process is going.
  pub load-Answers :
      (req : LoadRequest) (s : Service) → Answers req (load host req s).0 (load host req s).1
  unfolding load
  load-Answers req s = elim (Option-cases (host.parse_hints req.load_hints)) [
    | inl e ↦ rw (e, load) (refl, refl)
    | inr (hints, e) ↦
        let w = allowed_load_devices s.enabled_devices host.backend in
        rw (e, load)
          (elim (Bool-cases (is_empty w.ids)) [
            | inl f ↦ rw f (refl, refl)
            | inr f ↦ rw f (fetch_and_load-Answers req hints w.devices w.ids s)
          ])
  ]

  -- With no GPU enabled and no CPU to fall back on, a load fails before the fetch and changes nothing.
  pub load_without_devices :
      (req : LoadRequest) (s : Service)
      → ((k : ℕ)
          → k < length (gpu_devs host.backend)
          → is_enabled s.enabled_devices (gpu_id k) ≡ false)
      → (is_some (cpu_dev none host.backend) && is_enabled s.enabled_devices cpu_id) ≡ false
      → (msg : Bytes) × (load host req s ≡ (s, frame (load_failed req.job_id req.model_id msg)))
  unfolding load
  load_without_devices req s gpus main = elim (Option-cases (host.parse_hints req.load_hints)) [
    | inl e ↦ (text "LoadModel: invalid load_hints encoding", rw (e, load))
    | inr (hints, e) ↦ (
      text "LoadModel: no devices enabled for model loads",
      rw (e, load)
          (rw (
            allowed_load_devices-ids s.enabled_devices host.backend,
            (enabled_placement_ids-nil_iff s.enabled_devices _ _).1 (gpus, main),
          )),
    )
  ]

module _ (is_embed : Bytes → Bool) where
  -- The state after an unload, told from the state before it.
  pub record Unloaded (job_id mid : Bytes) (s t : Service) (r : Reply) : Type 0 where
    pub gone : is_loaded mid t ≡ false
    pub forgotten : contains mid t.model_files ≡ false
    pub others : (id : Bytes) → text_eq mid id ≡ false → is_loaded id t ≡ is_loaded id s
    pub reply :
        r
        ≡ frame (
            if is_loaded mid s
            then unload_done job_id mid
            else unload_failed job_id mid (text "UnloadModel: model not loaded"))

  unload_embed-Unloaded :
      (job_id mid : Bytes) (s : Service)
      → contains mid s.chat_models ≡ false
      → InStep is_embed s
      → Unloaded job_id mid s (unload_embed job_id mid s).0 (unload_embed job_id mid s).1
  unfolding unload_embed
  unload_embed-Unloaded job_id mid s h v = elim (Option-cases (lookup mid s.embed_models)) [
    | inl e ↦
        let out : contains mid s.embed_models ≡ false =
          rw (contains-lookup mid s.embed_models, e) in
        rw (e, unload_embed)
          (record {
            gone = ground arith;
            forgotten = ground (arith, v.keyed mid);
            others = λ id n. refl;
            reply = rw (h, out);
          })
    | inr (m, e) ↦
        let there : contains mid s.embed_models ≡ true =
          rw (contains-lookup mid s.embed_models, e) in
        rw (e, unload_embed)
          (record {
            gone = ground (arith, contains-erase mid mid s.embed_models, text_eq_refl mid);
            forgotten = ground (arith, contains-erase mid mid s.model_files, text_eq_refl mid);
            others = λ id n. ground (arith, contains-erase mid id s.embed_models);
            reply = rw (h, there);
          })
  ]

  -- After an unload of a service whose tables are in step, the model is in no table and its files
  -- are forgotten, every other model is loaded exactly if it was before, and the answer is a
  -- success exactly if the model was loaded.
  pub unload-Unloaded :
      (job_id mid : Bytes) (s : Service)
      → InStep is_embed s
      → Unloaded job_id mid s (unload job_id mid s).0 (unload job_id mid s).1
  unfolding unload
  unload-Unloaded job_id mid s v = elim (Option-cases (lookup mid s.chat_models)) [
    | inl e ↦
        rw (e, unload)
          (unload_embed-Unloaded job_id mid s (rw (contains-lookup mid s.chat_models, e)) v)
    | inr (m, e) ↦
        let there : contains mid s.chat_models ≡ true = rw (contains-lookup mid s.chat_models, e) in
        rw (e, unload)
          (record {
            gone = ground (
              arith,
              contains-erase mid mid s.chat_models,
              text_eq_refl mid,
              v.chats mid,
              v.embeds mid,
            );
            forgotten = ground (arith, contains-erase mid mid s.model_files, text_eq_refl mid);
            others = λ id n. ground (arith, contains-erase mid id s.chat_models);
            reply = rw there;
          })
  ]

unload_embed-replies :
    (job_id mid : Bytes) (s : Service)
    → ((unload_embed job_id mid s).1 ≡ frame (unload_done job_id mid))
      ⊎ ((unload_embed job_id mid s).1
          ≡ frame (unload_failed job_id mid (text "UnloadModel: model not loaded")))
unfolding unload_embed
unload_embed-replies job_id mid s = elim (Option-cases (lookup mid s.embed_models)) [
  | inl e ↦ inr (rw (e, unload_embed))
  | inr (m, e) ↦ inl (rw (e, unload_embed))
]

pub unload-replies :
    (job_id mid : Bytes) (s : Service)
    → ((unload job_id mid s).1 ≡ frame (unload_done job_id mid))
      ⊎ ((unload job_id mid s).1
          ≡ frame (unload_failed job_id mid (text "UnloadModel: model not loaded")))
unfolding unload
unload-replies job_id mid s = elim (Option-cases (lookup mid s.chat_models)) [
  | inl e ↦ rw (e, unload) (unload_embed-replies job_id mid s)
  | inr (m, e) ↦ inl (rw (e, unload))
]
