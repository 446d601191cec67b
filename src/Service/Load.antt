-- ===== src/Service/Load.antt =====
-- LoadModel and UnloadModel of src/worker_service.cpp.
pub mod Config
pub mod Tables
pub mod Branches
use mass_worker_llama_cpp.Prelude.{
  ℕ, Bool, true, false, List, [], ◌∷◌, ◌++◌, Option, none, some, Bytes, text, if◌then◌else◌,
}
use mass_worker_llama_cpp.Prelude.Int.{ℤ, pos}
use mass_worker_llama_cpp.Prelude.Map.{Dict, lookup, assign, erase, try_emplace}
use mass_worker_llama_cpp.Service.State.{Service, Model, abandoned}
use mass_worker_llama_cpp.Service.Placement.{Backend, allowed_load_devices, is_empty}
use mass_worker_llama_cpp.Service.Cancel.{clear_job_cancel}
use mass_worker_llama_cpp.Service.Errors.{ModelError}
use mass_worker_llama_cpp.Service.Messages.{
  FileRole, ModelFile, LoadRequest, Frame, load_done, load_failed, unload_done, unload_failed,
  Reply, frame, no_frame, threw,
}
use Config.{
  LoadHints, LoadKind, LoadConfig, to_chat_load_cfg, to_embed_load_cfg, group_by_role,
  resolve_max_concurrent, loaded_model_file_keys, chat, unspecified_kind, embedding,
}

pub data Fetched : Type 0 where
  fetched : List (ℕ × Bytes) → Fetched  -- index in the request, path on disk
  fetch_failed : Bytes → Fetched

pub data Loaded : Type 0 where
  loaded : Model → Loaded
  failed : ModelError → Loaded
  load_threw : Bytes → Loaded

-- What the code calls: the backend's devices, the decoder of the hints, the fetch layer and the two
-- model loaders. The last three take long, and hand back the service as the other threads left it.
pub record Host : Type 0 where
  pub backend : Backend ℕ
  pub parse_hints : Bytes → Option LoadHints
  pub fetch_all : List ModelFile → Service → Service × Fetched
  pub load_chat : LoadConfig → Service → Service × Loaded
  pub load_embed : LoadConfig → Service → Service × Loaded

-- Under the lock: the first load of an id wins, and only the winner records the files.
register_chat : LoadRequest → Model → Service → Service
register_chat req m s =
    let (models, inserted) = try_emplace req.model_id m s.chat_models in
    if inserted
    then record s {
      chat_models = models;
      model_files = assign req.model_id (loaded_model_file_keys req.files) s.model_files;
    }
    else record s { chat_models = models }

register_embed : LoadRequest → Model → Service → Service
register_embed req m s =
    let (models, inserted) = try_emplace req.model_id m s.embed_models in
    if inserted
    then record s {
      embed_models = models;
      model_files = assign req.model_id (loaded_model_file_keys req.files) s.model_files;
    }
    else record s { embed_models = models }

finish_chat : LoadRequest → Service × Loaded → Service × Reply
unfolding register_chat
finish_chat req (s, loaded m) =
    (register_chat req m s, frame (load_done req.job_id req.model_id m.pool_size))
finish_chat req (s, failed e) =
    (s, frame (load_failed req.job_id req.model_id (text "LoadModel(chat): " ++ e.message)))
finish_chat req (s, load_threw msg) = (s, threw msg)

finish_embed : LoadRequest → Service × Loaded → Service × Reply
unfolding register_embed
finish_embed req (s, loaded m) =
    (register_embed req m s, frame (load_done req.job_id req.model_id m.pool_size))
finish_embed req (s, failed e) =
    (s, frame (load_failed req.job_id req.model_id (text "LoadModel(embed): " ++ e.message)))
finish_embed req (s, load_threw msg) = (s, threw msg)

module _ (host : Host) where
  -- The whitelist's devices, identifiers and pool size, filled in over the hints.
  place : LoadRequest → List ℕ → List Bytes → LoadConfig → LoadConfig
  place req devices ids cfg = record cfg {
    max_concurrent = resolve_max_concurrent req.max_concurrent cfg.max_concurrent;
    allowed_devices = devices;
    device_ids = ids;
  }

  load_as_chat : LoadRequest → LoadConfig → Service → Service × Reply
  unfolding finish_chat
  load_as_chat req cfg s = elim (lookup req.model_id s.chat_models) [
    | some m ↦ (s, frame (load_done req.job_id req.model_id m.pool_size))
    | none ↦ finish_chat req (host.load_chat cfg s)
  ]

  load_as_embed : LoadRequest → LoadConfig → Service → Service × Reply
  unfolding finish_embed
  load_as_embed req cfg s = elim (lookup req.model_id s.embed_models) [
    | some m ↦ (s, frame (load_done req.job_id req.model_id m.pool_size))
    | none ↦ finish_embed req (host.load_embed cfg s)
  ]

  load_kind :
      LoadRequest
      → LoadHints
      → List ℕ
      → List Bytes
      → List (ℕ × Bytes)
      → LoadKind
      → Service
      → Service × Reply
  unfolding place load_as_chat load_as_embed
  load_kind req hints devices ids paths chat s =
      load_as_chat req
        (place req devices ids
          (to_chat_load_cfg hints (group_by_role paths req.files) s.vram_headroom_pct))
        s
  load_kind req hints devices ids paths unspecified_kind s =
      load_as_chat req
        (place req devices ids
          (to_chat_load_cfg hints (group_by_role paths req.files) s.vram_headroom_pct))
        s
  load_kind req hints devices ids paths kind s =
      load_as_embed req
        (place req devices ids
          (to_embed_load_cfg hints (group_by_role paths req.files) s.vram_headroom_pct))
        s

  -- From the fetch's return on: the stream may be gone, and then there is nobody to answer.
  after_fetch : LoadRequest → LoadHints → List ℕ → List Bytes → Service → Fetched → Service × Reply
  unfolding load_kind
  after_fetch req hints devices ids s result = if abandoned s then (s, no_frame) else elim result [
    | fetch_failed msg ↦
        (s, frame (load_failed req.job_id req.model_id (text "LoadModel: " ++ msg)))
    | fetched paths ↦ load_kind req hints devices ids paths hints.kind s
  ]

  fetch_and_load :
      LoadRequest → LoadHints → Option (List ℕ) → List Bytes → Service → Service × Reply
  unfolding after_fetch
  fetch_and_load req hints none ids s = (s, threw [])
  fetch_and_load req hints (some devices) ids s =
      let (s', result) = host.fetch_all req.files s in
      after_fetch req hints devices ids
        (record s' { cancel_requested = clear_job_cancel req.job_id s'.cancel_requested }) result

  pub load : LoadRequest → Service → Service × Reply
  unfolding fetch_and_load
  load req s = elim (host.parse_hints req.load_hints) [
    | none ↦ (
      s,
      frame (load_failed req.job_id req.model_id (text "LoadModel: invalid load_hints encoding")),
    )
    | some hints ↦
        let whitelist = allowed_load_devices s.enabled_devices host.backend in
        if is_empty whitelist.ids
        then (
          s,
          frame (
              load_failed req.job_id req.model_id
                (text "LoadModel: no devices enabled for model loads")),
        )
        else fetch_and_load req hints whitelist.devices whitelist.ids s
  ]

unload_embed : Bytes → Bytes → Service → Service × Reply
unload_embed job_id mid s = elim (lookup mid s.embed_models) [
  | some m ↦ (
    record s { embed_models = erase mid s.embed_models; model_files = erase mid s.model_files },
    frame (unload_done job_id mid),
  )
  | none ↦ (s, frame (unload_failed job_id mid (text "UnloadModel: model not loaded")))
]

-- The chat table first: an id is in one table, by the kind of its hints.
pub unload : Bytes → Bytes → Service → Service × Reply
unfolding unload_embed
unload job_id mid s = elim (lookup mid s.chat_models) [
  | some m ↦ (
    record s { chat_models = erase mid s.chat_models; model_files = erase mid s.model_files },
    frame (unload_done job_id mid),
  )
  | none ↦ unload_embed job_id mid s
]
