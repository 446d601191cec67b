-- ===== src/Service/Load/Tables.antt =====
-- The three tables of loaded models stay in step.
use mass_worker_llama_cpp.Prelude.{
  ℕ, Bool, true, false, ◌||◌, List, Option, none, some, Bytes, text, ◌++◌, text_eq, text_eq_iff,
  ◌≡◌, not, inl, inr, arith, Bool-cases, Option-cases,
}
use mass_worker_llama_cpp.Prelude.Map.{
  Dict, lookup, contains, try_emplace, contains-assign, contains-erase, contains-lookup,
}
use mass_worker_llama_cpp.Service.State.{Service, Model, abandoned}
use mass_worker_llama_cpp.Service.Placement.{allowed_load_devices, is_empty}
use mass_worker_llama_cpp.Service.Messages.{LoadRequest, ModelFile, Reply, frame, load_failed}
use mass_worker_llama_cpp.Service.Load.Config.{
  LoadHints, LoadKind, LoadConfig, unspecified_kind, other_kind, chat, embedding,
  loaded_model_file_keys,
}
use mass_worker_llama_cpp.Service.Load.{
  Host, Fetched, fetched, fetch_failed, Loaded, loaded, failed, load_threw, register_chat,
  register_embed, finish_chat, finish_embed, load_as_chat, load_as_embed, load_kind, after_fetch,
  fetch_and_load, load, unload_embed, unload,
}

-- `is_embed` says of an id which kind its loads have: equal ids mean equal files and hints. A model
-- has an entry in the files' table exactly if it is loaded, in the table of its kind.
pub record InStep (is_embed : Bytes → Bool) (s : Service) : Type 0 where
  pub keyed :
      (id : Bytes)
      → contains id s.model_files ≡ (contains id s.chat_models || contains id s.embed_models)
  pub chats : (id : Bytes) → contains id s.chat_models ≡ true → is_embed id ≡ false
  pub embeds : (id : Bytes) → contains id s.embed_models ≡ true → is_embed id ≡ true

module _ {V : Type 0} where
  pub contains-try_emplace :
      (k j : Bytes) (v : V) (m : Dict V)
      → contains j (try_emplace k v m).0 ≡ (text_eq k j || contains j m)
  unfolding try_emplace
  contains-try_emplace k j v m = elim (Bool-cases (contains k m)) [
    | inl e ↦ rw e (ground (arith, text_eq_iff k j, e))
    | inr e ↦ rw e (contains-assign k j v m)
  ]

  try_emplace-inserted :
      (k : Bytes) (v : V) (m : Dict V) → (try_emplace k v m).1 ≡ not (contains k m)
  unfolding try_emplace
  try_emplace-inserted k v m = ground arith

module _ (is_embed : Bytes → Bool) where
  register_chat-keyed :
      (req : LoadRequest) (m : Model) (s : Service) (id : Bytes)
      → InStep is_embed s
      → let t = register_chat req m s in
        contains id t.model_files ≡ (contains id t.chat_models || contains id t.embed_models)
  unfolding register_chat
  register_chat-keyed req m s id v = elim (Bool-cases (contains req.model_id s.chat_models)) [
    | inl e ↦
        rw (try_emplace-inserted req.model_id m s.chat_models, e)
          (ground (
            arith,
            contains-try_emplace req.model_id id m s.chat_models,
            v.keyed id,
            text_eq_iff req.model_id id,
            e,
          ))
    | inr e ↦
        rw (try_emplace-inserted req.model_id m s.chat_models, e)
          (ground (
            arith,
            contains-try_emplace req.model_id id m s.chat_models,
            v.keyed id,
            contains-assign req.model_id id (loaded_model_file_keys req.files) s.model_files,
          ))
  ]

  register_embed-keyed :
      (req : LoadRequest) (m : Model) (s : Service) (id : Bytes)
      → InStep is_embed s
      → let t = register_embed req m s in
        contains id t.model_files ≡ (contains id t.chat_models || contains id t.embed_models)
  unfolding register_embed
  register_embed-keyed req m s id v = elim (Bool-cases (contains req.model_id s.embed_models)) [
    | inl e ↦
        rw (try_emplace-inserted req.model_id m s.embed_models, e)
          (ground (
            arith,
            contains-try_emplace req.model_id id m s.embed_models,
            v.keyed id,
            text_eq_iff req.model_id id,
            e,
          ))
    | inr e ↦
        rw (try_emplace-inserted req.model_id m s.embed_models, e)
          (ground (
            arith,
            contains-try_emplace req.model_id id m s.embed_models,
            v.keyed id,
            contains-assign req.model_id id (loaded_model_file_keys req.files) s.model_files,
          ))
  ]

  register_chat-InStep :
      (req : LoadRequest) (m : Model) (s : Service)
      → is_embed req.model_id ≡ false
      → InStep is_embed s
      → InStep is_embed (register_chat req m s)
  unfolding register_chat
  register_chat-InStep req m s h v = record {
    keyed = λ id. register_chat-keyed req m s id v;
    chats = λ id c. ground (
      arith,
      contains-try_emplace req.model_id id m s.chat_models,
      v.chats id,
      text_eq_iff req.model_id id,
    );
    embeds = λ id c. ground (arith, v.embeds id);
  }

  register_embed-InStep :
      (req : LoadRequest) (m : Model) (s : Service)
      → is_embed req.model_id ≡ true
      → InStep is_embed s
      → InStep is_embed (register_embed req m s)
  unfolding register_embed
  register_embed-InStep req m s h v = record {
    keyed = λ id. register_embed-keyed req m s id v;
    chats = λ id c. ground (arith, v.chats id);
    embeds = λ id c. ground (
      arith,
      contains-try_emplace req.model_id id m s.embed_models,
      v.embeds id,
      text_eq_iff req.model_id id,
    );
  }

  finish_chat-InStep :
      (req : LoadRequest) (r : Service × Loaded)
      → is_embed req.model_id ≡ false
      → InStep is_embed r.0
      → InStep is_embed (finish_chat req r).0
  unfolding finish_chat
  finish_chat-InStep req (s, loaded m) h v = register_chat-InStep req m s h v
  finish_chat-InStep req (s, failed e) h v = v
  finish_chat-InStep req (s, load_threw msg) h v = v

  finish_embed-InStep :
      (req : LoadRequest) (r : Service × Loaded)
      → is_embed req.model_id ≡ true
      → InStep is_embed r.0
      → InStep is_embed (finish_embed req r).0
  unfolding finish_embed
  finish_embed-InStep req (s, loaded m) h v = register_embed-InStep req m s h v
  finish_embed-InStep req (s, failed e) h v = v
  finish_embed-InStep req (s, load_threw msg) h v = v

  -- What the other threads do during a fetch or a load keeps the tables in step.
  pub record Keeps (host : Host) : Type 0 where
    pub fetch :
        (files : List ModelFile) (s : Service)
        → InStep is_embed s
        → InStep is_embed (host.fetch_all files s).0
    pub chat_load :
        (cfg : LoadConfig) (s : Service)
        → InStep is_embed s
        → InStep is_embed (host.load_chat cfg s).0
    pub embed_load :
        (cfg : LoadConfig) (s : Service)
        → InStep is_embed s
        → InStep is_embed (host.load_embed cfg s).0

-- A load of an unknown kind is one of an embedding model.
abbrev pub is_embedding : LoadKind → Bool
is_embedding chat = false
is_embedding unspecified_kind = false
is_embedding _ = true

module _ (is_embed : Bytes → Bool) (host : Host) (keeps : Keeps is_embed host) where
  load_as_chat-InStep :
      (req : LoadRequest) (cfg : LoadConfig) (s : Service)
      → is_embed req.model_id ≡ false
      → InStep is_embed s
      → InStep is_embed (load_as_chat host req cfg s).0
  unfolding load_as_chat
  load_as_chat-InStep req cfg s h v = elim (Option-cases (lookup req.model_id s.chat_models)) [
    | inl e ↦
        rw (e, load_as_chat)
          (finish_chat-InStep is_embed req (host.load_chat cfg s) h (keeps.chat_load cfg s v))
    | inr (m, e) ↦ rw (e, load_as_chat) v
  ]

  load_as_embed-InStep :
      (req : LoadRequest) (cfg : LoadConfig) (s : Service)
      → is_embed req.model_id ≡ true
      → InStep is_embed s
      → InStep is_embed (load_as_embed host req cfg s).0
  unfolding load_as_embed
  load_as_embed-InStep req cfg s h v = elim (Option-cases (lookup req.model_id s.embed_models)) [
    | inl e ↦
        rw (e, load_as_embed)
          (finish_embed-InStep is_embed req (host.load_embed cfg s) h (keeps.embed_load cfg s v))
    | inr (m, e) ↦ rw (e, load_as_embed) v
  ]

  load_kind-InStep :
      (req : LoadRequest) (hints : LoadHints) (devices : List ℕ) (ids : List Bytes)
      (paths : List (ℕ × Bytes)) (kind : LoadKind) (s : Service)
      → is_embed req.model_id ≡ is_embedding kind
      → InStep is_embed s
      → InStep is_embed (load_kind host req hints devices ids paths kind s).0
  unfolding load_kind
  load_kind-InStep req hints devices ids paths embedding s h v = load_as_embed-InStep req _ s h v
  load_kind-InStep req hints devices ids paths other_kind s h v = load_as_embed-InStep req _ s h v
  load_kind-InStep req hints devices ids paths chat s h v = load_as_chat-InStep req _ s h v
  load_kind-InStep req hints devices ids paths unspecified_kind s h v =
      load_as_chat-InStep req _ s h v

  after_fetch-InStep :
      (req : LoadRequest) (hints : LoadHints) (devices : List ℕ) (ids : List Bytes) (s : Service)
      (result : Fetched)
      → is_embed req.model_id ≡ is_embedding hints.kind
      → InStep is_embed s
      → InStep is_embed (after_fetch host req hints devices ids s result).0
  unfolding after_fetch
  after_fetch-InStep req hints devices ids s result h v = elim (Bool-cases (abandoned s)) [
    | inl e ↦ rw e v
    | inr e ↦ rw e (answered result)
  ]
    where
      answered :
          (r : Fetched)
          → InStep is_embed
              (elim r as (λ x. Service × Reply) [
                | fetch_failed msg ↦
                    (s, frame (load_failed req.job_id req.model_id (text "LoadModel: " ++ msg)))
                | fetched paths ↦ load_kind host req hints devices ids paths hints.kind s
              ]).0
      answered (fetch_failed msg) = v
      answered (fetched paths) = load_kind-InStep req hints devices ids paths hints.kind s h v

  fetch_and_load-InStep :
      (req : LoadRequest) (hints : LoadHints) (devices : Option (List ℕ)) (ids : List Bytes)
      (s : Service)
      → is_embed req.model_id ≡ is_embedding hints.kind
      → InStep is_embed s
      → InStep is_embed (fetch_and_load host req hints devices ids s).0
  unfolding fetch_and_load
  fetch_and_load-InStep req hints none ids s h v = v
  fetch_and_load-InStep req hints (some devices) ids s h v =
      let w = keeps.fetch req.files s v in
      after_fetch-InStep req hints devices ids _ (host.fetch_all req.files s).1 h
        (record { keyed = w.keyed; chats = w.chats; embeds = w.embeds })

  -- A load, whatever becomes of it, keeps tables in step that are so, if the kind of its hints is
  -- the kind of its id and the other threads keep them in step while the fetch and the load run.
  pub load-InStep :
      (req : LoadRequest) (s : Service)
      → ((hints : LoadHints)
          → host.parse_hints req.load_hints ≡ some hints
          → is_embed req.model_id ≡ is_embedding hints.kind)
      → InStep is_embed s
      → InStep is_embed (load host req s).0
  unfolding load
  load-InStep req s h v = elim (Option-cases (host.parse_hints req.load_hints)) [
    | inl e ↦ rw (e, load) v
    | inr (hints, e) ↦
        let w = allowed_load_devices s.enabled_devices host.backend in
        rw (e, load)
          (elim (Bool-cases (is_empty w.ids)) [
            | inl f ↦ rw f v
            | inr f ↦ rw f (fetch_and_load-InStep req hints w.devices w.ids s (h hints e) v)
          ])
  ]

module _ (is_embed : Bytes → Bool) where
  unload_embed-InStep :
      (job_id mid : Bytes) (s : Service)
      → contains mid s.chat_models ≡ false
      → InStep is_embed s
      → InStep is_embed (unload_embed job_id mid s).0
  unfolding unload_embed
  unload_embed-InStep job_id mid s h v = elim (Option-cases (lookup mid s.embed_models)) [
    | inl e ↦ rw (e, unload_embed) v
    | inr (m, e) ↦
        rw (e, unload_embed)
          (record {
            keyed = λ id. ground (
              arith,
              v.keyed id,
              contains-erase mid id s.model_files,
              contains-erase mid id s.embed_models,
              text_eq_iff mid id,
              h,
            );
            chats = v.chats;
            embeds = λ id c. ground (arith, contains-erase mid id s.embed_models, v.embeds id);
          })
  ]

  -- An unload keeps tables in step that are so.
  pub unload-InStep :
      (job_id mid : Bytes) (s : Service)
      → InStep is_embed s
      → InStep is_embed (unload job_id mid s).0
  unfolding unload
  unload-InStep job_id mid s v = elim (Option-cases (lookup mid s.chat_models)) [
    | inl e ↦
        rw (e, unload)
          (unload_embed-InStep job_id mid s (rw (contains-lookup mid s.chat_models, e)) v)
    | inr (m, e) ↦
        rw (e, unload)
          (record {
            keyed = λ id. ground (
              arith,
              v.keyed id,
              v.chats mid,
              v.embeds id,
              contains-erase mid id s.model_files,
              contains-erase mid id s.chat_models,
              text_eq_iff mid id,
              contains-lookup mid s.chat_models,
              e,
            );
            chats = λ id c. ground (arith, contains-erase mid id s.chat_models, v.chats id);
            embeds = v.embeds;
          })
  ]
