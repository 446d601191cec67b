-- ===== src/Service/Active/Capacity.antt =====
-- What a heartbeat advertises, in terms of the guards that are live.
use mass_worker_llama_cpp.Prelude.{
  ℕ, zero, suc, ◌+◌, ◌-◌, List, [], ◌∷◌, ◌++◌, Option, none, some, Bytes, map, length, ◌≡◌, refl,
  sym, ap, arith, ◌∙◌,
}
use mathlib.Core.Path.{ap₂}
use mathlib.Core.List.{map-append}
use mass_worker_llama_cpp.Prelude.Map.{Dict, lookup}
use mass_worker_llama_cpp.Service.State.{Service, Model}
use mass_worker_llama_cpp.Service.Active.{
  ModelStatus, count_of, files_of, status, statuses, heartbeat,
}
use mass_worker_llama_cpp.Service.Active.Guards.{Tracks, count, positive}

abbrev pub listed : Option (List Bytes) → List Bytes
listed none = []
listed (some files) = files

-- What there is to tell of a model: its live guards are the jobs that are active on it.
abbrev pub facts : List Bytes → Service → Bytes × Model → ModelStatus
facts held s (id, m) = record {
  model_id = id;
  pool_size = m.pool_size;
  active = count id held;
  device_ids = m.device_ids;
  files = listed (lookup id s.model_files);
}

-- The slots of the models that no live guard takes; a model with more guards than slots has none.
abbrev pub free_slots : List Bytes → Dict Model → ℕ
free_slots held [] = 0
free_slots held ((id, m) ∷ ms) = (m.pool_size - count id held) + free_slots held ms

count_of-positive : (n : ℕ) → count_of (positive n) ≡ n
unfolding count_of
count_of-positive zero = refl
count_of-positive (suc n) = refl

listed_files : (o : Option (List Bytes)) → files_of o ≡ listed o
unfolding files_of
listed_files none = refl
listed_files (some fs) = refl

module _ (held : List Bytes) (s : Service) (t : Tracks held s) where
  active_guards : (id : Bytes) → count_of (lookup id s.active_per_model) ≡ count id held
  active_guards id = ap count_of (t.each id) ∙ count_of-positive (count id held)

  status-facts : (id : Bytes) (m : Model) → status s id m ≡ facts held s (id, m)
  unfolding status
  status-facts id m =
      ap₂
        (λ n fs. record {
          model_id = id;
          pool_size = m.pool_size;
          active = n;
          device_ids = m.device_ids;
          files = fs;
        })
        (active_guards id) (listed_files (lookup id s.model_files))

  statuses-facts :
      (c : ℕ) (ms : Dict Model) → statuses s c ms ≡ (c + free_slots held ms, map (facts held s) ms)
  unfolding statuses
  statuses-facts c [] = ap (λ n. (n, [])) (omega arith)
  statuses-facts c ((id, m) ∷ ms) =
      ap
        (λ x. (
          (statuses s (c + (x.pool_size - x.active)) ms).0,
          x ∷ (statuses s (c + (x.pool_size - x.active)) ms).1,
        ))
        (status-facts id m)
      ∙ (ap (λ r. (r.0, facts held s (id, m) ∷ r.1))
            (statuses-facts (c + (m.pool_size - count id held)) ms)
          ∙ ap (λ n. (n, facts held s (id, m) ∷ map (facts held s) ms)) (omega arith))

  -- If the counts are those of the live guards, as after any interleaving of guards, the heartbeat
  -- reports each entry of the two tables of models, the chat models first, with its identifier, pool
  -- size, devices and files, and as active the live guards of the model; it reports the number of
  -- all live guards as active jobs, and as capacity the slots that no live guard takes.
  pub heartbeat-capacity :
      ((heartbeat s).loaded_models ≡ map (facts held s) (s.chat_models ++ s.embed_models))
      × ((heartbeat s).active_jobs ≡ length held)
      × ((heartbeat s).available_capacity
          ≡ free_slots held s.chat_models + free_slots held s.embed_models)
  unfolding heartbeat
  heartbeat-capacity =
      let chats = statuses-facts 0 s.chat_models in
      let embeds = statuses-facts (statuses s 0 s.chat_models).0 s.embed_models in
      (
        ap₂ ◌++◌ (ap (λ r. r.1) chats) (ap (λ r. r.1) embeds)
            ∙ sym (map-append (facts held s) s.chat_models s.embed_models),
        t.total,
        ap (λ r. r.0) embeds ∙ ap (λ r. r.0 + free_slots held s.embed_models) chats ∙ omega arith,
      )
