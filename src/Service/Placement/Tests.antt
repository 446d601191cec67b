-- ===== src/Service/Placement/Tests.antt =====
-- The theorems on the device whitelist at concrete machines.
use mass_worker_llama_cpp.Tests.{service}
use mass_worker_llama_cpp.Service.State.{Service}
use mass_worker_llama_cpp.Prelude.{ℕ, true, List, [], ◌∷◌, none, some, text, ◌≡◌, All, length}
use mass_worker_llama_cpp.Service.Placement.{
  Enabled, Backend, cpu, gpu, enabled_placement_ids, gpu_devs, cpu_dev, is_some,
  allowed_load_devices,
}
use mass_worker_llama_cpp.Service.Placement.Ids.{IsTarget, enabled_placement_ids-IsTarget}
use mass_worker_llama_cpp.Service.Placement.Devices.{Aligned, allowed_load_devices-Aligned}

abbrev only_second : Enabled
only_second = some (text "gpu:1" ∷ [])

enabled_placement_ids-IsTarget_example :
    All
      (IsTarget only_second 2 true (enabled_placement_ids only_second 2 true))
      (enabled_placement_ids only_second 2 true)
enabled_placement_ids-IsTarget_example = enabled_placement_ids-IsTarget only_second 2 true

abbrev two_gpus : Backend ℕ
two_gpus = some (0, cpu) ∷ none ∷ some (1, gpu) ∷ some (2, gpu) ∷ []

allowed_load_devices-Aligned_example :
    let allowed = allowed_load_devices only_second two_gpus in
    (allowed.ids
      ≡ enabled_placement_ids only_second
          (length (gpu_devs two_gpus))
          (is_some (cpu_dev none two_gpus)))
    × ((ds : List ℕ) × (allowed.devices ≡ some ds)
        × Aligned (gpu_devs two_gpus) (cpu_dev none two_gpus) allowed.ids ds)
    × ((allowed_load_devices none two_gpus).devices ≡ some [])
allowed_load_devices-Aligned_example = allowed_load_devices-Aligned (text "gpu:1" ∷ []) two_gpus

-- The operator has disabled every device.
abbrev idle : Service
idle = record service { enabled_devices = some [] }
