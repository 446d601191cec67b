-- ===== src/Service/Placement.antt =====
-- Device whitelisting of src/worker_service.cpp: `set_enabled_devices`, `enabled_placement_ids` and
-- `allowed_load_devices`. The devices are those that the ggml backend enumerates, a parameter.
pub mod Ids
pub mod Devices
mod Tests
use mass_worker_llama_cpp.Prelude.{
  ℕ, zero, suc, ◌+◌, Bool, true, false, ◌&&◌, ◌||◌, List, [], ◌∷◌, ◌++◌, Option, none, some, Bytes,
  text, text_eq, get_elem?, length, if◌then◌else◌,
}
use mass_worker_llama_cpp.Prelude.Decimal.{to_string, stoi}

-- The operator's set: `none` is `std::nullopt`, every advertised device.
abbrev pub Enabled : Type 0
Enabled = Option (List Bytes)

-- `set_enabled_devices`: the duplicates that a set drops make no difference to `is_enabled`.
pub set_enabled_devices : Option (List Bytes) → Enabled
set_enabled_devices none = none
set_enabled_devices (some ids) = some ids

pub member : Bytes → List Bytes → Bool
member id [] = false
member id (x ∷ xs) = text_eq x id || member id xs

-- `!enabled || enabled->contains(id)`.
pub is_enabled : Enabled → Bytes → Bool
unfolding member
is_enabled none id = true
is_enabled (some ids) id = member id ids

pub gpu_id : ℕ → Bytes
gpu_id i = text "gpu:" ++ to_string i

pub cpu_id : Bytes
cpu_id = text "cpu:0"

-- The loop over the GPUs, `n` of them left from `i` on.
gpu_ids : Enabled → ℕ → ℕ → List Bytes
gpu_ids enabled i zero = []
gpu_ids enabled i (suc n) =
    let rest = gpu_ids enabled (i + 1) n in
    if is_enabled enabled (gpu_id i) then gpu_id i ∷ rest else rest

abbrev pub is_empty {ℓ} : {A : Type ℓ} → List A → Bool
is_empty [] = true
is_empty (x ∷ xs) = false

pub enabled_placement_ids : Enabled → ℕ → Bool → List Bytes
unfolding gpu_ids
enabled_placement_ids enabled gpu_count has_cpu =
    let ids = gpu_ids enabled 0 gpu_count in
    if is_empty ids && (has_cpu && is_enabled enabled cpu_id) then cpu_id ∷ [] else ids

-- `ggml_backend_dev_props::type`.
pub data DeviceType : Type 0 where
  cpu gpu igpu accel : DeviceType

drop_4 : Bytes → Bytes
drop_4 (a ∷ b ∷ c ∷ d ∷ s) = s
drop_4 _ = []

-- `ggml_backend_dev_get` may return null.
abbrev pub Backend {ℓ} : Type ℓ → Type ℓ
Backend Dev = List (Option (Dev × DeviceType))

pub record AllowedDevices {ℓ} (Dev : Type ℓ) : Type ℓ where
  pub devices : Option (List Dev)
  pub ids : List Bytes

module _ {ℓ} {Dev : Type ℓ} where
  pub gpu_devs : Backend Dev → List Dev
  gpu_devs [] = []
  gpu_devs (none ∷ ds) = gpu_devs ds
  gpu_devs (some (d, cpu) ∷ ds) = gpu_devs ds
  gpu_devs (some (d, gpu) ∷ ds) = d ∷ gpu_devs ds
  gpu_devs (some (d, igpu) ∷ ds) = d ∷ gpu_devs ds
  gpu_devs (some (d, accel) ∷ ds) = gpu_devs ds

  -- The last CPU of the walk.
  pub cpu_dev : Option Dev → Backend Dev → Option Dev
  cpu_dev found [] = found
  cpu_dev found (some (d, cpu) ∷ ds) = cpu_dev (some d) ds
  cpu_dev found (none ∷ ds) = cpu_dev found ds
  cpu_dev found (some (d, gpu) ∷ ds) = cpu_dev found ds
  cpu_dev found (some (d, igpu) ∷ ds) = cpu_dev found ds
  cpu_dev found (some (d, accel) ∷ ds) = cpu_dev found ds

  abbrev pub is_some : Option Dev → Bool
  is_some none = false
  is_some (some d) = true

  -- One identifier back to its device; `none` is a null pointer, an exception or a read out of
  -- range.
  device_of : List Dev → Option Dev → Bytes → Option Dev
  unfolding drop_4
  device_of gpus main id =
      if text_eq id cpu_id
      then main
      else elim (stoi (drop_4 id)) [ none ↦ none | some i ↦ get_elem? gpus i ]

  devices_of : List Dev → Option Dev → List Bytes → Option (List Dev)
  unfolding device_of
  devices_of gpus main [] = some []
  devices_of gpus main (id ∷ ids) = elim (device_of gpus main id) [
    | none ↦ none
    | some d ↦ elim (devices_of gpus main ids) [ none ↦ none | some ds ↦ some (d ∷ ds) ]
  ]

  -- Unrestricted, the device list stays empty: llama.cpp reads that as "use everything".
  pub allowed_load_devices : Enabled → Backend Dev → AllowedDevices Dev
  unfolding devices_of gpu_devs cpu_dev
  allowed_load_devices enabled backend =
      let gpus = gpu_devs backend in
      let main = cpu_dev none backend in
      let ids = enabled_placement_ids enabled (length gpus) (is_some main) in
      elim enabled [
        | none ↦ record { devices = some []; ids = ids }
        | some _ ↦ record { devices = devices_of gpus main ids; ids = ids }
      ]
