-- ===== src/Service/Placement/Devices.antt =====
-- The devices behind the identifiers: the parse of an identifier back to a device never fails.
use mass_worker_llama_cpp.Prelude.{
  ℕ, zero, suc, ◌<◌, true, false, List, [], ◌∷◌, Option, none, some, Bytes, text, text_eq,
  text_eq_refl, ◌≡◌, ◌⊎◌, inl, inr, refl, ◌∙◌, arith, All, get_elem?, length,
}
use mass_worker_llama_cpp.Prelude.Decimal.{to_string, stoi-to_string}
use mass_worker_llama_cpp.Service.Placement.{
  Enabled, Backend, gpu_id, cpu_id, gpu_devs, cpu_dev, is_some, drop_4, device_of, devices_of,
  enabled_placement_ids, allowed_load_devices,
}
use mass_worker_llama_cpp.Service.Placement.Ids
use mass_worker_llama_cpp.Service.Placement.Ids.{IsTarget, enabled_placement_ids-IsTarget}

gpu_id-ne-cpu_id : (k : ℕ) → text_eq (gpu_id k) cpu_id ≡ false
unfolding gpu_id cpu_id text text_eq
gpu_id-ne-cpu_id k = refl

drop_4-gpu_id : (k : ℕ) → drop_4 (gpu_id k) ≡ to_string k
unfolding gpu_id drop_4 text
drop_4-gpu_id k = refl

module _ {Dev : Type 0} where
  -- The device that an identifier names.
  abbrev pub Names : List Dev → Option Dev → Bytes → Dev → Type 0
  Names gpus main id d =
      ((k : ℕ) × (id ≡ gpu_id k) × (get_elem? gpus k ≡ some d)) ⊎ ((id ≡ cpu_id) × (main ≡ some d))

  -- The two lists go in step.
  abbrev pub Aligned : List Dev → Option Dev → List Bytes → List Dev → Type 0
  Aligned gpus main [] [] = Unit
  Aligned gpus main [] (d ∷ ds) = ⊥
  Aligned gpus main (id ∷ ids) [] = ⊥
  Aligned gpus main (id ∷ ids) (d ∷ ds) = Names gpus main id d × Aligned gpus main ids ds

  elem_below : (xs : List Dev) (k : ℕ) → k < length xs → (d : Dev) × (get_elem? xs k ≡ some d)
  elem_below [] k h = elim h [ ]
  elem_below (x ∷ xs) zero h = (x, refl)
  elem_below (x ∷ xs) (suc k) h = elem_below xs k (omega arith)

  device_of-gpu_id :
      (gpus : List Dev) (main : Option Dev) (k : ℕ) (d : Dev)
      → get_elem? gpus k ≡ some d
      → device_of gpus main (gpu_id k) ≡ some d
  unfolding device_of
  device_of-gpu_id gpus main k d e = rw (gpu_id-ne-cpu_id k, drop_4-gpu_id k, stoi-to_string k) e

  device_of-cpu_id : (gpus : List Dev) (main : Option Dev) → device_of gpus main cpu_id ≡ main
  unfolding device_of
  device_of-cpu_id gpus main = rw (text_eq_refl cpu_id)

  some_of : (main : Option Dev) → is_some main ≡ true → (d : Dev) × (main ≡ some d)
  some_of none h = cc
  some_of (some d) h = (d, refl)

  device_of-Names :
      (enabled : Enabled) (gpus : List Dev) (main : Option Dev) (all : List Bytes) {id : Bytes}
      → IsTarget enabled (length gpus) (is_some main) all id
      → (d : Dev) × (device_of gpus main id ≡ some d) × Names gpus main id d
  device_of-Names enabled gpus main all {id} (Ids.gpu k h _ e) =
      let (d, found) = elem_below gpus k h in
      (d, rw e (device_of-gpu_id gpus main k d found), inl (k, e, found))
  device_of-Names enabled gpus main all {id} (Ids.cpu e _ h _ _) =
      let (d, found) = some_of main h in
      (d, rw e (device_of-cpu_id gpus main ∙ found), inr (e, found))

  devices_of-Aligned :
      (enabled : Enabled) (gpus : List Dev) (main : Option Dev) (all ids : List Bytes)
      → All (IsTarget enabled (length gpus) (is_some main) all) ids
      → (ds : List Dev) × (devices_of gpus main ids ≡ some ds) × Aligned gpus main ids ds
  unfolding devices_of
  devices_of-Aligned enabled gpus main all [] h = ([], refl, tt)
  devices_of-Aligned enabled gpus main all (id ∷ ids) h =
      let (d, found, named) = device_of-Names enabled gpus main all h.0 in
      let (ds, rest, aligned) = devices_of-Aligned enabled gpus main all ids h.1 in
      (d ∷ ds, rw (found, devices_of) (rw (rest, devices_of)), (named, aligned))

  -- Under a whitelist the devices of a load are those of its identifiers, in the same order: no
  -- identifier fails to parse, is out of range or stands for a missing CPU. With no whitelist the
  -- device list is empty, and the identifiers name the whole placement set.
  pub allowed_load_devices-Aligned :
      (ids : List Bytes) (backend : Backend Dev)
      → let allowed = allowed_load_devices (some ids) backend in
        (allowed.ids
          ≡ enabled_placement_ids
              (some ids)
              (length (gpu_devs backend))
              (is_some (cpu_dev none backend)))
        × ((ds : List Dev) × (allowed.devices ≡ some ds)
            × Aligned (gpu_devs backend) (cpu_dev none backend) allowed.ids ds)
        × ((allowed_load_devices none backend).devices ≡ some [])
  unfolding allowed_load_devices
  allowed_load_devices-Aligned ids backend = (
    refl,
    devices_of-Aligned (some ids) _ _ _ _ (enabled_placement_ids-IsTarget (some ids) _ _),
    refl,
  )

  pub allowed_load_devices-ids :
      (enabled : Enabled) (backend : Backend Dev)
      → (allowed_load_devices enabled backend).ids
        ≡ enabled_placement_ids enabled (length (gpu_devs backend)) (is_some (cpu_dev none backend))
  unfolding allowed_load_devices
  allowed_load_devices-ids none backend = refl
  allowed_load_devices-ids (some ids) backend = refl
