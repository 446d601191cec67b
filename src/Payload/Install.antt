-- ===== src/Payload/Install.antt =====
-- What an installer stands for: the list of the files that it puts into the directory.
use mass_worker_llama_cpp.Prelude.{
  ℕ, suc, ◌^◌, ◌<◌, Bool, true, false, List, [], ◌∷◌, ◌++◌, Bytes, length, ◌≡◌,
}
use mass_worker_llama_cpp.Payload.{
  Zstd, Dest, whole, Step, stop, next, PayloadError, no_directory, copy_failed, open_failed,
  write_failed, Extracted, failed, done, safe_entry_name, nonempty,
}
use mass_worker_llama_cpp.Payload.Pack.{put_le, put_name}

-- A file with its content, or another name for a file.
pub data Item : Type 0 where
  file : Bytes → Bytes → Item
  copy_of : Bytes → Bytes → Item

pub data Stored (W : Type 0) : Type 0 where
  refused : PayloadError → W → Stored W
  stored : W → Stored W

module _ (d : Dest) where
  abbrev pub stored_as : Bytes → PayloadError → Bool × d.W → Stored d.W
  stored_as name e (false, w) = refused e w
  stored_as name e (true, w) = stored (d.make_executable name w)

  abbrev pub write_opened : Bytes → Bytes → Bool × d.W → Stored d.W
  write_opened name s (false, w) = refused (open_failed name) w
  write_opened name s (true, w) = stored_as name (write_failed name) (d.write name s w)

  abbrev pub put_item : Item → d.W → Stored d.W
  put_item (file name s) w = write_opened name s (d.open_file name w)
  put_item (copy_of target name) w = stored_as name (copy_failed name) (d.copy_file target name w)

  -- The items are put one by one; the first one that the directory refuses ends it.
  abbrev pub install : List Item → ℕ → d.W → Extracted d.W
  install [] n w = done n w
  install (i ∷ is) n w = elim (put_item i w) [
    | refused e v ↦ failed e v
    | stored v ↦ install is (suc n) v
  ]

-- The same, into a directory that was prepared or not.
abbrev pub install_into : (d : Dest) → List Item → Bool × d.W → Extracted d.W
install_into d is (false, w) = failed no_directory w
install_into d is (true, w) = install d is 0 w

-- The frame of a file, as the compressor made it.
abbrev pub item_bytes : (Bytes → Bytes) → Item → Bytes
item_bytes frame (file name s) =
    put_name name ++ (0 ∷ (put_le 8 (length s) ++ (put_le 8 (length (frame s)) ++ frame s)))
item_bytes frame (copy_of target name) = put_name name ++ (1 ∷ put_name target)

abbrev pub Fits : Item → Type 0
Fits (file name s) = (safe_entry_name name ≡ true) × ((length name < 2 ^ 32) × (length s < 2 ^ 64))
Fits (copy_of target name) =
    (safe_entry_name name ≡ true)
    × ((length name < 2 ^ 32) × ((safe_entry_name target ≡ true) × (length target < 2 ^ 32)))

abbrev pub items_bytes : (Bytes → Bytes) → List Item → Bytes
items_bytes frame [] = []
items_bytes frame (i ∷ is) = item_bytes frame i ++ items_bytes frame is

-- The outcome of a record, with the offset behind it.
abbrev pub as_step : {W : Type 0} → ℕ → Stored W → Step W
as_step off (refused e w) = stop e w
as_step off (stored w) = next off w

-- The decompressor gives back what stands in the frame of a file.
abbrev pub Inflates : Zstd → (Bytes → Bytes) → Item → Type 0
Inflates z frame (file name s) = (nonempty (frame s) ≡ true) × (z.inflate (frame s) ≡ whole s [])
Inflates z frame (copy_of target name) = Unit {0}
