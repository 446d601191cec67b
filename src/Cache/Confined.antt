-- ===== src/Cache/Confined.antt =====
-- What `Cache::delete_files` may do to the disk, whatever names it is sent.
use mass_worker_llama_cpp.Prelude.{false, List, Option, none, some, Bytes, text, text_eq, any, ◌≡◌}
use mass_worker_llama_cpp.Service.Errors.{finds}
use mass_worker_llama_cpp.Settings.Files.{join}
use mass_worker_llama_cpp.Prelude.Lines.{ends_in}
use mass_worker_llama_cpp.Cache.Below.{Below}
use mass_worker_llama_cpp.Cache.{vacant, FileSystem}

-- A property of the disk that stays when a file under models_dir that no loaded model uses is
-- removed, and when an empty directory strictly below models_dir is.
pub record Confined (fs : FileSystem) (models_dir : Bytes) (loaded : List Bytes) (P : fs.W → Type 0)
    : Type 0 where
  pub remove_file :
      (s : Bytes) (w : fs.W)
      → finds (text "..") s ≡ false
      → fs.is_absolute s ≡ false
      → any (text_eq (join models_dir s)) loaded ≡ false
      → P w
      → P (fs.remove_file (join models_dir s) w).1
  pub remove_dir :
      (dir : Bytes) (w : fs.W)
      → Below models_dir dir
      → fs.dir_state dir w ≡ vacant
      → P w
      → P (fs.remove_dir dir w).1

module _ (fs : FileSystem) (models_dir : Bytes) (loaded : List Bytes) (P : fs.W → Type 0)
    (k : Confined fs models_dir loaded P) (plain : ends_in b'/' models_dir ≡ false) where
  -- What a name that is not refused stands for.
  abbrev Within : Option Bytes → Type 0
  Within none = Unit {0}
  Within (some path) =
      (s : Bytes) × (path ≡ join models_dir s)
      × (finds (text "..") s ≡ false)
      × (fs.is_absolute s ≡ false)
