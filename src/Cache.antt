-- ===== src/Cache.antt =====
-- src/cache.cpp: deleting files of the model cache, given the files of the loaded models. The file
-- system is a parameter, with `normal` for `lexically_normal` in generic form; `remove_file` says
-- whether it met no error, and a path stands for its text, so that a models_dir with a doubled
-- separator is left out, as is the listing of the cache.
pub mod Below
pub mod Confined
pub mod Parents
mod Tests
use mass_worker_llama_cpp.Prelude.{
  ℕ, zero, suc, ◌+◌, Bool, true, false, ◌&&◌, ◌||◌, not, List, [], ◌∷◌, ◌++◌, Option, none, some,
  Bytes, text, text_eq, any, map, length, ◌==◌, if◌then◌else◌,
}
use mass_worker_llama_cpp.Service.Errors.{finds}
use mass_worker_llama_cpp.Fetch.{forward, trim_left_slashes}
use mass_worker_llama_cpp.Settings.Files.{join}

pub data DirState : Type 0 where
  unreadable nonempty vacant : DirState

pub record FileSystem : Type 1 where
  pub W : Type 0
  pub normal : Bytes → Bytes
  pub is_absolute : Bytes → Bool
  pub exists : Bytes → W → Bool
  pub remove_file : Bytes → W → Bool × W
  pub dir_state : Bytes → W → DirState
  pub remove_dir : Bytes → W → Bool × W

-- `parent_path()`: what stands before the last '/' (or run of them); the root is its own parent.
behind : ℕ → Option Bytes → Option Bytes
behind c none = if c == b'/' then some [] else none
behind c (some []) = if c == b'/' then some [] else some (c ∷ [])
behind c (some (x ∷ d)) = some (c ∷ x ∷ d)

lead : Bytes → Option Bytes
unfolding behind
lead [] = none
lead (c ∷ s) = behind c (lead s)

parent_at : Option Bytes → Bytes
parent_at none = []
parent_at (some []) = b'/' ∷ []
parent_at (some (c ∷ d)) = c ∷ d

pub parent_path : Bytes → Bytes
unfolding lead parent_at
parent_path s = parent_at (lead s)

module _ (fs : FileSystem) (models_dir : Bytes) where
  normal_path : Bytes → Option Bytes
  unfolding finds
  normal_path s =
      if text_eq s (text ".") || text_eq s []
      then none
      else if finds (text "..") s
      then none
      else if fs.is_absolute s
      then none
      else some (join models_dir s)

  -- ':' would be a drive or a stream on Windows.
  relative_path : Bytes → Option Bytes
  unfolding normal_path any
  relative_path [] = none
  relative_path (c ∷ s) =
      let p = normal_path (fs.normal (c ∷ s)) in if any (λ b. b == b':') (c ∷ s) then none else p

  pub safe_cache_path : Bytes → Option Bytes
  unfolding relative_path
  safe_cache_path [] = none
  safe_cache_path (c ∷ rel) = relative_path (trim_left_slashes (map forward (c ∷ rel)))

  -- On fuel: each round goes to a shorter path.
  pub prune_empty_parents : ℕ → Bytes → fs.W → fs.W
  prune_empty_parents zero dir w = w
  prune_empty_parents (suc n) dir w =
      let r = fs.remove_dir dir w in
      let above = prune_empty_parents n (parent_path dir) r.1 in
      if text_eq dir models_dir || text_eq dir (parent_path dir)
      then w
      else elim (fs.dir_state dir w) [
        | unreadable ↦ w
        | nonempty ↦ w
        | vacant ↦ if r.0 then above else r.1
      ]

  removed : Bytes → Bool × fs.W → fs.W
  unfolding prune_empty_parents
  removed path (false, w) = w
  removed path (true, w) =
      prune_empty_parents (suc (length (parent_path path))) (parent_path path) w

  delete_path : List Bytes → Option Bytes → fs.W → fs.W
  unfolding removed any
  delete_path loaded none w = w
  delete_path loaded (some path) w =
      if any (text_eq path) loaded
      then w
      else if not (fs.exists path w)
      then w
      else removed path (fs.remove_file path w)

  delete_each : List Bytes → List Bytes → fs.W → fs.W
  unfolding delete_path safe_cache_path
  delete_each loaded [] w = w
  delete_each loaded (rel ∷ names) w =
      delete_each loaded names (delete_path loaded (safe_cache_path rel) w)

  pub delete_files : List Bytes → List Bytes → fs.W → fs.W
  unfolding delete_each
  delete_files names loaded w = if text_eq models_dir [] then w else delete_each loaded names w
