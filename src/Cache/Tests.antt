-- ===== src/Cache/Tests.antt =====
-- Runs of src/cache.cpp on a disk that keeps what was removed from it.
use mass_worker_llama_cpp.Prelude.{
  Bool, true, false, ◌&&◌, ◌||◌, not, List, [], ◌∷◌, Bytes, text, text_eq, any, if◌then◌else◌, ◌≡◌,
  refl, arith,
}
use mass_worker_llama_cpp.Service.Errors.{finds, is_prefix}
use mass_worker_llama_cpp.Fetch.{forward, trim_left_slashes}
use mass_worker_llama_cpp.Settings.Files.{join}
use mass_worker_llama_cpp.Cache.{
  DirState, unreadable, nonempty, vacant, FileSystem, parent_path, safe_cache_path, delete_each,
  delete_path, relative_path, normal_path, lead, behind, parent_at, removed, prune_empty_parents,
  delete_files,
}
use mass_worker_llama_cpp.Cache.Below.{Below}
use mass_worker_llama_cpp.Cache.Confined.{Confined}
use mass_worker_llama_cpp.Cache.Parents.{prune_empty_parents-ends}

abbrev files : List Bytes
files = text "models/b" ∷ text "models/c/d" ∷ []

abbrev dirs : List Bytes
dirs = text "models" ∷ text "models/c" ∷ []

-- The files and the directories that were removed.
abbrev Log : Type 0
Log = List Bytes × List Bytes

has : List Bytes → List Bytes → Bytes → Bool
has present gone p = any (text_eq p) present && not (any (text_eq p) gone)

inside : Bytes → List Bytes → List Bytes → Bool
unfolding has
inside dir gone [] = false
inside dir gone (p ∷ ps) =
    let rest = inside dir gone ps in
    if text_eq (parent_path p) dir && not (any (text_eq p) gone) then true else rest

state : Bytes → Log → DirState
unfolding has inside
state dir (f, d) =
    if not (has dirs d dir)
    then unreadable
    else if inside dir f files || inside dir d dirs
    then nonempty
    else vacant

abbrev disk : FileSystem
disk = record {
  W = Log;
  normal = λ s. s;
  is_absolute = λ s. false;
  exists = λ p w. has files w.0 p;
  remove_file = λ p w. (true, (p ∷ w.0, w.1));
  dir_state = state;
  remove_dir = λ p w. (true, (w.0, p ∷ w.1));
}

-- The loaded model stays, and so does models_dir.
abbrev Kept : Log → Type 0
Kept w = (any (text_eq (text "models/b")) w.0 ≡ false) × (any (text_eq (text "models")) w.1 ≡ false)

-- The file goes, then its empty directory; the loaded model and the names that lead outside stay.
deleted :
    delete_files disk
      (text "models")
      (text "/c\\d" ∷ text "b" ∷ text "../x" ∷ [])
      (text "models/b" ∷ [])
      ([], [])
    ≡ (text "models/c/d" ∷ [], text "models/c" ∷ [])
unfolding delete_files delete_each delete_path safe_cache_path relative_path normal_path parent_path
    lead behind parent_at prune_empty_parents removed state has inside any text text_eq join finds
    trim_left_slashes forward is_prefix
deleted = refl

-- With a models_dir that ends in '/', models_dir goes too.
deleted_top :
    delete_files disk (text "models/") (text "c/d" ∷ text "b" ∷ []) [] ([], [])
    ≡ (text "models/b" ∷ text "models/c/d" ∷ [], text "models" ∷ text "models/c" ∷ [])
unfolding delete_files delete_each delete_path safe_cache_path relative_path normal_path parent_path
    lead behind parent_at prune_empty_parents removed state has inside any text text_eq join finds
    trim_left_slashes forward is_prefix
deleted_top = refl

prune_empty_parents-ends_example :
    prune_empty_parents disk (text "models") 12 (text "models/c") (text "models/c/d" ∷ [], [])
    ≡ prune_empty_parents disk (text "models") 9 (text "models/c") (text "models/c/d" ∷ [], [])
unfolding text
prune_empty_parents-ends_example =
    prune_empty_parents-ends disk (text "models") 12 9 (text "models/c")
      (text "models/c/d" ∷ [], []) (omega arith) (omega arith)
