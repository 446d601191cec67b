-- ===== src/Service/Load/Config.antt =====
-- From the wire's load hints to the configuration of a load.
use mass_worker_llama_cpp.Prelude.{
  ℕ, ◌+◌, Bool, true, false, List, [], ◌∷◌, Option, none, some, Bytes, text, ◌==◌, if◌then◌else◌,
}
use mass_worker_llama_cpp.Prelude.Int.{ℤ, pos, ltb_ℤ}
use mass_worker_llama_cpp.Prelude.Map.{Dict, lookup, assign}
use mass_worker_llama_cpp.Service.Messages.{FileRole, ModelFile}
use mass_worker_llama_cpp.Service.Messages

-- `other_kind` is a value that this build does not know.
pub data LoadKind : Type 0 where
  unspecified_kind chat embedding other_kind : LoadKind

pub data CacheType : Type 0 where
  default_type f16 q8_0 q4_0 : CacheType

-- `llamacpp::LoadHints`; an `Option` is a field with presence.
pub record LoadHints : Type 0 where
  pub kind : LoadKind
  pub context_size : ℤ
  pub batch_size : Option ℤ
  pub gpu_layers : Option ℤ
  pub threads : Option ℤ
  pub max_concurrent : Option ℤ
  pub vram_headroom_pct : Option ℕ
  pub thinking : Bool
  pub chat_template : Bytes
  pub flash_attn : Option Bool
  pub cache_type : CacheType

-- `ChatModelLoadConfig`, and of it what `EmbeddingModelLoadConfig` has.
pub record LoadConfig : Type 0 where
  pub path : Bytes
  pub mmproj_path : Bytes
  pub context_size : ℤ
  pub batch_size : ℤ
  pub gpu_layers : ℤ
  pub threads : ℤ
  pub max_concurrent : ℤ
  pub vram_headroom_pct : ℕ
  pub flash_attn : Bytes
  pub cache_type : Bytes
  pub chat_template : Bytes
  pub thinking : Bool
  pub allowed_devices : List ℕ
  pub device_ids : List Bytes

abbrev or_else {ℓ} : {A : Type ℓ} → Option A → A → A
or_else none d = d
or_else (some a) d = a

flash_text : Option Bool → Bytes
flash_text none = []
flash_text (some true) = text "enabled"
flash_text (some false) = text "disabled"

cache_text : CacheType → Bytes
cache_text f16 = text "f16"
cache_text q8_0 = text "q8_0"
cache_text q4_0 = text "q4_0"
cache_text default_type = []

pub to_chat_load_cfg : LoadHints → Dict Bytes → ℕ → LoadConfig
unfolding flash_text cache_text
to_chat_load_cfg h files default_headroom = record {
  path = or_else (lookup (text "primary") files) [];
  mmproj_path = or_else (lookup (text "mmproj") files) [];
  context_size = h.context_size;
  batch_size = or_else h.batch_size (pos 0);
  gpu_layers = or_else h.gpu_layers (pos 0);
  threads = or_else h.threads (pos 0);
  max_concurrent = or_else h.max_concurrent (pos 0);
  vram_headroom_pct = or_else h.vram_headroom_pct default_headroom;
  flash_attn = flash_text h.flash_attn;
  cache_type = cache_text h.cache_type;
  chat_template = h.chat_template;
  thinking = h.thinking;
  allowed_devices = [];
  device_ids = [];
}

-- The fields that an embedding load lacks keep their empty values.
pub to_embed_load_cfg : LoadHints → Dict Bytes → ℕ → LoadConfig
to_embed_load_cfg h files default_headroom = record {
  path = or_else (lookup (text "primary") files) [];
  mmproj_path = [];
  context_size = h.context_size;
  batch_size = pos 0;
  gpu_layers = or_else h.gpu_layers (pos 0);
  threads = or_else h.threads (pos 0);
  max_concurrent = or_else h.max_concurrent (pos 0);
  vram_headroom_pct = or_else h.vram_headroom_pct default_headroom;
  flash_attn = [];
  cache_type = [];
  chat_template = [];
  thinking = false;
  allowed_devices = [];
  device_ids = [];
}

-- The hub's number wins whenever it states one.
pub resolve_max_concurrent : ℤ → ℤ → ℤ
resolve_max_concurrent hub hints = if ltb_ℤ (pos 0) hub then hub else hints

-- The keys of the cache that back a model; a file with no name has none.
pub loaded_model_file_keys : List ModelFile → List Bytes
loaded_model_file_keys [] = []
loaded_model_file_keys (f ∷ fs) = elim f.filename [
  | [] ↦ loaded_model_file_keys fs
  | c ∷ s ↦ f.filename ∷ loaded_model_file_keys fs
]

-- Files with no role are primary, for older gateways; an unknown role has no tag.
model_file_role_to_string : FileRole → Bytes
model_file_role_to_string Messages.primary = text "primary"
model_file_role_to_string Messages.mmproj = text "mmproj"
model_file_role_to_string Messages.unspecified = text "primary"
model_file_role_to_string Messages.other = []

find_index : ℕ → List (ℕ × Bytes) → Option Bytes
find_index i [] = none
find_index i ((j, path) ∷ ps) = if j == i then some path else find_index i ps

put_role : Bytes → Option Bytes → Dict Bytes → Dict Bytes
put_role role none out = out
put_role [] (some path) out = out
put_role (c ∷ role) (some path) out = assign (c ∷ role) path out

group_from : ℕ → List (ℕ × Bytes) → List ModelFile → Dict Bytes → Dict Bytes
unfolding model_file_role_to_string find_index put_role
group_from i paths [] out = out
group_from i paths (f ∷ fs) out =
    group_from (i + 1) paths fs
      (put_role (model_file_role_to_string f.role) (find_index i paths) out)

pub group_by_role : List (ℕ × Bytes) → List ModelFile → Dict Bytes
unfolding group_from
group_by_role paths files = group_from 0 paths files []
