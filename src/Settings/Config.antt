-- ===== src/Settings/Config.antt =====
-- src/config.cpp: `load_config` and `save_config`.
pub mod RoundTrip
pub mod Refused
mod Tests
use mass_worker_llama_cpp.Prelude.{
  ℕ, zero, suc, ◌-◌, ◌^◌, ◌≤◌, Bool, true, false, ◌||◌, List, [], ◌∷◌, ◌++◌, Option, none, some,
  Bytes, text, text_eq, if◌then◌else◌, leb, ◌==◌,
}
use mass_worker_llama_cpp.Prelude.Int.{ℤ, pos, negsuc}
use mass_worker_llama_cpp.Prelude.Decimal.{to_string, stoi}
use mass_worker_llama_cpp.Prelude.Lines.{lines, chomp, cut_at, ends_in, pop_back, put}
use mass_worker_llama_cpp.Settings.Files.{Disk, join, write_private_file}

pub record WorkerConfig : Type 0 where
  pub name : Option Bytes
  pub models_dir : Option Bytes
  pub gpu_backend : Option Bytes
  pub log_level : Option Bytes
  pub log_file : Option Bytes
  pub vram_headroom_pct : Option ℤ

abbrev pub unset : WorkerConfig
unset = record {
  name = none;
  models_dir = none;
  gpu_backend = none;
  log_level = none;
  log_file = none;
  vram_headroom_pct = none;
}

-- `std::from_chars` into an `int`: a value out of range is refused, what stands behind the digits
-- is not looked at.
in_range : ℕ → (ℕ → ℤ) → ℕ → Option ℤ
in_range top sign n = if leb n top then some (sign n) else none

minus : ℕ → ℤ
minus zero = pos 0
minus (suc n) = negsuc n

bounded : ℕ → (ℕ → ℤ) → Option ℕ → Option ℤ
unfolding in_range
bounded top sign none = none
bounded top sign (some n) = in_range top sign n

pub from_chars : Bytes → Option ℤ
unfolding bounded minus
from_chars [] = none
from_chars (c ∷ s) =
    if c == b'-' then bounded (2 ^ 31) minus (stoi s) else bounded (2 ^ 31 - 1) pos (stoi (c ∷ s))

-- `operator<<` of an `int`.
show_int : ℤ → Bytes
show_int (pos n) = to_string n
show_int (negsuc n) = b'-' ∷ to_string (suc n)

abbrev is_blank : ℕ → Bool
is_blank c = c == b' ' || c == b'\t'

-- `find_first_not_of(" \t")`.
drop_blank : Bytes → Bytes
drop_blank [] = []
drop_blank (c ∷ s) = let rest = drop_blank s in if is_blank c then rest else c ∷ s

-- `find_last_not_of(" \t")` and `erase`.
cons_key : ℕ → Bytes → Bytes
cons_key c [] = if is_blank c then [] else c ∷ []
cons_key c (x ∷ s) = c ∷ x ∷ s

trim_end : Bytes → Bytes
unfolding cons_key
trim_end [] = []
trim_end (c ∷ s) = cons_key c (trim_end s)

pub data Line : Type 0 where
  skipped malformed : Line
  entry : Bytes → Bytes → Line

split_entry : Option (Bytes × Bytes) → Line
unfolding trim_end
split_entry none = malformed
split_entry (some (k, v)) = entry (trim_end k) v

read_entry : Bytes → Line
unfolding split_entry
read_entry [] = skipped
read_entry (c ∷ s) = if c == b'#' then skipped else split_entry (cut_at b'=' (c ∷ s))

parse_line : Bytes → Line
unfolding read_entry drop_blank
parse_line l = read_entry (drop_blank (chomp l))

set_pct : WorkerConfig → Option ℤ → Option WorkerConfig
set_pct cfg none = none
set_pct cfg (some pct) = some (record cfg { vram_headroom_pct = some pct })

-- Unknown keys are ignored.
set_entry : Bytes → Bytes → WorkerConfig → Option WorkerConfig
unfolding set_pct from_chars
set_entry key value cfg =
    if text_eq key (text "name")
    then some (record cfg { name = some value })
    else if text_eq key (text "models_dir")
    then some (record cfg { models_dir = some value })
    else if text_eq key (text "gpu_backend")
    then some (record cfg { gpu_backend = some value })
    else if text_eq key (text "log_level")
    then some (record cfg { log_level = some value })
    else if text_eq key (text "log_file")
    then some (record cfg { log_file = some value })
    else if text_eq key (text "vram_headroom_pct")
    then set_pct cfg (from_chars value)
    else some cfg

apply_line : Line → WorkerConfig → Option WorkerConfig
unfolding set_entry
apply_line skipped cfg = some cfg
apply_line malformed cfg = none
apply_line (entry key value) cfg = set_entry key value cfg

and_then : Option WorkerConfig → (WorkerConfig → Option WorkerConfig) → Option WorkerConfig
and_then none f = none
and_then (some cfg) f = f cfg

-- The loop over the lines; the first line that cannot be read ends it.
read_lines : List Bytes → WorkerConfig → Option WorkerConfig
read_lines [] cfg = some cfg
read_lines (l ∷ ls) cfg = and_then (apply_line (parse_line l) cfg) (read_lines ls)

pub parse_config : Bytes → Option WorkerConfig
unfolding read_lines
parse_config body = read_lines (lines body) unset

parse_file : Option Bytes → Option WorkerConfig
unfolding parse_config
parse_file none = some unset
parse_file (some body) = parse_config body

-- Only set fields are written, each as a line before `rest`.
field : Bytes → Option Bytes → Bytes → Bytes
field key none rest = rest
field key (some value) rest = key ++ (b'=' ∷ (value ++ (b'\n' ∷ rest)))

shown : Option ℤ → Option Bytes
unfolding show_int
shown none = none
shown (some n) = some (show_int n)

fields : WorkerConfig → Bytes
unfolding field shown
fields cfg = field (text "name") cfg.name (
    field (text "models_dir") cfg.models_dir (
      field (text "gpu_backend") cfg.gpu_backend (
        field (text "log_level") cfg.log_level (
          field (text "log_file") cfg.log_file
            (field (text "vram_headroom_pct") (shown cfg.vram_headroom_pct) [])))))

comment : Bytes → Bytes → Bytes
comment s rest = s ++ (b'\n' ∷ rest)

-- The dash is three bytes of UTF-8.
title : Bytes
title =
    text "# mass-worker-llama-cpp configuration "
    ++ ((226 ∷ 128 ∷ 148 ∷ []) ++ text " local policy for this machine.")

format_note : Bytes
format_note = text "# Flat key=value (not YAML). Connection settings (server URL, token,"

secrets_note : Bytes
secrets_note = text "# CA) live in the credentials file, not this one. Edit by hand or"

setup_note : Bytes
setup_note = text "# re-run the installer (mass-worker-setup)."

render : WorkerConfig → Bytes
unfolding comment fields
render cfg =
    comment title (comment format_note (comment secrets_note (comment setup_note (fields cfg))))

unfoldable pub config_path : Bytes → Bytes
config_path data_dir = join data_dir (text "config.conf")

module _ (d : Disk) where
  pub load_config : Bytes → d.W → Option WorkerConfig
  unfolding parse_file
  load_config data_dir w = parse_file (d.content (config_path data_dir) w)

  saved : Bytes → WorkerConfig → Bool × d.W → Bool × d.W
  unfolding render
  saved data_dir cfg (false, w) = (false, w)
  saved data_dir cfg (true, w) = write_private_file d (config_path data_dir) (render cfg) w

  pub save_config : Bytes → WorkerConfig → d.W → Bool × d.W
  unfolding saved
  save_config data_dir cfg w = saved data_dir cfg (d.create_directories data_dir w)
