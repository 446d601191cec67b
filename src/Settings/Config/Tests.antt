-- ===== src/Settings/Config/Tests.antt =====
-- A configuration of three fields, two of them unset.
use mass_worker_llama_cpp.Prelude.{[], none, some, text, text_eq, any, ◌≡◌, refl, arith}
use mass_worker_llama_cpp.Prelude.Int.{ℤ, pos, negsuc}
use mass_worker_llama_cpp.Prelude.Lines.{lines, chomp, cut_at, pop_back, ends_in}
use mass_worker_llama_cpp.Settings.Tests.{memory, memory-Laws}
use mass_worker_llama_cpp.Prelude.Map.{lookup, assign}
use mass_worker_llama_cpp.Prelude.Decimal.{stoi}
use mass_worker_llama_cpp.Settings.Files.{write_private_file, join}
use mass_worker_llama_cpp.Settings.Config.{
  and_then, apply_line, parse_line, config_path, WorkerConfig, unset, load_config, save_config,
  parse_config,
}
use mass_worker_llama_cpp.Settings.Config.Refused.{is_none, bad_line, parse_config-any}
use mass_worker_llama_cpp.Settings.Config.RoundTrip.{Keeps, IsInt, load_config-save_config}

abbrev local : WorkerConfig
local = record unset { name = some (text "alpha"); vram_headroom_pct = some (pos 75) }

local_pct : (n : ℤ) → local.vram_headroom_pct ≡ some n → IsInt n
local_pct (pos n) e = (ground arith, omega arith)
local_pct (negsuc n) e = cc

local-Keeps : Keeps local
unfolding text ends_in
local-Keeps = record {
  name = refl;
  models_dir = refl;
  gpu_backend = refl;
  log_level = refl;
  log_file = refl;
  pct = local_pct;
}

load_config-save_config_example :
    load_config memory (text "data") (save_config memory (text "data") local []).1 ≡ some local
unfolding save_config write_private_file lookup assign text_eq config_path join
load_config-save_config_example =
    load_config-save_config memory memory-Laws (text "data") local [] local-Keeps refl

parse_config-any_example :
    is_none (parse_config (text "name=a\r\n\nbad\n"))
    ≡ any bad_line (lines (text "name=a\r\n\nbad\n"))
parse_config-any_example = parse_config-any (text "name=a\r\n\nbad\n")

refused_test : parse_config (text "name=a\r\n\nbad\n") ≡ none
unfolding parse_config lines text chomp ends_in pop_back cut_at text_eq and_then apply_line
    parse_line
refused_test = refl

-- What stands behind the digits of a percentage is not looked at.
trailing_test :
    parse_config (text "vram_headroom_pct=75abc\n")
    ≡ some (record unset { vram_headroom_pct = some (pos 75) })
unfolding parse_config lines text chomp ends_in pop_back cut_at text_eq and_then apply_line
    parse_line stoi
trailing_test = refl
