-- ===== src/Tests.antt =====
-- The data of the examples: a machine with one GPU, a small model, and a world that answers at once.
mod Services
mod Delays
use native.Mathlib.Nat.{pow-le-pow_right, mul-le-mul_left, mul-le-mul_right}
use mass_worker_llama_cpp.Prelude.Double.{Double, Laws}
use mass_worker_llama_cpp.Prelude.{
  if◌then◌else◌, ◌==◌, Bool, ltb, ◌≤◌, ◌≡◌, ◌+◌, ◌*◌, ◌/◌, ◌^◌, refl, arith, ℕ, zero, suc, List, [],
  ◌∷◌, Option, none, some, true, false, Bytes, text,
}
use mass_worker_llama_cpp.Prelude.Int.{ℤ, pos, negsuc, pos_part, ◌≤ℤ◌}
use mass_worker_llama_cpp.Service.State.{Model, Service}
use mass_worker_llama_cpp.Service.Placement.{cpu, gpu}
use mass_worker_llama_cpp.Service.Errors.{load_failed}
use mass_worker_llama_cpp.Service.Messages.{
  ModelFile, primary, LoadRequest, BenchRequest, BenchProbe,
}
use mass_worker_llama_cpp.Service.Load.Config.{LoadHints, chat, default_type}
use mass_worker_llama_cpp.Service.Load.{Host, fetched, loaded, failed, load_threw}
use mass_worker_llama_cpp.Service.Jobs
use mass_worker_llama_cpp.Service.Jobs.{Engine, Job, answer, raised}
use mass_worker_llama_cpp.Service.Jobs.Batches.{moves, meanwhile}
use mass_worker_llama_cpp.BatchRunner.{ok, fail}
use mass_worker_llama_cpp.Service.Jobs.Chat.{WireMessage, user}
use mass_worker_llama_cpp.Service.Bench.{Meter, unmeasured}
use mass_worker_llama_cpp.Service.Execute.{World}

abbrev pub model : Model
model = record {
  handle = 1;
  pool_size = 2;
  device_ids = text "gpu:0" ∷ [];
  backing_paths = text "/models/a.gguf" ∷ [];
}

abbrev pub file : ModelFile
file = record {
  filename = text "a.gguf";
  url = text "https://x/a.gguf";
  sha256 = [];
  local_path = [];
  role = primary;
  headers = [];
}

abbrev pub request : LoadRequest
request = record {
  job_id = text "j1";
  model_id = text "a";
  load_hints = text "h";
  files = file ∷ [];
  max_concurrent = pos 2;
}

abbrev pub bench_request : BenchRequest
bench_request = record {
  model_id = text "a";
  load_hints = text "h";
  files = file ∷ [];
  payload = text "p";
}

abbrev pub hints : LoadHints
hints = record {
  kind = chat;
  context_size = pos 4096;
  batch_size = none;
  gpu_layers = none;
  threads = none;
  max_concurrent = some (pos 1);
  vram_headroom_pct = none;
  thinking = false;
  chat_template = [];
  flash_attn = some true;
  cache_type = default_type;
}

-- The chat loader works, the embedding loader has no memory left.
abbrev pub host : Host
host = record {
  backend = some (0, cpu) ∷ some (1, gpu) ∷ [];
  parse_hints = λ b. some hints;
  fetch_all = λ files s. (s, fetched ((0, text "/models/a.gguf") ∷ []));
  load_chat = λ cfg s. (s, loaded model);
  load_embed = λ cfg s. (s, failed (record { code = load_failed; message = text "bad_alloc" }));
}

-- A chat ends in an exception of the device.
abbrev pub greeting : WireMessage
greeting = record { role = user; content = text "hi"; parts = [] }

-- An empty payload is a batch of two chats, any other one chat.
abbrev pub decoded : Bytes → Job
decoded [] = Jobs.batch_chat ((greeting ∷ []) ∷ (greeting ∷ []) ∷ [])
decoded (c ∷ s) = Jobs.chat (greeting ∷ []) false

abbrev pub engine : Engine
engine = record {
  parse_job = λ b. some (decoded b);
  complete = λ m ms stream s. (s, raised (text "vk::DeviceLostError: ErrorDeviceLost"));
  embed_one = λ m input s. (s, answer (text "e"));
  embed_one_item = λ m i input saw. ok (text "e");
  complete_item = λ m i request saw. if i == 1 then fail (text "template") else ok (text "c");
  schedule = λ n threads s. moves 0 false ∷ meanwhile (λ t. t) ∷ moves 1 false ∷ [];
  encode_batch = λ vs. text "es";
  tokens = λ m input. answer (text "t");
}

abbrev pub meter : Meter
meter = record {
  devices = text "gpu:0" ∷ [];
  bench_one = λ id s. (s, unmeasured (text "busy"));
  probe = λ m s. (s, record { graph_secs = 3; base_bytes = pos 100; per_slot_bytes = pos 10 });
  job_id = text "bench-1";
  elapsed = 12;
}

abbrev pub world : World
world = record { host = host; engine = engine; meter = meter; now = 5 }

-- One chat model is loaded, and no job runs.
abbrev pub service : Service
service = record {
  vram_headroom_pct = 10;
  device_lost = false;
  stopping = false;
  session_open = true;
  chat_models = (text "b", model) ∷ [];
  embed_models = [];
  model_files = (text "b", text "b.gguf" ∷ []) ∷ [];
  active_per_model = [];
  active_total = 0;
  enabled_devices = some (text "gpu:0" ∷ []);
  cancel_requested = (text "j0", 1) ∷ [];
}

-- Numbers that are not negative, with no fractions: a quarter is 0.
abbrev pub whole : Double
whole = record {
  F = ℕ;
  lt = ltb;
  of_ℤ = pos_part;
  add = λ a b. a + b;
  mul = λ a b. a * b;
  div = λ a b. a / b;
  exp2 = λ n. 2 ^ n;
  trunc = pos;
  quarter = 0;
  minus_quarter = 0;
}

le-ltb : (a b : ℕ) → a ≤ b → ltb b a ≡ false
le-ltb a b h = ground arith

ltb-le : (a b : ℕ) → ltb b a ≡ false → a ≤ b
ltb-le a b h = ground arith

of_ℤ_mono : (a b : ℤ) → a ≤ℤ b → ltb (pos_part b) (pos_part a) ≡ false
of_ℤ_mono (pos a) (pos b) h = le-ltb (pos_part (pos a)) (pos_part (pos b)) (omega arith)
of_ℤ_mono (pos a) (negsuc b) h = le-ltb (pos_part (pos a)) (pos_part (negsuc b)) (omega arith)
of_ℤ_mono (negsuc a) (pos b) h = le-ltb (pos_part (negsuc a)) (pos_part (pos b)) (omega arith)
of_ℤ_mono (negsuc a) (negsuc b) h = le-ltb (pos_part (negsuc a)) (pos_part (negsuc b)) (omega arith)

pub whole-Laws : Laws whole
whole-Laws = record {
  irrefl = λ a. ground arith;
  asym = λ a b h. ground arith;
  trans = λ a b c h k. ground arith;
  of_ℤ_mono = of_ℤ_mono;
  exp2_mono = λ m n h. le-ltb _ _ (pow-le-pow_right (omega arith) h);
  exp2_nonneg = λ n. ground arith;
  add_mono = λ a b c h. ground arith;
  mul_mono = λ a b c h k. le-ltb _ _ (mul-le-mul_left a (ltb-le b c k));
  mul_mono_left = λ a b c h k. le-ltb _ _ (mul-le-mul_right c (ltb-le a b k));
  quarters = refl;
  shrink_nonneg = refl;
  trunc_mono = λ a b h. ground arith;
}
