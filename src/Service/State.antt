-- ===== src/Service/State.antt =====
-- The state of `WorkerService`, and the wire messages as far as src/worker_service.cpp reads and
-- writes them. A loaded model is opaque but for what the dispatcher asks of it.
use mass_worker_llama_cpp.Prelude.{ℕ, Bool, true, false, not, ◌||◌, List, [], none, Bytes}
use mass_worker_llama_cpp.Prelude.Map.{Dict}
use mass_worker_llama_cpp.Service.Placement.{Enabled}

-- `ChatModel` and `EmbeddingModel`: an identity, and the answers of `pool_size`, `device_ids` and
-- `backing_paths`.
pub record Model : Type 0 where
  pub handle : ℕ
  pub pool_size : ℕ
  pub device_ids : List Bytes
  pub backing_paths : List Bytes

pub record Service : Type 0 where
  pub vram_headroom_pct : ℕ
  pub device_lost : Bool
  pub stopping : Bool
  pub session_open : Bool
  pub chat_models : Dict Model
  pub embed_models : Dict Model
  pub model_files : Dict (List Bytes)
  pub active_per_model : Dict ℕ
  pub active_total : ℕ
  pub enabled_devices : Enabled
  pub cancel_requested : Dict ℕ

-- `abandoned()`: nothing can receive the result of the work any more.
unfoldable pub abandoned : Service → Bool
abandoned s = s.stopping || not s.session_open

unfoldable pub request_stop : Service → Service
request_stop s = record s { stopping = true }

unfoldable pub begin_session : Service → Service
begin_session s = record s { session_open = true }

unfoldable pub end_session : Service → Service
end_session s = record s { session_open = false }

unfoldable pub shutdown : Service → Service
unfolding request_stop
shutdown s = record (request_stop s) { chat_models = []; embed_models = []; model_files = [] }

-- A service as the constructor leaves it.
unfoldable pub init : ℕ → Service
init headroom = record {
  vram_headroom_pct = headroom;
  device_lost = false;
  stopping = false;
  session_open = true;
  chat_models = [];
  embed_models = [];
  model_files = [];
  active_per_model = [];
  active_total = 0;
  enabled_devices = none;
  cancel_requested = [];
}
