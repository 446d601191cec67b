-- ===== src/Runner/Reconnect/Tests.antt =====
-- The loop on a failed session and a fatal one.
use mass_worker_llama_cpp.Prelude.{ℕ, true, false, [], ◌∷◌}
use mass_worker_llama_cpp.Tests.{whole, service}
use mass_worker_llama_cpp.Runner.Reconnect.{Pass, run}
use mass_worker_llama_cpp.Runner.Reconnect.Exits.{Explained, run-Explained}

abbrev dropped : Pass ℕ
dropped = record {
  stop_before = false;
  result = record {
    retryable = true;
    reached_working_state = true;
    lifetime = 40000;
    saw_inbound_message = false;
  };
  service = service;
  stop_after = false;
  jitter = 0;
}

abbrev rejected : Pass ℕ
rejected = record {
  stop_before = false;
  result = record {
    retryable = false;
    reached_working_state = false;
    lifetime = 0;
    saw_inbound_message = false;
  };
  service = service;
  stop_after = false;
  jitter = 0;
}

run-Explained_example :
    let o = run whole 1000 60000 (dropped ∷ rejected ∷ []) service 0 in
    Explained (dropped ∷ rejected ∷ []) o.code o.left o.delays
run-Explained_example = run-Explained whole 1000 60000 (dropped ∷ rejected ∷ []) service 0
