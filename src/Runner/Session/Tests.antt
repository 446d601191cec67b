-- ===== src/Runner/Session/Tests.antt =====
-- A job that is read behind a load of its model.
use mass_worker_llama_cpp.Prelude.{List, [], ◌∷◌, text, text_eq, ◌≡◌, refl}
use mass_worker_llama_cpp.Prelude.Int.{pos}
use mass_worker_llama_cpp.Prelude.Map.{lookup, assign, erase, contains}
use mass_worker_llama_cpp.Service.Messages.{LoadRequest, load_model, assign_job}
use mass_worker_llama_cpp.Runner.Session.{
  Move, receive, push, take, answer, release, gate, init, run, step, lower, read_control,
  answered_control, started, Job,
}

abbrev request : LoadRequest
request = record {
  job_id = text "l";
  model_id = text "m";
  load_hints = [];
  files = [];
  max_concurrent = pos 1;
}

abbrev job : Job
job = record { job_id = text "j"; model_id = text "m"; payload = [] }

abbrev schedule : List Move
schedule =
    receive (load_model request)
    ∷ push
    ∷ receive (assign_job (text "j") (text "m") [])
    ∷ gate 0
    ∷ take
    ∷ gate 0
    ∷ answer
    ∷ gate 0
    ∷ release
    ∷ gate 0
    ∷ []

-- The job waits until the load is answered and released.
gate_test :
    (run schedule init).log
    ≡ started job ∷ answered_control (load_model request) ∷ read_control (load_model request) ∷ []
unfolding run step text text_eq lookup assign erase contains lower
gate_test = refl
