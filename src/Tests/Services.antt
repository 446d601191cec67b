-- ===== src/Tests/Services.antt =====
-- The theorems on src/worker_service.cpp at the example world.
use mass_worker_llama_cpp.Prelude.{
  length, ◌+◌, Bool, true, false, List, [], ◌∷◌, ◌++◌, map, Bytes, text, text_eq, ◌≡◌, refl, arith,
}
use mass_worker_llama_cpp.Prelude.Map.{lookup, contains}
use mass_worker_llama_cpp.Tests.{request, bench_request, host, engine, meter, world, service}
use mass_worker_llama_cpp.Service.State.{init}
use mass_worker_llama_cpp.Service.Active.{heartbeat, enter}
use mass_worker_llama_cpp.Service.Active.Guards.{
  Tracks, held_after, Event, enters, leaves, run, run-init-Tracks, enter-Tracks,
}
use mass_worker_llama_cpp.Service.Active.Capacity.{free_slots, facts, heartbeat-capacity}
use mass_worker_llama_cpp.Service.Messages.{assign_job, load_model}
use mass_worker_llama_cpp.Service.Execute.{execute, execute_impl}
use mass_worker_llama_cpp.Service.Execute.Frames.{Outcome, execute-Outcome}
use mass_worker_llama_cpp.Service.Execute.Lost.{execute-device_lost_of_throw}
use mass_worker_llama_cpp.Service.Load.{load, unload}
use mass_worker_llama_cpp.Service.Load.Tables.{InStep, Keeps, load-InStep}
use mass_worker_llama_cpp.Service.Load.Branches.{Answers, load-Answers, Unloaded, unload-Unloaded}
use mass_worker_llama_cpp.Service.Jobs.{assign, run_job, dispatch, guarded, chat_job, settle}
use mass_worker_llama_cpp.Service.Jobs.Chat.{to_chat_request, to_message, add_parts}
use mass_worker_llama_cpp.Service.Jobs.Replies.{IsAnswer, Balanced, assign-Tracks}
use mass_worker_llama_cpp.Service.Bench.{run_model_benchmark}
use mass_worker_llama_cpp.Service.Bench.Verdicts.{IsVerdict, run_model_benchmark-IsVerdict}
use mass_worker_llama_cpp.Service.Errors.{
  mentions_device_loss, lowercased, to_lower, finds, is_prefix,
}

execute-Outcome_example :
    Outcome
      (load_model request)
      (execute world (load_model request) service).0
      (execute world (load_model request) service).1
execute-Outcome_example = execute-Outcome world (load_model request) service

execute-device_lost_of_throw_example :
    (execute world (assign_job (text "j2") (text "b") (text "p")) service).0.device_lost ≡ true
unfolding execute_impl assign run_job dispatch guarded chat_job settle to_chat_request to_message
    add_parts lookup text text_eq mentions_device_loss lowercased to_lower finds is_prefix
execute-device_lost_of_throw_example =
    execute-device_lost_of_throw world (assign_job (text "j2") (text "b") (text "p")) service
      (text "vk::DeviceLostError: ErrorDeviceLost") refl refl refl

no_embed : Bytes → Bool
no_embed id = false

service-InStep : InStep no_embed service
unfolding contains no_embed
service-InStep = record {
  keyed = λ id. ground arith;
  chats = λ id h. refl;
  embeds = λ id h. ground arith;
}

host-Keeps : Keeps no_embed host
host-Keeps = record { fetch = λ files s h. h; chat_load = λ cfg s h. h; embed_load = λ cfg s h. h }

load-InStep_example : InStep no_embed (load host request service).0
unfolding no_embed
load-InStep_example =
    load-InStep no_embed host host-Keeps request service (λ hints e. ground arith) service-InStep

unload-Unloaded_example :
    Unloaded no_embed
      (text "j3")
      (text "b")
      service
      (unload (text "j3") (text "b") service).0
      (unload (text "j3") (text "b") service).1
unload-Unloaded_example = unload-Unloaded no_embed (text "j3") (text "b") service service-InStep

load-Answers_example : Answers request (load host request service).0 (load host request service).1
load-Answers_example = load-Answers host request service

service-Tracks : Tracks [] service
unfolding lookup
service-Tracks = record { each = λ id. refl; total = refl }

engine-Balanced : Balanced engine
engine-Balanced = record {
  complete = λ m ms stream held s t. t;
  embed_one = λ m input held s t. t;
  others = λ n threads s. (λ held u t. t, tt);
}

-- A batch of two chats, whose threads are joined with a guard each.
assign-Tracks_example :
    IsAnswer (text "j2") (assign engine (text "j2") (text "b") [] service).1
    × Tracks [] (assign engine (text "j2") (text "b") [] service).0
assign-Tracks_example =
    assign-Tracks engine engine-Balanced (text "j2") (text "b") [] [] service service-Tracks

-- Two jobs of one model and one of another, the first of which ends.
abbrev jobs : List Event
jobs = enters (text "a") ∷ enters (text "b") ∷ enters (text "a") ∷ leaves (text "a") ∷ []

run-init-Tracks_example : Tracks (held_after [] jobs) (run (init 10) jobs)
unfolding text text_eq
run-init-Tracks_example = run-init-Tracks 10 jobs (omega arith, tt)

-- A heartbeat while a job runs on the model a.
heartbeat-capacity_example :
    let s = enter (text "a") service in
    let held = text "a" ∷ [] in
    ((heartbeat s).loaded_models ≡ map (facts held s) (s.chat_models ++ s.embed_models))
    × ((heartbeat s).active_jobs ≡ length held)
    × ((heartbeat s).available_capacity
        ≡ free_slots held s.chat_models + free_slots held s.embed_models)
heartbeat-capacity_example =
    heartbeat-capacity (text "a" ∷ []) (enter (text "a") service)
      (enter-Tracks [] service (text "a") service-Tracks)

run_model_benchmark-IsVerdict_example :
    IsVerdict host engine meter bench_request service
      (run_model_benchmark host engine meter bench_request service)
run_model_benchmark-IsVerdict_example =
    run_model_benchmark-IsVerdict host engine meter bench_request service
