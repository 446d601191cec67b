-- ===== src/Runner/Reconnect.antt =====
-- `Runner::run` of src/runner.cpp: sessions one after another until a stop or a fatal one. A session
-- itself is a parameter: it comes back with its result and the service as it left it.
pub mod Exits
mod Tests
use mass_worker_llama_cpp.Prelude.{
  ℕ, Bool, true, false, List, [], ◌∷◌, Option, none, some, if◌then◌else◌,
}
use mass_worker_llama_cpp.Prelude.Int.{ℤ}
use mass_worker_llama_cpp.Prelude.Double.{Double}
use mass_worker_llama_cpp.Service.State.{Service, shutdown}
use mass_worker_llama_cpp.Runner.Backoff.{next_failure_streak, reconnect_delay}

pub record SessionResult : Type 0 where
  pub retryable : Bool
  pub reached_working_state : Bool
  pub lifetime : ℕ
  pub saw_inbound_message : Bool

-- One pass of the loop: whether a stop is seen at its head and after the session.
pub record Pass (F : Type 0) : Type 0 where
  pub stop_before : Bool
  pub result : SessionResult
  pub service : Service
  pub stop_after : Bool
  pub jitter : F

abbrev pub exit_ok : ℕ
exit_ok = 0

abbrev pub exit_fatal : ℕ
exit_fatal = 3

-- The exit code, if the passes end in an exit, the service, and the delays that were waited.
pub record Outcome : Type 0 where
  pub code : Option ℕ
  pub left : Service
  pub delays : List ℤ

exit_with : ℕ → Service → Outcome
exit_with code s = record { code = some code; left = shutdown s; delays = [] }

wait : ℤ → Outcome → Outcome
wait delay o = record o { delays = delay ∷ o.delays }

-- The stop at the head, the stop after the session, and whether it can be retried.
end_pass : Bool → Bool → Bool → Service → Service → ℤ → Outcome → Outcome
unfolding exit_with wait
end_pass true after retryable s s' delay rest = exit_with exit_ok s
end_pass false true retryable s s' delay rest = exit_with exit_ok s'
end_pass false false true s s' delay rest = wait delay rest
end_pass false false false s s' delay rest = exit_with exit_fatal s'

module _ (d : Double) (base cap : ℕ) where
  -- With no pass left the loop goes on.
  pub run : List (Pass d.F) → Service → ℕ → Outcome
  unfolding end_pass
  run [] s failures = record { code = none; left = s; delays = [] }
  run (p ∷ ps) s failures =
      let r = p.result in
      let streak =
        next_failure_streak failures r.reached_working_state r.lifetime r.saw_inbound_message in
      end_pass p.stop_before p.stop_after r.retryable s p.service
        (reconnect_delay d base cap streak p.jitter) (run ps p.service streak)
