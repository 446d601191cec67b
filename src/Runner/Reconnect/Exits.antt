-- ===== src/Runner/Reconnect/Exits.antt =====
-- Why the loop ends, and how long it waits.
use mass_worker_llama_cpp.Prelude.{
  ℕ, zero, suc, Bool, true, false, ◌||◌, List, [], ◌∷◌, Option, none, some, get_elem?, ◌≡◌, refl,
  arith, length,
}
use mass_worker_llama_cpp.Prelude.Int.{ℤ}
use mass_worker_llama_cpp.Prelude.Double.{Double}
use mass_worker_llama_cpp.Service.State.{Service, shutdown, request_stop}
use mass_worker_llama_cpp.Runner.Reconnect.{
  Pass, exit_ok, exit_fatal, Outcome, exit_with, wait, end_pass, run,
}

-- No model is left, and the work that is going on is told to stop.
pub record IsShut (s : Service) : Type 0 where
  pub stopping : s.stopping ≡ true
  pub no_chat : s.chat_models ≡ []
  pub no_embed : s.embed_models ≡ []
  pub no_files : s.model_files ≡ []

shutdown-IsShut : (s : Service) → IsShut (shutdown s)
unfolding shutdown request_stop
shutdown-IsShut s = record { stopping = refl; no_chat = refl; no_embed = refl; no_files = refl }

module _ {F : Type 0} where
  -- The pass that ends the loop.
  pub data Ends : ℕ → Pass F → Type 0 where
    stopped : {p : Pass F} → (p.stop_before || p.stop_after) ≡ true → Ends exit_ok p
    fatal :
        {p : Pass F}
        → (p.stop_before || p.stop_after) ≡ false
        → p.result.retryable ≡ false
        → Ends exit_fatal p

  -- A pass after which the loop goes on: no stop was asked for, and the session can be retried.
  pub record GoesOn (p : Pass F) : Type 0 where
    pub no_stop : (p.stop_before || p.stop_after) ≡ false
    pub can_retry : p.result.retryable ≡ true

  -- The loop goes on after each of the first passes, so many of them.
  abbrev pub GoOn : ℕ → List (Pass F) → Type 0
  GoOn zero ps = Unit {0}
  GoOn (suc n) [] = ⊥
  GoOn (suc n) (p ∷ ps) = GoesOn p × GoOn n ps

  -- The code, if any, is that of a pass, and the service is shut down; the loop went on after the
  -- passes before it, or after all passes, and waited once for each of them.
  abbrev pub Explained : List (Pass F) → Option ℕ → Service → List ℤ → Type 0
  Explained ps none s ds = (length ds ≡ length ps) × GoOn (length ps) ps
  Explained ps (some code) s ds =
      (p : Pass F) × (get_elem? ps (length ds) ≡ some p)
      × GoOn (length ds) ps
      × Ends code p
      × IsShut s

  later :
      (p : Pass F) (ps : List (Pass F)) (c : Option ℕ) (s : Service) (d : ℤ) (ds : List ℤ)
      → GoesOn p
      → Explained ps c s ds
      → Explained (p ∷ ps) c s (d ∷ ds)
  later p ps none s d ds g (e, h) = (omega arith, (g, h))
  later p ps (some code) s d ds g (q, at, h, e, u) = (q, at, (g, h), e, u)

  end_pass-Explained :
      (p : Pass F) (ps : List (Pass F)) (x y z : Bool) (s : Service) (d : ℤ) (rest : Outcome)
      → p.stop_before ≡ x
      → p.stop_after ≡ y
      → p.result.retryable ≡ z
      → Explained ps rest.code rest.left rest.delays
      → let o = end_pass x y z s p.service d rest in Explained (p ∷ ps) o.code o.left o.delays
  unfolding end_pass exit_with wait
  end_pass-Explained p ps true y z s d rest e f g h =
      (p, refl, tt, stopped (ground arith), shutdown-IsShut s)
  end_pass-Explained p ps false true z s d rest e f g h =
      (p, refl, tt, stopped (ground arith), shutdown-IsShut p.service)
  end_pass-Explained p ps false false true s d rest e f g h =
      later p ps rest.code rest.left d rest.delays
        (record { no_stop = ground arith; can_retry = g }) h
  end_pass-Explained p ps false false false s d rest e f g h =
      (p, refl, tt, fatal (ground arith) g, shutdown-IsShut p.service)

module _ (d : Double) (base cap : ℕ) where
  -- The loop exits with 0 only at a pass that sees a stop, and with the fatal code 3, on which the
  -- system does not restart the worker, only at one whose session cannot be retried, with no stop
  -- asked for. Either way it is the first pass with a stop or a session that cannot be retried, each
  -- pass before it waited once, and the service has been shut down. With no such pass among those
  -- given, the loop has not exited and has waited once for each.
  pub run-Explained :
      (ps : List (Pass d.F)) (s : Service) (failures : ℕ)
      → let o = run d base cap ps s failures in Explained ps o.code o.left o.delays
  unfolding run
  run-Explained [] s failures = (refl, tt)
  run-Explained (p ∷ ps) s failures =
      end_pass-Explained p ps p.stop_before p.stop_after p.result.retryable s _ _ refl refl refl
        (run-Explained ps p.service _)
