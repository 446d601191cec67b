-- ===== src/BatchRunner/Tests.antt =====
-- The theorems on batches at two items on two threads, the first of which is cancelled by the abort
-- that the failure of the second brings.
use mass_worker_llama_cpp.Prelude.{
  ℕ, zero, suc, ◌<◌, Bool, true, false, List, [], ◌∷◌, none, Bytes, text, refl, arith,
}
use mass_worker_llama_cpp.BatchRunner.{
  Result, ok, fail, running, Batch, start, keep_first, settle, advance, step, run, result,
}
use mass_worker_llama_cpp.BatchRunner.Invariant.{Inv}
use mass_worker_llama_cpp.BatchRunner.Steps.{run-start-Inv}
use mass_worker_llama_cpp.BatchRunner.Outcome.{
  Returned, Correct, run-Correct, measure, step-measure,
}

-- Item 0 takes the abort for its own failure, item 1 fails.
abbrev item : ℕ → Bool → Result ℕ Bytes
item zero true = fail (text "cancelled")
item zero false = ok 10
item (suc i) saw = fail (text "out of memory")

abbrev schedule : List (ℕ × Bool)
schedule =
    (0, false)
    ∷ (0, false)
    ∷ (1, false)
    ∷ (1, false)
    ∷ (1, false)
    ∷ (1, false)
    ∷ (1, false)
    ∷ (0, true)
    ∷ (0, false)
    ∷ (0, false)
    ∷ (0, false)
    ∷ (1, false)
    ∷ []

all-Returned : Returned (run 2 item (start 2 2) schedule)
unfolding run step advance settle keep_first start
all-Returned zero q at = ground arith
all-Returned (suc zero) q at = ground arith
all-Returned (suc (suc w)) q at = cc

run-Correct_example : Correct 2 item (result (run 2 item (start 2 2) schedule))
run-Correct_example = run-Correct 2 item 2 schedule all-Returned

run-start-Inv_example : Inv 2 item (run 2 item (start 2 2) schedule)
run-start-Inv_example = run-start-Inv 2 item 2 schedule

abbrev halfway : Batch ℕ Bytes
halfway = record {
  next = 2;
  abort = false;
  slots = none ∷ none ∷ [];
  first_error = none;
  threads = running 0 ∷ running 1 ∷ [];
  claimed = 0 ∷ 1 ∷ [];
}

step-measure_example : measure 2 (step 2 item halfway (1, false)) < measure 2 halfway
step-measure_example = step-measure 2 item halfway 1 false (running 1) refl (λ e. cc)
