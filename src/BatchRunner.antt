-- ===== src/BatchRunner.antt =====
-- include/mass_worker/batch_runner.hpp: `run_batch_items`, the items of a batch on several threads.
-- A schedule picks a thread for each atomic step, and says whether the item that it is in has seen
-- the abort token, if that is set.
pub mod Invariant
pub mod Steps
pub mod Outcome
pub mod Threads
mod Tests
use mass_worker_llama_cpp.Prelude.{
  ℕ, ◌+◌, Bool, true, false, ◌&&◌, List, [], ◌∷◌, ◌++◌, Option, none, some, ltb, min, max,
  replicate, get_elem?, set, if◌then◌else◌,
}

-- What an item comes to; exceptions are folded into errors.
pub data Result (T E : Type 0) : Type 0 where
  ok : T → Result T E
  fail : E → Result T E

-- Where a thread is in its loop.
pub data Phase (E : Type 0) : Type 0 where
  testing : Phase E  -- at `abort.stop_requested()`
  claiming : Phase E  -- at `next.fetch_add(1)`
  running : ℕ → Phase E
  failing : ℕ → E → Phase E  -- at the lock, with the item's error
  stopping : Phase E  -- at `abort.request_stop()`
  done : Phase E

-- `claimed` only records which items have been started.
pub record Batch (T E : Type 0) : Type 0 where
  pub next : ℕ
  pub abort : Bool
  pub slots : List (Option T)
  pub first_error : Option (ℕ × E)
  pub threads : List (Phase E)
  pub claimed : List ℕ

keep_first : {E : Type 0} → Option (ℕ × E) → ℕ → E → Option (ℕ × E)
keep_first none i e = some (i, e)
keep_first (some p) i e = some p

module _ {T E : Type 0} where
  -- `min(max(max_concurrency, 1), n)` threads.
  pub start : ℕ → ℕ → Batch T E
  start n max_concurrency = record {
    next = 0;
    abort = false;
    slots = replicate n none;
    first_error = none;
    threads = replicate (min (max max_concurrency 1) n) testing;
    claimed = [];
  }

  settle : ℕ → ℕ → Result T E → Batch T E → Batch T E
  settle w i (ok v) b = record b {
    slots = set b.slots i (some v);
    threads = set b.threads w testing;
  }
  settle w i (fail e) b = record b { threads = set b.threads w (failing i e) }

module _ {T E : Type 0} (n : ℕ) (fn : ℕ → Bool → Result T E) where
  -- One atomic step of thread `w`.
  advance : ℕ → Bool → Option (Phase E) → Batch T E → Batch T E
  unfolding settle keep_first
  advance w saw none b = b
  advance w saw (some done) b = b
  advance w saw (some testing) b = record b {
    threads = set b.threads w (if b.abort then done else claiming);
  }
  advance w saw (some claiming) b =
      if ltb b.next n
      then record b {
        next = b.next + 1;
        claimed = b.claimed ++ (b.next ∷ []);
        threads = set b.threads w (running b.next);
      }
      else record b { next = b.next + 1; threads = set b.threads w done }
  advance w saw (some (running i)) b = settle w i (fn i (saw && b.abort)) b
  advance w saw (some (failing i e)) b = record b {
    first_error = keep_first b.first_error i e;
    threads = set b.threads w stopping;
  }
  advance w saw (some stopping) b = record b { abort = true; threads = set b.threads w testing }

  pub step : Batch T E → ℕ × Bool → Batch T E
  unfolding advance
  step b (w, saw) = advance w saw (get_elem? b.threads w) b

  pub run : Batch T E → List (ℕ × Bool) → Batch T E
  run b [] = b
  run b (e ∷ es) = run (step b e) es

-- The slots emptied in order; `none` is the read of an empty slot.
collect : {T : Type 0} → List (Option T) → Option (List T)
collect [] = some []
collect (none ∷ ss) = none
collect (some v ∷ ss) = elim (collect ss) [ none ↦ none | some vs ↦ some (v ∷ vs) ]

-- What the caller gets once the threads have joined.
pub data Out (T E : Type 0) : Type 0 where
  items : Option (List T) → Out T E
  item_error : ℕ → E → Out T E

module _ {T E : Type 0} where
  pub result : Batch T E → Out T E
  unfolding collect
  result b = elim b.first_error [ some (i, e) ↦ item_error i e | none ↦ items (collect b.slots) ]
