-- ===== src/Service/Jobs/Batches.antt =====
-- `run_item` of the two batch jobs in src/worker_service.cpp: the guard of each item, on the threads
-- of `run_batch_items`.
pub mod Guards
use mass_worker_llama_cpp.Prelude.{
  ℕ, zero, suc, Bool, true, false, List, [], ◌∷◌, Option, none, some, Bytes, text, get_elem?,
}
use mass_worker_llama_cpp.Service.State.{Service}
use mass_worker_llama_cpp.Service.Active.{enter, leave}
use mass_worker_llama_cpp.BatchRunner.{
  Result, fail, Phase, testing, claiming, running, failing, stopping, done, Batch, start, step,
}
use mass_worker_llama_cpp.Service.Jobs.Chat.{WireMessage, ChatMessage, to_chat_request}
use mass_worker_llama_cpp.BatchRunner.Outcome.{measure}

-- The item of an input; the index is always that of one.
pub embed_item :
    (ℕ → Bytes → Bool → Result Bytes Bytes) → List Bytes → ℕ → Bool → Result Bytes Bytes
embed_item run inputs i saw = elim (get_elem? inputs i) [
  | none ↦ fail []
  | some input ↦ run i input saw
]

requested :
    (List ChatMessage → Bool → Result Bytes Bytes)
    → Option (List ChatMessage)
    → Bool
    → Result Bytes Bytes
requested run none saw = fail (text "unrecognized content part variant")
requested run (some request) saw = run request saw

pub chat_item :
    (ℕ → List ChatMessage → Bool → Result Bytes Bytes)
    → List (List WireMessage)
    → ℕ
    → Bool
    → Result Bytes Bytes
chat_item run items i saw = elim (get_elem? items i) [
  | none ↦ fail []
  | some item ↦ requested (run i) (to_chat_request item) saw
]

is_request : Option (List ChatMessage) → Bool
is_request none = false
is_request (some request) = true

-- Whether the item gets as far as its guard, behind `to_chat_request`.
pub opens_chat : List (List WireMessage) → ℕ → Bool
opens_chat items i = elim (get_elem? items i) [
  | none ↦ false
  | some item ↦ is_request (to_chat_request item)
]

-- What happens while a batch runs: a step of one of its threads, with whether the item has seen the
-- abort, or what the other threads of the worker do to the service.
pub data Move : Type 0 where
  moves : ℕ → Bool → Move
  meanwhile : (Service → Service) → Move

-- Whether a thread is in an item that has its guard; `opens` are the items that get that far.
pub holds_guard : (ℕ → Bool) → Option (Phase Bytes) → Bool
holds_guard opens (some (running i)) = opens i
holds_guard opens (some testing) = false
holds_guard opens (some claiming) = false
holds_guard opens (some (failing i e)) = false
holds_guard opens (some stopping) = false
holds_guard opens (some done) = false
holds_guard opens none = false

-- The constructor and the destructor of the item's guard.
pub turn : Bytes → Bool → Bool → Service → Service
turn mid false true s = enter mid s
turn mid true false s = leave mid s
turn mid false false s = s
turn mid true true s = s

-- The first thread that has not returned.
pub first_live : List (Phase Bytes) → Option ℕ
first_live [] = none
first_live (done ∷ ps) = elim (first_live ps) [ none ↦ none | some i ↦ some (suc i) ]
first_live (testing ∷ ps) = some 0
first_live (claiming ∷ ps) = some 0
first_live (running i ∷ ps) = some 0
first_live (failing i e ∷ ps) = some 0
first_live (stopping ∷ ps) = some 0

module _ (mid : Bytes) (n : ℕ) (opens : ℕ → Bool) (item : ℕ → Bool → Result Bytes Bytes) where
  pub batch_move : Move → Batch Bytes Bytes × Service → Batch Bytes Bytes × Service
  batch_move (meanwhile f) (b, s) = (b, f s)
  batch_move (moves w saw) (b, s) =
      let after = step n item b (w, saw) in
      (
        after,
        turn mid (holds_guard opens (get_elem? b.threads w))
            (holds_guard opens (get_elem? after.threads w)) s,
      )

  pub batch_run : List Move → Batch Bytes Bytes × Service → Batch Bytes Bytes × Service
  batch_run [] r = r
  batch_run (m ∷ ms) r = batch_run ms (batch_move m r)

  -- The threads that are left move until they return, which is the join; on fuel.
  pub join : ℕ → Batch Bytes Bytes × Service → Batch Bytes Bytes × Service
  join zero r = r
  join (suc k) r = elim (first_live r.0.threads) [
    | none ↦ r
    | some i ↦ join k (batch_move (moves i false) r)
  ]

  -- `run_batch_items`, for a schedule of what happens before the join; the fuel is the measure of
  -- the steps that are left.
  pub run_items : List Move → ℕ → Service → Batch Bytes Bytes × Service
  run_items schedule max_concurrency s =
      let r = batch_run schedule (start n max_concurrency, s) in join (suc (measure n r.0)) r
