-- ===== src/CtxPool/Tests.antt =====
-- The theorems on the growth of a pool at a small machine.
use mass_worker_llama_cpp.Prelude.{
  ℕ, suc, ◌*◌, List, [], ◌∷◌, some, true, ◌≡◌, refl, ◌⊎◌, get_elem?,
}
use mass_worker_llama_cpp.Prelude.Int.{ℤ, pos, ◌≤ℤ◌, ◌+ℤ◌}
use mass_worker_llama_cpp.Prelude.Double.{Le}
use mass_worker_llama_cpp.Tests.{whole, whole-Laws}
use mass_worker_llama_cpp.CtxPool.{
  DevMemSnap, Stop, CtxPoolHeadroom, projected, beats, predict_device, predict_from, predict,
  allocated, Machine, grow_ctx_pool, probe_model_bench,
}
use mass_worker_llama_cpp.CtxPool.Headroom.{IsGate, gates, predict-IsTightest}
use mass_worker_llama_cpp.CtxPool.Growth.{
  Sized, limit, first_alloc, grow_ctx_pool-Sized, probe_model_bench-priced,
}

-- A device of 10 bytes, of which each context takes 3.
abbrev small : Machine
small = record {
  M = ℕ;
  snapshot = λ m. (m, record { used = pos (3 * m); total = pos 10 } ∷ []);
  try_alloc = λ m. (suc m, allocated);
  calibrate = λ m. (m, some 5);
  free = λ m. m;
}

-- Two devices, each of which has grown by 3; the second would be full.
abbrev headroom : CtxPoolHeadroom whole
headroom = record { threshold = 1; prev = []; worst_slot_delta = pos 3 ∷ pos 3 ∷ [] }

abbrev loaded : List DevMemSnap
loaded = record { used = pos 2; total = pos 10 } ∷ record { used = pos 7; total = pos 10 } ∷ []

abbrev relaxed : CtxPoolHeadroom whole
relaxed = record { threshold = 2; prev = []; worst_slot_delta = pos 3 ∷ pos 3 ∷ [] }

abbrev stop : Stop whole
stop = record { device = 1; ratio = 1; delta = pos 3 }

predict-IsTightest_example :
    IsGate whole 1 loaded (pos 3 ∷ pos 3 ∷ []) 0 stop
    × ((j : ℕ) (s : DevMemSnap) (w : ℤ)
        → get_elem? loaded j ≡ some s
        → get_elem? headroom.worst_slot_delta j ≡ some w
        → gates whole 1 s w ≡ true
        → Le whole (projected whole s w) 1)
unfolding predict predict_from predict_device beats projected ◌+ℤ◌
predict-IsTightest_example = predict-IsTightest whole whole-Laws headroom loaded stop refl

grow_ctx_pool-Sized_example :
    Sized whole small
      (limit (pos 0) (small.snapshot 0).1)
      (first_alloc whole small (pos 0) (small.snapshot 0))
      (grow_ctx_pool whole small (pos 0) 75 0).1
grow_ctx_pool-Sized_example = grow_ctx_pool-Sized whole small (pos 0) 75 0

probe_model_bench-priced_example :
    let p = (probe_model_bench small [] 1).1 in
    (pos 0 ≤ℤ p.base_bytes)
    × (pos 0 ≤ℤ p.per_slot_bytes)
    × (((small.try_alloc 1).1 ≡ allocated) ⊎ (p.per_slot_bytes ≡ p.base_bytes))
probe_model_bench-priced_example = probe_model_bench-priced small [] 1
